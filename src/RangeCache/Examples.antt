-- ===== src/RangeCache/Examples.antt =====
-- range_cache.go: the theorem at a concrete input. All segments hold zeros, and the cache has
-- room for one more chunk.
use lsvd.Base.{
  ℕ, zero, suc, ◌+◌, ◌*◌, ◌-◌, ◌<◌, ◌≤◌, ◌≡◌, ◌∙◌, true, refl, List, [], ◌∷◌, ◌++◌, Option, some,
  none, arith, if◌then◌else◌, length, length-append,
}
use lsvd.Base.Outcome.{ok}
use lsvd.Base.Slices.{
  take, drop, get_elem?, get_elem?-append, get_elem?-take, get_elem?-drop, length-take, length-drop,
}
use lsvd.RangeData.{zeros}
use lsvd.RangeData.Views.{length-zeros}
use lsvd.RangeCache.{Chunks, RangeCache, RangeCacheKey, read_at}
use lsvd.RangeCache.Slots.{Content, IsChunks, IsCache, same_key, Wrote, Removed}
use lsvd.RangeCache.Reading.{Reads, read_at-Reads}

-- The chunk that was added last, beside 1023 others that nobody asks for.
abbrev Latest : Type 0
Latest = Option (RangeCacheKey × ℕ)

abbrev count : Latest → ℕ
count none = 1023
count (some x) = 1024

abbrev peek : Latest → RangeCacheKey → Option ℕ
peek none k = none
peek (some (j, off)) k = if same_key j k then some off else none

abbrev forget : Latest → Latest × Option (RangeCacheKey × ℕ)
forget none = (none, none)
forget (some x) = (none, some x)

abbrev write : List ℕ → ℕ → List ℕ → List ℕ
write old off bytes = take off old ++ (bytes ++ drop (off + length bytes) old)

abbrev memory_chunks : Chunks ℕ
memory_chunks = record {
  L = Latest;
  get = λ l k. (l, peek l k);
  len = count;
  remove_oldest = forget;
  add = λ l k off. some (k, off);
  seek_current = λ cursor. ok cursor;
  write_at = λ old off bytes. (write old off bytes, length bytes, none);
  fetch = λ seg off. ok (zeros 1048576);
  short_write = 0;
  misused = 1;
}

abbrev nothing_but_zeros : Content
nothing_but_zeros = λ seg p. some 0

get_elem?-zeros : (n i : ℕ) → i < n → get_elem? (zeros n) i ≡ some 0
unfolding zeros get_elem?
get_elem?-zeros zero i h = absurd (omega arith)
get_elem?-zeros (suc n) zero h = refl
get_elem?-zeros (suc n) (suc i) h = get_elem?-zeros n i (omega arith)

write-Wrote :
    (old : List ℕ) (off : ℕ) (bytes : List ℕ)
    → off ≤ length old
    → Wrote memory_chunks nothing_but_zeros old off bytes (write old off bytes, length bytes, none)
write-Wrote old off bytes h e =
    let front = length-take off old in
    let back = length-drop (off + length bytes) old in
    let sum = length-append (take off old) (bytes ++ drop (off + length bytes) old) in
    let sum' = length-append bytes (drop (off + length bytes) old) in
    (
      ground (arith, front, sum, sum'),
      ground (arith, front, back, sum, sum'),
      λ i. ground (
        arith,
        front,
        get_elem?-append (take off old) (bytes ++ drop (off + length bytes) old) i,
        get_elem?-append bytes (drop (off + length bytes) old) (i - off),
        get_elem?-take off old i,
        get_elem?-drop (off + length bytes) old (i - off - length bytes),
      ),
    )

forget-Removed : (l : Latest) → Removed memory_chunks nothing_but_zeros peek l (forget l)
forget-Removed none = tt
forget-Removed (some (k, off)) =
    let same : same_key k k ≡ true = ground arith in
    (rw same refl, omega arith, refl, λ j o h. absurd (cc h))

add-peek :
    (l : Latest) (k : RangeCacheKey) (off : ℕ) (j : RangeCacheKey)
    → count l < 1024
    → peek (some (k, off)) j ≡ (if same_key k j then some off else peek l j)
add-peek none k off j room = refl
add-peek (some x) k off j room = absurd (omega arith)

add-count : (l : Latest) (k : RangeCacheKey) (off : ℕ) → count l < 1024 → 1024 ≡ suc (count l)
add-count none k off room = refl
add-count (some x) k off room = absurd (omega arith)

memory_chunks-IsChunks : IsChunks memory_chunks nothing_but_zeros
memory_chunks-IsChunks = record {
  peek = peek;
  gets = λ l k. refl;
  keeps = λ l k j. refl;
  gets_len = λ l k. refl;
  removes = forget-Removed;
  adds = add-peek;
  adds_len = λ l k off room absent. add-count l k off room;
  told = λ cursor. refl;
  wrote = write-Wrote;
  fetched = λ seg off. (
    length-zeros 1048576,
    λ i v lt e. let start : 0 + i ≡ i = omega arith in rw start (get_elem?-zeros 1048576 i lt ∙ e),
  );
}

abbrev nearly_full : RangeCache Latest
nearly_full = record { lru = none; region = zeros (1023 * 1048576); cursor = 1023 * 1048576 }

nearly_full-IsCache : IsCache memory_chunks nothing_but_zeros memory_chunks-IsChunks nearly_full
unfolding memory_chunks-IsChunks
nearly_full-IsCache = record {
  slots = record {
    inside = λ k off h. absurd (cc h);
    held = λ k off h. absurd (cc h);
    apart = λ k j o p x y. absurd (cc x);
  };
  reaches = let size = length-zeros (1023 * 1048576) in omega (arith, size);
  below = λ k off h. absurd (cc h);
  counted = refl;
  few = omega arith;
}

-- The last byte of a chunk and the first of the next: the first is saved at the end of the file, the
-- second in the place of the oldest.
read_at-Reads_example :
    Reads memory_chunks nothing_but_zeros memory_chunks-IsChunks 7 1048575 2
      (read_at memory_chunks nearly_full 7 (1 ∷ 2 ∷ []) 1048575)
read_at-Reads_example =
    read_at-Reads memory_chunks nothing_but_zeros memory_chunks-IsChunks 7 1048575 nearly_full
      (1 ∷ 2 ∷ []) nearly_full-IsCache
