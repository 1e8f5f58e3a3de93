-- ===== src/RangeCache/Slots.antt =====
-- range_cache.go: the chunks that the cache keeps, each in a place of the file of its own.
use lsvd.Base.{
  ℕ, suc, ap, ◌∙◌, ◌+◌, ◌-◌, ◌*◌, ◌≤◌, ◌<◌, ◌≡◌, ◌⊎◌, inl, inr, Bool, true, false, ◌&&◌, List,
  Option, some, none, arith, ltb, leb, ◌==◌, if◌then◌else◌, length, Bool-cases, both_branches,
}
use lsvd.Base.Outcome.{Outcome, ok, err, panic}
use lsvd.Base.Slices.{get_elem?}
use lsvd.Location.{SegmentId}
use lsvd.RangeCache.{Chunks, RangeCache, RangeCacheKey, max_chunks, saved_at}

abbrev pub same_key : RangeCacheKey → RangeCacheKey → Bool
same_key (s, c) (t, d) = (s == t) && (c == d)

-- The bytes of the segments by their positions, none behind the end.
abbrev pub Content : Type 0
Content = SegmentId → ℕ → Option ℕ

-- These bytes begin with those of a segment from a position on, as far as it goes, for `n` places.
abbrev pub Copies : Content → SegmentId → ℕ → ℕ → ℕ → List ℕ → Type 0
Copies content seg off n from b =
    (i v : ℕ) → i < n → content seg (off + i) ≡ some v → get_elem? b (from + i) ≡ some v

module _ {E : Type 0} (K : Chunks E) (content : Content) where
  open K use {L, get, len, remove_oldest, add, seek_current, write_at, fetch}

  abbrev pub Removed : (L → RangeCacheKey → Option ℕ) → L → L × Option (RangeCacheKey × ℕ) → Type 0
  Removed peek l (l', none) = Unit {0}
  Removed peek l (l', some (k, off)) =
      (peek l k ≡ some off)
      × (len l' < max_chunks)
      × (len l ≡ suc (len l'))
      × ((j : RangeCacheKey) (o : ℕ)
          → peek l' j ≡ some o
          → (peek l j ≡ some o) × (same_key k j ≡ false))

  -- A write that is whole leaves the other bytes of the file.
  abbrev pub Wrote : List ℕ → ℕ → List ℕ → List ℕ × ℕ × Option E → Type 0
  Wrote old off bytes (new, n, none) =
      n ≡ length bytes
      → ((off + length bytes ≤ length new)
          × (length old ≤ length new)
          × ((i : ℕ)
              → get_elem? new i ≡ (
                  if leb off i
                  then (if ltb i (off + length bytes)
                      then get_elem? bytes (i - off)
                      else get_elem? old i)
                  else get_elem? old i)))
  Wrote old off bytes (new, n, some e) = Unit {0}

  abbrev pub Told : ℕ → Outcome E ℕ → Type 0
  Told cursor (ok off) = off ≡ cursor
  Told cursor (err e) = Unit {0}
  Told cursor panic = ⊥

  abbrev pub Fetched : SegmentId → ℕ → Outcome E (List ℕ) → Type 0
  Fetched seg off (ok b) = (length b ≡ 1048576) × Copies content seg off 1048576 0 b
  Fetched seg off (err e) = Unit {0}
  Fetched seg off panic = ⊥

  -- The LRU list gives back what was added until it removes it, a write that tells the whole length has
  -- written the bytes, and what is fetched are the bytes of the segment.
  pub record IsChunks : Type 0 where
    pub peek : L → RangeCacheKey → Option ℕ
    pub gets : (l : L) (k : RangeCacheKey) → (get l k).1 ≡ peek l k
    pub keeps : (l : L) (k j : RangeCacheKey) → peek (get l k).0 j ≡ peek l j
    pub gets_len : (l : L) (k : RangeCacheKey) → len (get l k).0 ≡ len l
    pub removes : (l : L) → Removed peek l (remove_oldest l)
    pub adds :
        (l : L) (k : RangeCacheKey) (off : ℕ) (j : RangeCacheKey)
        → len l < max_chunks
        → peek (add l k off) j ≡ (if same_key k j then some off else peek l j)
    pub adds_len :
        (l : L) (k : RangeCacheKey) (off : ℕ)
        → len l < max_chunks
        → peek l k ≡ none
        → len (add l k off) ≡ suc (len l)
    pub told : (cursor : ℕ) → Told cursor (seek_current cursor)
    pub wrote :
        (old : List ℕ) (off : ℕ) (bytes : List ℕ)
        → off ≤ length old
        → Wrote old off bytes (write_at old off bytes)
    pub fetched : (seg : SegmentId) (off : ℕ) → Fetched seg off (fetch seg off)

  module _ (W : IsChunks) where
    -- The chunk of a key lies in its place, and no other place meets it.
    pub record IsSlots (l : L) (region : List ℕ) : Type 0 where
      pub inside :
          (k : RangeCacheKey) (off : ℕ) → W.peek l k ≡ some off → off + 1048576 ≤ length region
      pub held :
          (k : RangeCacheKey) (off : ℕ)
          → W.peek l k ≡ some off
          → Copies content k.0 (k.1 * 1048576) 1048576 off region
      pub apart :
          (k j : RangeCacheKey) (o p : ℕ)
          → W.peek l k ≡ some o
          → W.peek l j ≡ some p
          → (same_key k j ≡ true) ⊎ (o + 1048576 ≤ p) ⊎ (p + 1048576 ≤ o)

    -- Room for one more chunk: a place that no chunk meets.
    pub record IsFree (l : L) (region : List ℕ) (off : ℕ) : Type 0 where
      pub slots : IsSlots l region
      pub room : len l < max_chunks
      pub starts : off ≤ length region
      pub alone :
          (k : RangeCacheKey) (o : ℕ)
          → W.peek l k ≡ some o
          → (o + 1048576 ≤ off) ⊎ (off + 1048576 ≤ o)

    added :
        (l : L) (off : ℕ) (key : RangeCacheKey)
        → len l < max_chunks
        → (k : RangeCacheKey) (o : ℕ) → W.peek (add l key off) k ≡ some o
        → ((same_key key k ≡ true) × (o ≡ off)) ⊎ ((same_key key k ≡ false) × (W.peek l k ≡ some o))
    added l off key room k o h = elim (Bool-cases (same_key key k)) [
      | inl e ↦ inl (e, let p = W.adds l key off k room in cc (h, e, p))
      | inr e ↦ inr (e, let p = W.adds l key off k room in cc (h, e, p))
    ]

    add-IsSlots :
        (l : L) (region new : List ℕ) (off : ℕ) (key : RangeCacheKey) (bytes : List ℕ)
        → IsFree l region off
        → length bytes ≡ 1048576
        → Copies content key.0 (key.1 * 1048576) 1048576 0 bytes
        → off + length bytes ≤ length new
        → length region ≤ length new
        → ((i : ℕ)
            → get_elem? new i ≡ (
                if leb off i
                then (if ltb i (off + length bytes)
                    then get_elem? bytes (i - off)
                    else get_elem? region i)
                else get_elem? region i))
        → IsSlots (add l key off) new
    add-IsSlots l region new off key bytes f size copies fits more same = record {
      inside = λ k o h. elim (added l off key f.room k o h) [
        | inl (e, p) ↦ omega (arith, p, size, fits)
        | inr (e, p) ↦ omega (arith, f.slots.inside k o p, more)
      ];
      held = λ k o h i v lt c. elim (added l off key f.room k o h) [
        | inl (e, p) ↦
            let seg : k.0 ≡ key.0 = ground (arith, e) in
            let chunk : k.1 ≡ key.1 = ground (arith, e) in
            let start : 0 + i ≡ i = omega arith in
            let b : get_elem? bytes i ≡ some v =
              rw start at (copies i v lt (rw (seg, chunk) at c)) in
            rw (p, same (off + i)) (ground (arith, lt, size, b))
        | inr (e, p) ↦
            let b : get_elem? region (o + i) ≡ some v = f.slots.held k o p i v lt c in
            rw (same (o + i)) (ground (arith, lt, size, b, f.alone k o p))
      ];
      apart = λ k j o p x y. elim (added l off key f.room k o x) [
        | inl (e, q) ↦ elim (added l off key f.room j p y) [
          | inl (d, r) ↦ inl (ground (arith, e, d))
          | inr (d, r) ↦ inr (ground (arith, q, f.alone j p r))
        ]
        | inr (e, q) ↦ elim (added l off key f.room j p y) [
          | inl (d, r) ↦ inr (ground (arith, r, f.alone k o q))
          | inr (d, r) ↦ f.slots.apart k j o p q r
        ]
      ];
    }

    -- A cache whose file reaches to its cursor, and that has a chunk for every place before it.
    pub record IsCache (r : RangeCache L) : Type 0 where
      pub slots : IsSlots r.lru r.region
      pub reaches : r.cursor ≤ length r.region
      pub below :
          (k : RangeCacheKey) (off : ℕ) → W.peek r.lru k ≡ some off → off + 1048576 ≤ r.cursor
      pub counted : r.cursor ≡ len r.lru * 1048576
      pub few : len r.lru ≤ max_chunks

    abbrev pub Saved : RangeCache L × Outcome E ℕ → Type 0
    Saved (r', ok off) = IsCache r'
    Saved (r', err e) = Unit {0}
    Saved (r', panic) = ⊥

    pub saved_at-Saved :
        (r : RangeCache L) (key : RangeCacheKey) (off cursor : ℕ) (moved : ℕ → ℕ) (bytes : List ℕ)
        → IsFree r.lru r.region off
        → W.peek r.lru key ≡ none
        → length bytes ≡ 1048576
        → Copies content key.0 (key.1 * 1048576) 1048576 0 bytes
        → moved (length bytes) ≡ cursor
        → cursor ≡ suc (len r.lru) * 1048576
        → off + 1048576 ≤ cursor
        → (cursor ≤ length r.region) ⊎ (cursor ≤ off + 1048576)
        → ((k : RangeCacheKey) (o : ℕ) → W.peek r.lru k ≡ some o → o + 1048576 ≤ cursor)
        → Saved (saved_at K r key off moved bytes)
    unfolding saved_at
    saved_at-Saved r key off cursor moved bytes f absent size copies ahead count ends reach below =
        written (write_at r.region off bytes) (W.wrote r.region off bytes f.starts)
      where
        written :
            (x : List ℕ × ℕ × Option E)
            → Wrote r.region off bytes x
            → Saved (elim x.2 [
              | some e ↦ (record r { region = x.0; cursor = moved x.1 }, err e)
              | none ↦
                  if x.1 == length bytes
                  then (
                    record { lru = add r.lru key off; region = x.0; cursor = moved x.1 },
                    ok off,
                  )
                  else (record r { region = x.0; cursor = moved x.1 }, err K.short_write)
            ])
        written (new, n, some e) h = tt
        written (new, n, none) h =
            both_branches Saved (n == length bytes)
              (λ whole.
                let all : n ≡ length bytes = ground (arith, whole) in
                let w = h all in
                let at : moved n ≡ cursor = ap moved all ∙ ahead in
                record {
                  slots = add-IsSlots r.lru r.region new off key bytes f size copies w.0 w.1 w.2;
                  reaches = omega (arith, w.0, w.1, size, reach, at);
                  below = λ k o p. elim (added r.lru off key f.room k o p) [
                    | inl (e, q) ↦ omega (arith, q, ends, at)
                    | inr (e, q) ↦ omega (arith, below k o q, at)
                  ];
                  counted = omega (arith, at, count, W.adds_len r.lru key off f.room absent);
                  few = omega (arith, f.room, W.adds_len r.lru key off f.room absent);
                })
              (λ short. tt)
