-- ===== src/RangeCache/Reading.antt =====
-- range_cache.go: `ReadAt`, against the bytes of the segment.
use lsvd.Base.{
  ℕ, zero, suc, ◌+◌, ◌-◌, ◌*◌, ◌/◌, ◌%◌, ◌≤◌, ◌<◌, ◌≡◌, refl, ◌∙◌, ◌⊎◌, inl, inr, List, some, arith,
  ltb, if◌then◌else◌, length, both_branches, compare_le,
}
use lsvd.Base.Outcome.{Outcome, ok, err, panic}
use lsvd.Base.Slices.{
  drop, overwrite, get_elem?, get_elem?-drop, length-drop, length-overwrite, get_elem?-overwrite,
}
use lsvd.Location.{SegmentId}
use lsvd.RangeCache.{Chunks, RangeCache, load_chunk, read_chunks, read_at}
use lsvd.RangeCache.Slots.{Content, Copies, IsChunks, IsCache}
use lsvd.RangeCache.Loading.{Loads, load_chunk-Loads}

module _ {E : Type 0} (K : Chunks E) (content : Content) (W : IsChunks K content) (seg : SegmentId)
    (off : ℕ) where
  open K use {L}

  -- The buffer, of this length, holds the bytes of the segment from the offset on.
  abbrev pub Reads : ℕ → RangeCache L × Outcome E (List ℕ) → Type 0
  Reads size (r', ok buf) =
      IsCache K content W r' × (length buf ≡ size) × Copies content seg off size 0 buf
  Reads size (r', err e) = Unit {0}
  Reads size (r', panic) = ⊥

  -- The loop with `n` chunks to go.
  record IsReading (size n chunk inner : ℕ) (buf : List ℕ) (from : ℕ) : Type 0 where
    sized : length buf ≡ size
    place : chunk * 1048576 + inner ≡ off + from
    within : from ≤ size
    begins : inner < 1048576
    enough : off + size ≤ (chunk + n) * 1048576
    needed : (n ≤ 1) ⊎ ((chunk + n) * 1048576 < off + size + 1048576)
    filled : Copies content seg off from 0 buf

  -- The bytes of a chunk are copied to their places.
  copied :
      (size n chunk inner from : ℕ) (buf mem : List ℕ)
      → IsReading size n chunk inner buf from
      → length mem ≡ 1048576
      → Copies content seg (chunk * 1048576) 1048576 0 mem
      → (m : ℕ) → m ≤ from + (1048576 - inner)
      → m ≤ size
      → Copies content seg off m 0 (overwrite from (drop inner mem) buf)
  copied size n chunk inner from buf mem h len copies m a b i v lt c =
      let start : 0 + i ≡ i = omega arith in
      let size_lem = length-drop inner mem in
      elim (compare_le i from) [
        | inl before ↦
            let old = rw start at (h.filled i v before c) in
            rw start (
              ground (
                arith,
                get_elem?-overwrite from (drop inner mem) buf i (omega (arith, h.sized)),
                before,
                old,
              ))
        | inr after ↦
            let there : chunk * 1048576 + (inner + (i - from)) ≡ off + i = omega (arith, h.place) in
            let start' : 0 + (inner + (i - from)) ≡ inner + (i - from) = omega arith in
            let new : get_elem? mem (inner + (i - from)) ≡ some v =
              rw start' at (copies (inner + (i - from)) v (omega (arith, h.begins)) (rw there c)) in
            rw start (
              ground (
                arith,
                get_elem?-overwrite from (drop inner mem) buf i (omega (arith, h.sized)),
                get_elem?-drop inner mem (i - from),
                size_lem,
                len,
                after,
                new,
                h.begins,
              ))
      ]

  module _ (size : ℕ) where
    Step : ℕ → Type 0
    Step n =
        (r : RangeCache L) (chunk inner : ℕ) (buf : List ℕ) (from : ℕ)
        → IsCache K content W r
        → IsReading size n chunk inner buf from
        → Reads size (read_chunks K n r seg chunk inner buf from)

    loaded :
        (n : ℕ)
        → Step n
        → (chunk inner : ℕ) (buf : List ℕ) (from : ℕ) (x : RangeCache L × Outcome E (List ℕ))
        → Loads K content W (seg, chunk) x
        → IsReading size (suc n) chunk inner buf from
        → Reads size (elim x.1 [
          | err e ↦ (x.0, err e)
          | panic ↦ (x.0, panic)
          | ok mem ↦ read_chunks K n x.0 seg (chunk + 1) 0 (overwrite from (drop inner mem) buf) (
              if ltb (length (drop inner mem)) (length buf - from)
              then from + length (drop inner mem)
              else from)
        ])
    unfolding Step read_chunks
    loaded n ih chunk inner buf from (r, err e) h g = tt
    loaded n ih chunk inner buf from (r, panic) h g = h
    loaded n ih chunk inner buf from (r, ok mem) (c, len, copies) g =
        let new = drop inner mem in
        let buf' = overwrite from new buf in
        let fresh = length-drop inner mem in
        let sized' = length-overwrite from new buf ∙ g.sized in
        both_branches (λ f. Reads size (read_chunks K n r seg (chunk + 1) 0 buf' f))
          (ltb (length new) (length buf - from))
          (λ more.
            let left : length new < length buf - from = ground (arith, more) in
            ih r (chunk + 1) 0 buf' (from + length new) c (record {
              sized = sized';
              place = omega (arith, g.place, fresh, len, g.begins);
              within = omega (arith, left, g.sized);
              begins = omega arith;
              enough = omega (arith, g.enough);
              needed = omega (arith, g.needed);
              filled =
                  copied size (suc n) chunk inner from buf mem g len copies (from + length new)
                    (omega (arith, fresh, len)) (omega (arith, left, g.sized));
            }))
          (λ done.
            let left : length buf - from ≤ length new = ground (arith, done) in
            let last : n ≡ 0 =
              omega (arith, left, g.needed, g.place, fresh, len, g.sized, g.within, g.begins) in
            rw (last, read_chunks)
              (
                c,
                sized',
                copied size (suc n) chunk inner from buf mem g len copies size
                    (omega (arith, left, fresh, len, g.sized)) (omega arith),
              ))

    read_chunks-Reads : (n : ℕ) → Step n
    unfolding Step read_chunks
    read_chunks-Reads zero r chunk inner buf from c g =
        (c, g.sized, λ i v lt e. g.filled i v (omega (arith, lt, g.enough, g.place)) e)
    read_chunks-Reads (suc n) r chunk inner buf from c g =
        loaded n (read_chunks-Reads n) chunk inner buf from (load_chunk K r (seg, chunk))
          (load_chunk-Loads K content W r (seg, chunk) c) g

  -- For a cache whose LRU list, file and fetching keep to what is documented of them, whose chunks hold the
  -- bytes of their segments, and that has as many chunks, at most `maxChunks`, as fit before the cursor of
  -- its file: `ReadAt` does not panic. When it returns, the buffer has its length and holds the bytes of
  -- the segment from the offset on, as far as the segment goes, whatever chunks were cached, fetched or
  -- evicted for it, and the cache is one of this kind again.
  pub read_at-Reads :
      (r : RangeCache L) (buf : List ℕ)
      → IsCache K content W r
      → Reads (length buf) (read_at K r seg buf off)
  unfolding read_at Step
  read_at-Reads r buf c =
      read_chunks-Reads (length buf) _ r (off / 1048576) (off % 1048576) buf 0 c (record {
        sized = refl;
        place = omega arith;
        within = omega arith;
        begins = omega arith;
        enough = omega arith;
        needed = omega arith;
        filled = λ i v lt e. absurd (omega arith);
      })
