-- ===== src/DiskRead/Layers.antt =====
-- disk.go: what the write caches fill.
use lsvd.Base.{
  ℕ, ◌/◌, ◌≡◌, ◌≢◌, refl, ◌∙◌, Bool, not, ◌&&◌, ◌||◌, List, [], ◌∷◌, ◌++◌, Option, some, none,
  arith, if◌then◌else◌, Bool-cases, inl, inr, true, All-append,
}
use lsvd.Base.Outcome.{Outcome, ok, err, panic, ◌>>=◌}
use lsvd.Extent.{Extent, contains}
use lsvd.Extent.Range.{IsRange, contains_lem}
use lsvd.Extent.Overlap.{Inside}
use lsvd.Extent.Subtract.{any_contains}
use lsvd.Extent.Sorting.{Scattered, Parts}
use lsvd.Extent.Many.{contains-sub_many}
use lsvd.Location.{ExtentLocation}
use lsvd.Compact.{CompactPe}
use lsvd.TreeMap.{TreeMap}
use lsvd.ExtentMap.Setting.{IsMap, find_block}
use lsvd.RangeData.{RangeData}
use lsvd.RangeData.Views.{IsLoaded, byte_at, part_of, sub_range_lem}
use lsvd.Builder.Creator.{SegmentCreator}
use lsvd.Builder.Fill.{ReadError, LogReader, fill_extent, load_logged}
use lsvd.Builder.Filling.{Decoded, stored_byte, Yields}
use lsvd.Builder.Filled.{Layer, is_some, FillsFrom, fill_extent-FillsFrom}
use lsvd.DiskRead.WriteCache.{left_over, prev_loop}

abbrev pub Leaves : Extent → List Extent → Outcome ReadError (List Extent) → Type 0
Leaves e used (ok holes) =
    Parts e holes × ((x : ℕ) → any_contains holes x ≡ (contains e x && not (any_contains used x)))
Leaves e used (err x) = ⊥
Leaves e used panic = ⊥

pub left_over-Leaves :
    (e : Extent) (used : List Extent)
    → IsRange e
    → Parts e used
    → Scattered used
    → Leaves e used (left_over e used)
unfolding left_over
left_over-Leaves e [] r p s = (((r, omega arith), tt), λ x. ground arith)
left_over-Leaves e (u ∷ used) r p s =
    let (holes, eq, q, h) = contains-sub_many e (u ∷ used) r p s in rw eq (q, h)

pub any_contains-append :
    (es fs : List Extent) (x : ℕ)
    → any_contains (es ++ fs) x ≡ (any_contains es x || any_contains fs x)
any_contains-append [] fs x = refl
any_contains-append (e ∷ es) fs x = ground (arith, any_contains-append es fs x)

pub any_contains-Parts :
    (e : Extent) (es : List Extent) (x : ℕ)
    → IsRange e
    → Parts e es
    → any_contains es x ≡ true
    → contains e x ≡ true
any_contains-Parts e [] x r p h = absurd (cc h)
any_contains-Parts e (d ∷ es) x r ((s, i), p) h = elim (Bool-cases (contains d x)) [
  | inl here ↦ ground (arith, here, contains_lem d x s, contains_lem e x r)
  | inr away ↦ any_contains-Parts e es x r p (rw away at h)
]

pub Parts-Inside : (e d : Extent) (es : List Extent) → Inside d e → Parts d es → Parts e es
Parts-Inside e d [] i p = tt
Parts-Inside e d (c ∷ es) i ((r, j), p) = ((r, omega arith), Parts-Inside e d es i p)

-- The bytes of a cache where a list of extents has the block, else the old ones.
abbrev pub shown_in : Decoded → Layer → Bool → Option ℕ → ℕ → Option ℕ
shown_in decoded layer here old q =
    if here then stored_byte decoded (layer (q / 4096)) old q else old

-- What the loop over the holes makes of a range, with the holes that it leaves.
unfoldable pub Narrows :
    Decoded
    → Layer
    → RangeData
    → List ℕ
    → List Extent
    → List Extent
    → Outcome ReadError (RangeData × List Extent)
    → Type 0
Narrows decoded layer dest b holes remaining (ok (dest', left)) =
    (b' : List ℕ) × (dest'.extent ≡ dest.extent)
    × IsLoaded dest' b'
    × Parts dest.extent left
    × ((x : ℕ)
        → any_contains left x
          ≡ (any_contains remaining x || (any_contains holes x && not (is_some (layer x)))))
    × ((q : ℕ)
        → byte_at dest.extent b' q
          ≡ shown_in decoded layer (any_contains holes (q / 4096)) (byte_at dest.extent b q) q)
Narrows decoded layer dest b holes remaining (err e) = decoded.may_fail e ≡ true
Narrows decoded layer dest b holes remaining panic = ⊥

stored_byte_again :
    (decoded : Decoded) (l : Option ExtentLocation) (old : Option ℕ) (q : ℕ)
    → stored_byte decoded l (stored_byte decoded l old q) q ≡ stored_byte decoded l old q
stored_byte_again decoded none old q = refl
stored_byte_again decoded (some l) old q = ground arith

Narrows-cons :
    (decoded : Decoded) (layer : Layer) (dest dest1 : RangeData) (b b1 : List ℕ) (sub : Extent)
    (holes remaining used res : List Extent)
    → dest1.extent ≡ dest.extent
    → ((x : ℕ) → any_contains used x ≡ (contains sub x && is_some (layer x)))
    → ((x : ℕ) → any_contains res x ≡ (contains sub x && not (any_contains used x)))
    → ((q : ℕ)
        → byte_at dest.extent b1 q ≡ (
            if contains sub (q / 4096)
            then stored_byte decoded (layer (q / 4096)) (byte_at dest.extent b q) q
            else byte_at dest.extent b q))
    → (x : Outcome ReadError (RangeData × List Extent))
    → Narrows decoded layer dest1 b1 holes (remaining ++ res) x
    → Narrows decoded layer dest b (sub ∷ holes) remaining x
unfolding Narrows
Narrows-cons decoded layer dest dest1 b b1 sub holes remaining used res e u v first (err x) h = h
Narrows-cons decoded layer dest dest1 b b1 sub holes remaining used res e u v first panic h = h
Narrows-cons decoded layer dest dest1 b b1 sub holes remaining used res e u v first
      (ok (dest', left)) (b', e', l', k, any, h) =
    (
      b',
      e' ∙ e,
      l',
      rw e at k,
      λ x. ground (arith, any x, any_contains-append remaining res x, u x, v x),
      λ q.
          let h' : byte_at dest.extent b' q
              ≡ shown_in decoded layer (any_contains holes (q / 4096)) (byte_at dest.extent b1 q)
                  q =
            rw e at (h q) in
          rw (h', first q)
            (elim (Bool-cases (contains sub (q / 4096))) [
              | inl here ↦ elim (Bool-cases (any_contains holes (q / 4096))) [
                | inl twice ↦
                    rw (here, twice)
                      (stored_byte_again decoded (layer (q / 4096)) (byte_at dest.extent b q) q)
                | inr once ↦ rw (here, once) refl
              ]
              | inr away ↦ rw away refl
            ]),
    )

-- A creator can read what it has of a range.
abbrev pub CanRead :
    {W : Type 0}
    → LogReader W
    → (T : TreeMap CompactPe) → Decoded
    → SegmentCreator T W
    → Extent
    → Type 0
CanRead R T decoded oc e =
    (x : ℕ) (l : ExtentLocation)
    → contains e x ≡ true
    → find_block T oc.em x ≡ some l
    → l.header.size ≢ 0
    → Yields decoded l (load_logged R oc.builder.log l.header)

module _ {W : Type 0} (R : LogReader W) (T : TreeMap CompactPe) (decoded : Decoded)
    (oc : SegmentCreator T W) (m : IsMap T oc.em) where
  filled-Narrows :
      (sub : Extent) (holes remaining : List Extent) (dest : RangeData) (b : List ℕ)
      → IsRange sub
      → Inside sub dest.extent
      → ((dest1 : RangeData) (b1 : List ℕ) (res : List Extent)
          → dest1.extent ≡ dest.extent
          → IsLoaded dest1 b1
          → Parts dest.extent res
          → Narrows decoded
              (find_block T oc.em)
              dest1
              b1
              holes
              (remaining ++ res)
              (prev_loop R T oc dest1 holes (remaining ++ res)))
      → (x : Outcome ReadError (RangeData × List Extent))
      → FillsFrom decoded dest b sub (find_block T oc.em) x
      → Narrows decoded (find_block T oc.em) dest b (sub ∷ holes) remaining (
          x >>= λ filled.
          left_over sub filled.1 >>= λ res. prev_loop R T oc filled.0 holes (remaining ++ res))
  unfolding Narrows
  filled-Narrows sub holes remaining dest b s i ih (err e) h = h
  filled-Narrows sub holes remaining dest b s i ih panic h = h
  filled-Narrows sub holes remaining dest b s i ih (ok (dest1, used)) (b1, e, l, p, k, u, h) =
      go (left_over sub used) (left_over-Leaves sub used s p k)
    where
      go :
          (y : Outcome ReadError (List Extent))
          → Leaves sub used y
          → Narrows decoded
              (find_block T oc.em)
              dest
              b
              (sub ∷ holes)
              remaining
              (y >>= λ res. prev_loop R T oc dest1 holes (remaining ++ res))
      go (err x) v = absurd v
      go panic v = v
      go (ok res) (parts, v) =
          Narrows-cons decoded (find_block T oc.em) dest dest1 b b1 sub holes remaining used res e u
            v h _ (ih dest1 b1 res e l (Parts-Inside dest.extent sub res i parts))

  pub prev_loop-Narrows :
      (holes remaining : List Extent) (dest : RangeData) (b : List ℕ)
      → IsLoaded dest b
      → Parts dest.extent holes
      → Parts dest.extent remaining
      → CanRead R T decoded oc dest.extent
      → Narrows decoded
          (find_block T oc.em)
          dest
          b
          holes
          remaining
          (prev_loop R T oc dest holes remaining)
  unfolding prev_loop Narrows
  prev_loop-Narrows [] remaining dest b l p k h = (b, refl, l, k, (λ x. ground arith), λ q. refl)
  prev_loop-Narrows (sub ∷ holes) remaining dest b l ((s, i), p) k h =
      let inner : (x : ℕ) → contains sub x ≡ true → contains dest.extent x ≡ true =
        λ x here. ground (arith, here, contains_lem sub x s, contains_lem dest.extent x l.range) in
      rw (sub_range_lem dest b sub l s i) (
        filled-Narrows sub holes remaining dest b s i
          (λ dest1 b1 res e l1 parts.
            prev_loop-Narrows holes (remaining ++ res) dest1 b1 l1 (rw e p)
              (rw e (All-append (λ d. IsRange d × Inside d dest.extent) remaining res k parts))
              (rw e h))
          (fill_extent R T oc dest (part_of dest.extent sub))
          (fill_extent-FillsFrom sub s R oc.builder.log decoded T oc dest b refl m l i
            (λ x k' here at full. h x k' (inner x here) at full)))
