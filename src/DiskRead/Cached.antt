-- ===== src/DiskRead/Cached.antt =====
-- disk.go: `fillFromWriteCache`, with the creators as layers above the holes that it leaves.
use lsvd.Base.{
  ℕ, ◌/◌, ◌≡◌, refl, sym, ◌∙◌, not, ◌&&◌, ◌||◌, List, [], Option, some, none, arith, if◌then◌else◌,
  Option-cases, inl, inr, true,
}
use lsvd.Base.Outcome.{Outcome, ok, err, panic, ◌>>=◌}
use lsvd.Extent.{Extent, contains, byte_size}
use lsvd.Extent.Subtract.{any_contains}
use lsvd.Extent.Sorting.{Parts}
use lsvd.Location.{ExtentLocation}
use lsvd.Compact.{CompactPe}
use lsvd.TreeMap.{TreeMap}
use lsvd.ExtentMap.Setting.{IsMap, find_block}
use lsvd.RangeData.{RangeData, view}
use lsvd.RangeData.Views.{IsLoaded, byte_at, part_of}
use lsvd.Builder.Creator.{SegmentCreator}
use lsvd.Builder.Fill.{ReadError, LogReader}
use lsvd.Builder.Filling.{Decoded, stored_byte}
use lsvd.Builder.Filled.{Layer, is_some, FillsFrom, fill_extent-FillsFrom}
use lsvd.DiskRead.WriteCache.{Disk, left_over, fill_from_prev, fill_from_write_cache}
use lsvd.DiskRead.Layers.{Leaves, left_over-Leaves, Narrows, CanRead, prev_loop-Narrows, shown_in}

-- The byte that two layers show, the upper one first.
abbrev pub shown : Decoded → Decoded → Layer → Layer → Option ℕ → ℕ → Option ℕ
shown dc dp cur prev old q =
    if is_some (cur (q / 4096))
    then stored_byte dc (cur (q / 4096)) old q
    else stored_byte dp (prev (q / 4096)) old q

-- What filling a whole range from two layers makes of it, with the holes that are left: they are the blocks
-- that neither layer has.
abbrev pub Shows :
    Decoded
    → Decoded
    → Layer
    → Layer
    → RangeData
    → List ℕ
    → Outcome ReadError (RangeData × List Extent)
    → Type 0
Shows dc dp cur prev dest b (ok (dest', holes)) =
    (b' : List ℕ) × (dest'.extent ≡ dest.extent)
    × IsLoaded dest' b'
    × Parts dest.extent holes
    × ((x : ℕ)
        → any_contains holes x
          ≡ (contains dest.extent x && not (is_some (cur x) || is_some (prev x))))
    × ((q : ℕ)
        → contains dest.extent (q / 4096) ≡ true
        → byte_at dest.extent b' q ≡ shown dc dp cur prev (byte_at dest.extent b q) q)
Shows dc dp cur prev dest b (err e) = (dc.may_fail e || dp.may_fail e) ≡ true
Shows dc dp cur prev dest b panic = ⊥

view_lem :
    (dest : RangeData) (b : List ℕ) → IsLoaded dest b → view dest ≡ part_of dest.extent dest.extent
unfolding view byte_size
view_lem dest b l = ground (arith, l.few)

-- What is in a creator, if there is one.
abbrev pub layer_of : {W : Type 0} (T : TreeMap CompactPe) → Option (SegmentCreator T W) → Layer
layer_of T none x = none
layer_of T (some oc) x = find_block T oc.em x

-- The previous creator, where it is asked.
abbrev pub prev_layer : {W : Type 0} (T : TreeMap CompactPe) → Disk T W → Layer
prev_layer T d = elim d.cur_oc [ none ↦ λ x. none | some oc ↦ layer_of T d.prev_cache ]

module _ {W : Type 0} (R : LogReader W) (T : TreeMap CompactPe) where
  -- A creator, if there is one, has a well-formed map, and can read what it has of a range.
  abbrev pub CanServe : Decoded → Option (SegmentCreator T W) → Extent → Type 0
  CanServe decoded none e = Unit {0}
  CanServe decoded (some oc) e = IsMap T oc.em × CanRead R T decoded oc e

  module _ (dc dp : Decoded) (dest : RangeData) (b : List ℕ) (l : IsLoaded dest b)
      (cur : Layer) where
    prev-Shows :
        (prev : Layer) (dest1 : RangeData) (b1 : List ℕ) (holes : List Extent)
        → dest1.extent ≡ dest.extent
        → Parts dest.extent holes
        → ((x : ℕ) → any_contains holes x ≡ (contains dest.extent x && not (is_some (cur x))))
        → ((q : ℕ)
            → contains dest.extent (q / 4096) ≡ true
            → byte_at dest.extent b1 q
              ≡ stored_byte dc (cur (q / 4096)) (byte_at dest.extent b q) q)
        → (x : Outcome ReadError (RangeData × List Extent)) → Narrows dp prev dest1 b1 holes [] x
        → Shows dc dp cur prev dest b x
    unfolding Narrows
    prev-Shows prev dest1 b1 holes e p u h (err x) n = rw n (ground arith)
    prev-Shows prev dest1 b1 holes e p u h panic n = n
    prev-Shows prev dest1 b1 holes e p u h (ok (dest', left)) (b', e', l', k, v, h') = (
      b',
      e' ∙ e,
      l',
      rw e at k,
      (λ x. ground (arith, v x, u x)),
      λ q here.
          let hq : byte_at dest.extent b' q
              ≡ shown_in dp prev (any_contains holes (q / 4096)) (byte_at dest.extent b1 q) q =
            rw e at (h' q) in
          let left_here : any_contains holes (q / 4096) ≡ not (is_some (cur (q / 4096))) =
            u (q / 4096) ∙ rw here refl in
          rw (hq, left_here, h q here) (below prev (cur (q / 4096)) (byte_at dest.extent b q) q),
    )
      where
        below :
            (prev : Layer) (c : Option ExtentLocation) (old : Option ℕ) (q : ℕ)
            → shown_in dp prev (not (is_some c)) (stored_byte dc c old q) q ≡ (
                if is_some c
                then stored_byte dc c old q
                else stored_byte dp (prev (q / 4096)) old q)
        below prev none old q = refl
        below prev (some c) old q = refl

    rest-Shows :
        (prev : Option (SegmentCreator T W)) (dest1 : RangeData) (b1 : List ℕ) (holes : List Extent)
        → dest1.extent ≡ dest.extent
        → IsLoaded dest1 b1
        → Parts dest.extent holes
        → CanServe dp prev dest.extent
        → ((x : ℕ) → any_contains holes x ≡ (contains dest.extent x && not (is_some (cur x))))
        → ((q : ℕ)
            → contains dest.extent (q / 4096) ≡ true
            → byte_at dest.extent b1 q
              ≡ stored_byte dc (cur (q / 4096)) (byte_at dest.extent b q) q)
        → Shows dc dp cur (layer_of T prev) dest b (fill_from_prev R T prev dest1 holes)
    unfolding fill_from_prev
    rest-Shows none dest1 b1 holes e l1 p serve u h = (
      b1,
      e,
      l1,
      p,
      (λ x. u x ∙ ground arith),
      λ q here. rw (h q here) (elim (Option-cases (cur (q / 4096))) [
        | inl none_here ↦ rw none_here refl
        | inr (c, here') ↦ rw here' refl
      ]),
    )
    rest-Shows (some oc) dest1 b1 holes e l1 p (m, serve) u h =
        prev-Shows (find_block T oc.em) dest1 b1 holes e p u h _ (
          prev_loop-Narrows R T dp oc m holes [] dest1 b1 l1 (rw (sym e) at p) tt
            (λ x c here. serve x c (rw e at here)))

    cur-Shows :
        (oc : SegmentCreator T W) (prev : Option (SegmentCreator T W))
        → ((x : ℕ) → cur x ≡ find_block T oc.em x)
        → IsMap T oc.em
        → CanServe dp prev dest.extent
        → (x : Outcome ReadError (RangeData × List Extent)) → FillsFrom dc dest b dest.extent cur x
        → Shows dc dp cur (layer_of T prev) dest b (
            x >>= λ filled. left_over dest.extent filled.1 >>= λ remaining.
            fill_from_prev R T prev filled.0 remaining)
    cur-Shows oc prev same m serve (err e) h = rw h refl
    cur-Shows oc prev same m serve panic h = h
    cur-Shows oc prev same m serve (ok (dest1, used)) (b1, e, l1, p, k, u, h) =
        go (left_over dest.extent used) (left_over-Leaves dest.extent used l.range p k)
      where
        go :
            (y : Outcome ReadError (List Extent))
            → Leaves dest.extent used y
            → Shows dc dp cur
                (layer_of T prev)
                dest
                b
                (y >>= λ remaining. fill_from_prev R T prev dest1 remaining)
        go (err x) v = absurd v
        go panic v = v
        go (ok res) (parts, v) =
            rest-Shows prev dest1 b1 res e l1 parts serve (λ x. v x ∙ rw (u x) (ground arith))
              (λ q here. h q ∙ rw here refl)

  -- For a range in memory, whatever it holds, and creators that can read what they have of it:
  -- `fillFromWriteCache` fails only with an error of a reader of the creators. Otherwise the range keeps its
  -- extent and all its bytes, each block has the bytes of the current creator if that has the block, else
  -- those of the previous one if that has it, else its old bytes, and old bytes stay also where a creator
  -- has the block as empty. The extents that are left are parts of the range, and hold exactly the blocks
  -- that neither creator has. Without a current creator nothing is filled.
  pub fill_from_write_cache-Shows :
      (dc dp : Decoded) (d : Disk T W) (dest : RangeData) (b : List ℕ)
      → IsLoaded dest b
      → CanServe dc d.cur_oc dest.extent
      → CanServe dp d.prev_cache dest.extent
      → Shows dc dp (layer_of T d.cur_oc) (prev_layer T d) dest b (fill_from_write_cache R T d dest)
  unfolding fill_from_write_cache
  fill_from_write_cache-Shows dc dp d dest b l serve below = elim (Option-cases d.cur_oc) [
    | inl nothing ↦
        rw nothing (b, refl, l, ((l.range, omega arith), tt), (λ x. ground arith), λ q here. refl)
    | inr (oc, some_oc) ↦
        let (m, can) : CanServe dc (some oc) dest.extent = rw some_oc at serve in
        rw (some_oc, view_lem dest b l)
          (cur-Shows dc dp dest b l (find_block T oc.em) oc d.prev_cache (λ x. refl) m below _
            (fill_extent-FillsFrom dest.extent l.range R oc.builder.log dc T oc dest b refl m l
              (omega arith) can))
  ]
