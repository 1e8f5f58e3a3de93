-- ===== src/Builder/Filled.antt =====
-- segment.go: `FillExtent`, against the extent map of the creator.
use lsvd.Base.{
  ℕ, ◌+◌, ◌/◌, ◌≤◌, ◌<◌, ◌≡◌, ◌≢◌, refl, sym, ◌∙◌, Bool, ◌&&◌, List, [], ◌∷◌, Option, some, none,
  arith, if◌then◌else◌, Bool-cases, inl, inr, true, false, All,
}
use lsvd.Base.Outcome.{Outcome, ok, err, panic}
use lsvd.Extent.{Extent, contains}
use lsvd.Extent.Range.{IsRange, contains_lem}
use lsvd.Extent.Overlap.{Inside, overlap, Apart}
use lsvd.Extent.Subtract.{any_contains}
use lsvd.Extent.Sorting.{Scattered, Parts}
use lsvd.Location.{ExtentLocation, PartialExtent}
use lsvd.Compact.{CompactPe}
use lsvd.TreeMap.{TreeMap}
use lsvd.ExtentMap.{to_pe}
use lsvd.ExtentMap.Carve.{end_of, touching}
use lsvd.ExtentMap.Blocks.{pe_at}
use lsvd.ExtentMap.Setting.{IsMap, find_block}
use lsvd.ExtentMap.Parts.{PartsFrom, Touches, pe_at-below, resolve-Found}
use lsvd.RangeData.{RangeData}
use lsvd.RangeData.Views.{IsLoaded, byte_at, part_of}
use lsvd.Builder.Creator.{SegmentCreator}
use lsvd.Builder.Fill.{ReadError, LogReader, load_logged, fill_extent}
use lsvd.Builder.Filling.{
  Decoded, stored_byte, Yields, overlap-IsRange, AllYield, Fills, fill_loop-Fills,
}
use mathlib.Core.List.{map}

-- Where each block lies that a layer of the disk has.
abbrev pub Layer : Type 0
Layer = ℕ → Option ExtentLocation

abbrev pub is_some : Option ExtentLocation → Bool
is_some none = false
is_some (some l) = true

-- What filling the part `y` of a range from a layer makes of it, and the extents that it reports: they hold
-- exactly the blocks of `y` that the layer has.
abbrev pub FillsFrom :
    Decoded
    → RangeData
    → List ℕ
    → Extent
    → Layer
    → Outcome ReadError (RangeData × List Extent)
    → Type 0
FillsFrom decoded dest b y layer (ok (dest', used)) =
    (b' : List ℕ) × (dest'.extent ≡ dest.extent)
    × IsLoaded dest' b'
    × Parts y used
    × Scattered used
    × ((x : ℕ) → any_contains used x ≡ (contains y x && is_some (layer x)))
    × ((q : ℕ)
        → byte_at dest.extent b' q ≡ (
            if contains y (q / 4096)
            then stored_byte decoded (layer (q / 4096)) (byte_at dest.extent b q) q
            else byte_at dest.extent b q))
FillsFrom decoded dest b y layer (err e) = decoded.may_fail e ≡ true
FillsFrom decoded dest b y layer panic = ⊥

module _ (y : Extent) (s : IsRange y) where
  overlaps : List PartialExtent → List Extent
  overlaps ps = map (λ p. overlap y p.live) ps

  overlaps-Parts :
      (n : ℕ) (ps : List PartialExtent)
      → PartsFrom n ps
      → All (Touches y) ps
      → Parts y (overlaps ps)
  unfolding overlaps
  overlaps-Parts n [] c t = tt
  overlaps-Parts n (p ∷ ps) (i, o, c) (t, ts) =
      let (r, a, _) = overlap-IsRange y p s i t in ((r, a), overlaps-Parts (end_of p.live) ps c ts)

  overlaps-Apart :
      (e : Extent) (n : ℕ) (ps : List PartialExtent)
      → PartsFrom n ps
      → e.lba + e.blocks ≤ n
      → All (Apart e) (overlaps ps)
  unfolding overlaps
  overlaps-Apart e n [] c h = tt
  overlaps-Apart e n (p ∷ ps) (i, o, c) h = (
    inl (omega (arith, o, h)),
    overlaps-Apart e (end_of p.live) ps c (omega (arith, o, h, i.range)),
  )

  overlaps-Scattered :
      (n : ℕ) (ps : List PartialExtent)
      → PartsFrom n ps
      → All (Touches y) ps
      → Scattered (overlaps ps)
  unfolding overlaps
  overlaps-Scattered n [] c t = tt
  overlaps-Scattered n (p ∷ ps) (i, o, c) (t, ts) = (
    overlaps-Apart (overlap y p.live) (end_of p.live) ps c (omega (arith, i.range, s, t)),
    overlaps-Scattered (end_of p.live) ps c ts,
  )

  any_contains-overlaps :
      (n : ℕ) (ps : List PartialExtent) (x : ℕ)
      → PartsFrom n ps
      → All (Touches y) ps
      → any_contains (overlaps ps) x ≡ (contains y x && is_some (pe_at ps x))
  unfolding overlaps
  any_contains-overlaps n [] x c t = ground arith
  any_contains-overlaps n (p ∷ ps) x (i, o, c) (t, ts) =
      let (r, _, _) = overlap-IsRange y p s i t in
      let ih = any_contains-overlaps (end_of p.live) ps x c ts in
      elim (Bool-cases (contains p.live x)) [
        | inl here ↦
            rw (here, ih)
              (ground (
                arith,
                contains_lem (overlap y p.live) x r,
                contains_lem y x s,
                contains_lem p.live x i.range,
                here,
              ))
        | inr away ↦
            rw (away, ih)
              (ground (
                arith,
                contains_lem (overlap y p.live) x r,
                contains_lem y x s,
                contains_lem p.live x i.range,
                away,
              ))
      ]

  module _ {W : Type 0} (R : LogReader W) (w : W) (decoded : Decoded) where
    -- Where the layer has bytes for a block of `y`, they can be read.
    abbrev pub Readable : Layer → Type 0
    Readable layer =
        (x : ℕ) (l : ExtentLocation)
        → contains y x ≡ true
        → layer x ≡ some l
        → l.header.size ≢ 0
        → Yields decoded l (load_logged R w l.header)

    Readable-AllYield :
        (n : ℕ) (ps : List PartialExtent)
        → PartsFrom n ps
        → All (Touches y) ps
        → Readable (pe_at ps)
        → AllYield R w decoded y s ps
    Readable-AllYield n [] c t h = tt
    Readable-AllYield n (p ∷ ps) (i, o, c) (t, ts) h = (
      λ full.
          let (r, a, _) = overlap-IsRange y p s i t in
          let x = (overlap y p.live).lba in
          let in_y : contains y x ≡ true = ground (arith, contains_lem y x s, t) in
          let here : contains p.live x ≡ true = ground (arith, contains_lem p.live x i.range, t) in
          h x p.location in_y (rw here refl) full,
      Readable-AllYield (end_of p.live) ps c ts (λ x l in_y at full.
          elim (Bool-cases (contains p.live x)) [
            | inl here ↦
                let below : x < end_of p.live =
                  ground (arith, contains_lem p.live x i.range, here) in
                let no = pe_at-below (end_of p.live) ps x c below in absurd (cc (no, at))
            | inr away ↦ h x l in_y (rw away at) full
          ]),
    )

    -- The same by the layer that the parts were found in.
    Fills-FillsFrom :
        (dest : RangeData) (b : List ℕ) (layer : Layer) (ps : List PartialExtent)
        → PartsFrom 0 ps
        → All (Touches y) ps
        → ((x : ℕ)
            → (if contains y x then pe_at ps x else none)
              ≡ (if contains y x then layer x else none))
        → (x : Outcome ReadError (RangeData × List Extent)) → Fills decoded dest b y [] ps x
        → FillsFrom decoded dest b y layer x
    unfolding overlaps
    Fills-FillsFrom dest b layer ps c t at (err e) h = h
    Fills-FillsFrom dest b layer ps c t at panic h = h
    Fills-FillsFrom dest b layer ps c t at (ok (dest', used)) (b', e, l, u, h) = (
      b',
      e,
      l,
      rw u (overlaps-Parts 0 ps c t),
      rw u (overlaps-Scattered 0 ps c t),
      λ x.
          rw (u, any_contains-overlaps 0 ps x c t)
            (elim (Bool-cases (contains y x)) [
              | inl in_y ↦
                  let same : pe_at ps x ≡ layer x = rw in_y at (at x) in rw (in_y, same) refl
              | inr out ↦ rw out refl
            ]),
      λ q. rw (h q) (elim (Bool-cases (contains y (q / 4096))) [
        | inl in_y ↦
            let same : pe_at ps (q / 4096) ≡ layer (q / 4096) = rw in_y at (at (q / 4096)) in
            rw (in_y, same) refl
        | inr out ↦ rw out refl
      ]),
    )

    -- For a creator with a well-formed map that can read what it has of a part `y` of a range in memory:
    -- `FillExtent` of the part fails only with an error of the readers. Otherwise the range keeps its extent
    -- and its number of bytes. The blocks of `y` that the creator has hold the bytes that it stored for
    -- them, or the old ones where it has the block as empty; all other blocks are as before. The extents
    -- that it reports are parts of `y` that share no block, and hold exactly the blocks of `y` that the
    -- creator has.
    pub fill_extent-FillsFrom :
        (T : TreeMap CompactPe) (c : SegmentCreator T W) (dest : RangeData) (b : List ℕ)
        → c.builder.log ≡ w
        → IsMap T c.em
        → IsLoaded dest b
        → Inside y dest.extent
        → Readable (find_block T c.em)
        → FillsFrom decoded dest b y
            (find_block T c.em)
            (fill_extent R T c dest (part_of dest.extent y))
    unfolding fill_extent
    fill_extent-FillsFrom T c dest b e m l i h =
        let f = resolve-Found T c.em y s m in
        let ps = map (to_pe c.em.table) (touching y (T.entries c.em.m)) in
        let readable : Readable (pe_at ps) = λ x k in_y at full.
          let same : pe_at ps x ≡ find_block T c.em x = rw in_y at (f.at x) in
          h x k in_y (sym same ∙ at) full in
        rw (e, f.resolved)
          (Fills-FillsFrom dest b (find_block T c.em) ps f.parts f.touches f.at _ (
            fill_loop-Fills R w decoded y s ps 0 dest b [] l i f.parts f.touches
              (Readable-AllYield 0 ps f.parts f.touches readable)))
