-- ===== src/ExtentMap/Usage.antt =====
-- extent_map.go and segments.go: how many blocks of each segment the map still uses, which is what
-- `update` has to report for `UpdateUsage`.
use lsvd.Base.{
  ℕ, ◌+◌, ◌-◌, ◌≡◌, refl, List, [], ◌∷◌, ◌++◌, arith, ltb, ◌==◌, if◌then◌else◌, inl, inr,
  Bool-cases, true, false, length,
}
use lsvd.Extent.{Extent}
use lsvd.Extent.Range.{IsRange}
use lsvd.Extent.Overlap.{overlap}
use lsvd.Location.{SegmentId, ExtentLocation, PartialExtent}
use lsvd.Compact.{CompactPe, live}
use lsvd.Compact.Live.{IsLive, live-IsRange, with_live, live-with_live}
use lsvd.TreeMap.Entries.{insert}
use lsvd.ExtentMap.{SegTable, location_of, to_pe}
use lsvd.ExtentMap.Table.{Extends, location_of-Extends}
use lsvd.ExtentMap.Carve.{
  end_of, Entries, hides, left_of, right_of, lefts, rights, carve, hidden, overlap-Fits,
  left_of-Fits, right_of-Fits,
}
use lsvd.ExtentMap.Blocks.{Clear, location_of-with_live}
use lsvd.ExtentMap.Carved.{Known}
use mathlib.Core.List.{map, append_assoc}

-- The blocks of a segment in use by an entry, by the entries, and by partial extents.
abbrev pub share : SegmentId → ExtentLocation → Extent → ℕ
share s l e = if l.segment == s then e.blocks else 0

abbrev pub used_blocks : SegTable → SegmentId → List (ℕ × CompactPe) → ℕ
used_blocks t s [] = 0
used_blocks t s ((k, c) ∷ es) = share s (location_of t c) (live c) + used_blocks t s es

abbrev pub pe_blocks : SegmentId → List PartialExtent → ℕ
pe_blocks s [] = 0
pe_blocks s (p ∷ ps) = share s p.location p.live + pe_blocks s ps

to_pe-with_live :
    (t : SegTable) (c : CompactPe) (e : Extent)
    → to_pe t (with_live c e) ≡ record { live = live (with_live c e); location = location_of t c }
unfolding to_pe
to_pe-with_live t c e = rw (location_of-with_live t c e) refl

module _ (t : SegTable) (s : SegmentId) (rng : Extent) (r : IsRange rng) where
  module _ (k : ℕ) (c : CompactPe) (l : IsLive c) (f : hides rng c ≡ true)
      (es : List (ℕ × CompactPe)) where
    used_blocks-lefts :
        used_blocks t s (lefts rng k c ++ es)
        ≡ share s (location_of t c) (record { lba = 0; blocks = rng.lba - (live c).lba })
          + used_blocks t s es
    used_blocks-lefts = elim (Bool-cases (ltb (live c).lba rng.lba)) [
      | inl g ↦
          let part = left_of rng (live c) in
          rw
            (
              g,
              live-with_live c part (left_of-Fits c rng l f (ground arith)),
              location_of-with_live t c part,
            )
            refl
      | inr g ↦ rw g (ground arith)
    ]

    used_blocks-rights :
        used_blocks t s (rights rng c ++ es)
        ≡ share s (location_of t c) (record { lba = 0; blocks = end_of (live c) - end_of rng })
          + used_blocks t s es
    used_blocks-rights = elim (Bool-cases (ltb (end_of rng) (end_of (live c)))) [
      | inl g ↦
          let part = right_of rng (live c) in
          rw
            (
              g,
              live-with_live c part (right_of-Fits c rng l f (ground arith)),
              location_of-with_live t c part,
            )
            refl
      | inr g ↦ rw g (ground arith)
    ]

  -- What a range cuts out of the entries is what it hides.
  pub used_blocks-carve :
      (n : ℕ) (es : List (ℕ × CompactPe))
      → Entries n es
      → used_blocks t s (carve rng es) + pe_blocks s (map (to_pe t) (hidden rng es))
        ≡ used_blocks t s es
  used_blocks-carve n [] w = refl
  used_blocks-carve n ((k, c) ∷ es) (l, e, o, w) =
      let ih = used_blocks-carve (end_of (live c)) es w in
      elim (Bool-cases (hides rng c)) [
        | inl f ↦
            let part = overlap (live c) rng in
            rw
              (
                f,
                append_assoc (lefts rng k c) (rights rng c) (carve rng es),
                used_blocks-lefts k c l f (rights rng c ++ carve rng es),
                used_blocks-rights k c l f (carve rng es),
                to_pe-with_live t c part,
                live-with_live c part (overlap-Fits c rng l f r),
              )
              (ground (arith, r, live-IsRange c l))
        | inr f ↦ rw f (omega arith)
      ]

pub used_blocks-insert :
    (t : SegTable) (s : SegmentId) (c : CompactPe) (rng : Extent) (n : ℕ)
    (es : List (ℕ × CompactPe))
    → IsRange rng
    → Entries n es
    → Clear rng es
    → used_blocks t s (insert rng.lba c es)
      ≡ share s (location_of t c) (live c) + used_blocks t s es
unfolding insert
used_blocks-insert t s c rng n [] r w h = refl
used_blocks-insert t s c rng n ((k, d) ∷ es) r (l, e, o, w) (h, hs) =
    let apart : (k == rng.lba) ≡ false = ground (arith, live-IsRange d l) in
    rw apart (ground (arith, used_blocks-insert t s c rng (end_of (live d)) es r w hs))

pub used_blocks-Extends :
    (t t' : SegTable) (s : SegmentId) (es : List (ℕ × CompactPe))
    → Extends t t'
    → Known (length t.by_desc) es
    → used_blocks t' s es ≡ used_blocks t s es
used_blocks-Extends t t' s [] x h = refl
used_blocks-Extends t t' s ((k, c) ∷ es) x (h, hs) =
    rw (location_of-Extends t t' c x h, used_blocks-Extends t t' s es x hs) refl
