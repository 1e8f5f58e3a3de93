-- ===== src/Segments/Find.antt =====
-- segments.go: the map of the segments, and what `UpdateUsage` takes from the blocks in use.
use lsvd.Base.{
  ℕ, ◌+◌, ◌<◌, ◌^◌, ◌≡◌, refl, List, [], ◌∷◌, sym, ap, ◌∙◌, arith, ◌==◌, if◌then◌else◌, inl, inr,
  Bool-cases, Option-cases, true, false, Option, some, none,
}
use lsvd.Base.Words.{sub64}
use lsvd.Location.{SegmentId, PartialExtent}
use lsvd.Segments.{Segment, Segments, find, put, use_less, update_usage}
use lsvd.ExtentMap.Usage.{share, pe_blocks}

pub find-put :
    (j k : SegmentId) (g : Segment) (ss : Segments)
    → find j (put k g ss) ≡ (if k == j then some g else find j ss)
unfolding find put
find-put j k g [] = refl
find-put j k g ((i, h) ∷ ss) = ground (arith, find-put j k g ss)

pub find_same : (j k : SegmentId) (ss : Segments) → (k == j) ≡ true → find k ss ≡ find j ss
find_same j k ss e = let same : k ≡ j = ground arith in ap (λ i. find i ss) same

-- The recorded usage of a segment is `n`; a deleted one has none.
abbrev pub Charged : ℕ → Option Segment → Type 0
Charged n none = Unit {0}
Charged n (some g) = (n < 2 ^ 64) × (g.deleted ≡ true → n ≡ 0) × (g.deleted ≡ false → g.used ≡ n)

find-use_less :
    (r : PartialExtent) (ss : Segments) (s : SegmentId) (g : Segment)
    → find r.location.segment ss ≡ some g
    → find s (use_less r ss) ≡ (
        if r.location.segment == s
        then some (if g.deleted then g else record g { used = sub64 g.used r.live.blocks })
        else find s ss)
unfolding use_less
find-use_less r ss s g o =
    let same = find_same s r.location.segment ss in
    elim (Bool-cases g.deleted) [
      | inl d ↦ elim (Bool-cases (r.location.segment == s)) [
        | inl e ↦
            let f : find s ss ≡ some g = sym (same e) ∙ o in
            rw (o, use_less, e) (ground (arith, f, d))
        | inr e ↦ rw (o, use_less, e) (ground (arith, d))
      ]
      | inr d ↦
          rw (o, use_less)
            (ground (
              arith,
              d,
              find-put s r.location.segment (record g { used = sub64 g.used r.live.blocks }) ss,
            ))
    ]

find-use_less_missing :
    (r : PartialExtent) (ss : Segments) (s : SegmentId)
    → find r.location.segment ss ≡ none
    → use_less r ss ≡ ss
unfolding use_less
find-use_less_missing r ss s o = rw (o, use_less) refl

zero_add : (n : ℕ) → 0 + n ≡ n
zero_add n = omega arith

charge :
    (blocks n : ℕ) (g : Segment)
    → Charged (blocks + n) (some g)
    → Charged n (some (if g.deleted then g else record g { used = sub64 g.used blocks }))
charge blocks n g h = elim (Bool-cases g.deleted) [
  | inl d ↦ rw d (ground arith)
  | inr d ↦ rw d (omega arith, (λ e. absurd (ground arith)), (λ e. ground arith))
]

use_less-Charged :
    (r : PartialExtent) (ss : Segments) (s : SegmentId) (n : ℕ)
    → Charged (share s r.location r.live + n) (find s ss)
    → Charged n (find s (use_less r ss))
use_less-Charged r ss s n h = elim (Option-cases (find r.location.segment ss)) [
  | inl o ↦ rw (find-use_less_missing r ss s o) (elim (Bool-cases (r.location.segment == s)) [
    | inl e ↦ rw (sym (find_same s r.location.segment ss e), o) tt
    | inr e ↦ rw (zero_add n) at (rw e at h)
  ])
  | inr (g, o) ↦ rw (find-use_less r ss s g o) (elim (Bool-cases (r.location.segment == s)) [
    | inl e ↦
        let f : find s ss ≡ some g = sym (find_same s r.location.segment ss e) ∙ o in
        rw e (charge r.live.blocks n g (rw (e, f) at h))
    | inr e ↦ rw e (rw (zero_add n) at (rw e at h))
  ])
]

-- From usages that count the affected extents, `UpdateUsage` takes them off.
pub update_usage-Charged :
    (ps : List PartialExtent) (ss : Segments) (s : SegmentId) (n : ℕ)
    → Charged (pe_blocks s ps + n) (find s ss)
    → Charged n (find s (update_usage ps ss))
unfolding update_usage
update_usage-Charged [] ss s n h = rw (zero_add n) at h
update_usage-Charged (p ∷ ps) ss s n h =
    let regroup : share s p.location p.live + pe_blocks s ps + n
        ≡ share s p.location p.live + (pe_blocks s ps + n) =
      omega arith in
    update_usage-Charged ps (use_less p ss) s n
      (use_less-Charged p ss s (pe_blocks s ps + n) (rw regroup at h))
