-- ===== src/Segments/Choice.antt =====
-- segments.go: `LeastDenseSegment` and `PickSegmentToGC`, which choose a segment by its density. A
-- density is a float64, which is a parameter.
use lsvd.Base.{
  ℕ, Bool, true, false, ◌||◌, List, [], ◌∷◌, Option, some, none, ltb, ◌==◌, if◌then◌else◌,
}
use lsvd.Base.Outcome.{Outcome, ok, panic, ◌>>=◌}
use lsvd.Location.{SegmentId}
use lsvd.Segments.{Segment, Segments, find, segment_ids}

-- The float64 values that a density can be, none of which is NaN.
pub record Float : Type 1 where
  pub F : Type 0
  pub float_zero : F
  -- `float64(used) / float64(size)` for a size that is not 0
  pub ratio : ℕ → ℕ → F
  pub less : F → F → Bool

-- `slices.SortFunc` by the bytes of the ULIDs.
unfoldable pub insert_id : SegmentId → List SegmentId → List SegmentId
insert_id k [] = k ∷ []
insert_id k (j ∷ js) = let rest = insert_id k js in if ltb j k then j ∷ rest else k ∷ j ∷ js

unfoldable pub sorted_ids : List SegmentId → List SegmentId
unfolding insert_id
sorted_ids [] = []
sorted_ids (k ∷ ks) = insert_id k (sorted_ids ks)

unfoldable pub sorted_segments : Segments → List SegmentId
unfolding sorted_ids segment_ids
sorted_segments ss = sorted_ids (segment_ids ss)

-- `slices.Contains`
unfoldable pub has_id : List SegmentId → SegmentId → Bool
has_id [] k = false
has_id (j ∷ js) k = if j == k then true else has_id js k

module _ (X : Float) where
  open X use {F, float_zero, ratio, less}

  unfoldable pub density : Segment → F
  density g = if g.size == 0 then float_zero else ratio g.used g.size

  -- What is in the way of a segment: that it is deleted, and the tests of `PickSegmentToGC`.
  unfoldable pub passed_over : (SegmentId → F → Bool) → SegmentId → Segment → Bool
  unfolding density
  passed_over skips k g = if g.deleted then true else skips k (density g)

  -- The smallest one so far, and the one that the loop comes to.
  unfoldable pub smaller : Option (SegmentId × Segment) → SegmentId × Segment → SegmentId × Segment
  unfolding density
  smaller none (k, g) = (k, g)
  smaller (some (j, h)) (k, g) = if less (density g) (density h) then (k, g) else (j, h)

  -- A segment that is not in the map would be a nil pointer.
  unfoldable pub choose {ℓ} :
      {E : Type ℓ}
      → (SegmentId → F → Bool)
      → Segments
      → List SegmentId
      → Option (SegmentId × Segment)
      → Outcome E (Option (SegmentId × Segment))
  unfolding find passed_over smaller
  choose skips ss [] best = ok best
  choose skips ss (k ∷ ks) best = elim (find k ss) [
    | none ↦ panic
    | some g ↦
        choose skips ss ks (if passed_over skips k g then best else some (smaller best (k, g)))
  ]

  unfoldable pub least_dense_segment {ℓ} :
      {E : Type ℓ} → Segments → Outcome E (Option (SegmentId × ℕ))
  unfolding choose sorted_segments
  least_dense_segment ss = choose (λ k d. false) ss (sorted_segments ss) none >>= λ best.
      ok (elim best [ none ↦ none | some (k, g) ↦ some (k, g.used) ])

  unfoldable pub pick_segment_to_gc {ℓ} :
      {E : Type ℓ} → Segments → F → List SegmentId → Outcome E (Option SegmentId)
  unfolding choose sorted_segments has_id
  pick_segment_to_gc ss min skip =
      choose (λ k d. has_id skip k || less min d) ss (sorted_segments ss) none >>= λ best.
      ok (elim best [ none ↦ none | some (k, g) ↦ some k ])
