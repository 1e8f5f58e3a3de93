-- ===== src/Segments/Picking.antt =====
-- segments.go: which segment `PickSegmentToGC` picks, and which `LeastDenseSegment` returns.
use lsvd.Base.{ℕ, ◌≡◌, refl, Bool, false, ◌||◌, List, Option, some, none, arith}
use lsvd.Base.Outcome.{Outcome, ok, err, panic, ◌>>=◌}
use lsvd.Location.{SegmentId}
use lsvd.Segments.{Segment, Segments, find}
use lsvd.Segments.Choice.{
  Float, sorted_segments, has_id, density, passed_over, choose, least_dense_segment,
  pick_segment_to_gc,
}
use lsvd.Segments.Listing.{Seen}
use lsvd.Segments.Choosing.{IsOrder, Beats, Candidate, Chooses, sorted_segments-Seen, choose_all}

module _ (X : Float) (L : IsOrder X) where
  open X use {F, less}

  module _ (ss : Segments) (min : F) (skip : List SegmentId) where
    -- What `PickSegmentToGC` considers: not deleted, not to be skipped, and not denser than `min`.
    abbrev pub Eligible : SegmentId → Segment → Type 0
    Eligible j h =
        (find j ss ≡ some h)
        × (h.deleted ≡ false)
        × (has_id skip j ≡ false)
        × (less min (density X h) ≡ false)

    abbrev pub Picks : {E : Type 0} → Outcome E (Option SegmentId) → Type 0
    Picks (ok none) = (j : SegmentId) (h : Segment) → Eligible j h → ⊥
    Picks (ok (some k)) =
        (g : Segment) × Eligible k g
        × ((j : SegmentId) (h : Segment) → Eligible j h → Beats X (k, g) (j, h))
    Picks (err e) = ⊥
    Picks panic = ⊥

    abbrev skips : SegmentId → F → Bool
    skips k d = has_id skip k || less min d

    Eligible-Candidate : (j : SegmentId) (h : Segment) → Eligible j h → Candidate X L skips ss j h
    unfolding passed_over
    Eligible-Candidate j h e = (e.0, rw (e.1, e.2, e.3) refl)

    Candidate-Eligible : (j : SegmentId) (h : Segment) → Candidate X L skips ss j h → Eligible j h
    unfolding passed_over
    Candidate-Eligible j h (e, p) = (e, ground (arith, p), ground (arith, p), ground (arith, p))

    -- When the order of the densities is that of numbers: `PickSegmentToGC` does not panic. The segment
    -- that it picks is recorded and not deleted, is none of those to skip and not denser than the limit;
    -- no other such segment is less dense, and none that is as dense has a smaller id. It picks none
    -- only when there is no such segment.
    pub pick_segment_to_gc-Picks : (E : Type 0) → Picks (pick_segment_to_gc X {E = E} ss min skip)
    unfolding pick_segment_to_gc
    pick_segment_to_gc-Picks E =
        picked (choose X {E = E} skips ss (sorted_segments ss) none) (choose_all X L skips ss E)
      where
        picked :
            (x : Outcome E (Option (SegmentId × Segment)))
            → Chooses X L skips ss (Seen (λ _. ⊥) (sorted_segments ss)) x
            → Picks (x >>= λ best. ok (elim best [ none ↦ none | some (k, g) ↦ some k ]))
        picked (ok none) h =
            λ j f e. h j f (sorted_segments-Seen X L skips ss j f e.0) (Eligible-Candidate j f e)
        picked (ok (some (k, g))) h = (
          g,
          Candidate-Eligible k g h.0,
          λ j f e. h.2 j f (sorted_segments-Seen X L skips ss j f e.0) (Eligible-Candidate j f e),
        )
        picked (err x) h = h
        picked panic h = h

  module _ (ss : Segments) where
    -- What `LeastDenseSegment` may return.
    abbrev pub Live : SegmentId → Segment → Type 0
    Live j h = (find j ss ≡ some h) × (h.deleted ≡ false)

    abbrev pub IsLeast : {E : Type 0} → Outcome E (Option (SegmentId × ℕ)) → Type 0
    IsLeast (ok none) = (j : SegmentId) (h : Segment) → Live j h → ⊥
    IsLeast (ok (some (k, used))) =
        (g : Segment) × Live k g
        × (used ≡ g.used)
        × ((j : SegmentId) (h : Segment) → Live j h → Beats X (k, g) (j, h))
    IsLeast (err e) = ⊥
    IsLeast panic = ⊥

    abbrev no_skips : SegmentId → F → Bool
    no_skips k d = false

    Live-Candidate : (j : SegmentId) (h : Segment) → Live j h → Candidate X L no_skips ss j h
    unfolding passed_over
    Live-Candidate j h e = (e.0, rw e.1 refl)

    Candidate-Live : (j : SegmentId) (h : Segment) → Candidate X L no_skips ss j h → Live j h
    unfolding passed_over
    Candidate-Live j h (e, p) = (e, ground (arith, p))

    -- When the order of the densities is that of numbers: `LeastDenseSegment` does not panic. It returns a
    -- recorded segment that is not deleted, with its blocks in use; no other such segment is less dense,
    -- and none that is as dense has a smaller id. It returns none only when every segment is deleted.
    pub least_dense_segment-IsLeast : (E : Type 0) → IsLeast (least_dense_segment X {E = E} ss)
    unfolding least_dense_segment
    least_dense_segment-IsLeast E =
        returned (choose X {E = E} no_skips ss (sorted_segments ss) none)
          (choose_all X L no_skips ss E)
      where
        returned :
            (x : Outcome E (Option (SegmentId × Segment)))
            → Chooses X L no_skips ss (Seen (λ _. ⊥) (sorted_segments ss)) x
            → IsLeast
                (x >>= λ best. ok (elim best [ none ↦ none | some (k, g) ↦ some (k, g.used) ]))
        returned (ok none) h =
            λ j f e. h j f (sorted_segments-Seen X L no_skips ss j f e.0) (Live-Candidate j f e)
        returned (ok (some (k, g))) h = (
          g,
          Candidate-Live k g h.0,
          refl,
          λ j f e. h.2 j f (sorted_segments-Seen X L no_skips ss j f e.0) (Live-Candidate j f e),
        )
        returned (err x) h = h
        returned panic h = h
