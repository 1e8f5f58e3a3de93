-- ===== src/Segments/Choosing.antt =====
-- segments.go: the loop that `LeastDenseSegment` and `PickSegmentToGC` choose a segment with.
use lsvd.Base.{
  ◌≤◌, ◌≡◌, refl, ◌∙◌, ◌⊎◌, inl, inr, Bool, true, false, List, [], ◌∷◌, Option, some, none, arith,
  All, Bool-cases,
}
use lsvd.Base.Outcome.{Outcome, ok, err, panic}
use lsvd.Location.{SegmentId}
use lsvd.Segments.{Segment, Segments, find, segment_ids}
use lsvd.Segments.Choice.{Float, sorted_ids, sorted_segments, density, passed_over, smaller, choose}
use lsvd.Segments.Listing.{
  Sorted, sorted_ids-Sorted, sorted_ids-All, Found, segment_ids-Found, find-has_id,
  has_id-sorted_ids, Seen, has_id-Seen,
}

false_lem : (b : Bool) → (b ≡ true → ⊥) → b ≡ false
false_lem true h = absurd (h refl)
false_lem false h = refl

module _ (X : Float) where
  open X use {F, less}

  -- `<` on float64 values without NaN is a strict weak order.
  pub record IsOrder : Type 0 where
    pub asym : (a b : F) → less a b ≡ true → less b a ≡ false
    pub between : (a b c : F) → less a c ≡ true → (less a b ≡ true) ⊎ (less b c ≡ true)

  -- Not denser, and the first of those of the same density.
  abbrev pub Beats : SegmentId × Segment → SegmentId × Segment → Type 0
  Beats (k, g) (j, h) =
      (less (density X h) (density X g) ≡ false)
      × (less (density X g) (density X h) ≡ false → k ≤ j)

  module _ (L : IsOrder) where
    Beats-refl : (k : SegmentId) (g : Segment) → Beats (k, g) (k, g)
    Beats-refl k g = (
      false_lem (less (density X g) (density X g))
          (λ e. let f = L.asym (density X g) (density X g) e in cc (e, f)),
      λ _. omega arith,
    )

    Beats-less :
        (k : SegmentId) (g : Segment) (i : SegmentId) (f : Segment) (j : SegmentId) (h : Segment)
        → less (density X g) (density X f) ≡ true
        → Beats (i, f) (j, h)
        → Beats (k, g) (j, h)
    Beats-less k g i f j h lt b = (
      false_lem (less (density X h) (density X g)) (λ e.
          elim (L.between (density X h) (density X f) (density X g) e) [
            | inl x ↦ cc (x, b.0)
            | inr x ↦ let y = L.asym (density X g) (density X f) lt in cc (x, y)
          ]),
      λ e. elim (L.between (density X g) (density X h) (density X f) lt) [
        | inl x ↦ absurd (cc (x, e))
        | inr x ↦ absurd (cc (x, b.0))
      ],
    )

    module _ (skips : SegmentId → F → Bool) (ss : Segments) where
      abbrev pub Candidate : SegmentId → Segment → Type 0
      Candidate j h = (find j ss ≡ some h) × (passed_over X skips j h ≡ false)

      -- The best of the candidates among those that the loop has seen.
      abbrev pub Best : (SegmentId → Type 0) → Option (SegmentId × Segment) → Type 0
      Best seen none = (j : SegmentId) (h : Segment) → seen j → Candidate j h → ⊥
      Best seen (some (k, g)) =
          Candidate k g
          × seen k
          × ((j : SegmentId) (h : Segment) → seen j → Candidate j h → Beats (k, g) (j, h))

      Best-passed :
          (seen : SegmentId → Type 0) (best : Option (SegmentId × Segment)) (k : SegmentId)
          (g : Segment)
          → find k ss ≡ some g
          → passed_over X skips k g ≡ true
          → Best seen best
          → Best (λ j. seen j ⊎ (j ≡ k)) best
      Best-passed seen none k g e p h =
          λ j f s c. elim s [ inl before ↦ h j f before c | inr same ↦ cc (c.0, c.1, same, e, p) ]
      Best-passed seen (some b) k g e p h = (
        h.0,
        inl h.1,
        λ j f s c. elim s [
          | inl before ↦ h.2 j f before c
          | inr same ↦ absurd (cc (c.0, c.1, same, e, p))
        ],
      )

      Best-smaller :
          (seen : SegmentId → Type 0) (best : Option (SegmentId × Segment)) (k : SegmentId)
          (g : Segment)
          → Candidate k g
          → ((j : SegmentId) → seen j → j ≤ k)
          → Best seen best
          → Best (λ j. seen j ⊎ (j ≡ k)) (some (smaller X best (k, g)))
      unfolding smaller
      Best-smaller seen none k g e le h = (
        e,
        inr refl,
        λ j f s c. elim s [
          | inl before ↦ absurd (h j f before c)
          | inr same ↦
              let g_same : f ≡ g = cc (c.0, same, e.0) in rw (g_same, same) (Beats-refl k g)
        ],
      )
      Best-smaller seen (some (i, d)) k g e le h =
          elim (Bool-cases (less (density X g) (density X d))) [
            | inl lt ↦ rw lt (
              e,
              inr refl,
              λ j f s c. elim s [
                | inl before ↦ Beats-less k g i d j f lt (h.2 j f before c)
                | inr same ↦
                    let g_same : f ≡ g = cc (c.0, same, e.0) in rw (g_same, same) (Beats-refl k g)
              ],
            )
            | inr ge ↦ rw ge (
              h.0,
              inl h.1,
              λ j f s c. elim s [
                | inl before ↦ h.2 j f before c
                | inr same ↦
                    let g_same : f ≡ g = cc (c.0, same, e.0) in
                    rw (g_same, same) (ge, λ _. le i h.1)
              ],
            )
          ]

      abbrev pub Chooses :
          {E : Type 0} → (SegmentId → Type 0) → Outcome E (Option (SegmentId × Segment)) → Type 0
      Chooses seen (ok best) = Best seen best
      Chooses seen (err e) = ⊥
      Chooses seen panic = ⊥

      choose-Chooses :
          (E : Type 0) (seen : SegmentId → Type 0) (ks : List SegmentId)
          (best : Option (SegmentId × Segment))
          → Sorted ks
          → All (Found ss) ks
          → ((j : SegmentId) → seen j → All (λ k. j ≤ k) ks)
          → Best seen best
          → Chooses (Seen seen ks) (choose X {E = E} skips ss ks best)
      unfolding choose
      choose-Chooses E seen [] best s f le h = h
      choose-Chooses E seen (k ∷ ks) best s f le h =
          let (g, e) = f.0 in
          let le' : (j : SegmentId) → seen j ⊎ (j ≡ k) → All (λ i. j ≤ i) ks =
            λ j x. elim x [ inl before ↦ (le j before).1 | inr same ↦ rw same s.0 ] in
          rw (e, choose)
            (elim (Bool-cases (passed_over X skips k g)) [
              | inl passed ↦ rw passed (
                  choose-Chooses E (λ j. seen j ⊎ (j ≡ k)) ks best s.1 f.1 le'
                    (Best-passed seen best k g e passed h))
              | inr taken ↦ rw taken (
                  choose-Chooses E (λ j. seen j ⊎ (j ≡ k)) ks (some (smaller X best (k, g))) s.1 f.1
                    le' (Best-smaller seen best k g (e, taken) (λ j b. (le j b).0) h))
            ])

      -- The loop over the whole map.
      pub sorted_segments-Seen :
          (j : SegmentId) (h : Segment) → find j ss ≡ some h → Seen (λ _. ⊥) (sorted_segments ss) j
      unfolding sorted_segments
      sorted_segments-Seen j h e =
          has_id-Seen (λ _. ⊥) (sorted_ids (segment_ids ss)) j
            (has_id-sorted_ids (segment_ids ss) j ∙ find-has_id ss j h e)

      pub choose_all :
          (E : Type 0)
          → Chooses
              (Seen (λ _. ⊥) (sorted_segments ss))
              (choose X {E = E} skips ss (sorted_segments ss) none)
      unfolding sorted_segments
      choose_all E =
          choose-Chooses E (λ _. ⊥) (sorted_ids (segment_ids ss)) none
            (sorted_ids-Sorted (segment_ids ss))
            (sorted_ids-All (Found ss) (segment_ids ss) (segment_ids-Found ss)) (λ j x. absurd x)
            (λ j h x c. x)
