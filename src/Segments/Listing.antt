-- ===== src/Segments/Listing.antt =====
-- segments.go: `sortedSegments`, and what a loop over it sees.
use lsvd.Base.{
  ◌≤◌, ◌≡◌, refl, ◌∙◌, ◌⊎◌, inl, inr, true, List, [], ◌∷◌, some, arith, ltb, ◌==◌, if◌then◌else◌,
  All, Bool-cases, both_branches,
}
use lsvd.Location.{SegmentId}
use lsvd.Segments.{Segment, Segments, find, segment_ids}
use lsvd.Segments.Choice.{insert_id, sorted_ids, has_id}

All-map {ℓ κ μ} :
    {A : Type ℓ} (P : A → Type κ) (Q : A → Type μ)
    → ((a : A) → P a → Q a)
    → (xs : List A) → All P xs
    → All Q xs
All-map P Q f [] h = tt
All-map P Q f (x ∷ xs) h = (f x h.0, All-map P Q f xs h.1)

-- The sorted list of the segments.
abbrev pub Sorted : List SegmentId → Type 0
Sorted [] = Unit {0}
Sorted (k ∷ ks) = All (λ j. k ≤ j) ks × Sorted ks

insert_id-All :
    (P : SegmentId → Type 0) (k : SegmentId) (js : List SegmentId)
    → P k
    → All P js
    → All P (insert_id k js)
unfolding insert_id
insert_id-All P k [] p h = (p, tt)
insert_id-All P k (j ∷ js) p h =
    both_branches (All P) (ltb j k) (λ _. (h.0, insert_id-All P k js p h.1)) (λ _. (p, h))

insert_id-Sorted : (k : SegmentId) (js : List SegmentId) → Sorted js → Sorted (insert_id k js)
unfolding insert_id
insert_id-Sorted k [] h = (tt, tt)
insert_id-Sorted k (j ∷ js) h =
    both_branches Sorted (ltb j k)
      (λ before.
        (insert_id-All (λ i. j ≤ i) k js (ground (arith, before)) h.0, insert_id-Sorted k js h.1))
      (λ after.
        let le : k ≤ j = ground (arith, after) in
        ((le, All-map (λ i. j ≤ i) (λ i. k ≤ i) (λ i l. omega (arith, l, le)) js h.0), h))

pub sorted_ids-Sorted : (ks : List SegmentId) → Sorted (sorted_ids ks)
unfolding sorted_ids
sorted_ids-Sorted [] = tt
sorted_ids-Sorted (k ∷ ks) = insert_id-Sorted k (sorted_ids ks) (sorted_ids-Sorted ks)

pub sorted_ids-All :
    (P : SegmentId → Type 0) (ks : List SegmentId) → All P ks → All P (sorted_ids ks)
unfolding sorted_ids
sorted_ids-All P [] h = tt
sorted_ids-All P (k ∷ ks) h = insert_id-All P k (sorted_ids ks) h.0 (sorted_ids-All P ks h.1)

has_id-insert_id :
    (k : SegmentId) (js : List SegmentId) (i : SegmentId)
    → has_id (insert_id k js) i ≡ (if k == i then true else has_id js i)
unfolding has_id insert_id
has_id-insert_id k [] i = refl
has_id-insert_id k (j ∷ js) i = ground (arith, has_id-insert_id k js i)

pub has_id-sorted_ids :
    (ks : List SegmentId) (i : SegmentId) → has_id (sorted_ids ks) i ≡ has_id ks i
unfolding has_id sorted_ids
has_id-sorted_ids [] i = refl
has_id-sorted_ids (k ∷ ks) i =
    has_id-insert_id k (sorted_ids ks) i ∙ rw (has_id-sorted_ids ks i) refl

-- Each of them is in the map, and each of the map is among them.
abbrev pub Found : Segments → SegmentId → Type 0
Found ss j = (g : Segment) × (find j ss ≡ some g)

Found-cons :
    (k : SegmentId) (g : Segment) (ss : Segments) (j : SegmentId)
    → Found ss j
    → Found ((k, g) ∷ ss) j
unfolding find
Found-cons k g ss j (h, e) =
    both_branches (λ o. (h : Segment) × (o ≡ some h)) (k == j) (λ _. (g, refl)) (λ _. (h, e))

pub segment_ids-Found : (ss : Segments) → All (Found ss) (segment_ids ss)
unfolding segment_ids find
segment_ids-Found [] = tt
segment_ids-Found ((k, g) ∷ ss) = (
  (g, ground arith),
  All-map (Found ss) (Found ((k, g) ∷ ss)) (Found-cons k g ss) (segment_ids ss)
      (segment_ids-Found ss),
)

pub find-has_id :
    (ss : Segments) (j : SegmentId) (h : Segment)
    → find j ss ≡ some h
    → has_id (segment_ids ss) j ≡ true
unfolding find segment_ids has_id
find-has_id [] j h e = absurd (cc e)
find-has_id ((k, g) ∷ ss) j h e = elim (Bool-cases (k == j)) [
  | inl same ↦ rw same refl
  | inr other ↦ rw other (find-has_id ss j h (rw other at e))
]

-- What a loop over a list has seen in the end.
abbrev pub Seen : (SegmentId → Type 0) → List SegmentId → SegmentId → Type 0
Seen seen [] = seen
Seen seen (k ∷ ks) = Seen (λ j. seen j ⊎ (j ≡ k)) ks

Seen-before :
    (seen : SegmentId → Type 0) (ks : List SegmentId) (j : SegmentId) → seen j → Seen seen ks j
Seen-before seen [] j h = h
Seen-before seen (k ∷ ks) j h = Seen-before (λ i. seen i ⊎ (i ≡ k)) ks j (inl h)

pub has_id-Seen :
    (seen : SegmentId → Type 0) (ks : List SegmentId) (j : SegmentId)
    → has_id ks j ≡ true
    → Seen seen ks j
unfolding has_id
has_id-Seen seen [] j h = absurd (cc h)
has_id-Seen seen (k ∷ ks) j h = elim (Bool-cases (k == j)) [
  | inl same ↦ Seen-before (λ i. seen i ⊎ (i ≡ k)) ks j (inr (ground (arith, same)))
  | inr other ↦ has_id-Seen (λ i. seen i ⊎ (i ≡ k)) ks j (rw other at h)
]
