-- ===== src/Segments/Examples.antt =====
-- segments.go: concrete runs, and the theorems at concrete inputs.
use lsvd.Base.{ℕ, ◌*◌, ◌/◌, ◌≡◌, refl, inl, inr, List, [], ◌∷◌, some, false, arith, ltb, Bool-cases}
use lsvd.Base.Outcome.{ok}
use lsvd.Extent.{contains}
use lsvd.Location.{ExtentLocation}
use lsvd.Compact.{live, live_lba, live_blocks, phys_lba, phys_blocks, phys_extent}
use lsvd.ExtentMap.{ExtentMap, lookup_idx, location_of}
use lsvd.ExtentMap.Examples.{store, one_extent, location_at, one_extent-IsMap}
use lsvd.ExtentMap.Setting.{find_block}
use lsvd.Segments.{Segments, find, prune_dead_segments, find_deleted}
use lsvd.Segments.Commit.{commit}
use lsvd.Segments.Committing.{Accounts, latest, commit-Settles}
use lsvd.Segments.Choice.{Float, pick_segment_to_gc, least_dense_segment}
use lsvd.Segments.Choosing.{IsOrder}
use lsvd.Segments.Picking.{Picks, IsLeast, pick_segment_to_gc-Picks, least_dense_segment-IsLeast}
use lsvd.Segments.Pruning.{listed, prune-Accounts, find_deleted-Keeps}

-- Segment 7 holds the extent of the map, segment 5 has nothing in use.
abbrev two_segments : Segments
two_segments =
    (7, record { size = 20; used = 11; deleted = false })
    ∷ (5, record { size = 20; used = 0; deleted = false })
    ∷ []

two_segments-Accounts : Accounts store one_extent two_segments []
unfolding find live live_lba live_blocks phys_lba phys_blocks lookup_idx location_of
two_segments-Accounts = record { ordered = one_extent-IsMap; charged = λ s. ground arith }

prune_runs :
    find_deleted (prune_dead_segments two_segments).0
    ≡ ((7, record { size = 20; used = 11; deleted = false }) ∷ [], 5 ∷ [])
unfolding find_deleted prune_dead_segments
prune_runs = refl

-- Two extents of new segments, the second over the first.
abbrev new_extents : List ExtentLocation
new_extents = location_at 12 4 8 ∷ location_at 14 8 8 ∷ []

commit-Settles_example :
    (em' : ExtentMap store.Map) × (ss' : Segments) × (commit store 8 12 new_extents one_extent
        two_segments
      ≡ ok (em', ss'))
    × Accounts store em' ss' []
    × ((x : ℕ) → find_block store em' x ≡ latest new_extents x (find_block store one_extent x))
unfolding live live_lba live_blocks phys_lba phys_blocks lookup_idx location_of
commit-Settles_example =
    commit-Settles store one_extent two_segments 8 12 new_extents two_segments-Accounts refl
      (refl, (refl, tt)) refl (omega arith) (omega arith) (omega arith)

prune-Accounts_example : Accounts store one_extent (prune_dead_segments two_segments).0 []
prune-Accounts_example = prune-Accounts store one_extent two_segments two_segments-Accounts

find_deleted-Keeps_example :
    (listed 7 (find_deleted (prune_dead_segments two_segments).0).1 ≡ false)
    × (find 7 (find_deleted (prune_dead_segments two_segments).0).0
        ≡ some (record { size = 20; used = 11; deleted = false }))
unfolding find live live_lba live_blocks phys_lba phys_blocks lookup_idx location_of phys_extent
    contains
find_deleted-Keeps_example =
    find_deleted-Keeps store one_extent two_segments 12 (location_at 10 11 7)
      (record { size = 20; used = 11; deleted = false }) two_segments-Accounts (refl, (refl, tt))
      refl refl

-- Densities in thousandths.
abbrev thousandths : Float
thousandths = record { F = ℕ; float_zero = 0; ratio = λ used size. used * 1000 / size; less = ltb }

thousandths-IsOrder : IsOrder thousandths
thousandths-IsOrder = record {
  asym = λ a b h. ground arith;
  between = λ a b c h. elim (Bool-cases (ltb a b)) [ inl x ↦ inl x | inr x ↦ inr (ground arith) ];
}

pick_runs : pick_segment_to_gc thousandths {E = ℕ} two_segments 600 (5 ∷ []) ≡ ok (some 7)
unfolding pick_segment_to_gc
pick_runs = refl

pick_segment_to_gc-Picks_example :
    Picks thousandths thousandths-IsOrder two_segments 600
      (5 ∷ [])
      (pick_segment_to_gc thousandths {E = ℕ} two_segments 600 (5 ∷ []))
pick_segment_to_gc-Picks_example =
    pick_segment_to_gc-Picks thousandths thousandths-IsOrder two_segments 600 (5 ∷ []) ℕ

least_dense_segment-IsLeast_example :
    IsLeast thousandths thousandths-IsOrder two_segments
      (least_dense_segment thousandths {E = ℕ} two_segments)
least_dense_segment-IsLeast_example =
    least_dense_segment-IsLeast thousandths thousandths-IsOrder two_segments ℕ
