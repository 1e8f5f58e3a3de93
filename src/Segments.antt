-- ===== src/Segments.antt =====
-- segments.go: `Segments`, with `Segment` of headers.go: how many of its blocks each segment still has
-- in use. The Go map is an association list. The lock, log lines and the `cleared` lists of debug mode
-- are not modelled. Sizes are uint64.
pub mod Find
pub mod Commit
pub mod Committing
pub mod Pruning
pub mod Choice
pub mod Listing
pub mod Choosing
pub mod Picking
mod Examples
use lsvd.Base.{
  ℕ, ◌+◌, ◌*◌, ◌%◌, ◌^◌, Bool, true, false, not, List, [], ◌∷◌, ◌++◌, Option, some, none, ltb, leb,
  ◌==◌, if◌then◌else◌,
}
use lsvd.Base.Words.{add64, sub64}
use lsvd.Extent.{block_size}
use lsvd.Location.{SegmentId, ExtentLocation, PartialExtent}
use mathlib.Core.List.{map, foldl}

pub record Segment : Type 0 where
  pub size : ℕ
  pub used : ℕ
  pub deleted : Bool

abbrev pub Segments : Type 0
Segments = List (SegmentId × Segment)

abbrev pub new_segments : Segments
new_segments = []

unfoldable pub find : SegmentId → Segments → Option Segment
find k [] = none
find k ((j, g) ∷ ss) = if j == k then some g else find k ss

-- An assignment to a key of the map.
unfoldable pub put : SegmentId → Segment → Segments → Segments
put k g [] = (k, g) ∷ []
put k g ((j, h) ∷ ss) = if j == k then (k, g) ∷ ss else (j, h) ∷ put k g ss

unfoldable pub segment_ids : Segments → List SegmentId
segment_ids [] = []
segment_ids ((k, g) ∷ ss) = k ∷ segment_ids ss

unfoldable pub live_segments : Segments → List SegmentId
live_segments [] = []
live_segments ((k, g) ∷ ss) = if g.deleted then live_segments ss else k ∷ live_segments ss

unfoldable pub segment_blocks : Segments → SegmentId → ℕ × ℕ
unfolding find
segment_blocks ss k = elim (find k ss) [ none ↦ (0, 0) | some stats ↦ (stats.size, stats.used) ]

-- The loops of `TotalBytes`, `Usage` and `PruneDeadSegments` over the sizes.
abbrev add_size : ℕ → SegmentId × Segment → ℕ
add_size size (k, g) = if g.deleted then size else add64 size g.size

unfoldable pub total_bytes : Segments → ℕ
total_bytes ss = foldl add_size 0 ss * block_size % 2 ^ 64

-- `SetSegment`, and `Create` with the number of blocks of the statistics.
unfoldable pub set_segment : SegmentId → ℕ → ℕ → Segments → Segments
unfolding put
set_segment k total used ss = put k (record { size = total; used = used; deleted = false }) ss

unfoldable pub create : SegmentId → ℕ → Segments → Segments
unfolding put
create k blocks ss = put k (record { size = blocks; used = blocks; deleted = false }) ss

unfoldable pub create_or_update : SegmentId → ℕ → Segments → Segments
unfolding find put
create_or_update k used_blocks ss = elim (find k ss) [
  | some seg ↦ put k (record seg { used = add64 seg.used used_blocks }) ss
  | none ↦ put k (record { size = 0; used = used_blocks; deleted = false }) ss
]

-- One round of the loop of `UpdateUsage`: `seg.Used -= uint64(rng.Blocks)`, through the pointer.
unfoldable pub use_less : PartialExtent → Segments → Segments
unfolding find put
use_less r ss = elim (find r.location.segment ss) [
  | none ↦ ss
  | some seg ↦
      if seg.deleted
      then ss
      else put r.location.segment (record seg { used = sub64 seg.used r.live.blocks }) ss
]

unfoldable pub update_usage : List PartialExtent → Segments → Segments
unfolding use_less
update_usage [] ss = ss
update_usage (r ∷ affected) ss = update_usage affected (use_less r ss)

abbrev pub bury : Segment → Segment
bury g = if g.deleted then g else if g.used == 0 then record g { deleted = true } else g

-- `PruneDeadSegments` marks the segments without a block in use, and counts them. The percentage that
-- it also returns is not modelled.
unfoldable pub prune_dead_segments : Segments → Segments × ℕ
prune_dead_segments [] = ([], 0)
prune_dead_segments ((k, g) ∷ ss) =
    let (rest, dead) = prune_dead_segments ss in
    ((k, bury g) ∷ rest, if g.deleted then dead else if g.used == 0 then dead + 1 else dead)

unfoldable pub set_deleted : SegmentId → Segments → Segments
unfolding find put
set_deleted k ss = elim (find k ss) [
  | some seg ↦ put k (record seg { deleted = true }) ss
  | none ↦ ss
]

abbrev pub marked : Segments → List SegmentId
marked [] = []
marked ((k, g) ∷ ss) = if g.deleted then k ∷ marked ss else marked ss

unfoldable pub delete : Segments → SegmentId → Segments
delete [] k = []
delete ((j, g) ∷ ss) k = if j == k then delete ss k else (j, g) ∷ delete ss k

-- `FindDeleted` returns the marked segments and takes them out of the map.
unfoldable pub find_deleted : Segments → Segments × List SegmentId
unfolding delete
find_deleted ss = (foldl delete ss (marked ss), marked ss)

unfoldable pub all_dead_segments : Segments → List SegmentId
all_dead_segments [] = []
all_dead_segments ((k, g) ∷ ss) =
    let rest = all_dead_segments ss in
    if g.deleted then rest else if g.used == 0 then k ∷ rest else rest

-- `FindSmallSegments`, with its `max += used`.
unfoldable pub find_small : ℕ → ℕ → ℕ → Segments → List SegmentId
find_small cutoff max used [] = []
find_small cutoff max used ((k, g) ∷ ss) =
    let used' = add64 used g.used in
    let taken = k ∷ find_small cutoff (add64 max used') used' ss in
    let passed = find_small cutoff max used ss in
    if g.deleted
    then passed
    else if leb g.used cutoff
    then (if ltb max used' then [] else taken)
    else passed

unfoldable pub find_small_segments : ℕ → ℕ → Segments → List SegmentId
unfolding find_small
find_small_segments cutoff max ss = find_small cutoff max 0 ss
