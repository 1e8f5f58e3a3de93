-- ===== src/ExtentMap.antt =====
-- extent_map.go: `ExtentMap`. The locks are not modelled: every operation here runs under one lock.
-- Nor are log lines, metrics, the slices that are kept for reuse, and the checks of debug mode.
pub mod Table
pub mod Carve
pub mod Lower
pub mod Apply
pub mod Locate
pub mod Run
pub mod Floor
pub mod Update
pub mod Blocks
pub mod Carved
pub mod Usage
pub mod Setting
pub mod Replacing
pub mod Examples
pub mod Resolve
pub mod Resolving
pub mod Parts
use lsvd.Base.{
  ℕ, ◌+◌, ◌-◌, ◌%◌, ◌^◌, Bool, true, false, ◌&&◌, List, [], ◌∷◌, ◌++◌, Option, some, none, ltb, leb,
  ◌==◌, if◌then◌else◌, length,
}
use lsvd.Base.Words.{add64, sub64, to32}
use lsvd.Base.Outcome.{Outcome, ok, err, panic, or_err, ◌>>=◌}
use lsvd.Extent.{
  Extent, zero_extent, extent_from, last, Cover, super_range, exact, partly, disjoint, cover,
}
use lsvd.Location.{SegmentId, ExtentHeader, ExtentLocation, PartialExtent}
use lsvd.Compact.{CompactPe, phys_extent, live, live_lba, set_live, from_header}
use lsvd.TreeMap.{TreeMap}
use mathlib.Core.List.{foldl}

pub data Error : Type 0 where
  new_range new_extent masked_extent : Error

-- `segLocations`
pub record SegLocation : Type 0 where
  pub seg : SegmentId
  pub disk : ℕ

abbrev same_location : SegLocation → SegLocation → Bool
same_location a b = (a.seg == b.seg) && (a.disk == b.disk)

-- The two Go maps of the segment table, as association lists with the newest entry first.
pub record SegTable : Type 0 where
  pub by_desc : List (SegLocation × ℕ)
  pub by_idx : List (ℕ × SegLocation)

unfoldable pub lookup_desc : SegLocation → List (SegLocation × ℕ) → Option ℕ
lookup_desc k [] = none
lookup_desc k ((j, i) ∷ m) = if same_location j k then some i else lookup_desc k m

-- A missing index reads as the zero value.
unfoldable pub lookup_idx : ℕ → List (ℕ × SegLocation) → SegLocation
lookup_idx i [] = record { seg = 0; disk = 0 }
lookup_idx i ((j, l) ∷ m) = if j == i then l else lookup_idx i m

add_segment : SegTable → SegLocation → Option ℕ → SegTable × ℕ
add_segment t key (some idx) = (t, idx)
add_segment t key none =
    let idx = to32 (length t.by_desc) in
    (record { by_desc = (key, idx) ∷ t.by_desc; by_idx = (idx, key) ∷ t.by_idx }, idx)

-- `segmentIdx`: the index of a segment, which a new segment gets here.
unfoldable pub segment_idx : SegTable → ExtentLocation → SegTable × ℕ
unfolding lookup_desc add_segment
segment_idx t loc =
    let key : SegLocation = record { seg = loc.segment; disk = loc.disk } in
    add_segment t key (lookup_desc key t.by_desc)

-- The location of an entry, and `ToPE`.
unfoldable pub location_of : SegTable → CompactPe → ExtentLocation
unfolding phys_extent lookup_idx
location_of t c =
    let sl = lookup_idx c.seg_idx t.by_idx in
    record {
      header = record {
        extent = phys_extent c;
        size = c.byte_size;
        offset = c.offset;
        raw_size = c.raw_size;
      };
      segment = sl.seg;
      disk = sl.disk;
    }

unfoldable pub to_pe : SegTable → CompactPe → PartialExtent
unfolding location_of
to_pe t c = record { live = live c; location = location_of t c }

-- The first case of the first loop, where the new range is a hole in `cur`: the entry for what lies
-- behind the hole, if anything does,
suffix_of : CompactPe → Option Extent → Outcome Error (List CompactPe)
suffix_of cur none = ok []
suffix_of cur (some suffix) = do dup ← set_live cur suffix; ok (dup ∷ [])

-- and `cur` cut down to what lies before it.
prefix_of : CompactPe → Extent → Option Extent → Outcome Error CompactPe
prefix_of cur rng none = ok cur
prefix_of cur rng (some prefix) = if ltb 0 rng.lba then set_live cur prefix else ok cur

-- What one round makes of `cur`: the entry to leave in its place, the entry for `affected`, and the
-- entries for `toAdd`.
pub record Round : Type 0 where
  pub kept : CompactPe
  pub masked : CompactPe
  pub added : List CompactPe

unfoldable pub punch_hole : CompactPe → Extent → Outcome Error Round
unfolding suffix_of prefix_of
punch_hole cur rng = do
  added ← suffix_of cur (extent_from (add64 (last rng) 1) (last (live cur)))
  kept ← prefix_of cur rng (extent_from (live_lba cur) (sub64 rng.lba 1))
  masked ← set_live kept rng
  ok (record { kept = kept; masked = masked; added = added })

clobber : CompactPe → Extent → Outcome Error Round
clobber cur rng = do
  masked ← set_live cur rng
  ok (record { kept = cur; masked = masked; added = [] })

shrink : CompactPe → Extent → Outcome Error Round
shrink cur rng = do
  update ← or_err (extent_from (live_lba cur) (sub64 rng.lba 1)) new_range
  masked ← or_err (extent_from rng.lba (last (live cur))) new_range
  kept ← set_live cur update
  rem ← set_live kept masked
  ok (record { kept = kept; masked = rem; added = [] })

-- The last case: the new range begins inside `cur` and goes on behind it.
unfoldable pub cut_tail : CompactPe → Extent → Outcome Error Round
unfolding clobber shrink
cut_tail cur rng = elim (cover rng (live cur)) [
  | super_range ↦ clobber cur rng
  | _ ↦ shrink cur rng
]

-- The variables of `update`.
pub record Scratch (M : Type 0) : Type 0 where
  pub map : M
  pub to_delete : List ℕ
  pub to_add : List CompactPe
  pub affected : List PartialExtent

-- The second loop's case of an entry that begins inside the new range and ends behind it.
unfoldable pub cut_front : CompactPe → Extent → Outcome Error Round
cut_front cur rng = do
  update ← or_err (extent_from (add64 (last rng) 1) (last (live cur))) new_extent
  rem_live ← or_err (extent_from (live_lba cur) (last rng)) masked_extent
  rem ← set_live cur rem_live
  kept ← set_live rem update
  ok (record { kept = kept; masked = rem; added = kept ∷ [] })

pub record ExtentMap (M : Type 0) : Type 0 where
  pub m : M
  pub table : SegTable

module _ (T : TreeMap CompactPe) where
  open T use {Map, empty, entries, floor, lower_bound, set, del, write}

  abbrev pub new_extent_map : ExtentMap Map
  new_extent_map = record { m = empty; table = record { by_desc = []; by_idx = [] } }

  unfoldable pub after_round : SegTable → ℕ → Scratch Map → Round → Scratch Map
  after_round t key s r = record s {
    map = write s.map key r.kept;
    to_add = s.to_add ++ r.added;
    affected = s.affected ++ to_pe t r.masked ∷ [];
  }

  -- The first loop, over the iterator from `Floor`.
  unfoldable pub floor_loop :
      SegTable → Extent → List (ℕ × CompactPe) → Scratch Map → Outcome Error (Scratch Map)
  unfolding after_round
  floor_loop t rng [] s = ok s
  floor_loop t rng ((key, cur) ∷ rest) s =
      let exact_case =
        floor_loop t rng rest (record s { affected = s.affected ++ to_pe t cur ∷ [] }) in
      let hole_case = punch_hole cur rng >>= λ r. floor_loop t rng rest (after_round t key s r) in
      let tail_case = cut_tail cur rng >>= λ r. floor_loop t rng rest (after_round t key s r) in
      if leb rng.lba key then ok s else elim (cover (live cur) rng) [
        | disjoint ↦ ok s
        | exact ↦ exact_case
        | super_range ↦ hole_case
        | partly ↦ tail_case
      ]

  -- The second loop, over the iterator from `LowerBound`.
  unfoldable pub lower_loop :
      SegTable → Extent → List (ℕ × CompactPe) → Scratch Map → Outcome Error (Scratch Map)
  unfolding after_round
  lower_loop t rng [] s = ok s
  lower_loop t rng ((key, cur) ∷ rest) s =
      let delete_case = lower_loop t rng rest (record s {
        to_delete = s.to_delete ++ key ∷ [];
        affected = s.affected ++ to_pe t cur ∷ [];
      }) in
      let front_case = cut_front cur rng >>= λ r.
      lower_loop t rng rest
        (record (after_round t key s r) { to_delete = s.to_delete ++ key ∷ [] }) in
      elim (cover rng (live cur)) [
        | disjoint ↦ ok s
        | partly ↦ front_case
        | super_range ↦ delete_case
        | exact ↦ delete_case
      ]

  unfoldable pub del_all : Map → List ℕ → Map
  del_all = foldl del

  unfoldable pub set_all : Map → List CompactPe → Map
  set_all = foldl λ m c. set m (live_lba c) c

  -- `set`
  unfoldable pub set_pe : ExtentMap Map → PartialExtent → Outcome Error (ExtentMap Map)
  set_pe e pe = do
    let (table, idx) = segment_idx e.table pe.location
    ce ← set_live (from_header pe.location.header idx) pe.live
    ok (record { m = set e.m (live_lba ce) ce; table = table })

  -- `update`, which appends to `affected` what the new extent hides of the older ones.
  unfoldable pub update :
      ExtentMap Map
      → ExtentLocation
      → List PartialExtent
      → Outcome Error (ExtentMap Map × List PartialExtent)
  unfolding floor_loop lower_loop del_all set_all set_pe
  update e pba affected = do
    let rng = pba.header.extent
    s ←
        floor_loop e.table rng (floor e.m rng.lba)
          (record { map = e.m; to_delete = []; to_add = []; affected = affected })
    s' ← lower_loop e.table rng (lower_bound s.map rng.lba) s
    let m' = set_all (del_all s'.map s'.to_delete) s'.to_add
    e' ← set_pe (record { m = m'; table = e.table }) (record { live = rng; location = pba })
    ok (e', s'.affected)
