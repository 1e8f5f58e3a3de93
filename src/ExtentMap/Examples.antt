-- ===== src/ExtentMap/Examples.antt =====
-- extent_map.go: concrete runs, after extent_map_test.go, and the theorems at concrete inputs.
use lsvd.Base.{ℕ, ◌≡◌, ◌≢◌, All, refl, List, [], ◌∷◌, ◌++◌, none, arith, if◌then◌else◌}
use lsvd.Base.Outcome.{Outcome, ok}
use lsvd.Extent.{Extent, cover, disjoint, contains, last, extent_from}
use lsvd.Location.{ExtentLocation, PartialExtent}
use lsvd.Compact.{
  CompactPe, live, live_lba, live_blocks, phys_lba, phys_blocks, set_live, from_header,
}
use lsvd.TreeMap.{TreeMap}
use lsvd.TreeMap.Entries.{insert, replace, from_floor, from_lower_bound}
use lsvd.TreeMap.Model.{sorted_list}
use lsvd.ExtentMap.{ExtentMap, Error, new_extent_map, update, lookup_desc, segment_idx}
use lsvd.ExtentMap.{punch_hole, to_pe}
use mathlib.Core.List.{map}
use lsvd.ExtentMap.Resolve.{resolve}
use lsvd.ExtentMap.Table.{Assigns, segment_idx-Assigns}
use lsvd.ExtentMap.Blocks.{pe_at}
use lsvd.ExtentMap.Setting.{IsMap, find_block}
use lsvd.ExtentMap.Replacing.{Replaces, update-Replaces}
use lsvd.ExtentMap.Run.{Cuts}
use lsvd.ExtentMap.Update.{update-Cuts}
use lsvd.ExtentMap.Resolving.{resolve-Finds}

abbrev pub store : TreeMap CompactPe
store = sorted_list CompactPe

abbrev pub location_at : ℕ → ℕ → ℕ → ExtentLocation
location_at lba blocks seg = record {
  header = record {
    extent = record { lba = lba; blocks = blocks };
    size = 4096;
    offset = 0;
    raw_size = 0;
  };
  segment = seg;
  disk = 0;
}

abbrev entry_at : ℕ → ℕ → ℕ → ℕ → CompactPe
entry_at phys front back seg = record {
  phys_x = phys;
  live_lba_diff = front;
  live_block_diff = back;
  seg_idx = seg;
  byte_size = 4096;
  offset = 0;
  raw_size = 0;
}

-- One extent of 11 blocks from block 10 on, in segment 7.
abbrev pub one_extent : ExtentMap store.Map
one_extent = record {
  m = record { items = (10, entry_at 655371 0 0 0) ∷ []; sorted = omega arith };
  table = record {
    by_desc = (record { seg = 7; disk = 0 }, 0) ∷ [];
    by_idx = (0, record { seg = 7; disk = 0 }) ∷ [];
  };
}

-- The entries and the affected extents of a result.
abbrev shown :
    Outcome Error (ExtentMap store.Map × List PartialExtent) → List (ℕ × CompactPe) × List Extent
shown (ok (em, affected)) = (store.entries em.m, map (λ p. p.live) affected)
shown _ = ([], [])

first_runs :
    shown (update store (new_extent_map store) (location_at 10 11 7) [])
    ≡ (store.entries one_extent.m, [])
unfolding update set_live from_header segment_idx live_lba phys_lba phys_blocks from_floor
    from_lower_bound insert
first_runs = refl

-- An extent in the middle of an older one splits it.
hole_runs : shown (update store one_extent (location_at 12 4 8) []) ≡ (
  (10, entry_at 655371 0 9 0) ∷ (12, entry_at 786436 0 0 1) ∷ (16, entry_at 655371 6 6 0) ∷ [],
  record { lba = 12; blocks = 4 } ∷ [],
)
unfolding update set_live from_header segment_idx live_lba phys_lba phys_blocks from_floor
    from_lower_bound insert replace cover last extent_from live live_blocks punch_hole to_pe
hole_runs = refl

pub one_extent-IsMap : IsMap store one_extent
unfolding live live_lba live_blocks phys_lba phys_blocks lookup_desc
one_extent-IsMap = record {
  ordered = (omega arith, refl, omega arith, tt);
  indexed = (refl, refl, refl, refl, tt);
  known = (omega arith, tt);
}

update-Replaces_example : Replaces store one_extent (location_at 12 4 8) []
update-Replaces_example =
    update-Replaces store one_extent (location_at 12 4 8) [] one_extent-IsMap (omega arith)
      (omega arith)

abbrev wanted : Extent
wanted = record { lba = 4; blocks = 10 }

resolve-Finds_example :
    (found : List PartialExtent) × (resolve store one_extent wanted [] ≡ [] ++ found)
    × All (λ p. cover p.live wanted ≢ disjoint) found
    × ((x : ℕ)
        → (if contains wanted x then pe_at found x else none)
          ≡ (if contains wanted x then find_block store one_extent x else none))
resolve-Finds_example = resolve-Finds store one_extent wanted [] (omega arith) one_extent-IsMap

segment_idx-Assigns_example :
    Assigns one_extent.table
      (record { seg = 8; disk = 0 })
      (segment_idx one_extent.table (location_at 12 4 8))
segment_idx-Assigns_example =
    segment_idx-Assigns one_extent.table (location_at 12 4 8) one_extent-IsMap.indexed (omega arith)

update-Cuts_example : Cuts store one_extent wanted []
update-Cuts_example = update-Cuts store one_extent wanted [] (omega arith) one_extent-IsMap.ordered
