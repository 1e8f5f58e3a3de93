-- ===== src/ExtentMap/Resolve.antt =====
-- extent_map.go: `Resolve`, the entries that hold blocks of a range. The loop at its end only logs,
-- and its error is for a value of `Cover` that the type does not have.
use lsvd.Base.{ℕ, List, [], ◌∷◌, ◌++◌, leb, if◌then◌else◌}
use lsvd.Extent.{Extent, super_range, exact, partly, disjoint, cover}
use lsvd.Location.{PartialExtent}
use lsvd.Compact.{CompactPe, live}
use lsvd.TreeMap.{TreeMap}
use lsvd.ExtentMap.{ExtentMap, SegTable, to_pe}

unfoldable pub resolve_floor :
    SegTable → Extent → List (ℕ × CompactPe) → List PartialExtent → List PartialExtent
resolve_floor t rng [] ret = ret
resolve_floor t rng ((key, cur) ∷ rest) ret =
    let found = ret ++ to_pe t cur ∷ [] in
    let go_on = resolve_floor t rng rest found in
    if leb rng.lba key then ret else elim (cover (live cur) rng) [
      | partly ↦ go_on
      | super_range ↦ found
      | exact ↦ found
      | disjoint ↦ ret
    ]

unfoldable pub resolve_lower :
    SegTable → Extent → List (ℕ × CompactPe) → List PartialExtent → List PartialExtent
resolve_lower t rng [] ret = ret
resolve_lower t rng ((key, cur) ∷ rest) ret =
    let found = ret ++ to_pe t cur ∷ [] in
    let go_on = resolve_lower t rng rest found in
    elim (cover (live cur) rng) [
      | disjoint ↦ ret
      | super_range ↦ found
      | exact ↦ found
      | partly ↦ go_on
    ]

module _ (T : TreeMap CompactPe) where
  open T use {Map, floor, lower_bound}

  unfoldable pub resolve : ExtentMap Map → Extent → List PartialExtent → List PartialExtent
  unfolding resolve_floor resolve_lower
  resolve e rng ret =
      resolve_lower e.table rng (lower_bound e.m rng.lba)
        (resolve_floor e.table rng (floor e.m rng.lba) ret)
