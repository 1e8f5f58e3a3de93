-- ===== src/Segments/Commit.antt =====
-- What a new segment does to the extent map and the segments: `UpdateBatch` of extent_map.go, and in
-- control.go `closeSegment` from `d.s.Create` to `UpdateBatch`. The source logs an error of `update` and
-- goes on with the entries after it; here the batch ends with the error.
use lsvd.Base.{ℕ, List, [], ◌∷◌}
use lsvd.Base.Outcome.{Outcome, ok, ◌>>=◌}
use lsvd.Location.{SegmentId, ExtentLocation}
use lsvd.Compact.{CompactPe}
use lsvd.TreeMap.{TreeMap}
use lsvd.ExtentMap.{ExtentMap, Error, update}
use lsvd.Segments.{Segments, create, update_usage}

module _ (T : TreeMap CompactPe) where
  open T use {Map}

  unfoldable pub update_batch :
      ExtentMap Map → List ExtentLocation → Segments → Outcome Error (ExtentMap Map × Segments)
  unfolding update_usage
  update_batch e [] ss = ok (e, ss)
  update_batch e (ent ∷ entries) ss =
      update T e ent [] >>= λ r. update_batch r.0 entries (update_usage r.1 ss)

  unfoldable pub commit :
      SegmentId
      → ℕ
      → List ExtentLocation
      → ExtentMap Map
      → Segments
      → Outcome Error (ExtentMap Map × Segments)
  unfolding update_batch create
  commit seg blocks entries e ss = update_batch e entries (create seg blocks ss)
