-- ===== src/DiskRead/WriteCache.antt =====
-- disk.go: `fillFromWriteCache` and `fillingFromPrevWriteCache`: the layers that are not yet in a segment.
use lsvd.Base.{List, [], ◌∷◌, ◌++◌, Option, some, none}
use lsvd.Base.Outcome.{Outcome, ok, or_err, ◌>>=◌}
use lsvd.Extent.{Extent, sub_many}
use lsvd.Compact.{CompactPe}
use lsvd.TreeMap.{TreeMap}
use lsvd.ExtentMap.{ExtentMap}
use lsvd.RangeData.{RangeData, sub_range, view}
use lsvd.Builder.Creator.{SegmentCreator}
use lsvd.Builder.Fill.{ReadError, subrange, LogReader, fill_extent}

pub record Disk (T : TreeMap CompactPe) (W : Type 0) : Type 0 where
  pub cur_oc : Option (SegmentCreator T W)
  pub prev_cache : Option (SegmentCreator T W)
  pub lba2pba : ExtentMap T.Map

-- What is left of a range when some extents were filled.
unfoldable pub left_over : Extent → List Extent → Outcome ReadError (List Extent)
left_over e [] = ok (e ∷ [])
left_over e (u ∷ used) = or_err (sub_many e (u ∷ used)) subrange

module _ {W : Type 0} (R : LogReader W) (T : TreeMap CompactPe) where
  -- The loop of `fillingFromPrevWriteCache`.
  unfoldable pub prev_loop :
      SegmentCreator T W
      → RangeData
      → List Extent
      → List Extent
      → Outcome ReadError (RangeData × List Extent)
  unfolding left_over
  prev_loop oc dest [] remaining = ok (dest, remaining)
  prev_loop oc dest (sub ∷ holes) remaining = or_err (sub_range dest sub) subrange >>= λ sr.
      fill_extent R T oc dest sr >>= λ filled.
      left_over sub filled.1 >>= λ res. prev_loop oc filled.0 holes (remaining ++ res)

  unfoldable pub fill_from_prev :
      Option (SegmentCreator T W)
      → RangeData
      → List Extent
      → Outcome ReadError (RangeData × List Extent)
  unfolding prev_loop
  fill_from_prev none dest holes = ok (dest, holes)
  fill_from_prev (some oc) dest holes = prev_loop oc dest holes []

  -- Without a current creator the previous one is not asked.
  unfoldable pub fill_from_write_cache :
      Disk T W → RangeData → Outcome ReadError (RangeData × List Extent)
  unfolding fill_from_prev left_over
  fill_from_write_cache d dest = elim d.cur_oc [
    | none ↦ ok (dest, dest.extent ∷ [])
    | some oc ↦ fill_extent R T oc dest (view dest) >>= λ filled.
        left_over dest.extent filled.1 >>= λ remaining.
        fill_from_prev d.prev_cache filled.0 remaining
  ]
