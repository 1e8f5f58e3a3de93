-- ===== src/Nbd/Creator.antt =====
-- nbd.go over segment.go: the segment creator, to which `Disk.WriteExtent` and `Disk.ZeroBlocks` of disk.go
-- hand over, as a disk. The closing of a full segment and the log lines of disk.go are left out.
use lsvd.Base.{ℕ, List}
use lsvd.Base.Outcome.{Outcome}
use lsvd.Extent.{Extent}
use lsvd.Compact.{CompactPe}
use lsvd.TreeMap.{TreeMap}
use lsvd.RangeData.{RangeData}
use lsvd.Rebuild.{RebuildError}
use lsvd.Builder.{Compressor, write_extent, zero_blocks}
use lsvd.Builder.Log.{memory_log}
use lsvd.Builder.Creator.{SegmentCreator, creator_write_extent, creator_zero_blocks}
use lsvd.Builder.Fill.{ReadError}
use lsvd.Builder.Serving.{seen}
use lsvd.Nbd.{BlockDisk}
use lsvd.Nbd.Image.{or_else}

module _ (T : TreeMap CompactPe) (uncompress : List ℕ → ℕ → Outcome ReadError (List ℕ)) where
  abbrev pub creator_bytes : SegmentCreator T (List ℕ) → ℕ → ℕ
  creator_bytes c p = or_else (seen T uncompress c p) 0

  -- Under a compressor, and what a `Sync` does and the size, which are not those of the creator.
  module _ (z : Compressor)
      (sync : SegmentCreator T (List ℕ)
        → SegmentCreator T (List ℕ) × Outcome RebuildError (Unit {0}))
      (size : SegmentCreator T (List ℕ) → ℕ) where
    abbrev pub creator_disk : BlockDisk RebuildError
    creator_disk = record {
      D = SegmentCreator T (List ℕ);
      write_extent = creator_write_extent T memory_log z;
      zero_blocks = creator_zero_blocks T;
      sync_write_cache = sync;
      disk_size = size;
    }
