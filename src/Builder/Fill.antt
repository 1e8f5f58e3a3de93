-- ===== src/Builder/Fill.antt =====
-- segment.go: `FillExtent` of `SegmentCreator`, which fills a range from the write log as far as the
-- creator has its blocks. The reads of the log file and the decompressor of lz4 are parameters.
use lsvd.Base.{ℕ, true, false, List, [], ◌∷◌, ◌++◌, ltb, ◌==◌, if◌then◌else◌, length}
use lsvd.Base.Outcome.{Outcome, ok, err, or_err, ◌>>=◌}
use lsvd.Extent.{Extent}
use lsvd.Location.{ExtentHeader, PartialExtent, flags, uncompressed, compressed, empty}
use lsvd.Compact.{CompactPe}
use lsvd.TreeMap.{TreeMap}
use lsvd.ExtentMap.Resolve.{resolve}
use lsvd.RangeData.{RangeData, View, map_range_data, sub_range, sub_view, copy_view}
use lsvd.Builder.Creator.{SegmentCreator}

-- `subrange` where a range or its part does not meet the extent, `failure` from a reader.
pub data ReadError : Type 0 where
  subrange failure short_read undecompressed invalid_flags : ReadError

-- Bytes of a file at an offset, of a given number, and the bytes that `UncompressBlock` writes to a buffer
-- of a given length.
pub record LogReader (W : Type 0) : Type 0 where
  pub read_at : W → ℕ → ℕ → Outcome ReadError (List ℕ)
  pub uncompress : List ℕ → ℕ → Outcome ReadError (List ℕ)

-- What a header says, and the number of bytes that came.
unfoldable pub read_sized : ℕ → Outcome ReadError (List ℕ) → Outcome ReadError (List ℕ)
read_sized size result =
    result >>= λ bytes. if length bytes == size then ok bytes else err short_read

-- From the mapping of the bytes on.
unfoldable pub copy_logged :
    ExtentHeader → List ℕ → RangeData → View → Outcome ReadError (RangeData × ℕ)
copy_logged eh bytes dest d = map_range_data eh.extent bytes >>= λ src.
    or_err (sub_range src d.extent) subrange >>= λ s. copy_view dest d src s

module _ {W : Type 0} (R : LogReader W) where
  open R use {read_at, uncompress}

  -- The `switch` over the flags: the bytes of an extent in the log.
  unfoldable pub load_logged : W → ExtentHeader → Outcome ReadError (List ℕ)
  unfolding flags read_sized
  load_logged w eh = elim (flags eh) [
    | uncompressed ↦ read_sized eh.size (read_at w eh.offset eh.size)
    | compressed ↦ read_sized eh.size (read_at w eh.offset eh.size) >>= λ small.
        uncompress small eh.raw_size >>= λ bytes.
        (if ltb (length bytes) eh.raw_size then err undecompressed else ok bytes)
    | empty ↦ err invalid_flags
  ]

  -- The loop, with the extents that are filled. A range that is empty counts as filled.
  unfoldable pub fill_loop :
      W
      → RangeData
      → View
      → List PartialExtent
      → List Extent
      → Outcome ReadError (RangeData × List Extent)
  unfolding load_logged copy_logged
  fill_loop w dest v [] ret = ok (dest, ret)
  fill_loop w dest v (s ∷ ranges) ret = or_err (sub_view v s.live) subrange >>= λ d.
      elim (s.location.header.size == 0) [
        | true ↦ fill_loop w dest v ranges (ret ++ d.extent ∷ [])
        | false ↦ load_logged w s.location.header >>= λ bytes.
            copy_logged s.location.header bytes dest d >>= λ copied.
            fill_loop w copied.0 v ranges (ret ++ d.extent ∷ [])
      ]

  unfoldable pub fill_extent :
      (T : TreeMap CompactPe)
      → SegmentCreator T W
      → RangeData
      → View
      → Outcome ReadError (RangeData × List Extent)
  unfolding fill_loop
  fill_extent T c dest v = fill_loop c.builder.log dest v (resolve T c.em v.extent []) []
