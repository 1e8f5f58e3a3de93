-- ===== src/Location.antt =====
-- Where the data of an extent lies: `ExtentHeader` of headers.go, `SegmentId` of segment_id.go,
-- `ExtentLocation` and `PartialExtent` of disk.go.
use lsvd.Base.{ℕ, Bool, not, ◌==◌, if◌then◌else◌}
use lsvd.Extent.{Extent}

-- The 16 bytes of a ULID as one number, the first byte the highest. Ids are only compared.
abbrev pub SegmentId : Type 0
SegmentId = ℕ

-- `seg != SegmentId{}`
unfoldable pub segment_valid : SegmentId → Bool
segment_valid s = not (s == 0)

-- Sizes and offsets are uint32; `raw_size` is set when the data is compressed.
pub record ExtentHeader : Type 0 where
  pub extent : Extent
  pub size : ℕ
  pub offset : ℕ
  pub raw_size : ℕ

pub data Flags : Type 0 where
  uncompressed compressed empty : Flags

unfoldable pub flags : ExtentHeader → Flags
flags e = if e.size == 0 then empty else if not (e.raw_size == 0) then compressed else uncompressed

pub record ExtentLocation : Type 0 where
  pub header : ExtentHeader
  pub segment : SegmentId
  pub disk : ℕ

-- `live` is the part of the extent that is still mapped.
pub record PartialExtent : Type 0 where
  pub live : Extent
  pub location : ExtentLocation
