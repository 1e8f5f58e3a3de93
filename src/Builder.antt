-- ===== src/Builder.antt =====
-- segment.go: `SegmentBuilder`, which collects the extents of a segment and writes them to a log file,
-- and `SegmentCreator`, which also maps them. The estimator of pkg/entropy and the compressor of lz4 are
-- parameters. So is the buffered log file; an error of a buffered writer stays, so what the file holds
-- after one is not modelled. Nor are the statistics in floating point and the pools of buffers.
pub mod Log
pub mod Creator
pub mod Flush
pub mod Publish
pub mod Stored
pub mod Writing
pub mod Restore
pub mod Fill
pub mod Filling
pub mod Filled
pub mod Serving
pub mod Served
pub mod Examples
use lsvd.Base.{
  ℕ, zero, suc, ◌+◌, ◌*◌, ◌/◌, ◌%◌, ◌-◌, Bool, true, false, not, ◌&&◌, List, [], ◌∷◌, ◌++◌, Option,
  some, none, ltb, leb, ◌==◌, if◌then◌else◌, length,
}
use lsvd.Base.Words.{add64, add32, to32}
use lsvd.Base.Outcome.{Outcome, ok, err, panic, ◌>>=◌}
use lsvd.Base.Slices.{drop}
use lsvd.Extent.{Extent}
use lsvd.Location.{ExtentHeader, ExtentLocation, PartialExtent}
use lsvd.Compact.{CompactPe}
use lsvd.TreeMap.{TreeMap}
use lsvd.ExtentMap.{ExtentMap, update}
use lsvd.Uvarint.{IoError, eof, unexpected_eof, failure}
use lsvd.Header.{write_header, read_header}
use lsvd.RangeData.{RangeData, View, view, is_empty, read_view}

-- `o.logW`: the file with its buffer.
pub record LogFile : Type 1 where
  pub W : Type 0
  pub write_byte : W → ℕ → Outcome IoError W
  -- with the number of bytes written
  pub write : W → List ℕ → Outcome IoError (W × ℕ)
  pub flush : W → Outcome IoError W

pub record Compressor : Type 0 where
  -- `o.entropy.Value() <= entropyLimit` after the estimator has read the bytes
  pub low_entropy : List ℕ → Bool
  -- `CompressBlock`; no bytes when it does not become smaller
  pub compress : List ℕ → Outcome IoError (List ℕ)

pub record SegmentBuilder (W : Type 0) : Type 0 where
  pub cnt : ℕ
  pub empty_blocks : ℕ
  pub total_blocks : ℕ
  pub single_bes : ℕ
  pub input_bytes : ℕ
  pub storage_bytes : ℕ
  pub header : List ℕ
  pub offset : ℕ
  pub extents : List ExtentHeader
  pub log : W

-- `Reset`, with an open log file.
abbrev pub new_builder : {W : Type 0} → W → SegmentBuilder W
new_builder w = record {
  cnt = 0;
  empty_blocks = 0;
  total_blocks = 0;
  single_bes = 0;
  input_bytes = 0;
  storage_bytes = 0;
  header = [];
  offset = 0;
  extents = [];
  log = w;
}

-- The header without its offset, and the bytes that are stored: compressed when that makes them smaller
-- by a third.
unfoldable pub encode : Compressor → Extent → ℕ → List ℕ → Outcome IoError (ExtentHeader × List ℕ)
encode z ext ext_bytes input =
    let plain : ExtentHeader × List ℕ =
      (record { extent = ext; size = to32 ext_bytes; offset = 0; raw_size = 0 }, input) in
    let squeezed = z.compress input >>= λ small. ok (
      if ltb 0 (length small) && ltb (length small * 3 / 2) ext_bytes
      then (
        record { extent = ext; size = to32 (length small); offset = 0; raw_size = to32 ext_bytes },
        small,
      )
      else plain) in
    if z.low_entropy input then squeezed else ok plain

module _ (F : LogFile) where
  open F use {W, write_byte, write, flush}

  -- The lengths of the header, and of both.
  unfoldable pub write_log : W → ExtentHeader → List ℕ → Outcome IoError (W × ℕ × ℕ)
  write_log w eh bytes = do
    h ← write_header write_byte w eh
    d ← write h.0 bytes
    if d.1 == length bytes then (flush d.0 >>= λ w'. ok (w', h.1, h.1 + d.1)) else err failure

  -- From the call of `writeLog` on.
  unfoldable pub log_extent :
      SegmentBuilder W
      → ExtentHeader
      → List ℕ
      → SegmentBuilder W × Outcome IoError (List ℕ × ExtentHeader)
  unfolding write_log
  log_extent o eh bytes = elim (write_log o.log eh bytes) [
    | err e ↦ (o, err e)
    | panic ↦ (o, panic)
    | ok (w, hdr, n) ↦
        let eh' = record eh { offset = add32 (to32 o.offset) (to32 hdr) } in
        (
          record o { log = w; offset = add64 o.offset n; extents = o.extents ++ eh' ∷ [] },
          ok (bytes, eh'),
        )
  ]

  stored_extent :
      SegmentBuilder W
      → Outcome IoError (ExtentHeader × List ℕ)
      → SegmentBuilder W × Outcome IoError (List ℕ × ExtentHeader)
  unfolding log_extent
  stored_extent o (err e) = (o, err e)
  stored_extent o panic = (o, panic)
  stored_extent o (ok (eh, bytes)) =
      log_extent (record o { storage_bytes = o.storage_bytes + length bytes }) eh bytes

  filled_extent :
      Compressor
      → SegmentBuilder W
      → View
      → Outcome IoError (List ℕ)
      → SegmentBuilder W × Outcome IoError (List ℕ × ExtentHeader)
  unfolding stored_extent encode
  filled_extent z o v (err e) = (o, err e)
  filled_extent z o v panic = (o, panic)
  filled_extent z o v (ok input) =
      stored_extent
        (record o {
          single_bes = if v.extent.blocks == 1 then o.single_bes + 1 else o.single_bes;
          input_bytes = o.input_bytes + length input;
        })
        (encode z v.extent (v.stop - v.start) input)

  -- `WriteExtent`, with the builder that it leaves also when it fails.
  unfoldable pub write_extent :
      Compressor
      → SegmentBuilder W
      → RangeData
      → View
      → SegmentBuilder W × Outcome IoError (List ℕ × ExtentHeader)
  unfolding filled_extent
  write_extent z o r v =
      let o' = record o { total_blocks = o.total_blocks + v.extent.blocks; cnt = o.cnt + 1 } in
      if is_empty r
      then log_extent (record o' { empty_blocks = o'.empty_blocks + v.extent.blocks })
          (record { extent = v.extent; size = 0; offset = 0; raw_size = 0 }) []
      else filled_extent z o' v (read_view r v)

unfoldable pub zero_blocks : {W : Type 0} → SegmentBuilder W → Extent → SegmentBuilder W
zero_blocks o rng = record o {
  cnt = o.cnt + 1;
  extents = o.extents ++ record { extent = rng; size = 0; offset = 0; raw_size = 0 } ∷ [];
}

unfoldable pub should_flush : {W : Type 0} → SegmentBuilder W → ℕ → Bool
should_flush o threshold = leb threshold o.offset
