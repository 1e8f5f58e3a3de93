-- ===== src/Builder/Creator.antt =====
-- segment.go: `SegmentCreator`, a builder with the map of its extents, and `readLog`, which restores both
-- from the log file. Locations in the write cache have the zero segment and disk.
use lsvd.Base.{ℕ, zero, suc, ◌+◌, List, [], ◌∷◌, ◌++◌, ltb, if◌then◌else◌, length}
use lsvd.Base.Words.{add64, add32, to32}
use lsvd.Base.Outcome.{Outcome, ok, err, panic, ◌>>=◌}
use lsvd.Base.Slices.{drop}
use lsvd.Extent.{Extent}
use lsvd.Location.{ExtentHeader, ExtentLocation}
use lsvd.Compact.{CompactPe}
use lsvd.TreeMap.{TreeMap}
use lsvd.ExtentMap.{ExtentMap, update}
use lsvd.Uvarint.{IoError, eof, unexpected_eof, failure}
use lsvd.Header.{read_header}
use lsvd.Rebuild.{RebuildError, unreadable, unmapped, with_err}
use lsvd.RangeData.{RangeData, view}
use lsvd.Builder.{LogFile, Compressor, SegmentBuilder, write_extent, zero_blocks}

abbrev pub cached : ExtentHeader → ExtentLocation
cached eh = record { header = eh; segment = 0; disk = 0 }

-- The body of an extent is skipped; `Discard` fails at the end of the file.
unfoldable pub skip_body : ℕ → List ℕ → Outcome RebuildError (List ℕ)
skip_body size rest = if ltb (length rest) size then err (unreadable eof) else ok (drop size rest)

-- A header that was read, with its length and the offset of the builder before it.
unfoldable pub placed : ExtentHeader → ℕ → ℕ → ExtentHeader
placed eh hdr_len offset =
    if ltb 0 eh.size then record eh { offset = add32 (to32 offset) (to32 hdr_len) } else eh

module _ (T : TreeMap CompactPe) where
  open T use {Map}

  -- The loop of `readLog`, which `io.EOF` in place of a header ends. A round reads at least a byte, so
  -- the number of bytes and one more is fuel enough; without it, a panic.
  unfoldable pub read_log_loop :
      {W : Type 0}
      → ℕ
      → SegmentBuilder W
      → ExtentMap Map
      → List ℕ
      → Outcome RebuildError (SegmentBuilder W × ExtentMap Map)
  unfolding skip_body placed
  read_log_loop zero o em bytes = panic
  read_log_loop (suc fuel) o em bytes = elim (read_header eof bytes) [
    | err eof ↦ ok (o, em)
    | err unexpected_eof ↦ err (unreadable unexpected_eof)
    | err failure ↦ err (unreadable failure)
    | panic ↦ panic
    | ok (eh, hdr_len, rest) ↦ skip_body eh.size rest >>= λ bytes'.
        with_err unmapped (update T em (cached (placed eh hdr_len o.offset)) []) >>= λ u.
        read_log_loop fuel
          (record o {
            total_blocks = o.total_blocks + eh.extent.blocks;
            cnt = o.cnt + 1;
            extents = o.extents ++ placed eh hdr_len o.offset ∷ [];
            offset = add64 o.offset (eh.size + hdr_len);
          })
          u.0 bytes'
  ]

  unfoldable pub read_log :
      {W : Type 0}
      → SegmentBuilder W
      → ExtentMap Map
      → List ℕ
      → Outcome RebuildError (SegmentBuilder W × ExtentMap Map)
  unfolding read_log_loop
  read_log o em bytes = read_log_loop (suc (length bytes)) o em bytes

  pub record SegmentCreator (W : Type 0) : Type 0 where
    pub builder : SegmentBuilder W
    pub em : ExtentMap Map

  -- The map is left as it is where `Update` fails.
  unfoldable pub mapped :
      {W : Type 0}
      → SegmentBuilder W
      → ExtentMap Map
      → Outcome IoError (List ℕ × ExtentHeader)
      → SegmentCreator W × Outcome RebuildError (Unit {0})
  mapped o em (err e) = (record { builder = o; em = em }, err (unreadable e))
  mapped o em panic = (record { builder = o; em = em }, panic)
  mapped o em (ok (bytes, eh)) = elim (update T em (cached eh) []) [
    | ok (em', affected) ↦ (record { builder = o; em = em' }, ok tt)
    | err e ↦ (record { builder = o; em = em }, err (unmapped e))
    | panic ↦ (record { builder = o; em = em }, panic)
  ]

  -- `WriteExtent` of the creator
  unfoldable pub creator_write_extent :
      (F : LogFile)
      → Compressor
      → SegmentCreator F.W
      → RangeData
      → SegmentCreator F.W × Outcome RebuildError (Unit {0})
  unfolding mapped
  creator_write_extent F z c r =
      let (o, result) = write_extent F z c.builder r (view r) in mapped o c.em result

  -- `ZeroBlocks` of the creator
  unfoldable pub creator_zero_blocks :
      {W : Type 0} → SegmentCreator W → Extent → SegmentCreator W × Outcome RebuildError (Unit {0})
  creator_zero_blocks c rng =
      elim (update T c.em (cached (record { extent = rng; size = 0; offset = 0; raw_size = 0 }))
        []) [
          | ok (em', affected) ↦ (record { builder = zero_blocks c.builder rng; em = em' }, ok tt)
          | err e ↦ (c, err (unmapped e))
          | panic ↦ (c, panic)
        ]
