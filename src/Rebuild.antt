-- ===== src/Rebuild.antt =====
-- rebuild.go: `rebuildFromSegment`, which puts the extents of a stored segment into the extent map again.
-- What it reads is the segment's header, an argument here, and the bytes behind it.
pub mod Recover
mod Examples
use lsvd.Base.{ℕ, zero, suc, List, []}
use lsvd.Base.Words.{add64, add32}
use lsvd.Base.Outcome.{Outcome, ok, err, panic, ◌>>=◌}
use lsvd.Location.{SegmentId, ExtentHeader, ExtentLocation}
use lsvd.Compact.{CompactPe}
use lsvd.TreeMap.{TreeMap}
use lsvd.ExtentMap.{ExtentMap, Error, update}
use lsvd.Segments.{Segments, create, update_usage}
use lsvd.Uvarint.{IoError}
use lsvd.Header.{SegmentHeader, read_header}

-- An error of the reader, or of the extent map.
pub data RebuildError : Type 0 where
  unreadable : IoError → RebuildError
  unmapped : Error → RebuildError

abbrev pub with_err :
    {E : Type 0} {A : Type 0} → (E → RebuildError) → Outcome E A → Outcome RebuildError A
with_err f (ok a) = ok a
with_err f (err e) = err (f e)
with_err f panic = panic

-- The location that the header of an extent gets, after `eh.Offset += hdr.DataOffset`.
abbrev pub located : SegmentId → ℕ → ExtentHeader → ExtentLocation
located seg data_offset eh = record {
  header = record eh { offset = add32 eh.offset data_offset };
  segment = seg;
  disk = 0;
}

module _ (T : TreeMap CompactPe) where
  open T use {Map}

  -- The loop, with the number of headers that are left and the blocks so far.
  unfoldable pub rebuild_loop :
      ℕ
      → SegmentId
      → ℕ
      → IoError
      → List ℕ
      → ℕ
      → ExtentMap Map
      → Segments
      → Outcome RebuildError (ℕ × ExtentMap Map × Segments)
  unfolding update_usage
  rebuild_loop zero seg data_offset e bytes blocks em ss = ok (blocks, em, ss)
  rebuild_loop (suc left) seg data_offset e bytes blocks em ss = do
    h ← with_err unreadable (read_header e bytes)
    u ← with_err unmapped (update T em (located seg data_offset h.0) [])
    rebuild_loop left seg data_offset e h.2 (add64 blocks h.0.extent.blocks) u.0
        (update_usage u.1 ss)

  unfoldable pub rebuild_from_segment :
      SegmentId
      → SegmentHeader
      → IoError
      → List ℕ
      → ExtentMap Map
      → Segments
      → Outcome RebuildError (ExtentMap Map × Segments)
  unfolding rebuild_loop create
  rebuild_from_segment seg hdr e bytes em ss = do
    r ← rebuild_loop hdr.extent_count seg hdr.data_offset e bytes 0 em (create seg 0 ss)
    ok (r.1, create seg r.0 r.2)
