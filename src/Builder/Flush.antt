-- ===== src/Builder/Flush.antt =====
-- segment.go: `Flush`, which makes the file of a segment from the headers and the log, and publishes it.
-- The storage (`SegmentAccess`) and the local files (`SegmentFiles`) are parameters. The name of the new
-- file, its closing and its removal are not modelled, nor is the place in the log file where `Seek`
-- leaves it.
use lsvd.Base.{ℕ, ◌+◌, List, [], ◌∷◌, length}
use lsvd.Base.Words.{add64, add32, to32}
use lsvd.Base.Outcome.{Outcome, ok, err, panic, ◌>>=◌}
use lsvd.Location.{SegmentId, ExtentHeader, ExtentLocation}
use lsvd.Uvarint.{IoError, append_byte}
use lsvd.Header.{write_header, write_segment_header}
use lsvd.Builder.{SegmentBuilder}
use mathlib.Core.List.{map}

-- What `Flush` uses of a `SegmentAccess`.
pub record SegmentAccess : Type 1 where
  pub S : Type 0
  pub upload_segment : S → SegmentId → List ℕ → Outcome IoError S
  pub append_to_segments : S → SegmentId → Outcome IoError S

pub record SegmentStats : Type 0 where
  pub blocks : ℕ
  pub total_bytes : ℕ
  pub data_offset : ℕ

-- The loop over the headers: the buffer they are written to, and the number of blocks.
unfoldable pub write_headers : List ExtentHeader → List ℕ → ℕ → Outcome IoError (List ℕ × ℕ)
write_headers [] header blocks = ok (header, blocks)
write_headers (blk ∷ extents) header blocks = write_header append_byte header blk >>= λ w.
    write_headers extents w.0 (add64 blocks blk.extent.blocks)

abbrev pub advertised : SegmentId → ℕ → ExtentHeader → ExtentLocation
advertised seg data_begin eh = record {
  header = record eh { offset = add32 eh.offset data_begin };
  segment = seg;
  disk = 0;
}

abbrev pub data_begin : List ℕ → ℕ
data_begin header = to32 (length header + 8)

-- What `Flush` uses of local files, which are a `File` while they are open: the new file under its temporary
-- name, `Write`, with the number of bytes, `Seek` of the log to its start, and `io.Copy` of the log. The
-- bytes that the storage reads are those from the start on; the error of that last `Seek` is ignored.
pub record SegmentFiles (W : Type 0) : Type 1 where
  pub File : Type 0
  pub create : Outcome IoError File
  pub write : File → List ℕ → Outcome IoError (File × ℕ)
  pub seek_start : W → Outcome IoError W
  pub copy_log : File → W → Outcome IoError (File × ℕ)
  pub read_all : File → List ℕ

module _ {W : Type 0} (F : SegmentFiles W) where
  open F use {File, create, write, seek_start, copy_log, read_all}

  -- From `os.Create` to the copy of the log, with the number of bytes behind the segment header.
  unfoldable pub make_file : SegmentBuilder W → Outcome IoError (File × ℕ)
  make_file o = do
    f ← create
    h ← write f (
        write_segment_header
          (record { extent_count = to32 o.cnt; data_offset = data_begin o.header }))
    b ← write h.0 o.header
    w ← seek_start o.log
    d ← copy_log b.0 w
    ok (d.0, b.1 + d.1)

  module _ (A : SegmentAccess) where
    open A use {S, upload_segment, append_to_segments}

    -- From the list of entries on.
    unfoldable pub publish :
        S
        → SegmentBuilder W
        → SegmentId
        → ℕ
        → Outcome IoError (S × List ExtentLocation × SegmentStats)
    unfolding make_file
    publish s o seg blocks = do
      m ← make_file o
      s1 ← upload_segment s seg (read_all m.0)
      s2 ← append_to_segments s1 seg
      let stats : SegmentStats = record {
        blocks = blocks;
        total_bytes = m.1;
        data_offset = data_begin o.header;
      }
      ok (s2, map (advertised seg (data_begin o.header)) o.extents, stats)

    unfoldable pub flushed :
        S
        → SegmentBuilder W
        → SegmentId
        → Outcome IoError (List ℕ × ℕ)
        → SegmentBuilder W × Outcome IoError (S × List ExtentLocation × SegmentStats)
    unfolding publish
    flushed s o seg (err e) = (o, err e)
    flushed s o seg panic = (o, panic)
    flushed s o seg (ok (header, blocks)) =
        let o' = record o { header = header } in (o', publish s o' seg blocks)

    -- The builder that it leaves keeps the buffer with the headers, also when it fails.
    unfoldable pub flush :
        S
        → SegmentBuilder W
        → SegmentId
        → SegmentBuilder W × Outcome IoError (S × List ExtentLocation × SegmentStats)
    unfolding flushed write_headers
    flush s o seg = flushed s o seg (write_headers o.extents o.header 0)
