-- ===== src/Header.antt =====
-- headers.go: `ExtentHeader.Write`, `ExtentHeader.Read` and `SegmentHeader`. Beside an error, `Read`
-- returns the bytes read so far, which no caller uses, and leaves the header partly filled.
pub mod RoundTrip
mod Examples
use lsvd.Base.{ℕ, ◌+◌, ◌*◌, ◌/◌, ◌%◌, ◌^◌, List, [], ◌∷◌, ◌++◌}
use lsvd.Base.Words.{to32}
use lsvd.Base.Outcome.{Outcome, ok, err, ◌>>=◌}
use lsvd.Location.{ExtentHeader}
use lsvd.Uvarint.{IoError, eof, unexpected_eof, read_uvarint, write_uvarint}

module _ {W : Type 0} (write_byte : W → ℕ → Outcome IoError W) where
  -- The writer after the five fields, and the number of bytes.
  unfoldable pub write_header : W → ExtentHeader → Outcome IoError (W × ℕ)
  write_header w e = do
    a ← write_uvarint write_byte w e.extent.lba
    b ← write_uvarint write_byte a.0 e.extent.blocks
    c ← write_uvarint write_byte b.0 e.size
    d ← write_uvarint write_byte c.0 e.offset
    f ← write_uvarint write_byte d.0 e.raw_size
    ok (f.0, a.1 + b.1 + c.1 + d.1 + f.1)

unfoldable pub read_header : IoError → List ℕ → Outcome IoError (ExtentHeader × ℕ × List ℕ)
read_header e bytes = do
  lba ← read_uvarint e bytes
  blocks ← read_uvarint e lba.2
  esz ← read_uvarint e blocks.2
  off ← read_uvarint e esz.2
  rs ← read_uvarint e off.2
  let header : ExtentHeader = record {
    extent = record { lba = lba.0; blocks = to32 blocks.0 };
    size = to32 esz.0;
    offset = to32 off.0;
    raw_size = to32 rs.0;
  }
  ok (header, lba.1 + blocks.1 + esz.1 + off.1 + rs.1, rs.2)

pub record SegmentHeader : Type 0 where
  pub extent_count : ℕ
  pub data_offset : ℕ

-- A uint32 in big-endian order, as encoding/binary writes and reads it.
unfoldable pub put_uint32 : ℕ → List ℕ
put_uint32 x = x / 2 ^ 24 % 256 ∷ x / 2 ^ 16 % 256 ∷ x / 2 ^ 8 % 256 ∷ x % 256 ∷ []

unfoldable pub read_uint32 : List ℕ → Outcome IoError (ℕ × List ℕ)
read_uint32 [] = err eof
read_uint32 (a ∷ []) = err unexpected_eof
read_uint32 (a ∷ b ∷ []) = err unexpected_eof
read_uint32 (a ∷ b ∷ c ∷ []) = err unexpected_eof
read_uint32 (a ∷ b ∷ c ∷ d ∷ rest) = ok (a * 2 ^ 24 + b * 2 ^ 16 + c * 2 ^ 8 + d, rest)

unfoldable pub write_segment_header : SegmentHeader → List ℕ
unfolding put_uint32
write_segment_header s = put_uint32 s.extent_count ++ put_uint32 s.data_offset

-- From a reader that ends with `io.EOF`.
unfoldable pub read_segment_header : List ℕ → Outcome IoError (SegmentHeader × List ℕ)
unfolding read_uint32
read_segment_header bytes = do
  c ← read_uint32 bytes
  o ← read_uint32 c.1
  ok (record { extent_count = c.0; data_offset = o.0 }, o.1)
