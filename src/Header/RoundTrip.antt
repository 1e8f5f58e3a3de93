-- ===== src/Header/RoundTrip.antt =====
-- headers.go: an extent header that was written is read back.
use lsvd.Base.{ℕ, ◌+◌, ◌%◌, ◌^◌, ◌<◌, ◌≡◌, refl, List, ◌++◌, arith, length, length-append}
use lsvd.Base.Outcome.{ok}
use lsvd.Location.{ExtentHeader}
use lsvd.Uvarint.{IoError, append_byte}
use lsvd.Uvarint.RoundTrip.{uvarint, write_uvarint_lem, read_uvarint_lem}
use lsvd.Header.{
  write_header, read_header, SegmentHeader, read_segment_header, write_segment_header,
}
use mathlib.Core.List.{append_assoc}

-- A header whose fields have the widths of the source.
pub record IsHeader (h : ExtentHeader) : Type 0 where
  pub wide_lba : h.extent.lba < 2 ^ 64
  pub wide_blocks : h.extent.blocks < 2 ^ 32
  pub wide_size : h.size < 2 ^ 32
  pub wide_offset : h.offset < 2 ^ 32
  pub wide_raw_size : h.raw_size < 2 ^ 32

abbrev pub header_bytes : ExtentHeader → List ℕ
header_bytes h =
    uvarint h.extent.lba
    ++ (uvarint h.extent.blocks ++ (uvarint h.size ++ (uvarint h.offset ++ uvarint h.raw_size)))

append_five :
    (w a b c d f : List ℕ) → ((((w ++ a) ++ b) ++ c) ++ d) ++ f ≡ w ++ (a ++ (b ++ (c ++ (d ++ f))))
append_five w a b c d f = simp append_assoc

append_five_before :
    (a b c d f w : List ℕ) → (a ++ (b ++ (c ++ (d ++ f)))) ++ w ≡ a ++ (b ++ (c ++ (d ++ (f ++ w))))
append_five_before a b c d f w = simp append_assoc

length_five :
    (a b c d f : List ℕ)
    → length a + length b + length c + length d + length f ≡ length (a ++ (b ++ (c ++ (d ++ f))))
length_five a b c d f = simp (length-append) (omega arith)

pub write_header_lem :
    (h : ExtentHeader) (before : List ℕ)
    → IsHeader h
    → write_header append_byte before h ≡ ok (before ++ header_bytes h, length (header_bytes h))
unfolding write_header
write_header_lem h before w =
    let one = uvarint h.extent.lba in
    let two = uvarint h.extent.blocks in
    let three = uvarint h.size in
    let four = uvarint h.offset in
    let five = uvarint h.raw_size in
    rw
      (
        write_uvarint_lem h.extent.lba before w.wide_lba,
        write_uvarint_lem h.extent.blocks (before ++ one) (omega (arith, w)),
        write_uvarint_lem h.size ((before ++ one) ++ two) (omega (arith, w)),
        write_uvarint_lem h.offset (((before ++ one) ++ two) ++ three) (omega (arith, w)),
        write_uvarint_lem h.raw_size ((((before ++ one) ++ two) ++ three) ++ four)
            (omega (arith, w)),
        append_five before one two three four five,
        length_five one two three four five,
      )
      refl

to32_lem : (x : ℕ) → x < 2 ^ 32 → x % 2 ^ 32 ≡ x
to32_lem x h = omega arith

pub read_header_lem :
    (h : ExtentHeader) (after : List ℕ) (e : IoError)
    → IsHeader h
    → read_header e (header_bytes h ++ after) ≡ ok (h, length (header_bytes h), after)
unfolding read_header
read_header_lem h after e w =
    let one = uvarint h.extent.lba in
    let two = uvarint h.extent.blocks in
    let three = uvarint h.size in
    let four = uvarint h.offset in
    let five = uvarint h.raw_size in
    rw
      (
        append_five_before one two three four five after,
        read_uvarint_lem h.extent.lba (two ++ (three ++ (four ++ (five ++ after)))) e w.wide_lba,
        read_uvarint_lem h.extent.blocks (three ++ (four ++ (five ++ after))) e (omega (arith, w)),
        read_uvarint_lem h.size (four ++ (five ++ after)) e (omega (arith, w)),
        read_uvarint_lem h.offset (five ++ after) e (omega (arith, w)),
        read_uvarint_lem h.raw_size after e (omega (arith, w)),
        to32_lem h.extent.blocks w.wide_blocks,
        to32_lem h.size w.wide_size,
        to32_lem h.offset w.wide_offset,
        to32_lem h.raw_size w.wide_raw_size,
        length_five one two three four five,
      )
      refl

-- What is written to a buffer in memory, for a header of the source's widths, is read back as the same
-- header, whatever comes after it. Both functions return the number of bytes that were added, and the
-- reader is left with what comes after them.
pub read_header-write_header :
    (h : ExtentHeader) (before after : List ℕ) (e : IoError)
    → IsHeader h
    → (bytes : List ℕ) × (write_header append_byte before h ≡ ok (before ++ bytes, length bytes))
      × (read_header e (bytes ++ after) ≡ ok (h, length bytes, after))
read_header-write_header h before after e w =
    (header_bytes h, write_header_lem h before w, read_header_lem h after e w)

-- A segment header of two uint32 values takes eight bytes, and is read back from them, whatever follows.
pub read_segment_header-write_segment_header :
    (s : SegmentHeader) (after : List ℕ)
    → s.extent_count < 2 ^ 32
    → s.data_offset < 2 ^ 32
    → (read_segment_header (write_segment_header s ++ after) ≡ ok (s, after))
      × (length (write_segment_header s) ≡ 8)
unfolding read_segment_header write_segment_header
read_segment_header-write_segment_header s after h k = (ground arith, refl)
