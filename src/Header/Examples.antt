-- ===== src/Header/Examples.antt =====
-- headers.go: the codec of extent headers at concrete inputs.
use lsvd.Base.{ℕ, ◌≡◌, refl, List, [], ◌∷◌, ◌++◌, arith, length}
use lsvd.Base.Outcome.{ok}
use lsvd.Location.{ExtentHeader}
use lsvd.Uvarint.{eof, append_byte, write_uvarint}
use lsvd.Header.{write_header, read_header, read_segment_header, write_segment_header}
use lsvd.Header.RoundTrip.{read_header-write_header, read_segment_header-write_segment_header}

abbrev one_header : ExtentHeader
one_header = record {
  extent = record { lba = 1000; blocks = 3 };
  size = 5000;
  offset = 0;
  raw_size = 12288;
}

write_runs :
    write_header append_byte [] one_header ≡ ok (232 ∷ 7 ∷ 3 ∷ 136 ∷ 39 ∷ 0 ∷ 128 ∷ 96 ∷ [], 8)
unfolding write_header write_uvarint
write_runs = refl

read_header-write_header_example :
    (bytes : List ℕ) × (write_header append_byte [] one_header ≡ ok ([] ++ bytes, length bytes))
    × (read_header eof (bytes ++ 9 ∷ []) ≡ ok (one_header, length bytes, 9 ∷ []))
read_header-write_header_example = read_header-write_header one_header [] (9 ∷ []) eof (omega arith)

read_segment_header-write_segment_header_example :
    (read_segment_header
        (write_segment_header (record { extent_count = 3; data_offset = 70000 }) ++ 1 ∷ [])
      ≡ ok (record { extent_count = 3; data_offset = 70000 }, 1 ∷ []))
    × (length (write_segment_header (record { extent_count = 3; data_offset = 70000 })) ≡ 8)
read_segment_header-write_segment_header_example =
    read_segment_header-write_segment_header (record { extent_count = 3; data_offset = 70000 })
      (1 ∷ []) (omega arith) (omega arith)
