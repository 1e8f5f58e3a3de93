-- ===== src/Uvarint/Examples.antt =====
-- headers.go: concrete runs of `WriteUvarint` and `ReadUvarint`, and the theorems at concrete inputs.
use lsvd.Base.{ℕ, ◌≡◌, refl, List, [], ◌∷◌, ◌++◌, arith, length}
use lsvd.Base.Outcome.{ok, err}
use lsvd.Uvarint.{eof, unexpected_eof, append_byte, read_uvarint, write_uvarint}
use lsvd.Uvarint.RoundTrip.{read_uvarint-write_uvarint}
use lsvd.Uvarint.Unended.{read_uvarint_unended}

write_runs : write_uvarint append_byte [] 300 ≡ ok (172 ∷ 2 ∷ [], 2)
unfolding write_uvarint
write_runs = refl

read_runs : read_uvarint eof (172 ∷ 2 ∷ 9 ∷ []) ≡ ok (300, 2, 9 ∷ [])
unfolding read_uvarint
read_runs = refl

read_cut_short : read_uvarint eof (172 ∷ []) ≡ err unexpected_eof
unfolding read_uvarint
read_cut_short = refl

read_uvarint-write_uvarint_example :
    (bytes : List ℕ) × (write_uvarint append_byte (7 ∷ []) 300
      ≡ ok ((7 ∷ []) ++ bytes, length bytes))
    × (read_uvarint eof (bytes ++ 9 ∷ []) ≡ ok (300, length bytes, 9 ∷ []))
read_uvarint-write_uvarint_example =
    read_uvarint-write_uvarint 300 (7 ∷ []) (9 ∷ []) eof (omega arith)

abbrev ten_bytes : List ℕ
ten_bytes = 128 ∷ 255 ∷ 128 ∷ 255 ∷ 128 ∷ 255 ∷ 128 ∷ 255 ∷ 128 ∷ 255 ∷ []

read_too_long : read_uvarint eof ten_bytes ≡ err eof
unfolding read_uvarint
read_too_long = refl

abbrev two_bytes : List ℕ
two_bytes = 200 ∷ 128 ∷ []

read_uvarint_unended_example : read_uvarint eof two_bytes ≡ err unexpected_eof
read_uvarint_unended_example = read_uvarint_unended eof two_bytes (omega arith)
