-- ===== src/Uvarint/Unended.antt =====
-- headers.go: what `ReadUvarint` answers when no byte ends the value.
use lsvd.Base.{
  ℕ, zero, suc, ◌+◌, ◌≤◌, ◌≡◌, refl, ap, ◌∙◌, List, [], ◌∷◌, arith, ltb, if◌then◌else◌, false, All,
  length,
}
use lsvd.Base.Outcome.{err}
use lsvd.Uvarint.{IoError, eof, unexpected_eof, failure, cut_short, read_loop, read_uvarint}

read_loop_unended :
    (rounds : ℕ) (e : IoError) (i x s : ℕ) (bytes : List ℕ)
    → All (λ b. 128 ≤ b) bytes
    → read_loop rounds e i x s bytes
      ≡ err (if ltb (length bytes) rounds then cut_short (i + length bytes) e else eof)
unfolding read_loop
read_loop_unended zero e i x s bytes h = ground arith
read_loop_unended (suc rounds) e i x s [] h =
    let none : i + 0 ≡ i = omega arith in ground (arith, ap (λ n. cut_short n e) none)
read_loop_unended (suc rounds) e i x s (b ∷ bytes) (h, hs) =
    let more : ltb b 128 ≡ false = ground arith in
    let sum : i + 1 + length bytes ≡ i + suc (length bytes) = omega arith in
    rw more (
      read_loop_unended rounds e (i + 1) _ (s + 7) bytes hs
      ∙ ground (arith, ap (λ n. cut_short n e) sum))

-- What a read that never sees the end of a value answers after it was given this many bytes.
abbrev pub answer : IoError → ℕ → IoError
answer e zero = e
answer eof (suc n) = if ltb n 9 then unexpected_eof else eof
answer unexpected_eof (suc n) = if ltb n 9 then unexpected_eof else eof
answer failure (suc n) = if ltb n 9 then failure else eof

answer_lem : (e : IoError) (n : ℕ) → (if ltb n 10 then cut_short n e else eof) ≡ answer e n
unfolding cut_short
answer_lem eof zero = refl
answer_lem unexpected_eof zero = refl
answer_lem failure zero = refl
answer_lem eof (suc n) = ground arith
answer_lem unexpected_eof (suc n) = ground arith
answer_lem failure (suc n) = ground arith

-- On bytes that all have the top bit set, `ReadUvarint` never gives a value. Of fewer than ten it reads
-- all and gives the reader's own error, but for an `io.EOF` behind at least one byte an
-- `io.ErrUnexpectedEOF`; of ten or more it gives `io.EOF`, although it has read bytes.
pub read_uvarint_unended :
    (e : IoError) (bytes : List ℕ)
    → All (λ b. 128 ≤ b) bytes
    → read_uvarint e bytes ≡ err (answer e (length bytes))
unfolding read_uvarint
read_uvarint_unended e bytes h =
    let none : 0 + length bytes ≡ length bytes = omega arith in
    read_loop_unended 10 e 0 0 0 bytes h
    ∙ ap (λ n. err (if ltb (length bytes) 10 then cut_short n e else eof)) none
    ∙ ap (λ f. err f) (answer_lem e (length bytes))
