-- ===== src/Uvarint.antt =====
-- headers.go: `WriteUvarint` and `ReadUvarint`. A reader (`io.ByteReader`) is the list of the bytes that
-- it still gives and the error that it gives after them. A writer (`io.ByteWriter`) is a parameter. What
-- the functions return beside an error, the callers do not use, so an error result has only the error.
pub mod RoundTrip
pub mod Unended
mod Examples
use Prim.Native.Nat.{bit_or}
use lsvd.Base.{
  ℕ, zero, suc, ◌+◌, ◌-◌, ◌*◌, ◌/◌, ◌%◌, ◌^◌, Bool, true, false, ◌&&◌, List, [], ◌∷◌, ◌++◌, ltb,
  leb, ◌==◌, if◌then◌else◌,
}
use lsvd.Base.Outcome.{Outcome, ok, err, panic, ◌>>=◌}

pub data IoError : Type 0 where
  eof unexpected_eof failure : IoError

-- `if i > 0 && err == io.EOF`
unfoldable pub cut_short : ℕ → IoError → IoError
cut_short i eof = if ltb 0 i then unexpected_eof else eof
cut_short i e = e

-- `uint64(b) << s`
abbrev pub shift_left : ℕ → ℕ → ℕ
shift_left b s = b * 2 ^ s % 2 ^ 64

abbrev pub max_varint_len64 : ℕ
max_varint_len64 = 10

-- The loop of `ReadUvarint`, with the rounds that are left. The value is written first in an `|`.
unfoldable pub read_loop : ℕ → IoError → ℕ → ℕ → ℕ → List ℕ → Outcome IoError (ℕ × ℕ × List ℕ)
unfolding cut_short
read_loop zero e i x s bytes = err eof
read_loop (suc rounds) e i x s [] = err (cut_short i e)
read_loop (suc rounds) e i x s (b ∷ bytes) =
    let more = read_loop rounds e (i + 1) (bit_or (shift_left (b % 128) s) x) (s + 7) bytes in
    if ltb b 128
    then (if (i == max_varint_len64 - 1) && ltb 1 b
        then err eof
        else ok (bit_or (shift_left b s) x, i + 1, bytes))
    else more

-- The value, the number of bytes read, and the bytes that are left.
unfoldable pub read_uvarint : IoError → List ℕ → Outcome IoError (ℕ × ℕ × List ℕ)
unfolding read_loop
read_uvarint e bytes = read_loop max_varint_len64 e 0 0 0 bytes

module _ {W : Type 0} (write_byte : W → ℕ → Outcome IoError W) where
  -- The loop of `WriteUvarint` on fuel, of which it needs a unit for each byte; without it, a panic.
  unfoldable pub write_loop : ℕ → W → ℕ → ℕ → Outcome IoError (W × ℕ)
  write_loop zero w x i = panic
  write_loop (suc fuel) w x i =
      let more =
        write_byte w (bit_or 128 (x % 256)) >>= λ w'. write_loop fuel w' (x / 128) (i + 1) in
      let done = write_byte w (x % 256) >>= λ w'. ok (w', i + 1) in if leb 128 x then more else done

  -- A uint64 takes at most 10 bytes.
  unfoldable pub write_uvarint : W → ℕ → Outcome IoError (W × ℕ)
  unfolding write_loop
  write_uvarint w x = write_loop max_varint_len64 w x 0

-- A buffer in memory takes every byte.
abbrev pub append_byte : List ℕ → ℕ → Outcome IoError (List ℕ)
append_byte w b = ok (w ++ b ∷ [])
