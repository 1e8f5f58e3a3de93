-- ===== src/Uvarint/RoundTrip.antt =====
-- headers.go: `ReadUvarint` reads back what `WriteUvarint` wrote.
use Prim.Native.Nat.{bit_or}
use lsvd.Base.{
  ℕ, zero, suc, ◌+◌, ◌*◌, ◌/◌, ◌%◌, ◌^◌, ◌≤◌, ◌<◌, ◌≡◌, refl, ap, ◌∙◌, List, [], ◌∷◌, ◌++◌, arith,
  ltb, leb, ◌==◌, if◌then◌else◌, ◌&&◌, inl, inr, Bool-cases, true, false, length, compare_le,
}
use lsvd.Base.Bits.{bit_or-shift, bit_or-shift_fits}
use lsvd.Base.Outcome.{ok}
use lsvd.Uvarint.{
  IoError, read_loop, read_uvarint, write_loop, write_uvarint, append_byte, shift_left,
}
use mathlib.Core.List.{append_assoc}
use native.Mathlib.Numerals.{towards_suc}
use native.Mathlib.Nat.{div-add-mod, mul-le-mul_right}

-- The bytes of a value, at most `suc k` of them.
unfoldable pub digits : ℕ → ℕ → List ℕ
digits zero x = x ∷ []
digits (suc k) x = if leb 128 x then (x % 128 + 128) ∷ digits k (x / 128) else x ∷ []

marked_byte : (x : ℕ) → bit_or 128 (x % 256) ≡ x % 128 + 128
marked_byte x = elim (compare_le (x % 256) 128) [
  | inl low ↦ ground (arith, bit_or-shift_fits 7 1 (x % 256) (omega arith))
  | inr high ↦
      let one : x % 256 / 2 ^ 7 ≡ 1 = omega arith in
      ground (arith, bit_or-shift 7 1 (x % 256), ap (bit_or 1) one)
]

write_loop-digits :
    (k : ℕ) (w : List ℕ) (x i : ℕ)
    → x < 128 ^ suc k
    → write_loop append_byte (suc k) w x i ≡ ok (w ++ digits k x, i + length (digits k x))
unfolding write_loop digits
write_loop-digits zero w x i h = ground arith
write_loop-digits (suc k) w x i h =
    let ih = write_loop-digits k (w ++ (x % 128 + 128) ∷ []) (x / 128) (i + 1) (omega arith) in
    elim (Bool-cases (leb 128 x)) [
      | inl big ↦
          rw (big, marked_byte x, ih)
            (ground (arith, append_assoc w ((x % 128 + 128) ∷ []) (digits k (x / 128))))
      | inr small ↦ rw small (ground arith)
    ]

or_shift : (b s x : ℕ) → x < 2 ^ s → b * 2 ^ s < 2 ^ 64 → bit_or (shift_left b s) x ≡ x + b * 2 ^ s
or_shift b s x h f =
    let whole : shift_left b s ≡ b * 2 ^ s = omega arith in
    rw (whole, bit_or-shift_fits s b x h) (omega arith)

-- A state of the loop in which `rounds` are left and `v` is still to be read.
abbrev InRound : ℕ → ℕ → ℕ → ℕ → ℕ → Type 0
InRound rounds i x s v = (i + rounds ≡ 10) × (s ≡ 7 * i) × (x < 2 ^ s) × (x + v * 2 ^ s < 2 ^ 64)

-- The tenth byte has a single bit.
tenth_byte : (rounds i x s v : ℕ) → InRound (suc rounds) i x s v → ((i == 9) && ltb 1 v) ≡ false
tenth_byte rounds i x s v (r, e, l, f) = elim (Bool-cases (i == 9)) [
  | inl n ↦
      let at : s ≡ 63 = ground arith in
      let fits : x + v * 2 ^ 63 < 2 ^ 64 = rw at at f in rw n (ground arith)
  | inr n ↦ rw n refl
]

read_last :
    (rounds i x s v : ℕ) (e : IoError) (bytes : List ℕ)
    → InRound (suc rounds) i x s v
    → v < 128
    → read_loop (suc rounds) e i x s (v ∷ bytes) ≡ ok (x + v * 2 ^ s, i + 1, bytes)
unfolding read_loop
read_last rounds i x s v e bytes w h =
    let low : ltb v 128 ≡ true = ground arith in
    rw (low, tenth_byte rounds i x s v w, or_shift v s x w.2 (omega (arith, w.3))) refl

next_power : (s : ℕ) → 2 ^ (s + 7) ≡ 2 ^ s * 128
next_power s = simp towards_suc (omega arith)

split_value : (v s : ℕ) → v * 2 ^ s ≡ v / 128 * 2 ^ (s + 7) + v % 128 * 2 ^ s
split_value v s = rw (next_power s) (omega (arith, ap (λ q. q * 2 ^ s) (div-add-mod v 128)))

read_more :
    (rounds i x s v : ℕ) (e : IoError) (bytes : List ℕ)
    → x < 2 ^ s
    → v % 128 * 2 ^ s < 2 ^ 64
    → read_loop (suc rounds) e i x s ((v % 128 + 128) ∷ bytes)
      ≡ read_loop rounds e (i + 1) (x + v % 128 * 2 ^ s) (s + 7) bytes
unfolding read_loop
read_more rounds i x s v e bytes l f =
    let top : ltb (v % 128 + 128) 128 ≡ false = ground arith in
    let low : (v % 128 + 128) % 128 ≡ v % 128 = omega arith in
    rw top (
      ap (λ b. read_loop rounds e (i + 1) (bit_or (shift_left b s) x) (s + 7) bytes) low
      ∙ ap (λ y. read_loop rounds e (i + 1) y (s + 7) bytes) (or_shift (v % 128) s x l f))

group_fits : (x v s : ℕ) → x < 2 ^ s → x + v % 128 * 2 ^ s < 2 ^ (s + 7)
group_fits x v s l =
    let b : v % 128 * 2 ^ s ≤ 127 * 2 ^ s = mul-le-mul_right (2 ^ s) (omega arith) in
    rw (next_power s) (omega arith)

read_loop-digits :
    (k i x s v : ℕ) (e : IoError) (bytes : List ℕ)
    → v < 128 ^ suc k
    → InRound (suc k) i x s v
    → read_loop (suc k) e i x s (digits k v ++ bytes)
      ≡ ok (x + v * 2 ^ s, i + length (digits k v), bytes)
unfolding digits
read_loop-digits zero i x s v e bytes h w = read_last 0 i x s v e bytes w (omega arith)
read_loop-digits (suc k) i x s v e bytes h w = elim (Bool-cases (leb 128 v)) [
  | inr small ↦ rw small (read_last (suc k) i x s v e bytes w (ground arith))
  | inl big ↦
      let part : v % 128 * 2 ^ s < 2 ^ 64 = omega (arith, split_value v s, w.3) in
      let next : InRound (suc k) (i + 1) (x + v % 128 * 2 ^ s) (s + 7) (v / 128) = (
        omega (arith, w.0),
        omega (arith, w.1),
        group_fits x v s w.2,
        omega (arith, split_value v s, w.3),
      ) in
      let ih =
        read_loop-digits k (i + 1) (x + v % 128 * 2 ^ s) (s + 7) (v / 128) e bytes (omega arith)
          next in
      rw (big, read_more (suc k) i x s v e (digits k (v / 128) ++ bytes) w.2 part, ih)
        (ground (arith, split_value v s))
]

pub zero_add : (n : ℕ) → 0 + n ≡ n
zero_add n = omega arith

abbrev pub uvarint : ℕ → List ℕ
uvarint x = digits 9 x

pub write_uvarint_lem :
    (x : ℕ) (before : List ℕ)
    → x < 2 ^ 64
    → write_uvarint append_byte before x ≡ ok (before ++ uvarint x, length (uvarint x))
unfolding write_uvarint
write_uvarint_lem x before h =
    write_loop-digits 9 before x 0 (omega arith)
    ∙ ap (λ n. ok (before ++ uvarint x, n)) (zero_add (length (uvarint x)))

pub read_uvarint_lem :
    (x : ℕ) (after : List ℕ) (e : IoError)
    → x < 2 ^ 64
    → read_uvarint e (uvarint x ++ after) ≡ ok (x, length (uvarint x), after)
unfolding read_uvarint
read_uvarint_lem x after e h =
    let whole : x * 2 ^ 0 ≡ x = omega arith in
    read_loop-digits 9 0 0 0 x e after (omega arith) (omega arith)
    ∙ rw (zero_add (x * 2 ^ 0), zero_add (length (uvarint x)), whole) refl

-- Whatever stands in the buffer before and comes after it to the reader, and whatever error ends the
-- reader: `WriteUvarint` of a uint64 to a buffer in memory appends bytes and returns their number, and
-- `ReadUvarint` reads from them the value and their number, and leaves what follows. Neither fails.
pub read_uvarint-write_uvarint :
    (x : ℕ) (before after : List ℕ) (e : IoError)
    → x < 2 ^ 64
    → (bytes : List ℕ) × (write_uvarint append_byte before x ≡ ok (before ++ bytes, length bytes))
      × (read_uvarint e (bytes ++ after) ≡ ok (x, length bytes, after))
read_uvarint-write_uvarint x before after e h =
    (uvarint x, write_uvarint_lem x before h, read_uvarint_lem x after e h)

pub digits_nonempty : (k x : ℕ) → 0 < length (digits k x)
unfolding digits
digits_nonempty zero x = omega arith
digits_nonempty (suc k) x = ground arith
