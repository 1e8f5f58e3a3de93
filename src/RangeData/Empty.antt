-- ===== src/RangeData/Empty.antt =====
-- util.go: `emptyBytes` takes the bytes block by block.
use lsvd.Base.{
  ℕ, zero, suc, ◌≤◌, ◌≡◌, refl, List, [], ◌∷◌, true, ◌&&◌, arith, ltb, ◌==◌, if◌then◌else◌, length,
  inl, inr, Bool-cases,
}
use lsvd.Base.Slices.{take, drop, length-drop}
use lsvd.RangeData.{all_zero, empty_loop, empty_bytes}

all_zero-split : (n : ℕ) (b : List ℕ) → all_zero b ≡ (all_zero (take n b) && all_zero (drop n b))
unfolding all_zero take drop
all_zero-split zero b = refl
all_zero-split (suc n) [] = refl
all_zero-split (suc n) (x ∷ b) = ground (arith, all_zero-split n b)

empty_loop_lem : (rounds : ℕ) (b : List ℕ) → length b ≤ rounds → empty_loop rounds b ≡ all_zero b
unfolding empty_loop
empty_loop_lem zero b h = refl
empty_loop_lem (suc rounds) b h = elim (Bool-cases (ltb 4096 (length b))) [
  | inl more ↦
      let rest : empty_loop rounds (drop 4096 b) ≡ all_zero (drop 4096 b) =
        empty_loop_lem rounds (drop 4096 b) (ground (arith, length-drop 4096 b)) in
      rw (more, rest, all_zero-split 4096 b) (ground arith)
  | inr done ↦ rw done (last_round b)
]
  where
    last_round : (b : List ℕ) → (if length b == 0 then true else all_zero b) ≡ all_zero b
    last_round [] = ground arith
    last_round (x ∷ xs) = ground arith

-- `emptyBytes`, which compares block by block, holds exactly of the bytes that are all zero, for every
-- length, also one that is no multiple of the block size.
pub empty_bytes_lem : (b : List ℕ) → empty_bytes b ≡ all_zero b
unfolding empty_bytes
empty_bytes_lem b = empty_loop_lem (length b) b (omega arith)
