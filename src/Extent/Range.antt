-- ===== src/Extent/Range.antt =====
-- extent.go: the wrapping arithmetic of extents that do not reach the end of the address space.
use lsvd.Base.{ℕ, ◌+◌, ◌-◌, ◌^◌, ◌≤◌, ◌<◌, ◌≡◌, ◌&&◌, some, none, arith, ltb, leb}
use lsvd.Extent.{Extent, extent_from, contains, last}

-- An extent of at least one block, with a count that fits uint32, whose end fits uint64.
pub record IsRange (e : Extent) : Type 0 where
  pub nonempty : 0 < e.blocks
  pub narrow : e.blocks < 2 ^ 32
  pub fits : e.lba + e.blocks < 2 ^ 64

pub last_lem : (e : Extent) → IsRange e → last e ≡ e.lba + e.blocks - 1
unfolding last
last_lem e r = omega arith

pub contains_lem :
    (e : Extent) (x : ℕ) → IsRange e → contains e x ≡ (leb e.lba x && ltb x (e.lba + e.blocks))
unfolding contains
contains_lem e x r = ground arith

pub extent_from_lem :
    (a b : ℕ)
    → a ≤ b
    → b - a + 1 < 2 ^ 32
    → b < 2 ^ 64
    → extent_from a b ≡ some (record { lba = a; blocks = b - a + 1 })
unfolding extent_from
extent_from_lem a b h n f = ground arith

pub extent_from-none : (a b : ℕ) → b < a → extent_from a b ≡ none
unfolding extent_from
extent_from-none a b h = ground arith
