-- ===== src/Extent/Overlap.antt =====
-- extent.go: `Cover` and `Clamp` against the sets of blocks.
use Prim.Native.Nat.{min, max}
use lsvd.Base.{
  ℕ, ◌+◌, ◌-◌, ◌≤◌, ◌<◌, ◌≡◌, ◌≢◌, ◌⊎◌, inl, inr, true, false, ◌&&◌, Option, some, none, arith, ltb,
  Bool-cases, if◌then◌else◌,
}
use lsvd.Extent.{Extent, Cover, super_range, exact, partly, disjoint, cover, clamp, contains, last}
use lsvd.Extent.Range.{IsRange, last_lem, contains_lem, extent_from_lem}

abbrev pub Apart : Extent → Extent → Type 0
Apart e y = (e.lba + e.blocks ≤ y.lba) ⊎ (y.lba + y.blocks ≤ e.lba)

abbrev pub Inside : Extent → Extent → Type 0
Inside y e = (e.lba ≤ y.lba) × (y.lba + y.blocks ≤ e.lba + e.blocks)

-- The four answers of `Cover`, each with what it says of the bounds.
pub cover_cases :
    (e y : Extent)
    → IsRange e
    → IsRange y
    → ((cover e y ≡ disjoint) × Apart e y)
      ⊎ ((cover e y ≡ exact) × (e.lba ≡ y.lba) × (e.blocks ≡ y.blocks))
      ⊎ ((cover e y ≡ super_range) × Inside y e × (y.blocks < e.blocks))
      ⊎ ((cover e y ≡ partly)
          × (y.lba < e.lba + e.blocks)
          × (e.lba < y.lba + y.blocks)
          × ((y.lba < e.lba) ⊎ (e.lba + e.blocks < y.lba + y.blocks)))
unfolding cover
cover_cases e y r s = ground (arith, last_lem e r, last_lem y s)

-- What each answer promises of the blocks of `e` and `y`. No two of the four can hold at once.
abbrev pub Covers : Cover → Extent → Extent → Type 0
Covers disjoint e y = (x : ℕ) → (contains e x && contains y x) ≡ false
Covers exact e y = e ≡ y
Covers super_range e y = ((x : ℕ) → contains y x ≡ true → contains e x ≡ true) × (e ≢ y)
Covers partly e y =
    ((x : ℕ) × (contains e x ≡ true) × (contains y x ≡ true))
    × ((x : ℕ) × (contains e x ≡ false) × (contains y x ≡ true))

-- For two extents that are not empty and do not reach the end of the address space, `Cover` answers by
-- the blocks they hold: `disjoint` when they share none, `exact` when they are equal, `super_range`
-- when the first holds all blocks of the second and is not equal to it, `partly` when they share a
-- block and the second has one that the first has not.
pub cover-Covers : (e y : Extent) → IsRange e → IsRange y → Covers (cover e y) e y
cover-Covers e y r s = split (cover_cases e y r s)
  where
    split :
        ((cover e y ≡ disjoint) × Apart e y)
          ⊎ ((cover e y ≡ exact) × (e.lba ≡ y.lba) × (e.blocks ≡ y.blocks))
          ⊎ ((cover e y ≡ super_range) × Inside y e × (y.blocks < e.blocks))
          ⊎ ((cover e y ≡ partly)
              × (y.lba < e.lba + e.blocks)
              × (e.lba < y.lba + y.blocks)
              × ((y.lba < e.lba) ⊎ (e.lba + e.blocks < y.lba + y.blocks)))
        → Covers (cover e y) e y
    split (inl (c, a)) = rw c (λ x. ground (arith, contains_lem e x r, contains_lem y x s))
    split (inr (inl (c, l, b))) = rw c (ground arith)
    split (inr (inr (inl (c, i, b)))) =
        rw c ((λ x h. ground (arith, contains_lem e x r, contains_lem y x s)), (λ h. ground arith))
    split (inr (inr (inr (c, l, u, inl o)))) = rw c (
      (e.lba, ground (arith, contains_lem e e.lba r), ground (arith, contains_lem y e.lba s)),
      (y.lba, ground (arith, contains_lem e y.lba r), ground (arith, contains_lem y y.lba s)),
    )
    split (inr (inr (inr (c, l, u, inr o)))) =
        let z = e.lba + e.blocks in
        rw c (
          (
            max e.lba y.lba,
            ground (arith, contains_lem e (max e.lba y.lba) r),
            ground (arith, contains_lem y (max e.lba y.lba) s),
          ),
          (z, ground (arith, contains_lem e z r), ground (arith, contains_lem y z s)),
        )

-- The blocks that two extents share; its count is 0 where they share none.
abbrev pub overlap : Extent → Extent → Extent
overlap e y = record {
  lba = max e.lba y.lba;
  blocks = min (e.lba + e.blocks) (y.lba + y.blocks) - max e.lba y.lba;
}

pub clamp-overlap :
    (e y : Extent)
    → IsRange e
    → IsRange y
    → clamp e y ≡ (if ltb 0 (overlap e y).blocks then some (overlap e y) else none)
unfolding clamp
clamp-overlap e y r s = ground (
  arith,
  last_lem e r,
  last_lem y s,
  extent_from_lem e.lba (last e),
  extent_from_lem e.lba (last y),
  extent_from_lem y.lba (last e),
  extent_from_lem y.lba (last y),
)

-- The blocks that two extents share, as an extent that is not empty, or the answer that there are none.
abbrev pub Shares : Extent → Extent → Option Extent → Type 0
Shares e y none = (x : ℕ) → (contains e x && contains y x) ≡ false
Shares e y (some c) = IsRange c × ((x : ℕ) → contains c x ≡ (contains e x && contains y x))

-- For two extents that are not empty and do not reach the end of the address space: where they share a
-- block, `Clamp` succeeds with an extent that is not empty and holds exactly the blocks that they share.
-- Where they share none, it fails.
pub clamp-Shares : (e y : Extent) → IsRange e → IsRange y → Shares e y (clamp e y)
clamp-Shares e y r s = elim (Bool-cases (ltb 0 (overlap e y).blocks)) [
  | inl some_blocks ↦
      let o : IsRange (overlap e y) = ground (arith, some_blocks, r, s) in
      rw (clamp-overlap e y r s, some_blocks)
        (
          o,
          λ x.
              ground
                (arith, contains_lem e x r, contains_lem y x s, contains_lem (overlap e y) x o),
        )
  | inr none_shared ↦
      rw (clamp-overlap e y r s, none_shared)
        (λ x. ground (arith, contains_lem e x r, contains_lem y x s, none_shared))
]
