-- ===== src/Extent/Subtract.antt =====
-- extent.go: `SubSpecific` and `Sub` against the sets of blocks.
use lsvd.Base.{
  ℕ, ◌+◌, ◌-◌, ◌<◌, ◌≡◌, ◌⊎◌, inl, inr, Bool, false, not, ◌&&◌, ◌||◌, List, [], ◌∷◌, some, none,
  arith, ltb, leb, if◌then◌else◌,
}
use lsvd.Extent.{
  Extent, Cover, super_range, disjoint, cover, zero_extent, contains, last, extent_from,
  sub_specific, sub, is_valid, append_valid,
}
use lsvd.Extent.Range.{IsRange, last_lem, contains_lem, extent_from_lem}
use lsvd.Extent.Overlap.{Apart, Inside, cover_cases}

-- The blocks of `e` before the first and after the last block of `o`.
abbrev pub before : Extent → Extent → Extent
before e o = if ltb e.lba o.lba then record { lba = e.lba; blocks = o.lba - e.lba } else zero_extent

abbrev pub after : Extent → Extent → Extent
after e o =
    if ltb (o.lba + o.blocks) (e.lba + e.blocks)
    then record { lba = o.lba + o.blocks; blocks = e.lba + e.blocks - (o.lba + o.blocks) }
    else zero_extent

-- `o` has blocks in common with `e`, and does not cover `e` unless the two are equal.
abbrev pub Cuts : Extent → Extent → Type 0
Cuts o e =
    (o.lba < e.lba + e.blocks)
    × (e.lba < o.lba + o.blocks)
    × ((e.lba < o.lba)
        ⊎ (o.lba + o.blocks < e.lba + e.blocks)
        ⊎ (e.lba ≡ o.lba) × (e.blocks ≡ o.blocks))

pub sub_specific-Cuts :
    (e o : Extent)
    → IsRange e
    → IsRange o
    → Cuts o e
    → sub_specific e o ≡ some (before e o, after e o)
unfolding sub_specific
sub_specific-Cuts e o r s c = ground (
  arith,
  last_lem e r,
  last_lem o s,
  extent_from_lem (o.lba + o.blocks) (last e),
  extent_from_lem e.lba (o.lba - 1),
)

pub sub_specific_fails :
    (e o : Extent)
    → IsRange e
    → IsRange o
    → (Apart o e ⊎ (Inside e o × (e.blocks < o.blocks)))
    → sub_specific e o ≡ none
unfolding sub_specific extent_from
sub_specific_fails e o r s c = ground (arith, last_lem e r, last_lem o s)

zero_extent_empty : (x : ℕ) → contains zero_extent x ≡ false
unfolding contains
zero_extent_empty x = ground arith

pub contains-before :
    (e o : Extent) (x : ℕ)
    → IsRange e
    → IsRange o
    → Cuts o e
    → contains (before e o) x ≡ (contains e x && ltb x o.lba)
contains-before e o x r s c = ground (
  arith,
  contains_lem e x r,
  contains_lem (record { lba = e.lba; blocks = o.lba - e.lba }) x,
  zero_extent_empty x,
)

abbrev end_of : Extent → ℕ
end_of e = e.lba + e.blocks

pub contains-after :
    (e o : Extent) (x : ℕ)
    → IsRange e
    → IsRange o
    → Cuts o e
    → contains (after e o) x ≡ (contains e x && leb (end_of o) x)
contains-after e o x r s c = ground (
  arith,
  contains_lem e x r,
  contains_lem (record { lba = end_of o; blocks = end_of e - end_of o }) x,
  zero_extent_empty x,
)

-- Does an extent of the list hold the block?
abbrev pub any_contains : List Extent → ℕ → Bool
any_contains [] x = false
any_contains (e ∷ es) x = contains e x || any_contains es x

pub any_contains-append_valid :
    (es : List Extent) (e : Extent) (x : ℕ)
    → any_contains (append_valid es e) x ≡ (any_contains es x || contains e x)
unfolding append_valid is_valid contains
any_contains-append_valid [] e x = ground arith
any_contains-append_valid (d ∷ es) e x = ground (arith, any_contains-append_valid es e x)

-- `Sub` fails when the two extents share no block, and also when the second is strictly the larger.
-- Otherwise it returns exactly the blocks of the first that are not in the second.
abbrev pub Subtracts : Cover → Extent → Extent → Type 0
Subtracts disjoint e o = sub e o ≡ none
Subtracts super_range e o = sub e o ≡ none
Subtracts _ e o =
    (es : List Extent) × (sub e o ≡ some es)
    × ((x : ℕ) → any_contains es x ≡ (contains e x && not (contains o x)))

sub-Cuts :
    (e o : Extent)
    → IsRange e
    → IsRange o
    → Cuts o e
    → (es : List Extent) × (sub e o ≡ some es)
      × ((x : ℕ) → any_contains es x ≡ (contains e x && not (contains o x)))
unfolding sub
sub-Cuts e o r s c = (
  append_valid (append_valid [] (before e o)) (after e o),
  rw (sub_specific-Cuts e o r s c),
  λ x.
      rw
        (
          any_contains-append_valid (append_valid [] (before e o)) (after e o) x,
          any_contains-append_valid [] (before e o) x,
          contains-before e o x r s c,
          contains-after e o x r s c,
        )
        (ground (arith, contains_lem e x r, contains_lem o x s)),
)

-- For two extents that are not empty and do not reach the end of the address space, `Sub` fails when
-- they share no block, and also when the second is strictly the larger. Otherwise it returns extents
-- that hold exactly the blocks of the first that are not in the second.
pub sub-Subtracts : (e o : Extent) → IsRange e → IsRange o → Subtracts (cover o e) e o
unfolding sub
sub-Subtracts e o r s = elim (cover_cases o e s r) [
  | inl (c, a) ↦ rw (c, sub_specific_fails e o r s (inl a))
  | inr (inl (c, l, b)) ↦ rw c (sub-Cuts e o r s (ground arith))
  | inr (inr (inl (c, i, b))) ↦ rw (c, sub_specific_fails e o r s (inr (i, b)))
  | inr (inr (inr (c, l, u, d))) ↦ rw c (sub-Cuts e o r s (ground arith))
]
