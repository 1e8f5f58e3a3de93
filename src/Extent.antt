-- ===== src/Extent.antt =====
-- extent.go and cover.go: ranges of blocks. An `LBA` is a uint64 and a block count a uint32, so the
-- arithmetic wraps. A pair of an extent and a bool that callers read only when it is true is an
-- option.
pub mod Range
pub mod Overlap
pub mod Subtract
pub mod Sorting
pub mod Many
mod Examples
use lsvd.Base.{
  ℕ, ◌+◌, ◌*◌, ◌^◌, ◌-◌, Bool, true, false, ◌&&◌, ◌||◌, List, [], ◌∷◌, ◌++◌, Option, none, some,
  ltb, leb, ◌==◌, if◌then◌else◌,
}
use lsvd.Base.Words.{add64, sub64, to32}
use mathlib.Core.Path.{◌≡◌}

abbrev pub block_size : ℕ
block_size = 4 * 1024

abbrev pub max_blocks : ℕ
max_blocks = 2 ^ 16 - 1

abbrev pub max_lba : ℕ
max_lba = 2 ^ 48 - 1

pub record Extent : Type 0 where
  pub lba : ℕ
  pub blocks : ℕ

-- The zero value `Extent{}`.
abbrev pub zero_extent : Extent
zero_extent = record { lba = 0; blocks = 0 }

-- `ExtentFrom`: from the first and the last block.
unfoldable pub extent_from : ℕ → ℕ → Option Extent
extent_from a b =
    if ltb b a then none else some (record { lba = a; blocks = to32 (add64 (sub64 b a) 1) })

-- In bytes; an `int` has 64 bits, and a uint32 times 4096 fits.
unfoldable pub byte_size : Extent → ℕ
byte_size e = e.blocks * block_size

unfoldable pub contains : Extent → ℕ → Bool
contains e lba = leb e.lba lba && ltb lba (add64 e.lba e.blocks)

unfoldable pub last : Extent → ℕ
last e = sub64 (add64 e.lba e.blocks) 1

pub data Cover : Type 0 where
  super_range exact partly disjoint : Cover

-- `e.Cover(y)`: `super_range` where `e` is the larger.
unfoldable pub cover : Extent → Extent → Cover
cover e y =
    if ltb (last e) y.lba || ltb (last y) e.lba
    then disjoint
    else if (e.lba == y.lba) && (last e == last y)
    then exact
    else if leb e.lba y.lba && leb (last y) (last e)
    then super_range
    else partly

unfoldable pub clamp : Extent → Extent → Option Extent
clamp e y =
    if ltb (last e) y.lba || ltb (last y) e.lba
    then none
    else if (e.lba == y.lba) && (last e == last y)
    then some y
    else extent_from (if leb y.lba e.lba then e.lba else y.lba)
        (if leb (last e) (last y) then last e else last y)

unfoldable pub is_valid : Extent → Bool
is_valid e = ltb 0 e.blocks

with_suffix : Extent → Option Extent → Option (Extent × Extent)
with_suffix prefix none = none
with_suffix prefix (some suffix) = some (prefix, suffix)

split_middle : Extent → Extent → Option Extent → Option (Extent × Extent)
split_middle e o none = none
split_middle e o (some prefix) =
    if leb (last e) (last o)
    then some (prefix, zero_extent)
    else with_suffix prefix (extent_from (add64 (last o) 1) (last e))

-- What is left of `e` before and after `o`.
unfoldable pub sub_specific : Extent → Extent → Option (Extent × Extent)
unfolding with_suffix split_middle
sub_specific e o =
    if ltb (last e) o.lba || ltb (last o) e.lba
    then none
    else if (e.lba == o.lba) && (last e == last o)
    then some (zero_extent, zero_extent)
    else if leb o.lba e.lba
    then with_suffix zero_extent (extent_from (add64 (last o) 1) (last e))
    else split_middle e o (extent_from e.lba (sub64 o.lba 1))

-- `if x.Valid() { xs = append(xs, x) }`
unfoldable pub append_valid : List Extent → Extent → List Extent
append_valid xs x = if is_valid x then xs ++ x ∷ [] else xs

valid_parts : Option (Extent × Extent) → Option (List Extent)
valid_parts none = none
valid_parts (some (pre, suf)) = some (append_valid (append_valid [] pre) suf)

unfoldable pub sub : Extent → Extent → Option (List Extent)
unfolding sub_specific append_valid is_valid valid_parts
sub e o = valid_parts (sub_specific e o)

-- The order that `SubMany` hands to `sort.Slice`.
unfoldable pub extent_less : Extent → Extent → Bool
extent_less a b = ltb a.lba b.lba || ((a.lba == b.lba) && ltb a.blocks b.blocks)

-- `sort.Slice`. Extents that are equal in the order are equal, so every sort gives this list.
insert_extent : Extent → List Extent → List Extent
insert_extent x [] = x ∷ []
insert_extent x (y ∷ ys) = if extent_less y x then y ∷ insert_extent x ys else x ∷ y ∷ ys

unfoldable pub sort_extents : List Extent → List Extent
unfolding insert_extent extent_less
sort_extents [] = []
sort_extents (x ∷ xs) = insert_extent x (sort_extents xs)

-- The loop over the sorted list, and the `append` behind it.
sub_loop : Extent → List Extent → List Extent → Option (List Extent)
sub_loop considering [] holes = some (append_valid holes considering)
sub_loop considering (s ∷ subs) holes = elim (sub_specific considering s) [
  | none ↦ none
  | some (prefix, suffix) ↦
      if is_valid suffix
      then sub_loop suffix subs (append_valid holes prefix)
      else some (append_valid (append_valid holes prefix) zero_extent)
]

unfoldable pub sub_many : Extent → List Extent → Option (List Extent)
unfolding sub_loop sort_extents sub_specific append_valid is_valid
sub_many e subs = sub_loop e (sort_extents subs) []
