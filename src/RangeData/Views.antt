-- ===== src/RangeData/Views.antt =====
-- range_data.go: what a view of a range holds.
use lsvd.Base.{
  ℕ, zero, suc, ◌+◌, ◌-◌, ◌*◌, ◌/◌, ◌^◌, ◌<◌, ◌≡◌, refl, List, Option, none, some, arith,
  if◌then◌else◌, length, ltb, ◌==◌, ◌%◌, ◌≤◌, true, false,
}
use lsvd.Base.Outcome.{ok}
use lsvd.Base.Slices.{get_elem?}
use lsvd.Extent.{Extent, clamp, contains, last}
use lsvd.Extent.Range.{IsRange, last_lem, extent_from_lem}
use lsvd.Extent.Overlap.{Inside}
use lsvd.RangeData.{RangeData, View, sub_range, sub_view, zeros, map_range_data}

-- A range with the bytes of all its blocks.
pub record IsLoaded (r : RangeData) (b : List ℕ) : Type 0 where
  pub loaded : r.bytes ≡ some b
  pub whole : length b ≡ r.extent.blocks * 4096
  pub range : IsRange r.extent
  pub few : r.extent.blocks < 2 ^ 20

-- The byte at a position of the disk, if the range has it.
abbrev pub byte_at : Extent → List ℕ → ℕ → Option ℕ
byte_at e b p = if contains e (p / 4096) then get_elem? b (p - e.lba * 4096) else none

pub clamp-Inside : (e y : Extent) → IsRange e → IsRange y → Inside y e → clamp e y ≡ some y
unfolding clamp
clamp-Inside e y r s i = ground (arith, last_lem e r, last_lem y s, extent_from_lem y.lba (last y))

-- The view of a part.
abbrev pub part_of : Extent → Extent → View
part_of e y = record {
  extent = y;
  start = (y.lba - e.lba) * 4096;
  stop = (y.lba - e.lba) * 4096 + y.blocks * 4096;
}

pub sub_range_lem :
    (r : RangeData) (b : List ℕ) (y : Extent)
    → IsLoaded r b
    → IsRange y
    → Inside y r.extent
    → sub_range r y ≡ some (part_of r.extent y)
unfolding sub_range
sub_range_lem r b y l s i =
    rw (clamp-Inside r.extent y l.range s i, sub_range) (ground (arith, l.few, l.range, s))

-- A view of a view is a view of the range.
pub sub_view-part_of :
    (r : RangeData) (b : List ℕ) (y z : Extent)
    → IsLoaded r b
    → IsRange y
    → IsRange z
    → Inside y r.extent
    → Inside z y
    → sub_view (part_of r.extent y) z ≡ sub_range r z
unfolding sub_view
sub_view-part_of r b y z l s t i j =
    rw (sub_range_lem r b z l t (omega (arith, i, j)), clamp-Inside y z s t j, sub_view)
      (ground (arith, l.few, l.range, s, t))

pub length-zeros : (n : ℕ) → length (zeros n) ≡ n
unfolding zeros
length-zeros zero = refl
length-zeros (suc n) = omega (arith, length-zeros n)

pub map_range_data_lem :
    {E : Type 0} (e : Extent) (b : List ℕ)
    → length b ≡ e.blocks * 4096
    → 0 < e.blocks
    → e.blocks ≤ 65535
    → e.lba + e.blocks ≤ 2 ^ 48
    → map_range_data {E = E} e b ≡ ok (record { extent = e; bytes = some b; dirty = true })
unfolding map_range_data
map_range_data_lem e b size nonempty fits low_enough =
    let whole : (length b % 4096 == 0) ≡ true = ground arith in
    let low : ltb 281474976710655 e.lba ≡ false = ground arith in
    let few : ltb 65535 e.blocks ≡ false = ground arith in rw (whole, low, few) refl
