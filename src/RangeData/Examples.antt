-- ===== src/RangeData/Examples.antt =====
-- range_data.go: the theorem at a concrete input.
use lsvd.Base.{ℕ, ◌/◌, ◌≡◌, refl, List, [], ◌∷◌, some, true, false, arith, if◌then◌else◌}
use lsvd.Base.Outcome.{ok}
use lsvd.Extent.{Extent, contains}
use lsvd.RangeData.{RangeData, View, zeros, sub_range, copy_view}
use lsvd.RangeData.Views.{IsLoaded, byte_at, length-zeros}
use lsvd.RangeData.{empty_bytes, all_zero}
use lsvd.RangeData.Empty.{empty_bytes_lem}
use lsvd.RangeData.Copying.{copy_view-sub_range}

-- Two blocks of zeros, and three blocks that begin in the middle of them.
abbrev two_blocks : RangeData
two_blocks = record {
  extent = record { lba = 10; blocks = 2 };
  bytes = some (zeros 8192);
  dirty = false;
}

abbrev three_blocks : RangeData
three_blocks = record {
  extent = record { lba = 11; blocks = 3 };
  bytes = some (7 ∷ zeros 12287);
  dirty = true;
}

abbrev middle : Extent
middle = record { lba = 11; blocks = 1 }

two_blocks-IsLoaded : IsLoaded two_blocks (zeros 8192)
two_blocks-IsLoaded = record {
  loaded = refl;
  whole = length-zeros 8192;
  range = omega arith;
  few = omega arith;
}

three_blocks-IsLoaded : IsLoaded three_blocks (7 ∷ zeros 12287)
three_blocks-IsLoaded = record {
  loaded = refl;
  whole = omega (arith, length-zeros 12287);
  range = omega arith;
  few = omega arith;
}

copy_view-sub_range_example :
    (d : View) × (v : View) × (after : RangeData) × (e : List ℕ) × (sub_range two_blocks middle
      ≡ some d)
    × (sub_range three_blocks middle ≡ some v)
    × (copy_view {E = Unit {0}} two_blocks d three_blocks v ≡ ok (after, 4096))
    × (after.extent ≡ two_blocks.extent)
    × IsLoaded after e
    × ((p : ℕ)
        → byte_at two_blocks.extent e p ≡ (
            if contains middle (p / 4096)
            then byte_at three_blocks.extent (7 ∷ zeros 12287) p
            else byte_at two_blocks.extent (zeros 8192) p))
copy_view-sub_range_example =
    copy_view-sub_range two_blocks three_blocks (zeros 8192) (7 ∷ zeros 12287) middle
      two_blocks-IsLoaded three_blocks-IsLoaded (omega arith) (omega arith) (omega arith)

empty_bytes_lem_example : empty_bytes (0 ∷ 0 ∷ 3 ∷ []) ≡ all_zero (0 ∷ 0 ∷ 3 ∷ [])
empty_bytes_lem_example = empty_bytes_lem (0 ∷ 0 ∷ 3 ∷ [])
