-- ===== src/Extent/Examples.antt =====
-- extent.go: concrete runs, after extent_test.go, and the theorems at concrete inputs.
use lsvd.Base.{ℕ, ◌≡◌, refl, not, ◌&&◌, List, [], ◌∷◌, some, none, arith}
use lsvd.Extent.{Extent, super_range, cover, clamp, contains, last, extent_from, sub, sub_many}
use lsvd.Extent.Overlap.{Covers, Shares, cover-Covers, clamp-Shares}
use lsvd.Extent.Subtract.{Subtracts, any_contains, sub-Subtracts}
use lsvd.Extent.Sorting.{Parts}
use lsvd.Extent.Many.{contains-sub_many}

abbrev ten_twenty : Extent
ten_twenty = record { lba = 10; blocks = 11 }

abbrev twelve : Extent
twelve = record { lba = 12; blocks = 2 }

abbrev sixteen : Extent
sixteen = record { lba = 16; blocks = 3 }

cover_runs : cover ten_twenty sixteen ≡ super_range
unfolding cover last
cover_runs = refl

clamp_runs :
    clamp sixteen (record { lba = 17; blocks = 40 }) ≡ some (record { lba = 17; blocks = 2 })
unfolding clamp last extent_from
clamp_runs = refl

sub_many_runs :
    sub_many ten_twenty (sixteen ∷ twelve ∷ [])
    ≡ some (
        record { lba = 10; blocks = 2 }
        ∷ record { lba = 14; blocks = 2 }
        ∷ record { lba = 19; blocks = 2 }
        ∷ [])
unfolding sub_many last extent_from
sub_many_runs = refl

-- A larger extent cannot be subtracted.
sub_larger : sub sixteen ten_twenty ≡ none
unfolding sub last extent_from
sub_larger = refl

cover-Covers_example : Covers (cover ten_twenty sixteen) ten_twenty sixteen
cover-Covers_example = cover-Covers ten_twenty sixteen (omega arith) (omega arith)

clamp-Shares_example : Shares ten_twenty sixteen (clamp ten_twenty sixteen)
clamp-Shares_example = clamp-Shares ten_twenty sixteen (omega arith) (omega arith)

sub-Subtracts_example : Subtracts (cover sixteen ten_twenty) ten_twenty sixteen
sub-Subtracts_example = sub-Subtracts ten_twenty sixteen (omega arith) (omega arith)

contains-sub_many_example :
    (holes : List Extent) × (sub_many ten_twenty (sixteen ∷ twelve ∷ []) ≡ some holes)
    × Parts ten_twenty holes
    × ((x : ℕ)
        → any_contains holes x
          ≡ (contains ten_twenty x && not (any_contains (sixteen ∷ twelve ∷ []) x)))
contains-sub_many_example =
    contains-sub_many ten_twenty (sixteen ∷ twelve ∷ []) (omega arith) (omega arith) (omega arith)
