-- ===== src/Rebuild/Examples.antt =====
-- rebuild.go: the theorem at a concrete input.
use lsvd.Base.{ℕ, ◌≡◌, List, [], ◌∷◌, ◌++◌, arith, some, false}
use lsvd.Base.Outcome.{ok}
use lsvd.Location.{ExtentHeader}
use lsvd.Uvarint.{eof}
use lsvd.ExtentMap.{ExtentMap}
use lsvd.ExtentMap.Examples.{store, one_extent, one_extent-IsMap}
use lsvd.ExtentMap.Setting.{IsMap, find_block}
use lsvd.Segments.{Segments, find}
use lsvd.Segments.Committing.{latest}
use lsvd.Rebuild.{rebuild_from_segment, located}
use lsvd.Rebuild.Recover.{stored, rebuild-Recovers}
use mathlib.Core.List.{map}

-- The second extent overwrites a part of the first.
abbrev two_headers : List ExtentHeader
two_headers =
    record { extent = record { lba = 40; blocks = 6 }; size = 900; offset = 0; raw_size = 24576 }
    ∷ record { extent = record { lba = 43; blocks = 1 }; size = 4096; offset = 900; raw_size = 0 }
    ∷ []

rebuild-Recovers_example :
    (em' : ExtentMap store.Map) × (ss' : Segments) × (rebuild_from_segment store 9
        (record { extent_count = 2; data_offset = 20 })
        eof
        (stored two_headers ++ 1 ∷ 2 ∷ [])
        one_extent
        []
      ≡ ok (em', ss'))
    × IsMap store em'
    × ((x : ℕ)
        → find_block store em' x
          ≡ latest (map (located 9 20) two_headers) x (find_block store one_extent x))
    × (find 9 ss' ≡ some (record { size = 7; used = 7; deleted = false }))
rebuild-Recovers_example =
    rebuild-Recovers store 9 20 eof (1 ∷ 2 ∷ []) two_headers one_extent [] (omega arith)
      one_extent-IsMap (omega arith) (omega arith)
