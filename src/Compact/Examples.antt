-- ===== src/Compact/Examples.antt =====
-- extent_map.go, `compactPE`: the theorems at concrete inputs.
use lsvd.Base.{ℕ, ◌≡◌, inl, arith}
use lsvd.Base.Outcome.{panic}
use lsvd.Location.{ExtentHeader}
use lsvd.Compact.{phys_lba, phys_blocks, from_header, set_live}
use lsvd.Compact.Limits.{phys-from_header, set_live_panics}
use lsvd.ExtentMap.{Error}

abbrev header_at : ℕ → ℕ → ExtentHeader
header_at lba blocks = record {
  extent = record { lba = lba; blocks = blocks };
  size = 4096;
  offset = 0;
  raw_size = 0;
}

phys-from_header_example :
    (phys_lba (from_header (header_at 47 5) 3) ≡ 47)
    × (phys_blocks (from_header (header_at 47 5) 3) ≡ 5)
phys-from_header_example = phys-from_header (header_at 47 5) 3 (omega arith)

-- Block 2 ^ 32 of a disk of 16 TiB.
set_live_panics_example :
    set_live {E = Error}
      (from_header (header_at 4294967296 5) 3)
      (record { lba = 4294967296; blocks = 5 })
    ≡ panic
set_live_panics_example =
    set_live_panics (header_at 4294967296 5) 3 (omega arith) (omega arith) (inl (omega arith))
