-- ===== src/Compact.antt =====
-- extent_map.go: `compactPE`, an entry of the extent map. `phys_x` is a uint64 that holds the first
-- block and the number of blocks of the extent; the diffs are uint16, the other fields uint32.
pub mod Live
pub mod Limits
mod Examples
use Prim.Native.Nat.{bit_or}
use lsvd.Base.{ℕ, ◌+◌, ◌-◌, ◌*◌, ◌/◌, ◌%◌, ◌^◌, ltb, if◌then◌else◌}
use lsvd.Base.Words.{add64, sub64, sub32}
use lsvd.Base.Outcome.{Outcome, ok, err, panic}
use lsvd.Extent.{Extent}
use lsvd.Location.{ExtentHeader}

pub record CompactPe : Type 0 where
  pub phys_x : ℕ
  pub live_lba_diff : ℕ
  pub live_block_diff : ℕ
  pub seg_idx : ℕ
  pub byte_size : ℕ
  pub offset : ℕ
  pub raw_size : ℕ

-- `(c.physX & physLBAMask) >> physLBAShift`; a mask of the 48 low bits is a remainder.
unfoldable pub phys_lba : CompactPe → ℕ
phys_lba c = c.phys_x % 2 ^ 48 / 2 ^ 16

unfoldable pub phys_blocks : CompactPe → ℕ
phys_blocks c = c.phys_x % 2 ^ 16

unfoldable pub live_lba : CompactPe → ℕ
live_lba c = add64 (phys_lba c) c.live_lba_diff

unfoldable pub live_blocks : CompactPe → ℕ
live_blocks c = sub32 (phys_blocks c) c.live_block_diff

unfoldable pub phys_extent : CompactPe → Extent
phys_extent c = record { lba = phys_lba c; blocks = phys_blocks c }

unfoldable pub live : CompactPe → Extent
live c = record { lba = live_lba c; blocks = live_blocks c }

-- The last block, by `LBA(c.LiveBlocks()-1)`.
unfoldable pub live_last : CompactPe → ℕ
live_last c = add64 (live_lba c) (sub32 (live_blocks c) 1)

abbrev pub max_uint16 : ℕ
max_uint16 = 2 ^ 16 - 1

-- `SetLive` panics where a diff does not fit uint16.
unfoldable pub set_live {ℓ} : {E : Type ℓ} → CompactPe → Extent → Outcome E CompactPe
set_live c ext =
    let ld = sub64 ext.lba (phys_lba c) in
    let bd = sub32 (phys_blocks c) ext.blocks in
    if ltb max_uint16 ld
    then panic
    else if ltb max_uint16 bd
    then panic
    else ok (record c { live_lba_diff = ld; live_block_diff = bd })

-- `uint64(lba<<physLBAShift) | uint64(blocks)`
unfoldable pub pack : ℕ → ℕ → ℕ
pack lba blocks = bit_or (lba * 2 ^ 16 % 2 ^ 64) blocks

-- The entry that `set` and `SetFromHeader` build, before its live range is set.
unfoldable pub from_header : ExtentHeader → ℕ → CompactPe
unfolding pack
from_header h seg = record {
  phys_x = pack h.extent.lba h.extent.blocks;
  live_lba_diff = 0;
  live_block_diff = 0;
  seg_idx = seg;
  byte_size = h.size;
  offset = h.offset;
  raw_size = h.raw_size;
}

-- The new location keeps the live range of the old one.
unfoldable pub set_from_header {ℓ} :
    {E : Type ℓ} → CompactPe → ExtentHeader → ℕ → Outcome E CompactPe
unfolding set_live from_header
set_from_header c h seg = set_live (from_header h seg) (live c)
