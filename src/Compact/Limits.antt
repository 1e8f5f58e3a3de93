-- ===== src/Compact/Limits.antt =====
-- extent_map.go: what fits into a compact entry, and what makes it panic.
use Prim.Native.Nat.{bit_or}
use lsvd.Base.{ℕ, ◌+◌, ◌*◌, ◌/◌, ◌%◌, ◌^◌, ◌≤◌, ◌<◌, ◌≡◌, ◌⊎◌, refl, inl, inr, arith, compare_le}
use lsvd.Base.Bits.{bit_or-shift, bit_or-shift_fits}
use lsvd.Base.Outcome.{panic}
use lsvd.Extent.{Extent}
use lsvd.Location.{ExtentHeader}
use lsvd.Compact.{pack, phys_lba, phys_blocks, phys_extent, from_header, set_live}

-- An extent that a compact entry can hold.
pub record IsCompact (e : Extent) : Type 0 where
  pub nonempty : 0 < e.blocks
  pub few_blocks : e.blocks < 2 ^ 16
  pub low_lba : e.lba < 2 ^ 32

pack_fields :
    (lba blocks : ℕ)
    → lba < 2 ^ 48
    → pack lba blocks ≡ bit_or lba (blocks / 2 ^ 16) * 2 ^ 16 + blocks % 2 ^ 16
unfolding pack
pack_fields lba blocks h =
    let shifted : lba * 2 ^ 16 % 2 ^ 64 ≡ lba * 2 ^ 16 = omega arith in
    rw shifted (bit_or-shift 16 lba blocks)

pack_lem :
    (lba blocks : ℕ) → lba < 2 ^ 48 → blocks < 2 ^ 16 → pack lba blocks ≡ lba * 2 ^ 16 + blocks
unfolding pack
pack_lem lba blocks h k =
    let shifted : lba * 2 ^ 16 % 2 ^ 64 ≡ lba * 2 ^ 16 = omega arith in
    rw shifted (bit_or-shift_fits 16 lba blocks k)

-- Packing an extent of 1 to 2 ^ 16 - 1 blocks that begins below block 2 ^ 32 and unpacking it gives back
-- its first block and its number of blocks.
pub phys-from_header :
    (h : ExtentHeader) (seg : ℕ)
    → IsCompact h.extent
    → (phys_lba (from_header h seg) ≡ h.extent.lba)
      × (phys_blocks (from_header h seg) ≡ h.extent.blocks)
unfolding phys_lba phys_blocks from_header
phys-from_header h seg c = omega (arith, pack_lem h.extent.lba h.extent.blocks)

pub phys_extent-from_header :
    (h : ExtentHeader) (seg : ℕ) → IsCompact h.extent → phys_extent (from_header h seg) ≡ h.extent
unfolding phys_extent
phys_extent-from_header h seg c =
    let (lba, blocks) = phys-from_header h seg c in rw (lba, blocks) refl

-- For an extent with a block number below 2 ^ 48 and a uint32 count, which begins at block 2 ^ 32 or
-- later or has 2 ^ 16 blocks or more, the entry built from its header panics in `SetLive`.
pub set_live_panics {ℓ} :
    {E : Type ℓ} (h : ExtentHeader) (seg : ℕ)
    → h.extent.lba < 2 ^ 48
    → h.extent.blocks < 2 ^ 32
    → (2 ^ 32 ≤ h.extent.lba) ⊎ (2 ^ 16 ≤ h.extent.blocks)
    → set_live {E = E} (from_header h seg) h.extent ≡ panic
unfolding set_live
set_live_panics h seg l b (inl o) = elim (compare_le h.extent.blocks (2 ^ 16)) [
  | inl few ↦
      unfold phys_lba phys_blocks from_header in
      (ground (arith, pack_lem h.extent.lba h.extent.blocks l few))
  | inr many ↦
      unfold phys_lba phys_blocks from_header in
      (ground (arith, pack_fields h.extent.lba h.extent.blocks l))
]
set_live_panics h seg l b (inr many) =
    unfold phys_lba phys_blocks from_header in
    (ground (arith, pack_fields h.extent.lba h.extent.blocks l))
