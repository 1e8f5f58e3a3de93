-- ===== src/Compact/Live.antt =====
-- extent_map.go: the live range of a compact entry.
use lsvd.Base.{◌+◌, ◌-◌, ◌^◌, ◌≤◌, ◌<◌, ◌≡◌, refl, ap, ◌∙◌, arith}
use lsvd.Base.Outcome.{ok}
use lsvd.Extent.{Extent}
use lsvd.Extent.Range.{IsRange}
use lsvd.Compact.{CompactPe, phys_lba, phys_blocks, live_lba, live_blocks, live, set_live}

-- The live range is not empty and lies inside the physical extent.
pub record IsLive (c : CompactPe) : Type 0 where
  pub front : c.live_lba_diff ≤ c.live_block_diff
  pub rest : c.live_block_diff < phys_blocks c

pub phys-lt : (c : CompactPe) → (phys_lba c < 2 ^ 32) × (phys_blocks c < 2 ^ 16)
unfolding phys_lba phys_blocks
phys-lt c = omega arith

-- The wrapping sums do not wrap.
pub live_lem :
    (c : CompactPe)
    → IsLive c
    → ((live c).lba ≡ phys_lba c + c.live_lba_diff)
      × ((live c).blocks ≡ phys_blocks c - c.live_block_diff)
unfolding live live_lba live_blocks
live_lem c l = omega (arith, phys-lt c)

pub live-IsRange : (c : CompactPe) → IsLive c → IsRange (live c)
live-IsRange c l = omega (arith, phys-lt c, live_lem c l)

-- `e` is a nonempty part of the physical extent.
pub record Fits (c : CompactPe) (e : Extent) : Type 0 where
  pub begins : phys_lba c ≤ e.lba
  pub ends : e.lba + e.blocks ≤ phys_lba c + phys_blocks c
  pub nonempty : 0 < e.blocks

-- The entry with another live range, and the same data.
abbrev pub with_live : CompactPe → Extent → CompactPe
with_live c e = record c {
  live_lba_diff = e.lba - phys_lba c;
  live_block_diff = phys_blocks c - e.blocks;
}

pub set_live_lem {ℓ} :
    {E : Type ℓ} (c : CompactPe) (e : Extent) → Fits c e → set_live {E = E} c e ≡ ok (with_live c e)
unfolding set_live
set_live_lem c e f = ground (arith, phys-lt c)

pub live-Fits :
    (c : CompactPe) (e : Extent)
    → IsLive c
    → (live c).lba ≤ e.lba
    → e.lba + e.blocks ≤ (live c).lba + (live c).blocks
    → 0 < e.blocks
    → Fits c e
live-Fits c e l h k n = omega (arith, live_lem c l)

pub with_live-IsLive : (c : CompactPe) (e : Extent) → Fits c e → IsLive (with_live c e)
unfolding phys_blocks
with_live-IsLive c e f = omega arith

pub live-with_live : (c : CompactPe) (e : Extent) → Fits c e → live (with_live c e) ≡ e
unfolding live live_lba live_blocks phys_lba phys_blocks
live-with_live c e f = ground arith

-- The live range of an entry can be set again and again.
pub with_live_twice : (c : CompactPe) (e f : Extent) → with_live (with_live c e) f ≡ with_live c f
unfolding phys_lba phys_blocks
with_live_twice c e f = refl

pub with_live-Fits : (c : CompactPe) (e f : Extent) → Fits c f → Fits (with_live c e) f
unfolding phys_lba phys_blocks
with_live-Fits c e f h = omega arith

pub set_live_twice {ℓ} :
    {E : Type ℓ} (c : CompactPe) (e f : Extent)
    → Fits c f
    → set_live {E = E} (with_live c e) f ≡ ok (with_live c f)
set_live_twice c e f h =
    set_live_lem (with_live c e) f (with_live-Fits c e f h) ∙ ap ok (with_live_twice c e f)
