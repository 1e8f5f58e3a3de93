-- ===== src/Nbd/History.antt =====
-- nbd.go: the states that requests bring the wrapper to, with what was written so far.
use lsvd.Base.{ℕ, ◌+◌, ◌*◌, ◌^◌, ◌≤◌, ◌<◌, ◌≡◌, List, length}
use lsvd.Base.Outcome.{Outcome, ok, err}
use lsvd.Extent.{Extent}
use lsvd.Nbd.{BlockDisk, NbdWrapper, new_wrapper, write_at, zero_at}
use lsvd.Nbd.Image.{IsQueue, Fits, image, overlay, cleared}

module _ {E : Type 0} (B : BlockDisk E) (contents : B.D → ℕ → ℕ) where
  open B use {D}

  -- A wrapper and the bytes that its requests made, the latest first. A request that failed leaves only
  -- what the disk holds.
  pub data Reached : NbdWrapper D → (ℕ → ℕ) → Type 0 where
    opened : (d : D) → Reached (new_wrapper d) (contents d)
    wrote :
        {n n' : NbdWrapper D} {seen : ℕ → ℕ} {k : ℕ} (b : List ℕ) (lba blocks : ℕ)
        → Reached n seen
        → n.pending_trim.blocks ≤ 65535
        → length b ≡ blocks * 4096
        → Fits (record { lba = lba; blocks = blocks })
        → write_at B n b (lba * 4096) ≡ (n', ok k)
        → Reached n' (overlay lba b seen)
    write_failed :
        {n n' : NbdWrapper D} {seen : ℕ → ℕ} {e : E} (b : List ℕ) (lba blocks : ℕ)
        → Reached n seen
        → n.pending_trim.blocks ≤ 65535
        → length b ≡ blocks * 4096
        → Fits (record { lba = lba; blocks = blocks })
        → write_at B n b (lba * 4096) ≡ (n', err e)
        → Reached n' (contents n'.disk)
    zeroed :
        {n n' : NbdWrapper D} {seen : ℕ → ℕ} {u : Unit {0}} (lba blocks : ℕ)
        → Reached n seen
        → n.pending_trim.blocks ≤ 65535
        → lba + blocks ≤ 2 ^ 32
        → blocks < 2 ^ 32
        → zero_at B n (lba * 4096) (blocks * 4096) ≡ (n', ok u)
        → Reached n' (cleared (record { lba = lba; blocks = blocks }) seen)
    zero_failed :
        {n n' : NbdWrapper D} {seen : ℕ → ℕ} {e : E} (lba blocks : ℕ)
        → Reached n seen
        → n.pending_trim.blocks ≤ 65535
        → lba + blocks ≤ 2 ^ 32
        → blocks < 2 ^ 32
        → zero_at B n (lba * 4096) (blocks * 4096) ≡ (n', err e)
        → Reached n' (contents n'.disk)

  Sees : NbdWrapper D → (ℕ → ℕ) → Type 0
  Sees n seen = IsQueue n × ((p : ℕ) → image B contents n p ≡ seen p)
