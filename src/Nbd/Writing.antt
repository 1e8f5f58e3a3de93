-- ===== src/Nbd/Writing.antt =====
-- nbd.go: `WriteAt`, against what clients see.
use lsvd.Base.{
  ℕ, ◌*◌, ◌/◌, ◌≤◌, ◌≡◌, refl, ◌∙◌, List, arith, if◌then◌else◌, length, Bool, true, false,
}
use lsvd.Base.Words.{to32}
use lsvd.Base.Outcome.{Outcome, ok, err, panic}
use lsvd.Extent.{Extent}
use lsvd.Nbd.{
  BlockDisk, NbdWrapper, and_then, queue_pending_write, flush_pending_write, write_again, write_at,
}
use lsvd.Nbd.Image.{
  IsBlockDisk, IsQueue, Fits, image, overlay, overlay_nothing, cleared_nothing, overlay-under,
}
use lsvd.Nbd.Flushing.{IsIdle, and_then_lem, flush_pending_write-Flushed}
use lsvd.Nbd.Queue.{Taken, queue_pending_write-Taken, queue_pending_write_idle}

module _ {E : Type 0} (B : BlockDisk E) (contents : B.D → ℕ → ℕ) where
  open B use {D}

  -- An operation does not panic. When it returns, it returns this value, the queue is in order, and this
  -- is what clients see. When the disk fails, nothing is pending.
  abbrev pub Shows : {A : Type 0} → (ℕ → ℕ) → A → NbdWrapper D × Outcome E A → Type 0
  Shows after a (n', ok a') = (a' ≡ a) × IsQueue n' × ((p : ℕ) → image B contents n' p ≡ after p)
  Shows after a (n', err e) = IsIdle n'
  Shows after a (n', panic) = ⊥

  pub image_idle : (n : NbdWrapper D) (p : ℕ) → IsIdle n → image B contents n p ≡ contents n.disk p
  image_idle n p i = rw i.no_data (
      overlay_nothing n.pending_write.lba _ p
      ∙ cleared_nothing n.pending_trim (contents n.disk) p i.no_trim)

  -- `if queue(…) { return }` and what follows it.
  pub or_rest :
      {A : Type 0} (a : A) (after : ℕ → ℕ) (n : NbdWrapper D) (x : NbdWrapper D × Bool)
      (rest : NbdWrapper D → NbdWrapper D × Outcome E A)
      → Taken B contents n after x
      → Shows after a (rest n)
      → Shows after a (if x.1 then (x.0, ok a) else rest x.0)
  or_rest a after n (n', true) rest h k = (refl, h.0, h.1)
  or_rest a after n (n', false) rest h k = rw h k

  -- The same behind a flush, where the queue takes the extent.
  pub taken_lem :
      {A : Type 0} (a : A) (after after' : ℕ → ℕ) (n : NbdWrapper D) (x : NbdWrapper D × Bool)
      (rest : NbdWrapper D × Outcome E A)
      → Taken B contents n after x
      → x.1 ≡ true
      → ((p : ℕ) → after p ≡ after' p)
      → Shows after' a (if x.1 then (x.0, ok a) else rest)
  taken_lem a after after' n (n', true) rest h sure same = (refl, h.0, λ p. h.1 p ∙ same p)
  taken_lem a after after' n (n', false) rest h sure same = absurd (cc sure)

  write_again-Shows :
      (n : NbdWrapper D) (ext : Extent) (b : List ℕ) (seen : ℕ → ℕ)
      → IsIdle n
      → ((p : ℕ) → contents n.disk p ≡ seen p)
      → length b ≡ ext.blocks * 4096
      → Fits ext
      → Shows (overlay ext.lba b seen) (length b) (write_again B ext b n)
  unfolding write_again
  write_again-Shows n ext b seen i same size fits =
      taken_lem (length b) (overlay ext.lba b (image B contents n)) (overlay ext.lba b seen) n
        (queue_pending_write n ext b) _
        (queue_pending_write-Taken B contents n i.queue ext b size fits)
        (queue_pending_write_idle B contents n ext b i)
        (λ p. overlay-under ext.lba b (image B contents n) seen p (image_idle n p i ∙ same p))

  -- For a disk that does not panic on extents of at most 65535 blocks that end at or below block 2 ^ 32, and
  -- that does what it is asked when it returns, and a write of whole blocks in such an extent, while at most
  -- 65535 blocks wait to be trimmed: `WriteAt` does not panic. When it returns, it returns the number
  -- of bytes, clients see them at their places and else what they saw before, and the queue is in order.
  -- When the disk fails, nothing is pending any more.
  pub write_at-Writes :
      (L : IsBlockDisk B contents) (n : NbdWrapper D) (b : List ℕ) (lba blocks : ℕ)
      → IsQueue n
      → n.pending_trim.blocks ≤ 65535
      → length b ≡ blocks * 4096
      → Fits (record { lba = lba; blocks = blocks })
      → Shows (overlay lba b (image B contents n)) (length b) (write_at B n b (lba * 4096))
  unfolding write_at
  write_at-Writes L n b lba blocks q few size fits =
      let ext : Extent = record { lba = lba; blocks = blocks } in
      let place : lba * 4096 / 4096 ≡ lba = omega arith in
      let count : to32 (length b / 4096) ≡ blocks = omega (arith, size, fits) in
      let seen = image B contents n in
      rw (place, count)
        (or_rest (length b) (overlay lba b seen) n (queue_pending_write n ext b)
          (λ n'. and_then (flush_pending_write B n') (write_again B ext b))
          (queue_pending_write-Taken B contents n q ext b size fits)
          (and_then_lem B contents (Shows (overlay lba b seen) (length b)) (flush_pending_write B n)
            (write_again B ext b) seen (flush_pending_write-Flushed B contents L n q few)
            (λ n' e i. i) (λ n' i same. write_again-Shows n' ext b seen i same size fits)))
