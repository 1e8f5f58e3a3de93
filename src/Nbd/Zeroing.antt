-- ===== src/Nbd/Zeroing.antt =====
-- nbd.go: `ZeroAt`, against what clients see, and the loop that splits a large request.
use lsvd.Base.{
  ℕ, zero, suc, ◌+◌, ◌-◌, ◌*◌, ◌/◌, ◌^◌, ◌≤◌, ◌<◌, ◌≡◌, refl, sym, ◌∙◌, arith, ltb, both_branches,
}
use lsvd.Base.Words.{to32, add64, sub32}
use lsvd.Base.Outcome.{Outcome, ok, err, panic}
use lsvd.Extent.{Extent}
use lsvd.Nbd.{
  BlockDisk, NbdWrapper, and_then, queue_trim, flush_pending_write, zero_through, zero_loop,
  zero_again, zero_at,
}
use lsvd.Nbd.Image.{IsBlockDisk, IsQueue, Fits, image, cleared, cleared-under, cleared-append}
use lsvd.Nbd.Flushing.{
  IsIdle, Flushed, Flushed-seen, and_then_lem, zero_through-Flushed, flush_pending_write-Flushed,
}
use lsvd.Nbd.Queue.{queue_trim-Taken, queue_trim_idle}
use lsvd.Nbd.Writing.{Shows, image_idle, or_rest, taken_lem}

module _ {E : Type 0} (B : BlockDisk E) (contents : B.D → ℕ → ℕ) where
  open B use {D}

  Flushed-Shows :
      (seen : ℕ → ℕ) (x : NbdWrapper D × Outcome E (Unit {0}))
      → Flushed B contents seen x
      → Shows B contents seen tt x
  Flushed-Shows seen (n, ok u) h = (refl, h.0.queue, λ p. image_idle B contents n p h.0 ∙ h.1 p)
  Flushed-Shows seen (n, err e) h = h
  Flushed-Shows seen (n, panic) h = h

  zero_again-Shows :
      (n : NbdWrapper D) (ext : Extent) (seen : ℕ → ℕ)
      → IsIdle n
      → ((p : ℕ) → contents n.disk p ≡ seen p)
      → Fits ext
      → Shows B contents (cleared ext seen) tt (zero_again B ext n)
  unfolding zero_again
  zero_again-Shows n ext seen i same fits =
      taken_lem B contents tt (cleared ext (image B contents n)) (cleared ext seen) n
        (queue_trim n ext) _
        (queue_trim-Taken B contents n i.queue ext fits.0 fits.1 (omega (arith, i.no_trim)))
        (queue_trim_idle B contents n ext i)
        (λ p. cleared-under ext (image B contents n) seen p (image_idle B contents n p i ∙ same p))

  module _ (L : IsBlockDisk B contents) where
    -- For a disk that does not panic on extents of at most 65535 blocks that end at or below block 2 ^
    -- 32, and that does what it is asked when it returns, and nothing pending: with fuel for every 65535
    -- blocks of a non-empty range that ends at or below block 2 ^ 32, the loop of `ZeroAt` does not
    -- panic. When it returns, the disk holds zeros in the range and else what it held.
    pub zero_loop-Flushed :
        (fuel : ℕ) (n : NbdWrapper D) (blk num_blocks : ℕ)
        → IsIdle n
        → 0 < num_blocks
        → num_blocks ≤ fuel * 65535
        → blk + num_blocks ≤ 2 ^ 32
        → num_blocks < 2 ^ 32
        → Flushed B contents
            (cleared (record { lba = blk; blocks = num_blocks }) (contents n.disk))
            (zero_loop B fuel n blk num_blocks)
    unfolding zero_loop
    zero_loop-Flushed zero n blk num i more enough ends narrow = absurd (omega arith)
    zero_loop-Flushed (suc fuel) n blk num i more enough ends narrow =
        let whole : Extent = record { lba = blk; blocks = num } in
        let e : Extent = record { lba = blk; blocks = 65535 } in
        let f : Extent = record { lba = blk + 65535; blocks = num - 65535 } in
        let P = Flushed B contents (cleared whole (contents n.disk)) in
        both_branches P (ltb 65535 num)
          (λ large.
            let on : add64 blk 65535 ≡ blk + 65535 = omega (arith, ends) in
            let left : sub32 num 65535 ≡ num - 65535 = ground (arith, large) in
            let sum : num ≡ 65535 + (num - 65535) = ground (arith, large) in
            and_then_lem B contents P (zero_through B n e)
              (λ n'. zero_loop B fuel n' (add64 blk 65535) (sub32 num 65535))
              (cleared e (contents n.disk))
              (zero_through-Flushed B contents L n e i (omega arith) (ground (arith, large)))
              (λ n' x idle. idle)
              (λ n' idle same.
                rw (on, left)
                  (Flushed-seen B contents (cleared f (contents n'.disk))
                    (cleared whole (contents n.disk)) _
                    (λ p.
                      cleared-under f _ (cleared e (contents n.disk)) p (same p)
                      ∙ sym (cleared-append e f whole (contents n.disk) p refl refl sum))
                    (zero_loop-Flushed fuel n' (blk + 65535) (num - 65535) idle
                      (ground (arith, large)) (ground (arith, large, enough))
                      (ground (arith, large, ends)) (omega arith)))))
          (λ small. zero_through-Flushed B contents L n whole i more (ground (arith, small), ends))

    -- For a disk that does not panic on extents of at most 65535 blocks that end at or below block 2 ^
    -- 32, and that does what it is asked when it returns, and a range of whole blocks, fewer than 2 ^ 32,
    -- that ends at or below block 2 ^ 32, while at most 65535 blocks wait to be trimmed: `ZeroAt` does
    -- not panic. When it returns, clients see zeros in the range and else what they saw before, and the
    -- queue is in order. When the disk fails, nothing is pending any more.
    pub zero_at-Zeroes :
        (n : NbdWrapper D) (lba blocks : ℕ)
        → IsQueue n
        → n.pending_trim.blocks ≤ 65535
        → lba + blocks ≤ 2 ^ 32
        → blocks < 2 ^ 32
        → Shows B contents
            (cleared (record { lba = lba; blocks = blocks }) (image B contents n))
            tt
            (zero_at B n (lba * 4096) (blocks * 4096))
    unfolding zero_at
    zero_at-Zeroes n lba blocks q few ends narrow =
        let ext : Extent = record { lba = lba; blocks = blocks } in
        let seen = image B contents n in
        let place : lba * 4096 / 4096 ≡ lba = omega arith in
        let count : to32 (blocks * 4096 / 4096) ≡ blocks = omega (arith, narrow) in
        let P = Shows B contents (cleared ext seen) tt in
        let flushed = flush_pending_write-Flushed B contents L n q few in
        rw (place, count)
          (both_branches P (ltb 65535 blocks)
            (λ large.
              and_then_lem B contents P (flush_pending_write B n)
                (λ n'. zero_loop B (suc (blocks / 65535)) n' lba blocks) seen flushed (λ n' e i. i)
                (λ n' i same. Flushed-Shows (cleared ext seen) _ (
                  Flushed-seen B contents (cleared ext (contents n'.disk)) (cleared ext seen) _
                    (λ p. cleared-under ext _ seen p (same p))
                    (zero_loop-Flushed (suc (blocks / 65535)) n' lba blocks i
                      (ground (arith, large)) (omega arith) ends narrow))))
            (λ small.
              let fits : blocks ≤ 65535 = ground (arith, small) in
              or_rest B contents tt (cleared ext seen) n (queue_trim n ext)
                (λ n'. and_then (flush_pending_write B n') (zero_again B ext))
                (queue_trim-Taken B contents n q ext fits ends few)
                (and_then_lem B contents P (flush_pending_write B n) (zero_again B ext) seen flushed
                  (λ n' e i. i) (λ n' i same. zero_again-Shows n' ext seen i same (fits, ends)))))
