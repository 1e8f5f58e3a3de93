-- ===== src/Nbd.antt =====
-- nbd.go: `nbdWrapper`, which joins adjacent writes, and adjacent trims, before it hands them to the disk.
-- The disk is a parameter. Reads, which begin with a flush as `Sync` does, are not modelled, nor are logs.
pub mod Image
pub mod Creator
pub mod Flushing
pub mod Queue
pub mod Writing
pub mod Zeroing
pub mod History
mod Examples
use lsvd.Base.{
  ℕ, zero, suc, ◌+◌, ◌-◌, ◌*◌, ◌/◌, ◌%◌, ◌^◌, Bool, true, false, not, List, [], ◌∷◌, ◌++◌, ltb, leb,
  ◌==◌, if◌then◌else◌, length,
}
use lsvd.Base.Words.{add64, add32, sub32, to32}
use lsvd.Base.Outcome.{Outcome, ok, err, panic}
use lsvd.Extent.{Extent, zero_extent, block_size, max_blocks, last}
use lsvd.RangeData.{RangeData, map_range_data}

-- What the wrapper uses of a `Disk`: what a call leaves, also when it fails, and its error.
pub record BlockDisk (E : Type 0) : Type 1 where
  pub D : Type 0
  pub write_extent : D → RangeData → D × Outcome E (Unit {0})
  pub zero_blocks : D → Extent → D × Outcome E (Unit {0})
  pub sync_write_cache : D → D × Outcome E (Unit {0})
  pub disk_size : D → ℕ

pub record NbdWrapper (D : Type 0) : Type 0 where
  pub disk : D
  pub pending_write : Extent
  pub pending_write_data : List ℕ
  pub pending_trim : Extent

-- `NBDWrapper`
abbrev pub new_wrapper : {D : Type 0} → D → NbdWrapper D
new_wrapper d = record {
  disk = d;
  pending_write = zero_extent;
  pending_write_data = [];
  pending_trim = zero_extent;
}

-- `if err != nil { return err }` with a state.
abbrev pub and_then : {E S A B : Type 0} → S × Outcome E A → (S → S × Outcome E B) → S × Outcome E B
and_then (s, ok a) f = f s
and_then (s, err e) f = (s, err e)
and_then (s, panic) f = (s, panic)

-- With whether the extent was taken.
unfoldable pub queue_pending_write :
    {D : Type 0} → NbdWrapper D → Extent → List ℕ → NbdWrapper D × Bool
queue_pending_write n ext b =
    if ltb 0 n.pending_trim.blocks
    then (n, false)
    else if length n.pending_write_data == 0
    then (record n { pending_write = ext; pending_write_data = n.pending_write_data ++ b }, true)
    else if not (add64 (last n.pending_write) 1 == ext.lba)
    then (n, false)
    else if ltb 20 (add32 n.pending_write.blocks ext.blocks)
    then (n, false)
    else (
      record n {
        pending_write = record n.pending_write { blocks = add32 n.pending_write.blocks ext.blocks };
        pending_write_data = n.pending_write_data ++ b;
      },
      true,
    )

unfoldable pub queue_trim : {D : Type 0} → NbdWrapper D → Extent → NbdWrapper D × Bool
queue_trim n ext =
    if ltb 0 n.pending_write.blocks
    then (n, false)
    else if n.pending_trim.blocks == 0
    then (record n { pending_trim = ext }, true)
    else if add64 (last n.pending_trim) 1 == ext.lba
    then (
      record n {
        pending_trim = record n.pending_trim { blocks = add32 n.pending_trim.blocks ext.blocks };
      },
      true,
    )
    else (n, false)

unfoldable pub round_to_block_size : ℕ → ℕ
round_to_block_size sz = let diff = sz % block_size in if diff == 0 then sz else sz - diff

abbrev pub max_size : ℕ
max_size = 1024 * 1024 * 1024 * 100

module _ {E : Type 0} (B : BlockDisk E) where
  open B use {D, write_extent, zero_blocks, sync_write_cache, disk_size}

  -- A call of the disk from the wrapper.
  unfoldable pub write_through :
      NbdWrapper D → Outcome E RangeData → NbdWrapper D × Outcome E (Unit {0})
  write_through n (ok r) =
      let (d, result) = write_extent n.disk r in (record n { disk = d }, result)
  write_through n (err e) = (n, err e)
  write_through n panic = (n, panic)

  unfoldable pub zero_through : NbdWrapper D → Extent → NbdWrapper D × Outcome E (Unit {0})
  zero_through n rng = let (d, result) = zero_blocks n.disk rng in (record n { disk = d }, result)

  unfoldable pub flush_pending_trim : NbdWrapper D → NbdWrapper D × Outcome E (Unit {0})
  unfolding zero_through
  flush_pending_trim n =
      if ltb 0 n.pending_trim.blocks
      then zero_through (record n { pending_trim = zero_extent }) n.pending_trim
      else (n, ok tt)

  -- The data is reset also when the disk fails.
  unfoldable pub flush_data : NbdWrapper D → NbdWrapper D × Outcome E (Unit {0})
  unfolding write_through
  flush_data n =
      if length n.pending_write_data == 0
      then (n, ok tt)
      else write_through (record n { pending_write = zero_extent; pending_write_data = [] })
          (map_range_data n.pending_write n.pending_write_data)

  unfoldable pub flush_pending_write : NbdWrapper D → NbdWrapper D × Outcome E (Unit {0})
  unfolding flush_pending_trim flush_data
  flush_pending_write n = and_then (flush_pending_trim n) flush_data

  -- The second half of `WriteAt`, behind the flush.
  unfoldable pub write_again : Extent → List ℕ → NbdWrapper D → NbdWrapper D × Outcome E ℕ
  unfolding queue_pending_write write_through
  write_again ext b n =
      let (n', queued) = queue_pending_write n ext b in
      if queued
      then (n', ok (length b))
      else and_then (write_through n' (map_range_data ext b)) λ n''. (n'', ok (length b))

  unfoldable pub write_at : NbdWrapper D → List ℕ → ℕ → NbdWrapper D × Outcome E ℕ
  unfolding queue_pending_write flush_pending_write write_again
  write_at n b off =
      let ext : Extent = record { lba = off / block_size; blocks = to32 (length b / block_size) } in
      let (n', queued) = queue_pending_write n ext b in
      if queued then (n', ok (length b)) else and_then (flush_pending_write n') (write_again ext b)

  -- The loop of `ZeroAt` and the call behind it. A round takes `max_blocks` off; without fuel, a panic.
  unfoldable pub zero_loop : ℕ → NbdWrapper D → ℕ → ℕ → NbdWrapper D × Outcome E (Unit {0})
  unfolding zero_through
  zero_loop zero n blk num_blocks = (n, panic)
  zero_loop (suc fuel) n blk num_blocks =
      if ltb max_blocks num_blocks
      then and_then (zero_through n (record { lba = blk; blocks = max_blocks }))
          (λ n'. zero_loop fuel n' (add64 blk max_blocks) (sub32 num_blocks max_blocks))
      else zero_through n (record { lba = blk; blocks = num_blocks })

  -- The last part of `ZeroAt`, behind the flush.
  unfoldable pub zero_again : Extent → NbdWrapper D → NbdWrapper D × Outcome E (Unit {0})
  unfolding queue_trim zero_through
  zero_again ext n =
      let (n', queued) = queue_trim n ext in if queued then (n', ok tt) else zero_through n' ext

  unfoldable pub zero_at : NbdWrapper D → ℕ → ℕ → NbdWrapper D × Outcome E (Unit {0})
  unfolding zero_loop queue_trim flush_pending_write zero_again
  zero_at n off size =
      let blk = off / block_size in
      let num_blocks = to32 (size / block_size) in
      let ext : Extent = record { lba = blk; blocks = num_blocks } in
      let (n', queued) = queue_trim n ext in
      if ltb max_blocks num_blocks
      then and_then (flush_pending_write n)
          (λ flushed. zero_loop (suc (num_blocks / max_blocks)) flushed blk num_blocks)
      else if queued
      then (n', ok tt)
      else and_then (flush_pending_write n') (zero_again ext)

  abbrev pub trim : NbdWrapper D → ℕ → ℕ → NbdWrapper D × Outcome E (Unit {0})
  trim = zero_at

  unfoldable pub size : NbdWrapper D → ℕ
  unfolding round_to_block_size
  size n =
      let sz = disk_size n.disk in
      if sz == 0 then round_to_block_size max_size else round_to_block_size sz

  unfoldable pub sync : NbdWrapper D → NbdWrapper D × Outcome E (Unit {0})
  unfolding flush_pending_write
  sync n =
      and_then (flush_pending_write n)
        λ n'. let (d, result) = sync_write_cache n'.disk in (record n' { disk = d }, result)
