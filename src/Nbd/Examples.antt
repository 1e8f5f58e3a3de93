-- ===== src/Nbd/Examples.antt =====
-- nbd.go: the theorems at concrete inputs. The disk is a function from places to bytes.
use lsvd.Base.{ℕ, ◌*◌, ◌≡◌, refl, List, [], ◌∷◌, ◌++◌, Option, some, none, arith, length, inl}
use lsvd.Base.Outcome.{Outcome, ok}
use lsvd.RangeData.{zeros}
use lsvd.RangeData.Views.{length-zeros}
use lsvd.Nbd.{BlockDisk, NbdWrapper, new_wrapper, write_at, zero_at, zero_loop, flush_pending_write}
use lsvd.Nbd.Image.{IsBlockDisk, IsQueue, image, overlay, cleared}
use lsvd.Nbd.Flushing.{IsIdle, Flushed, flush_pending_write-Flushed}
use lsvd.Nbd.Writing.{Shows, write_at-Writes}
use lsvd.Nbd.Zeroing.{zero_loop-Flushed, zero_at-Zeroes}
use lsvd.ExtentMap.Examples.{store}
use lsvd.Builder.Creator.{SegmentCreator}
use lsvd.Rebuild.{RebuildError}
use lsvd.Builder.{new_builder}
use lsvd.Builder.Fill.{ReadError}
use lsvd.DiskRead.Examples.{cur_map}

abbrev bytes_or_none : Option (List ℕ) → List ℕ
bytes_or_none none = []
bytes_or_none (some b) = b

abbrev memory_disk : BlockDisk ℕ
memory_disk = record {
  D = ℕ → ℕ;
  write_extent = λ d r. (overlay r.extent.lba (bytes_or_none r.bytes) d, ok tt);
  zero_blocks = λ d e. (cleared e d, ok tt);
  sync_write_cache = λ d. (d, ok tt);
  disk_size = λ d. 0;
}

abbrev bytes_of : (ℕ → ℕ) → ℕ → ℕ
bytes_of d = d

memory_disk-IsBlockDisk : IsBlockDisk memory_disk bytes_of
memory_disk-IsBlockDisk = record {
  writes = λ d r b h size nonempty fits p. rw h refl;
  zeroes = λ d e nonempty fits p. refl;
  syncs = λ d p. refl;
}

abbrev block : List ℕ
block = 7 ∷ zeros 4095

size_lem : length block ≡ 1 * 4096
size_lem = omega (arith, length-zeros 4095)

-- A block is pending.
abbrev writing : NbdWrapper (ℕ → ℕ)
writing = record {
  disk = λ p. 1;
  pending_write = record { lba = 4; blocks = 1 };
  pending_write_data = block;
  pending_trim = record { lba = 0; blocks = 0 };
}

writing-IsQueue : IsQueue writing
writing-IsQueue = record {
  one = inl refl;
  whole = size_lem;
  write_fits = omega arith;
  trim_ends = omega arith;
  trim_narrow = omega arith;
}

new_wrapper-IsIdle : IsIdle (new_wrapper {D = ℕ → ℕ} (λ p. 1))
new_wrapper-IsIdle = record {
  queue = record {
    one = inl refl;
    whole = refl;
    write_fits = omega arith;
    trim_ends = omega arith;
    trim_narrow = omega arith;
  };
  no_trim = refl;
  no_write = refl;
  no_data = refl;
}

flush_pending_write-Flushed_example :
    Flushed memory_disk bytes_of
      (image memory_disk bytes_of writing)
      (flush_pending_write memory_disk writing)
flush_pending_write-Flushed_example =
    flush_pending_write-Flushed memory_disk bytes_of memory_disk-IsBlockDisk writing writing-IsQueue
      (omega arith)

-- Behind the pending block.
write_at-Writes_example :
    Shows memory_disk bytes_of
      (overlay 5 block (image memory_disk bytes_of writing))
      (length block)
      (write_at memory_disk writing block (5 * 4096))
write_at-Writes_example =
    write_at-Writes memory_disk bytes_of memory_disk-IsBlockDisk writing block 5 1 writing-IsQueue
      (omega arith) size_lem (omega arith)

-- A range that two rounds split, and one that a queue with a pending write does not take at first.
zero_loop-Flushed_example :
    Flushed memory_disk bytes_of
      (cleared (record { lba = 3; blocks = 70000 }) (λ p. 1))
      (zero_loop memory_disk 2 (new_wrapper (λ p. 1)) 3 70000)
zero_loop-Flushed_example =
    zero_loop-Flushed memory_disk bytes_of memory_disk-IsBlockDisk 2 (new_wrapper (λ p. 1)) 3 70000
      new_wrapper-IsIdle (omega arith) (omega arith) (omega arith) (omega arith)

zero_at-Zeroes_example :
    Shows memory_disk bytes_of
      (cleared (record { lba = 3; blocks = 9 }) (image memory_disk bytes_of writing))
      tt
      (zero_at memory_disk writing (3 * 4096) (9 * 4096))
zero_at-Zeroes_example =
    zero_at-Zeroes memory_disk bytes_of memory_disk-IsBlockDisk writing 3 9 writing-IsQueue
      (omega arith) (omega arith) (omega arith)

abbrev synced :
    SegmentCreator store (List ℕ) → SegmentCreator store (List ℕ) × Outcome RebuildError (Unit {0})
synced c = (c, ok tt)

abbrev no_size : SegmentCreator store (List ℕ) → ℕ
no_size c = 0

-- Four bytes are in the log, which stand for block 10 before they are decompressed.
abbrev fill_up : List ℕ → ℕ → Outcome ReadError (List ℕ)
fill_up b n = ok (b ++ zeros 4092)

abbrev one_logged : SegmentCreator store (List ℕ)
one_logged = record { builder = new_builder (9 ∷ 8 ∷ 7 ∷ 6 ∷ []); em = cur_map }
