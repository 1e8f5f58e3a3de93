-- ===== src/DiskRead/WrittenExample.antt =====
-- segment.go and disk.go: a read after a write at a concrete input, of a block beside a stored one.
use lsvd.Base.{
  none, ℕ, ◌≡◌, ◌≢◌, refl, sym, ap, List, [], ◌∷◌, some, arith, false, Bool-cases, inl, inr,
}
use lsvd.Base.Outcome.{Outcome, ok}
use lsvd.Base.Slices.{take, drop}
use lsvd.Extent.{Extent, contains}
use lsvd.Location.{ExtentLocation}
use lsvd.Compact.{CompactPe, live, live_lba, live_blocks, phys_lba, phys_blocks, phys_extent}
use lsvd.ExtentMap.{ExtentMap, location_of, lookup_desc}
use lsvd.ExtentMap.Examples.{store}
use lsvd.ExtentMap.Resolve.{resolve}
use lsvd.ExtentMap.Setting.{IsMap, find_block}
use lsvd.RangeData.{RangeData, zeros}
use lsvd.RangeData.Views.{IsLoaded, length-zeros}
use lsvd.Builder.{new_builder}
use lsvd.Builder.Creator.{SegmentCreator, creator_write_extent}
use lsvd.Builder.Log.{memory_log}
use lsvd.Builder.Examples.{
  no_compression, no_decompression, fresh_creator, one_block, fresh_creator-IsServing,
  one_block-IsLoaded, short_log,
}
use lsvd.DiskRead.Segments.{read_extent_into}
use lsvd.DiskRead.Written.{ReadsWritten, read_extent_into-creator_write_extent}
use lsvd.Builder.Serving.{log_reader}
use lsvd.Rebuild.{RebuildError}
use lsvd.DiskRead.Planning.{Slow}
use lsvd.DiskRead.Examples.{map_of, block_in, readers, fetched, readers-CanFetch, zero_at}

-- A block in a segment beside the block that is written.
abbrev beside_map : ExtentMap store.Map
beside_map = map_of 59 3866625

beside_map-IsMap : IsMap store beside_map
unfolding live live_lba live_blocks phys_lba phys_blocks lookup_desc
beside_map-IsMap = record {
  ordered = (omega arith, refl, omega arith, tt);
  indexed = (refl, refl, refl, refl, tt);
  known = (omega arith, tt);
}

beside_full :
    (x : ℕ) (l : ExtentLocation) → find_block store beside_map x ≡ some l → l.header.size ≢ 0
unfolding live live_lba live_blocks phys_lba phys_blocks location_of lookup_desc phys_extent
beside_full x l at = elim (Bool-cases (contains (record { lba = 59; blocks = 1 }) x)) [
  | inl there ↦ let same : block_in 59 ≡ l = cc (rw there at at) in rw (sym same) (omega arith)
  | inr away ↦ absurd (cc (rw away at at))
]

abbrev written_creator : SegmentCreator store (List ℕ)
written_creator = (creator_write_extent store memory_log no_compression fresh_creator one_block).0

taken : (creator_write_extent store memory_log no_compression fresh_creator one_block).1 ≡ ok tt
unfolding creator_write_extent lsvd.Builder.write_extent lsvd.RangeData.is_empty
    lsvd.RangeData.read_view lsvd.RangeData.view lsvd.Extent.byte_size zeros
    lsvd.Header.write_header lsvd.Uvarint.write_uvarint take drop lsvd.ExtentMap.update
    lsvd.TreeMap.Entries.from_floor lsvd.TreeMap.Entries.from_lower_bound lsvd.Compact.set_live
    phys_lba lsvd.Compact.from_header phys_blocks live live_blocks live_lba
taken = refl

abbrev three_blocks : RangeData
three_blocks = record {
  extent = record { lba = 59; blocks = 3 };
  bytes = some (zeros 12288);
  dirty = false;
}

three_blocks-IsLoaded : IsLoaded three_blocks (zeros 12288)
three_blocks-IsLoaded = record {
  loaded = refl;
  whole = length-zeros 12288;
  range = omega arith;
  few = omega arith;
}

one_beside :
    Slow
      (three_blocks.extent ∷ [])
      three_blocks.extent
      (resolve store beside_map three_blocks.extent [])
unfolding resolve lsvd.TreeMap.Entries.from_lower_bound lsvd.Extent.cover lsvd.Extent.last live
    live_lba phys_lba live_blocks phys_blocks lsvd.TreeMap.Entries.from_floor
    lsvd.DiskRead.Requests.fast_path lsvd.ExtentMap.to_pe
one_beside = refl

read_extent_into-creator_write_extent_example :
    ReadsWritten store no_decompression readers fetched fetched
      (λ s. Unit {0})
      none
      beside_map
      no_compression
      fresh_creator
      []
      one_block
      (5 ∷ zeros 4095)
      three_blocks
      (zeros 12288)
      (read_extent_into readers
        (log_reader no_decompression)
        store
        tt
        (record { cur_oc = some written_creator; prev_cache = none; lba2pba = beside_map })
        three_blocks)
read_extent_into-creator_write_extent_example =
    read_extent_into-creator_write_extent store no_decompression readers fetched fetched
      (λ s. Unit {0}) none beside_map no_compression fresh_creator [] one_block (5 ∷ zeros 4095)
      three_blocks (zeros 12288) written_creator tt
      (ap (λ (o : Outcome RebuildError (Unit {0})). (written_creator, o)) taken)
      (λ input small e. absurd (cc e)) fresh_creator-IsServing one_block-IsLoaded (omega arith)
      (omega arith) short_log beside_map-IsMap (readers-CanFetch (find_block store beside_map))
      (λ x l here has at. beside_full x l at)
      (λ q here. zero_at three_blocks.extent q (omega arith) here) tt three_blocks-IsLoaded tt
      one_beside
