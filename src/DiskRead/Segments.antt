-- ===== src/DiskRead/Segments.antt =====
-- disk.go: `readOneExtent`, `readPartialExtent`, and `ReadExtentInto` and `ReadExtent` as a whole. The
-- readers of the segments (`fetchExtent` of each disk in `readDisks`) are a parameter. So is what an
-- allocated buffer holds.
use lsvd.Base.{
  ℕ, ◌+◌, ◌*◌, ◌%◌, ◌^◌, false, List, [], ◌∷◌, Option, some, none, ltb, if◌then◌else◌, length,
}
use lsvd.Base.Words.{add64, sub64}
use lsvd.Base.Outcome.{Outcome, ok, err, panic, or_err, ◌>>=◌}
use lsvd.Base.Slices.{overwrite}
use lsvd.Extent.{Extent, block_size, byte_size, clamp}
use lsvd.Location.{PartialExtent}
use lsvd.Compact.{CompactPe}
use lsvd.TreeMap.{TreeMap}
use lsvd.RangeData.{RangeData, map_range_data, sub_range, copy_view, write_data}
use lsvd.Builder.Fill.{ReadError, subrange, LogReader}
use lsvd.DiskRead.WriteCache.{Disk, fill_from_write_cache}
use lsvd.DiskRead.Requests.{ReadRequest, Plan, direct, requests, gather_holes}

-- A place in the file of a range cache; int64 values by their 64 bits.
pub record CachePosition : Type 0 where
  pub off : ℕ
  pub size : ℕ

pub record SegmentReaders : Type 1 where
  pub S : Type 0
  -- `fetchExtent` without and, for an extent that is not compressed, with room for positions
  pub fetch_extent : S → PartialExtent → S × Outcome ReadError RangeData
  pub fetch_positions : S → PartialExtent → S × Outcome ReadError (List CachePosition)
  -- a read from the file of the cache
  pub read_position : S → CachePosition → Outcome ReadError (List ℕ)
  pub allocate : ℕ → List ℕ

-- From the clamping on: the blocks that the live range shares with `x` are copied.
unfoldable pub copy_overlap : RangeData → RangeData → Extent → Extent → Outcome ReadError RangeData
copy_overlap dest src live x = or_err (clamp live x) subrange >>= λ overlap.
    or_err (sub_range dest overlap) subrange >>= λ d.
    or_err (sub_range src overlap) subrange >>= λ s.
    copy_view dest d src s >>= λ copied. ok copied.0

unfoldable pub copy_overlaps :
    RangeData → RangeData → Extent → List Extent → Outcome ReadError RangeData
unfolding copy_overlap
copy_overlaps dest src live [] = ok dest
copy_overlaps dest src live (x ∷ xs) =
    copy_overlap dest src live x >>= λ dest'. copy_overlaps dest' src live xs

-- A result with the state of the readers.
abbrev pub with_state :
    {S A B : Type 0}
    → S × Outcome ReadError A
    → (S → A → S × Outcome ReadError B)
    → S × Outcome ReadError B
with_state (s, ok a) f = f s a
with_state (s, err e) f = (s, err e)
with_state (s, panic) f = (s, panic)

-- Distances of blocks in bytes, as int64.
abbrev pub block_bytes : ℕ → ℕ → ℕ
block_bytes a b = sub64 a b * block_size % 2 ^ 64

-- The place of the range within that of the stored extent.
unfoldable pub adjusted : CachePosition → PartialExtent → Extent → CachePosition
adjusted c pe x = record {
  off =
      add64 (add64 c.off (block_bytes pe.live.lba pe.location.header.extent.lba))
        (block_bytes x.lba pe.live.lba);
  size = byte_size x;
}

module _ (Q : SegmentReaders) where
  open Q use {S, fetch_extent, fetch_positions, read_position, allocate}

  -- `FillFromeCache` from a place in the buffer on; a position that does not fit is a panic.
  unfoldable pub fill_from_cache : S → List ℕ → ℕ → List CachePosition → Outcome ReadError (List ℕ)
  fill_from_cache s buf from [] = ok buf
  fill_from_cache s buf from (c ∷ cps) =
      let rest = read_position s c >>= λ bytes.
      fill_from_cache s (overwrite from bytes buf) (from + c.size) cps in
      if ltb (length buf) (from + c.size) then panic else rest

  unfoldable pub copy_positions :
      S → PartialExtent → Extent → RangeData → List CachePosition → Outcome ReadError RangeData
  unfolding fill_from_cache copy_overlap
  copy_positions s pe x dest cps =
      fill_from_cache s (allocate pe.location.header.size) 0 cps >>= λ raw.
      map_range_data pe.location.header.extent raw >>= λ src. copy_overlap dest src pe.live x

  -- With the position to read from in place of a filled range.
  unfoldable pub read_one_extent :
      S
      → PartialExtent
      → Extent
      → RangeData
      → S × Outcome ReadError (RangeData × Option CachePosition)
  unfolding adjusted copy_positions
  read_one_extent s pe x dest = with_state (fetch_positions s pe) (λ s' cps. elim cps [
    | [] ↦ (s', copy_positions s' pe x dest [] >>= λ dest'. ok (dest', none))
    | c ∷ [] ↦ (s', ok (dest, some (adjusted c pe x)))
    | c ∷ c' ∷ more ↦
        (s', copy_positions s' pe x dest (c ∷ c' ∷ more) >>= λ dest'. ok (dest', none))
  ])

  unfoldable pub read_partial_extent :
      S → PartialExtent → List Extent → RangeData → S × Outcome ReadError RangeData
  unfolding copy_overlaps
  read_partial_extent s pe rngs dest =
      with_state (fetch_extent s pe) (λ s' src. (s', copy_overlaps dest src pe.live rngs))

  -- The list has the last request first.
  unfoldable pub read_requests : S → RangeData → List ReadRequest → S × Outcome ReadError RangeData
  unfolding read_partial_extent
  read_requests s dest [] = (s, ok dest)
  read_requests s dest (r ∷ reqs) =
      with_state (read_requests s dest reqs)
        (λ s' dest'. read_partial_extent s' r.pe r.extents dest')

  -- What `ReadExtentInto` does with a plan.
  unfoldable pub read_plan : S → Plan → S × Outcome ReadError (RangeData × Option CachePosition)
  unfolding read_one_extent read_requests
  read_plan s (direct pe dest) = read_one_extent s pe dest.extent dest
  read_plan s (requests dest reqs) =
      with_state (read_requests s dest reqs) (λ s' dest'. (s', ok (dest', none)))

  module _ {W : Type 0} (R : LogReader W) (T : TreeMap CompactPe) where
    -- Behind the write caches, with the holes that they leave.
    unfoldable pub read_holes :
        S
        → Disk T W
        → RangeData
        → List Extent
        → S × Outcome ReadError (RangeData × Option CachePosition)
    unfolding gather_holes read_plan
    read_holes s d dest [] = (s, ok (dest, none))
    read_holes s d dest (h ∷ holes) =
        with_state (s, gather_holes T d.lba2pba (h ∷ holes) (h ∷ holes) dest []) read_plan

    unfoldable pub read_extent_into :
        S → Disk T W → RangeData → S × Outcome ReadError (RangeData × Option CachePosition)
    unfolding fill_from_write_cache read_holes
    read_extent_into s d dest =
        with_state (s, fill_from_write_cache R T d dest)
          (λ s' filled. read_holes s' d filled.0 filled.1)

    -- `ReadExtent`, which also takes the bytes from the position. `ReadExtentInto` has a copy of the
    -- range, so that it does not mark this one as written.
    unfoldable pub read_extent : S → Disk T W → Extent → S × Outcome ReadError RangeData
    unfolding read_extent_into fill_from_cache write_data
    read_extent s d rng =
        with_state
          (read_extent_into s d
            (record { extent = rng; bytes = some (allocate (byte_size rng)); dirty = false }))
          (λ s' r. (
            s',
            elim r.1 [
              | none ↦ ok (record r.0 { dirty = false })
              | some c ↦ write_data r.0 >>= λ w. fill_from_cache s' w.1 0 (c ∷ []) >>= λ bytes.
                  ok (record w.0 { bytes = some bytes })
            ],
          ))
