-- ===== src/RangeCache.antt =====
-- range_cache.go: `RangeCache`, which keeps chunks of segments in a file, and `ReadAt`. The LRU list, the
-- writes of the file and the fetching of a chunk are parameters. The chunk size and the number of chunks
-- are those of extent_reader.go. The file is mapped into memory, where a chunk that was saved is read.

pub mod Slots
pub mod Loading
pub mod Reading
mod Examples
use lsvd.Base.{
  ℕ, zero, suc, ◌+◌, ◌-◌, ◌*◌, ◌/◌, ◌%◌, Bool, true, false, ◌||◌, List, [], ◌∷◌, ◌++◌, Option, some,
  none, ltb, leb, ◌==◌, if◌then◌else◌, length,
}
use lsvd.Base.Outcome.{Outcome, ok, err, panic}
use lsvd.Base.Slices.{take, drop, slice, overwrite}
use lsvd.Location.{SegmentId}

abbrev pub chunk_size : ℕ
chunk_size = 1024 * 1024

-- `maxChunks`
abbrev pub max_chunks : ℕ
max_chunks = 1024

-- `MaxSize`: the bytes of the file that are mapped into memory.
abbrev pub max_size : ℕ
max_size = 1024 * 1024 * 1024

abbrev pub RangeCacheKey : Type 0
RangeCacheKey = SegmentId × ℕ

-- What the cache uses of an `lru.Cache`, of its file, and of the segments. A call of `get` makes its
-- chunk the latest. `seek_current` tells the place of the file that it is given, unless it fails. A write
-- leaves the file, and tells how many bytes it wrote and its error.
pub record Chunks (E : Type 0) : Type 1 where
  pub L : Type 0
  pub get : L → RangeCacheKey → L × Option ℕ
  pub len : L → ℕ
  pub remove_oldest : L → L × Option (RangeCacheKey × ℕ)
  pub add : L → RangeCacheKey → ℕ → L
  pub seek_current : ℕ → Outcome E ℕ
  pub write_at : List ℕ → ℕ → List ℕ → List ℕ × ℕ × Option E
  pub fetch : SegmentId → ℕ → Outcome E (List ℕ)
  pub short_write : E
  pub misused : E

pub record RangeCache (L : Type 0) : Type 0 where
  pub lru : L
  pub region : List ℕ
  -- where the next `Write` goes
  pub cursor : ℕ

module _ {E : Type 0} (K : Chunks E) where
  open K use {L, get, len, remove_oldest, add, seek_current, write_at, fetch, short_write, misused}

  -- From the write on: `n, err := …; if n != len(data) {…}; r.lru.Add(key, off)`. `moved` is where the cursor
  -- is after so many bytes.
  unfoldable pub saved_at :
      RangeCache L → RangeCacheKey → ℕ → (ℕ → ℕ) → List ℕ → RangeCache L × Outcome E ℕ
  saved_at r key off moved bytes =
      let (region, n, failed) = write_at r.region off bytes in
      let r' = record r { region = region; cursor = moved n } in
      elim failed [
        | some e ↦ (r', err e)
        | none ↦
            if n == length bytes
            then (record r' { lru = add r.lru key off }, ok off)
            else (r', err short_write)
      ]

  -- `Write` moves the cursor by what it wrote, `WriteAt` leaves it.
  unfoldable pub save_chunk : RangeCache L → RangeCacheKey → List ℕ → RangeCache L × Outcome E ℕ
  unfolding saved_at
  save_chunk r key bytes =
      if ltb (len r.lru) max_chunks
      then elim (seek_current r.cursor) [
        | err e ↦ (r, err e)
        | panic ↦ (r, panic)
        | ok off ↦ saved_at r key off (λ n. off + n) bytes
      ]
      else (let (lru, oldest) = remove_oldest r.lru in
          elim oldest [
            | none ↦ (record r { lru = lru }, err misused)
            | some (old, off) ↦ saved_at (record r { lru = lru }) key off (λ n. r.cursor) bytes
          ])

  -- `r.cacheRegion[off : off+r.chunk]`: a slice behind the mapped bytes panics, and the memory behind the
  -- end of the file cannot be read.
  unfoldable pub mem_chunk : List ℕ → ℕ → Outcome E (List ℕ)
  mem_chunk region off =
      if ltb max_size (off + chunk_size) || ltb (length region) (off + chunk_size)
      then panic
      else ok (slice off (off + chunk_size) region)

  -- The bytes of a chunk, from the file or fetched and then saved.
  unfoldable pub load_chunk : RangeCache L → RangeCacheKey → RangeCache L × Outcome E (List ℕ)
  unfolding mem_chunk save_chunk
  load_chunk r key =
      let (lru, cached) = get r.lru key in
      let r' = record r { lru = lru } in
      elim cached [
        | some off ↦ (r', mem_chunk r.region off)
        | none ↦ elim (fetch key.0 (key.1 * chunk_size)) [
          | err e ↦ (r', err e)
          | panic ↦ (r', panic)
          | ok bytes ↦
              let (r'', result) = save_chunk r' key bytes in
              elim result [ err e ↦ (r'', err e) | panic ↦ (r'', panic) | ok off ↦ (r'', ok bytes) ]
        ]
      ]

  -- The loop of `ReadAt` over this many chunks. `buf` from `from` on is still to be filled.
  unfoldable pub read_chunks :
      ℕ → RangeCache L → SegmentId → ℕ → ℕ → List ℕ → ℕ → RangeCache L × Outcome E (List ℕ)
  unfolding load_chunk
  read_chunks zero r seg chunk inner buf from = (r, ok buf)
  read_chunks (suc n) r seg chunk inner buf from =
      let (r', result) = load_chunk r (seg, chunk) in
      elim result [
        | err e ↦ (r', err e)
        | panic ↦ (r', panic)
        | ok mem ↦
            let new = drop inner mem in
            let left = length buf - from in
            read_chunks n r' seg (chunk + 1) 0 (overwrite from new buf)
              (if ltb (length new) left then from + length new else from)
      ]

  -- With the buffer in place of the number of its bytes, which `ReadAt` returns.
  unfoldable pub read_at : RangeCache L → SegmentId → List ℕ → ℕ → RangeCache L × Outcome E (List ℕ)
  unfolding read_chunks
  read_at r seg buf off =
      let first = off / chunk_size in
      let last = (off + length buf - 1) / chunk_size in
      read_chunks (last + 1 - first) r seg first (off % chunk_size) buf 0
