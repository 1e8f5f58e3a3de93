-- ===== src/DiskRead/Examples.antt =====
-- disk.go: the theorems at concrete inputs: a disk with a block in each of its three layers.
use lsvd.Base.{
  ℕ, ◌-◌, ◌*◌, ◌/◌, ◌≡◌, ◌≢◌, refl, sym, List, [], ◌∷◌, ◌++◌, ◌||◌, some, arith, true, false,
  Bool-cases, inl, inr, length,
}
use lsvd.Base.Outcome.{ok, err}
use lsvd.Base.Slices.{take, drop}
use lsvd.Extent.{Extent, contains}
use lsvd.Extent.Range.{IsRange, contains_lem}
use lsvd.Builder.Filled.{Layer, is_some, FillsFrom, fill_extent-FillsFrom}
use lsvd.Location.{ExtentLocation, flags}
use lsvd.Compact.{CompactPe, live, live_lba, live_blocks, phys_lba, phys_blocks, phys_extent}
use lsvd.ExtentMap.{ExtentMap, location_of, lookup_desc}
use lsvd.ExtentMap.Examples.{store}
use lsvd.ExtentMap.Resolve.{resolve}
use lsvd.ExtentMap.Setting.{IsMap, find_block}
use lsvd.RangeData.{RangeData, zeros}
use lsvd.RangeData.Views.{IsLoaded, byte_at, part_of, length-zeros}
use lsvd.RangeData.Clearing.{get_elem?-zeros}
use lsvd.Builder.{new_builder}
use lsvd.Builder.Creator.{SegmentCreator}
use lsvd.Builder.Fill.{fill_extent, LogReader, failure, load_logged, read_sized}
use lsvd.Builder.Filling.{Decoded, Yields}
use lsvd.DiskRead.WriteCache.{Disk, fill_from_write_cache}
use lsvd.DiskRead.Segments.{SegmentReaders, read_extent_into}
use lsvd.DiskRead.Cached.{CanServe, Shows, fill_from_write_cache-Shows}
use lsvd.DiskRead.Planning.{Slow}
use lsvd.DiskRead.Serving.{CanFetch, Fetches}
use lsvd.DiskRead.Reading.{ReadsDisk, read_extent_into-ReadsDisk}

-- A map with a single block, of four bytes before they are decompressed.
abbrev pub entry : ℕ → CompactPe
entry phys = record {
  phys_x = phys;
  live_lba_diff = 0;
  live_block_diff = 0;
  seg_idx = 0;
  byte_size = 4;
  offset = 0;
  raw_size = 4096;
}

abbrev pub map_of : ℕ → ℕ → ExtentMap store.Map
map_of lba phys = record {
  m = record { items = (lba, entry phys) ∷ []; sorted = omega arith };
  table = record {
    by_desc = (record { seg = 7; disk = 0 }, 0) ∷ [];
    by_idx = (0, record { seg = 7; disk = 0 }) ∷ [];
  };
}

abbrev pub cur_map : ExtentMap store.Map
cur_map = map_of 10 655361

abbrev stored_map : ExtentMap store.Map
stored_map = map_of 11 720897

abbrev prev_map : ExtentMap store.Map
prev_map = map_of 12 786433

pub cur_map-IsMap : IsMap store cur_map
unfolding live live_lba live_blocks phys_lba phys_blocks lookup_desc
cur_map-IsMap = record {
  ordered = (omega arith, refl, omega arith, tt);
  indexed = (refl, refl, refl, refl, tt);
  known = (omega arith, tt);
}

stored_map-IsMap : IsMap store stored_map
unfolding live live_lba live_blocks phys_lba phys_blocks lookup_desc
stored_map-IsMap = record {
  ordered = (omega arith, refl, omega arith, tt);
  indexed = (refl, refl, refl, refl, tt);
  known = (omega arith, tt);
}

prev_map-IsMap : IsMap store prev_map
unfolding live live_lba live_blocks phys_lba phys_blocks lookup_desc
prev_map-IsMap = record {
  ordered = (omega arith, refl, omega arith, tt);
  indexed = (refl, refl, refl, refl, tt);
  known = (omega arith, tt);
}

-- Where the block lies.
abbrev pub block_in : ℕ → ExtentLocation
block_in lba = record {
  header = record {
    extent = record { lba = lba; blocks = 1 };
    size = 4;
    offset = 0;
    raw_size = 4096;
  };
  segment = 7;
  disk = 0;
}

-- The decompressor appends zeros.
abbrev logs : LogReader (List ℕ)
logs = record {
  read_at = λ w off n. ok (take n (drop off w));
  uncompress = λ b n. ok (b ++ zeros (n - length b));
}

abbrev log : List ℕ
log = 7 ∷ 1 ∷ 2 ∷ 3 ∷ []

abbrev logged : Decoded
logged = record { bytes = λ l. log ++ zeros 4092; may_fail = λ e. false }

abbrev creator : ExtentMap store.Map → SegmentCreator store (List ℕ)
creator em = record { builder = record (new_builder log) { log = log }; em = em }

block_in-Yields :
    (lba : ℕ) → Yields logged (block_in lba) (load_logged logs log (block_in lba).header)
unfolding load_logged flags read_sized take drop zeros
block_in-Yields lba = (refl, refl)

cur_map_at : (x : ℕ) (l : ExtentLocation) → find_block store cur_map x ≡ some l → block_in 10 ≡ l
unfolding live live_lba live_blocks phys_lba phys_blocks location_of lookup_desc phys_extent
cur_map_at x l h = elim (Bool-cases (contains (record { lba = 10; blocks = 1 }) x)) [
  | inl here ↦ cc (rw here at h)
  | inr away ↦ absurd (cc (rw away at h))
]

cur-CanServe : (e : Extent) → CanServe logs store logged (some (creator cur_map)) e
cur-CanServe e =
    (cur_map-IsMap, λ x l here at full. rw (sym (cur_map_at x l at)) (block_in-Yields 10))

prev_map_at : (x : ℕ) (l : ExtentLocation) → find_block store prev_map x ≡ some l → block_in 12 ≡ l
unfolding live live_lba live_blocks phys_lba phys_blocks location_of lookup_desc phys_extent
prev_map_at x l h = elim (Bool-cases (contains (record { lba = 12; blocks = 1 }) x)) [
  | inl here ↦ cc (rw here at h)
  | inr away ↦ absurd (cc (rw away at h))
]

prev-CanServe : (e : Extent) → CanServe logs store logged (some (creator prev_map)) e
prev-CanServe e =
    (prev_map-IsMap, λ x l here at full. rw (sym (prev_map_at x l at)) (block_in-Yields 12))

abbrev pub readers : SegmentReaders
readers = record {
  S = Unit {0};
  fetch_extent = λ s pe. (
    s,
    ok (record {
      extent = pe.location.header.extent;
      bytes = some (5 ∷ zeros (pe.location.header.extent.blocks * 4096 - 1));
      dirty = false;
    }),
  );
  fetch_positions = λ s pe. (s, ok []);
  read_position = λ s c. err failure;
  allocate = zeros;
}

abbrev pub fetched : Decoded
fetched = record {
  bytes = λ l. 5 ∷ zeros (l.header.extent.blocks * 4096 - 1);
  may_fail = λ e. false;
}

pub readers-CanFetch : (M : Layer) → CanFetch readers fetched M (λ s. Unit {0})
unfolding Fetches
readers-CanFetch M s pe v p full stored = (
  tt,
  (
    refl,
    record {
      loaded = refl;
      whole =
          omega
            (arith, p.range, p.inside, length-zeros (pe.location.header.extent.blocks * 4096 - 1));
      range = omega (arith, p.range, p.inside, p.few, p.low);
      few = omega (arith, p.few);
    },
  ),
)

abbrev disk : Disk store (List ℕ)
disk = record {
  cur_oc = some (creator cur_map);
  prev_cache = some (creator prev_map);
  lba2pba = stored_map;
}

abbrev blank : RangeData
blank = record {
  extent = record { lba = 10; blocks = 4 };
  bytes = some (zeros 16384);
  dirty = false;
}

blank-IsLoaded : IsLoaded blank (zeros 16384)
blank-IsLoaded = record {
  loaded = refl;
  whole = length-zeros 16384;
  range = omega arith;
  few = omega arith;
}

fill_from_write_cache-Shows_example :
    Shows logged logged
      (find_block store cur_map)
      (find_block store prev_map)
      blank
      (zeros 16384)
      (fill_from_write_cache logs store disk blank)
fill_from_write_cache-Shows_example =
    fill_from_write_cache-Shows logs store logged logged disk blank (zeros 16384) blank-IsLoaded
      (cur-CanServe blank.extent) (prev-CanServe blank.extent)

pub zero_at :
    (e : Extent) (q : ℕ)
    → IsRange e
    → contains e (q / 4096) ≡ true
    → byte_at e (zeros (e.blocks * 4096)) q ≡ some 0
zero_at e q r here = rw here (
    get_elem?-zeros (e.blocks * 4096) (q - e.lba * 4096)
      (ground (arith, here, contains_lem e (q / 4096) r)))

no_other :
    (x : ℕ) (l : ExtentLocation)
    → contains blank.extent x ≡ true
    → (is_some (find_block store cur_map x) || is_some (find_block store prev_map x)) ≡ true
    → find_block store stored_map x ≡ some l
    → l.header.size ≢ 0
unfolding live live_lba live_blocks phys_lba phys_blocks location_of lookup_desc phys_extent
no_other x l here cached at = elim (Bool-cases (contains (record { lba = 11; blocks = 1 }) x)) [
  | inl there ↦ let same : block_in 11 ≡ l = cc (rw there at at) in rw (sym same) (omega arith)
  | inr away ↦ absurd (cc (rw away at at))
]

several_layers : Slow (blank.extent ∷ []) blank.extent (resolve store stored_map blank.extent [])
unfolding resolve lsvd.TreeMap.Entries.from_lower_bound lsvd.Extent.cover lsvd.Extent.last live
    live_lba phys_lba live_blocks phys_blocks lsvd.TreeMap.Entries.from_floor
    lsvd.DiskRead.Requests.fast_path lsvd.ExtentMap.to_pe
several_layers = refl

-- Each of the blocks 10, 11 and 12 comes from another layer, and 13 from none.
read_extent_into-ReadsDisk_example :
    ReadsDisk readers logged logged fetched
      (λ s. Unit {0})
      store
      logs
      disk
      blank
      (zeros 16384)
      (read_extent_into readers logs store tt disk blank)
read_extent_into-ReadsDisk_example =
    read_extent_into-ReadsDisk readers logged logged fetched (λ s. Unit {0}) store logs disk blank
      (zeros 16384) stored_map-IsMap (readers-CanFetch (find_block store stored_map)) no_other
      (λ q here. zero_at blank.extent q (omega arith) here) tt tt blank-IsLoaded
      (cur-CanServe blank.extent) (prev-CanServe blank.extent) several_layers

abbrev asked_for : Extent
asked_for = record { lba = 10; blocks = 2 }

fill_extent-FillsFrom_example :
    FillsFrom logged blank
      (zeros 16384)
      asked_for
      (find_block store cur_map)
      (fill_extent logs store (creator cur_map) blank (part_of blank.extent asked_for))
fill_extent-FillsFrom_example =
    fill_extent-FillsFrom asked_for (omega arith) logs log logged store (creator cur_map) blank
      (zeros 16384) refl cur_map-IsMap blank-IsLoaded (omega arith) ((cur-CanServe asked_for).1)
