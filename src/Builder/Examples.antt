-- ===== src/Builder/Examples.antt =====
-- segment.go: the theorems at concrete inputs.
use lsvd.Base.{ℕ, ◌<◌, ◌^◌, length, ◌≡◌, refl, List, [], ◌∷◌, ◌++◌, some, none, true, false, arith}
use lsvd.Base.Outcome.{Outcome, ok, err}
use lsvd.Base.Slices.{drop}
use lsvd.ExtentMap.{ExtentMap, new_extent_map}
use lsvd.ExtentMap.Examples.{store}
use lsvd.ExtentMap.Setting.{IsMap, find_block, new_extent_map-IsMap}
use lsvd.Segments.{Segments}
use lsvd.Segments.Committing.{latest}
use lsvd.Uvarint.{failure}
use lsvd.Uvarint.RoundTrip.{digits}
use lsvd.Extent.{byte_size}
use lsvd.RangeData.{RangeData, zeros, view}
use lsvd.Builder.{Compressor, SegmentBuilder, new_builder, write_extent}
use lsvd.Builder.Log.{memory_log, Entry, IsLogged, log_bytes, written}
use lsvd.Builder.Writing.{Writes, write_extent-Writes}
use lsvd.Builder.Creator.{cached, read_log, SegmentCreator, creator_write_extent}
use lsvd.Builder.Fill.{ReadError, undecompressed}
use lsvd.Builder.Serving.{IsServing}
use lsvd.Builder.Served.{Serves, creator_write_extent-Serves}
use lsvd.RangeData.Views.{IsLoaded, length-zeros}
use lsvd.Builder.Restore.{settled, read_log-Restores}
use lsvd.Builder.Flush.{SegmentAccess, SegmentFiles}
use mathlib.Core.List.{map}

-- Nothing is compressed.
abbrev pub no_compression : Compressor
no_compression = record { low_entropy = λ b. false; compress = λ b. err failure }

-- A block that is not empty, and one that is.
abbrev full_block : Entry
full_block = (
  record { extent = record { lba = 40; blocks = 1 }; size = 4; offset = 0; raw_size = 4096 },
  9 ∷ 8 ∷ 7 ∷ 6 ∷ [],
)

abbrev empty_block : Entry
empty_block =
    (record { extent = record { lba = 50; blocks = 1 }; size = 0; offset = 0; raw_size = 0 }, [])

abbrev two_entries : List Entry
two_entries = full_block ∷ empty_block ∷ []

-- The builder that has written them.
abbrev two_logged : SegmentBuilder (List ℕ)
two_logged = record {
  cnt = 2;
  empty_blocks = 1;
  total_blocks = 2;
  single_bes = 1;
  input_bytes = 4096;
  storage_bytes = 4;
  header = [];
  offset = 15;
  extents = written 0 two_entries;
  log = log_bytes two_entries;
}

two_logged-IsLogged : IsLogged two_logged two_entries
unfolding digits
two_logged-IsLogged = record {
  entries = (
    record { wide = omega arith; sized = refl; unplaced = refl },
    (record { wide = omega arith; sized = refl; unplaced = refl }, tt),
  );
  logged = refl;
  offset_lem = refl;
  counted = refl;
  total = refl;
  extents_lem = refl;
}

abbrev pub one_block : RangeData
one_block = record {
  extent = record { lba = 60; blocks = 1 };
  bytes = some (5 ∷ zeros 4095);
  dirty = true;
}

write_extent-Writes_example :
    Writes no_compression two_logged two_entries one_block
      (view one_block)
      (write_extent memory_log no_compression two_logged one_block (view one_block))
unfolding view byte_size
write_extent-Writes_example =
    write_extent-Writes no_compression two_logged two_entries one_block (view one_block)
      two_logged-IsLogged (omega arith) (omega arith)

read_log-Restores_example :
    (o' : SegmentBuilder (List ℕ)) × (em : ExtentMap store.Map) × (read_log store
        (new_builder [])
        (new_extent_map store)
        two_logged.log
      ≡ ok (o', em))
    × (o'.cnt ≡ two_logged.cnt)
    × (o'.total_blocks ≡ two_logged.total_blocks)
    × (o'.offset ≡ two_logged.offset)
    × (o'.extents ≡ map settled two_logged.extents)
    × IsMap store em
    × ((x : ℕ)
        → find_block store em x ≡ latest (map cached (map settled two_logged.extents)) x none)
read_log-Restores_example =
    read_log-Restores store [] two_logged two_entries two_logged-IsLogged (omega arith)
      (omega arith)

-- A storage that keeps the files.
abbrev shelf : SegmentAccess
shelf = record {
  S = List (ℕ × List ℕ);
  upload_segment = λ s seg f. ok ((seg, f) ∷ s);
  append_to_segments = λ s seg. ok s;
}

-- Files in memory that never fail.
abbrev files : SegmentFiles (List ℕ)
files = record {
  File = List ℕ;
  create = ok [];
  write = λ f b. ok (f ++ b, length b);
  seek_start = λ w. ok w;
  copy_log = λ f w. ok (f ++ w, length w);
  read_all = λ f. f;
}

abbrev pub no_decompression : List ℕ → ℕ → Outcome ReadError (List ℕ)
no_decompression b n = err undecompressed

abbrev pub fresh_creator : SegmentCreator store (List ℕ)
fresh_creator = record { builder = new_builder []; em = new_extent_map store }

pub fresh_creator-IsServing : IsServing store no_decompression fresh_creator []
fresh_creator-IsServing = record {
  ordered = new_extent_map-IsMap store;
  logged = record {
    entries = tt;
    logged = refl;
    offset_lem = refl;
    counted = refl;
    total = refl;
    extents_lem = refl;
  };
  held = λ x l found. absurd (cc found);
}

pub one_block-IsLoaded : IsLoaded one_block (5 ∷ zeros 4095)
one_block-IsLoaded = record {
  loaded = refl;
  whole = omega (arith, length-zeros 4095);
  range = omega arith;
  few = omega arith;
}

log_length :
    length
      (write_extent memory_log no_compression (new_builder []) one_block (view one_block)).0.log
    ≡ 4102
unfolding view byte_size write_extent lsvd.RangeData.is_empty lsvd.RangeData.read_view zeros
    lsvd.Header.write_header lsvd.Uvarint.write_uvarint lsvd.Base.Slices.take drop
log_length = refl

pub short_log :
    length
      (write_extent memory_log no_compression (new_builder []) one_block (view one_block)).0.log
    < 2 ^ 32
short_log = rw log_length (omega arith)

creator_write_extent-Serves_example :
    Serves store no_decompression no_compression
      (λ input small e. absurd (cc e))
      fresh_creator
      []
      one_block
      (5 ∷ zeros 4095)
      fresh_creator-IsServing
      one_block-IsLoaded
      (creator_write_extent store memory_log no_compression fresh_creator one_block)
creator_write_extent-Serves_example =
    creator_write_extent-Serves store no_decompression no_compression
      (λ input small e. absurd (cc e)) fresh_creator [] one_block (5 ∷ zeros 4095)
      fresh_creator-IsServing one_block-IsLoaded (omega arith) (omega arith) short_log
