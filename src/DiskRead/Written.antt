-- ===== src/DiskRead/Written.antt =====
-- segment.go and disk.go: what is read after `WriteExtent`.
use lsvd.Base.{
  ℕ, ◌/◌, ◌^◌, ◌<◌, ◌≡◌, refl, sym, ap, ◌∙◌, ◌||◌, List, [], ◌∷◌, ◌++◌, Option, some, none,
  if◌then◌else◌, Bool-cases, inl, inr, true, length,
}
use lsvd.Base.Outcome.{Outcome, ok, err, panic}
use lsvd.Extent.{Extent, contains}
use lsvd.Location.{ExtentLocation}
use lsvd.Compact.{CompactPe}
use lsvd.Compact.Limits.{IsCompact}
use lsvd.TreeMap.{TreeMap}
use lsvd.ExtentMap.{ExtentMap}
use lsvd.ExtentMap.Resolve.{resolve}
use lsvd.ExtentMap.Setting.{IsMap, find_block}
use lsvd.RangeData.{RangeData, view}
use lsvd.RangeData.Views.{IsLoaded, byte_at}
use lsvd.Builder.{Compressor, write_extent}
use lsvd.Builder.Log.{memory_log, Entry}
use lsvd.Builder.Creator.{SegmentCreator, creator_write_extent}
use lsvd.Builder.Fill.{ReadError}
use lsvd.Builder.Filling.{Decoded, stored_byte}
use lsvd.Builder.Filled.{is_some}
use lsvd.Builder.Serving.{log_reader, bytes_or_none, in_log, seen, shown_at, IsServing, Inverts}
use lsvd.Builder.Served.{Serves, creator_write_extent-Serves}
use mathlib.Core.Path.{subst}
use lsvd.DiskRead.WriteCache.{Disk}
use lsvd.DiskRead.Segments.{SegmentReaders, CachePosition, read_extent_into}
use lsvd.DiskRead.Cached.{CanServe, layer_of}
use lsvd.DiskRead.Planning.{Slow}
use lsvd.DiskRead.Serving.{CanFetch}
use lsvd.DiskRead.Reading.{disk_byte, Unshadowed, ReadsDisk, read_extent_into-ReadsDisk}

module _ (T : TreeMap CompactPe) (uncompress : List ℕ → ℕ → Outcome ReadError (List ℕ)) where
  -- A creator whose log has the bytes of its blocks can be read.
  IsServing-CanServe :
      (c : SegmentCreator T (List ℕ)) (es : List Entry) (e : Extent)
      → IsServing T uncompress c es
      → CanServe (log_reader uncompress) T (in_log T uncompress c.builder.log) (some c) e
  IsServing-CanServe c es e s = (
    s.ordered,
    λ x l here found full.
        let (bytes, loads) = s.held x l found full in
        rw loads.1 (sym (ap bytes_or_none loads.1), loads.2),
  )

  -- The bytes of a disk over a creator.
  abbrev over : SegmentCreator T (List ℕ) → (ℕ → Option ℕ) → ℕ → Option ℕ
  over c below q = if is_some (find_block T c.em (q / 4096)) then seen T uncompress c q else below q

  over-Serves :
      (c c' : SegmentCreator T (List ℕ)) (r : RangeData) (b : List ℕ) (below : ℕ → Option ℕ) (q : ℕ)
      → seen T uncompress c' q
        ≡ (if contains r.extent (q / 4096) then byte_at r.extent b q else seen T uncompress c q)
      → is_some (find_block T c'.em (q / 4096))
        ≡ (contains r.extent (q / 4096) || is_some (find_block T c.em (q / 4096)))
      → over c' below q
        ≡ (if contains r.extent (q / 4096) then byte_at r.extent b q else over c below q)
  over-Serves c c' r b below q same has =
      rw (has, same)
        (elim (Bool-cases (contains r.extent (q / 4096))) [
          | inl here ↦ rw here refl
          | inr away ↦ rw away refl
        ])

  module _ (Q : SegmentReaders) (dp ds : Decoded) (Valid : Q.S → Type 0)
      (below : Option (SegmentCreator T (List ℕ))) (em : ExtentMap T.Map) (z : Compressor)
      (c : SegmentCreator T (List ℕ)) (es : List Entry) (r : RangeData) (b : List ℕ)
      (dest : RangeData) (blank : List ℕ) where
    open Q use {S}

    -- A disk with a creator on top.
    abbrev pub disk_of : SegmentCreator T (List ℕ) → Disk T (List ℕ)
    disk_of top = record { cur_oc = some top; prev_cache = below; lba2pba = em }

    -- The bytes that were written, over those of the disk before.
    abbrev pub rewritten : ℕ → Option ℕ
    rewritten q =
        if contains r.extent (q / 4096)
        then byte_at r.extent b q
        else disk_byte (in_log T uncompress c.builder.log) dp ds (find_block T c.em)
            (layer_of T below) (find_block T em) q

    unfoldable pub ReadsWritten : S × Outcome ReadError (RangeData × Option CachePosition) → Type 0
    ReadsWritten (s, ok (dest', at)) =
        Valid s
        × (at ≡ none)
        × ((g : List ℕ) × (dest'.extent ≡ dest.extent)
            × IsLoaded dest' g
            × ((q : ℕ)
                → contains dest.extent (q / 4096) ≡ true
                → byte_at dest.extent g q ≡ rewritten q))
    ReadsWritten (s, err e) = Valid s × ((dp.may_fail e || ds.may_fail e) ≡ true)
    ReadsWritten (s, panic) = ⊥

    module _ (c' : SegmentCreator T (List ℕ))
        (same : (q : ℕ)
          → seen T uncompress c' q ≡ (
              if contains r.extent (q / 4096) then byte_at r.extent b q else seen T uncompress c q))
        (has : (x : ℕ)
          → is_some (find_block T c'.em x)
            ≡ (contains r.extent x || is_some (find_block T c.em x))) where
      disk_byte-rewritten :
          (q : ℕ)
          → disk_byte
              (in_log T uncompress c'.builder.log)
              dp
              ds
              (find_block T c'.em)
              (layer_of T below)
              (find_block T em)
              q
            ≡ rewritten q
      disk_byte-rewritten q =
          as_over c'
          ∙ over-Serves c c' r b rest q (same q) (has (q / 4096))
          ∙ ap (λ (u : Option ℕ). if contains r.extent (q / 4096) then byte_at r.extent b q else u)
              (sym (as_over c))
        where
          rest : ℕ → Option ℕ
          rest q =
              if is_some (layer_of T below (q / 4096))
              then stored_byte dp (layer_of T below (q / 4096)) (some 0) q
              else stored_byte ds (find_block T em (q / 4096)) (some 0) q

          as_over :
              (top : SegmentCreator T (List ℕ))
              → disk_byte
                  (in_log T uncompress top.builder.log)
                  dp
                  ds
                  (find_block T top.em)
                  (layer_of T below)
                  (find_block T em)
                  q
                ≡ over top rest q
          as_over top = at_block (find_block T top.em (q / 4096))
            where
              at_block :
                  (k : Option ExtentLocation)
                  → (if is_some k
                      then stored_byte (in_log T uncompress top.builder.log) k (some 0) q
                      else rest q)
                    ≡ (if is_some k
                        then shown_at (in_log T uncompress top.builder.log) k q
                        else rest q)
              at_block none = refl
              at_block (some k) = refl

      ReadsDisk-ReadsWritten :
          (x : S × Outcome ReadError (RangeData × Option CachePosition))
          → ReadsDisk Q
              (in_log T uncompress c'.builder.log)
              dp
              ds
              Valid
              T
              (log_reader uncompress)
              (disk_of c')
              dest
              blank
              x
          → ReadsWritten x
      unfolding ReadsDisk ReadsWritten
      ReadsDisk-ReadsWritten (s, ok (dest', at)) (v, n, (g, e, l, h)) =
          (v, n, (g, e, l, λ q here. h q here ∙ disk_byte-rewritten q))
      ReadsDisk-ReadsWritten (s, err e) (v, f) = (v, f)
      ReadsDisk-ReadsWritten (s, panic) h = h

    -- For a creator as in `creator_write_extent-Serves` and readers, a map and a range of zeros as in
    -- `read_extent_into-ReadsDisk`: when `WriteExtent` has succeeded, `ReadExtentInto` on the disk that has
    -- the creator on top fails only with an error of a reader of the layers below. Otherwise the range holds
    -- the bytes that were written in the blocks of their extent, whether they were stored plain, compressed
    -- or as empty, and in all other blocks the bytes that the disk had before.
    pub read_extent_into-creator_write_extent :
        (c' : SegmentCreator T (List ℕ)) (s : S)
        → creator_write_extent T memory_log z c r ≡ (c', ok tt)
        → Inverts T uncompress z
        → IsServing T uncompress c es
        → IsLoaded r b
        → IsCompact r.extent
        → length c.em.table.by_desc < 2 ^ 32
        → length (write_extent memory_log z c.builder r (view r)).0.log < 2 ^ 32
        → IsMap T em
        → CanFetch Q ds (find_block T em) Valid
        → Unshadowed (find_block T c'.em) (layer_of T below) (find_block T em) dest.extent
        → ((q : ℕ) → contains dest.extent (q / 4096) ≡ true → byte_at dest.extent blank q ≡ some 0)
        → Valid s
        → IsLoaded dest blank
        → CanServe (log_reader uncompress) T dp below dest.extent
        → Slow (dest.extent ∷ []) dest.extent (resolve T em dest.extent [])
        → ReadsWritten (read_extent_into Q (log_reader uncompress) T s (disk_of c') dest)
    read_extent_into-creator_write_extent c' s done inv serving l k room small m can unshadowed
          zeroed v loaded lower slow =
        let (e, serving', same, has) =
          subst (Serves T uncompress z inv c es r b serving l) done
            (creator_write_extent-Serves T uncompress z inv c es r b serving l k room small) in
        ReadsDisk-ReadsWritten c' same has _ (
          read_extent_into-ReadsDisk Q (in_log T uncompress c'.builder.log) dp ds Valid T
            (log_reader uncompress) (disk_of c') dest blank m can unshadowed zeroed s v loaded
            (IsServing-CanServe c' (es ++ e ∷ []) dest.extent serving') lower slow)
