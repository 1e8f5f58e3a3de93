-- ===== src/Builder/Writing.antt =====
-- segment.go: what `WriteExtent` of the builder adds to the log.
use lsvd.Base.{
  ℕ, ◌+◌, ◌*◌, ◌/◌, ◌-◌, ◌<◌, ◌^◌, ◌≡◌, refl, ap, ◌∙◌, ◌⊎◌, inl, inr, List, [], ◌∷◌, ◌++◌, arith,
  ltb, ◌==◌, ◌&&◌, if◌then◌else◌, true, Bool-cases, length, length-append, All-append,
}
use lsvd.Base.Words.{add64, to32}
use lsvd.Base.Outcome.{Outcome, ok, err, panic, ◌>>=◌}
use lsvd.Extent.{Extent}
use lsvd.Extent.Range.{IsRange}
use lsvd.Location.{ExtentHeader}
use lsvd.Uvarint.{IoError}
use lsvd.Header.RoundTrip.{IsHeader, header_bytes, write_header_lem}
use lsvd.RangeData.{RangeData, View, is_empty, read_view}
use lsvd.RangeData.Copying.{read_view-length}
use lsvd.Builder.{
  Compressor, SegmentBuilder, encode, write_log, log_extent, stored_extent, filled_extent,
  write_extent,
}
use lsvd.Builder.Log.{
  memory_log, Entry, IsEntry, AllEntries, IsLogged, log_bytes, kept_at, written, end_offset,
  logged_blocks, log_bytes-append, written-append, end_offset-append, logged_blocks-append,
}
use mathlib.Core.List.{append_assoc}

write_log_lem :
    (w : List ℕ) (h : ExtentHeader) (d : List ℕ)
    → IsHeader h
    → write_log memory_log w h d
      ≡ ok (w ++ (header_bytes h ++ d), length (header_bytes h), length (header_bytes h) + length d)
unfolding write_log
write_log_lem w h d wide =
    let same : (length d == length d) ≡ true = ground arith in
    rw (write_header_lem h w wide, same)
      (ap (λ (b : List ℕ). ok (b, length (header_bytes h), length (header_bytes h) + length d))
        (append_assoc w (header_bytes h) d))

-- The builder when it calls `writeLog`: the extent is counted and not yet written.
record IsLogging (o : SegmentBuilder (List ℕ)) (es : List Entry) (blocks : ℕ) : Type 0 where
  entries : AllEntries es
  logged : o.log ≡ log_bytes es
  offset_lem : o.offset ≡ end_offset 0 es
  counted : o.cnt ≡ length es + 1
  total : o.total_blocks ≡ logged_blocks es + blocks
  extents_lem : o.extents ≡ written 0 es

-- The builder that has written an entry.
abbrev next_builder : SegmentBuilder (List ℕ) → Entry → SegmentBuilder (List ℕ)
next_builder o (h, d) = record o {
  log = o.log ++ (header_bytes h ++ d);
  offset = add64 o.offset (length (header_bytes h) + length d);
  extents = o.extents ++ kept_at o.offset (h, d) ∷ [];
}

log_extent_lem :
    (o : SegmentBuilder (List ℕ)) (h : ExtentHeader) (d : List ℕ)
    → IsHeader h
    → log_extent memory_log o h d ≡ (next_builder o (h, d), ok (d, kept_at o.offset (h, d)))
unfolding log_extent
log_extent_lem o h d wide = rw (write_log_lem o.log h d wide, log_extent) refl

next_builder-IsLogged :
    (o : SegmentBuilder (List ℕ)) (es : List Entry) (h : ExtentHeader) (d : List ℕ)
    → IsLogging o es h.extent.blocks
    → IsEntry (h, d)
    → IsLogged (next_builder o (h, d)) (es ++ (h, d) ∷ [])
next_builder-IsLogged o es h d l e = record {
  entries = All-append IsEntry es ((h, d) ∷ []) l.entries (e, tt);
  logged = rw (l.logged, log_bytes-append es h d) refl;
  offset_lem = rw (end_offset-append 0 es (h, d), l.offset_lem) refl;
  counted = omega (arith, length-append es ((h, d) ∷ []), l.counted);
  total = omega (arith, logged_blocks-append es h d, l.total);
  extents_lem = rw (written-append 0 es (h, d), l.offset_lem, l.extents_lem) refl;
}

-- How the bytes of an entry hold the data of a view: none for an empty range, else as they are or
-- compressed.
abbrev pub Content : Compressor → ℕ → List ℕ → ExtentHeader → List ℕ → Type 0
Content z n input h d =
    ((h.raw_size ≡ 0) × (d ≡ input))
    ⊎ ((z.compress input ≡ ok d) × (0 < length d) × (length d * 3 / 2 < n) × (h.raw_size ≡ n))

Encodes : Compressor → Extent → ℕ → List ℕ → Outcome IoError (ExtentHeader × List ℕ) → Type 0
Encodes z ext n input (ok (h, d)) = IsEntry (h, d) × (h.extent ≡ ext) × Content z n input h d
Encodes z ext n input (err e) = z.compress input ≡ err e
Encodes z ext n input panic = z.compress input ≡ panic

encode-Encodes :
    (z : Compressor) (ext : Extent) (n : ℕ) (input : List ℕ)
    → IsRange ext
    → n < 2 ^ 32
    → length input ≡ n
    → Encodes z ext n input (encode z ext n input)
unfolding Encodes encode
encode-Encodes z ext n input r small size = elim (Bool-cases (z.low_entropy input)) [
  | inr high ↦ rw high plain
  | inl low ↦ rw low (squeezed (z.compress input) refl)
]
  where
    plain :
        Encodes z ext n input
          (ok (record { extent = ext; size = to32 n; offset = 0; raw_size = 0 }, input))
    plain = (
      record { wide = omega (arith, r); sized = omega arith; unplaced = refl },
      refl,
      inl (refl, refl),
    )

    squeezed :
        (x : Outcome IoError (List ℕ))
        → z.compress input ≡ x
        → Encodes z ext n input (
            x >>= λ small. ok (
              if ltb 0 (length small) && ltb (length small * 3 / 2) n
              then (
                record { extent = ext; size = to32 (length small); offset = 0; raw_size = to32 n },
                small,
              )
              else (record { extent = ext; size = to32 n; offset = 0; raw_size = 0 }, input)))
    squeezed (ok c) e = elim (Bool-cases (ltb 0 (length c) && ltb (length c * 3 / 2) n)) [
      | inl smaller ↦ rw smaller (
        record { wide = ground (arith, r); sized = ground arith; unplaced = refl },
        refl,
        inr (e, ground arith, ground arith, omega arith),
      )
      | inr larger ↦ rw larger plain
    ]
    squeezed (err x) e = e
    squeezed panic e = e

-- A failure of the reading of the view, or of the compressor on what was read.
abbrev pub Caused : Compressor → RangeData → View → Outcome IoError (List ℕ) → Type 0
Caused z r v x =
    (read_view r v ≡ x)
    ⊎ ((input : List ℕ) × (read_view {E = IoError} r v ≡ ok input) × (z.compress input ≡ x))

-- What `WriteExtent` makes of a builder that has written the entries `es`. On success there is one entry
-- more, with the data of the view, and the builder keeps its header with its place in the log. When it
-- fails, the extent is counted although nothing is logged or kept.
abbrev pub Writes :
    Compressor
    → SegmentBuilder (List ℕ)
    → List Entry
    → RangeData
    → View
    → SegmentBuilder (List ℕ) × Outcome IoError (List ℕ × ExtentHeader)
    → Type 0
Writes z o es r v (o', ok (d, eh)) =
    (h : ExtentHeader) × IsLogged o' (es ++ (h, d) ∷ [])
    × (eh ≡ kept_at o.offset (h, d))
    × (h.extent ≡ v.extent)
    × (((is_empty r ≡ true) × (d ≡ []))
        ⊎ ((input : List ℕ) × (read_view {E = IoError} r v ≡ ok input)
            × Content z (v.stop - v.start) input h d))
Writes z o es r v (o', err e) =
    (o'.log ≡ o.log) × (o'.extents ≡ o.extents) × (o'.cnt ≡ o.cnt + 1) × Caused z r v (err e)
Writes z o es r v (o', panic) =
    (o'.log ≡ o.log) × (o'.extents ≡ o.extents) × (o'.cnt ≡ o.cnt + 1) × Caused z r v panic

module _ (z : Compressor) (o : SegmentBuilder (List ℕ)) (es : List Entry) (r : RangeData) (v : View)
    (l : IsLogged o es) (w : IsRange v.extent) (small : v.stop - v.start < 2 ^ 32) where
  -- The builder with other statistics.
  record IsCounted (o' : SegmentBuilder (List ℕ)) : Type 0 where
    same_log : o'.log ≡ o.log
    same_extents : o'.extents ≡ o.extents
    same_offset : o'.offset ≡ o.offset
    one_more : o'.cnt ≡ o.cnt + 1
    more_blocks : o'.total_blocks ≡ o.total_blocks + v.extent.blocks

  IsCounted-IsLogging :
      (o' : SegmentBuilder (List ℕ)) (h : ExtentHeader)
      → IsCounted o'
      → h.extent ≡ v.extent
      → IsLogging o' es h.extent.blocks
  IsCounted-IsLogging o' h c e = record {
    entries = l.entries;
    logged = c.same_log ∙ l.logged;
    offset_lem = c.same_offset ∙ l.offset_lem;
    counted = omega (arith, c.one_more, l.counted);
    total = rw e (omega (arith, c.more_blocks, l.total));
    extents_lem = c.same_extents ∙ l.extents_lem;
  }

  log_extent-Writes :
      (o' : SegmentBuilder (List ℕ)) (h : ExtentHeader) (d : List ℕ)
      → IsCounted o'
      → IsEntry (h, d)
      → h.extent ≡ v.extent
      → ((is_empty r ≡ true) × (d ≡ []))
        ⊎ ((input : List ℕ) × (read_view {E = IoError} r v ≡ ok input)
            × Content z (v.stop - v.start) input h d)
      → Writes z o es r v (log_extent memory_log o' h d)
  log_extent-Writes o' h d c e same content = rw (log_extent_lem o' h d e.wide) (
    h,
    next_builder-IsLogged o' es h d (IsCounted-IsLogging o' h c same) e,
    ap (λ (n : ℕ). kept_at n (h, d)) c.same_offset,
    same,
    content,
  )

  stored_extent-Writes :
      (o' : SegmentBuilder (List ℕ)) (input : List ℕ) (x : Outcome IoError (ExtentHeader × List ℕ))
      → IsCounted o'
      → read_view {E = IoError} r v ≡ ok input
      → Encodes z v.extent (v.stop - v.start) input x
      → Writes z o es r v (stored_extent memory_log o' x)
  unfolding Encodes stored_extent
  stored_extent-Writes o' input (ok (h, d)) c got (e, same, content) =
      log_extent-Writes (record o' { storage_bytes = o'.storage_bytes + length d }) h d
        (record {
          same_log = c.same_log;
          same_extents = c.same_extents;
          same_offset = c.same_offset;
          one_more = c.one_more;
          more_blocks = c.more_blocks;
        })
        e same (inr (input, got, content))
  stored_extent-Writes o' input (err x) c got e =
      (c.same_log, c.same_extents, c.one_more, inr (input, got, e))
  stored_extent-Writes o' input panic c got e =
      (c.same_log, c.same_extents, c.one_more, inr (input, got, e))

  filled_extent-Writes :
      (o' : SegmentBuilder (List ℕ)) (x : Outcome IoError (List ℕ))
      → IsCounted o'
      → read_view {E = IoError} r v ≡ x
      → Writes z o es r v (filled_extent memory_log z o' v x)
  unfolding filled_extent
  filled_extent-Writes o' (ok input) c got =
      let size = read_view-length r v input got in
      stored_extent-Writes _ input (encode z v.extent (v.stop - v.start) input)
        (record {
          same_log = c.same_log;
          same_extents = c.same_extents;
          same_offset = c.same_offset;
          one_more = c.one_more;
          more_blocks = c.more_blocks;
        })
        got (encode-Encodes z v.extent (v.stop - v.start) input w small size)
  filled_extent-Writes o' (err x) c got = (c.same_log, c.same_extents, c.one_more, inl got)
  filled_extent-Writes o' panic c got = (c.same_log, c.same_extents, c.one_more, inl got)

-- For a builder that has written the entries `es` to a log file that takes everything, and a view of
-- fewer than 2 ^ 32 bytes of a range that does not reach the end of the address space: when
-- `WriteExtent` succeeds, the log has one entry more, with the view's extent and its data, plain or
-- compressed, or no data for an empty range, and the header that it returns and keeps tells where in the
-- log the data lies. It fails or panics only as the reading of the view does, or the compressor; log and
-- headers are then as they were, and the extent is counted all the same.
pub write_extent-Writes :
    (z : Compressor) (o : SegmentBuilder (List ℕ)) (es : List Entry) (r : RangeData) (v : View)
    → IsLogged o es
    → IsRange v.extent
    → v.stop - v.start < 2 ^ 32
    → Writes z o es r v (write_extent memory_log z o r v)
unfolding write_extent
write_extent-Writes z o es r v l w small = elim (Bool-cases (is_empty r)) [
  | inl nothing ↦ rw nothing (
      log_extent-Writes z o es r v l w small
        (record o {
          total_blocks = o.total_blocks + v.extent.blocks;
          cnt = o.cnt + 1;
          empty_blocks = o.empty_blocks + v.extent.blocks;
        })
        (record { extent = v.extent; size = 0; offset = 0; raw_size = 0 }) []
        (record {
          same_log = refl;
          same_extents = refl;
          same_offset = refl;
          one_more = refl;
          more_blocks = refl;
        })
        (record { wide = omega (arith, w); sized = refl; unplaced = refl }) refl
        (inl (nothing, refl)))
  | inr filled ↦ rw filled (
      filled_extent-Writes z o es r v l w small
        (record o { total_blocks = o.total_blocks + v.extent.blocks; cnt = o.cnt + 1 })
        (read_view r v)
        (record {
          same_log = refl;
          same_extents = refl;
          same_offset = refl;
          one_more = refl;
          more_blocks = refl;
        })
        refl)
]
