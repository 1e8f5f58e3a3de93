-- ===== src/Builder/Restore.antt =====
-- segment.go: `readLog` restores a builder from its log.
use lsvd.Base.{
  ℕ, zero, suc, ◌+◌, ◌≤◌, ◌<◌, ◌^◌, ◌≡◌, refl, sym, ap, ◌∙◌, List, [], ◌∷◌, ◌++◌, none, arith, ltb,
  if◌then◌else◌, false, Bool-cases, inl, inr, length, length-append, All,
}
use lsvd.Base.Words.{add64}
use lsvd.Base.Slices.{drop-append}
use lsvd.Base.Outcome.{ok, err}
use lsvd.Location.{ExtentHeader, PartialExtent}
use lsvd.Compact.{CompactPe}
use lsvd.Compact.Limits.{IsCompact}
use lsvd.TreeMap.{TreeMap}
use lsvd.ExtentMap.{ExtentMap, update, new_extent_map}
use lsvd.Uvarint.RoundTrip.{uvarint, digits_nonempty}
use lsvd.ExtentMap.Setting.{IsMap, find_block, new_extent_map-IsMap, find_block-new_extent_map}
use lsvd.ExtentMap.Replacing.{update-Replaces}
use lsvd.Segments.Committing.{latest}
use lsvd.Uvarint.{eof, read_uvarint}
use lsvd.Header.{read_header}
use lsvd.Header.RoundTrip.{header_bytes, read_header_lem}
use lsvd.Builder.{SegmentBuilder, new_builder}
use lsvd.Builder.Log.{
  Entry, IsEntry, AllEntries, IsLogged, log_bytes, kept_at, after_entry, written, end_offset,
  logged_blocks,
}
use lsvd.Builder.Creator.{cached, placed, skip_body, read_log_loop, read_log}
use mathlib.Core.List.{map, append_assoc, append-nil}

-- A header as `readLog` places it: an entry without bytes keeps the offset 0 of the log.
abbrev pub settled : ExtentHeader → ExtentHeader
settled h = if ltb 0 h.size then h else record h { offset = 0 }

abbrev pub AllSmall : List Entry → Type 0
AllSmall = All (λ e. IsCompact e.0.extent)

settled-IsCompact : (h : ExtentHeader) → IsCompact h.extent → IsCompact (settled h).extent
settled-IsCompact h c = elim (Bool-cases (ltb 0 h.size)) [
  | inl some_bytes ↦ rw some_bytes c
  | inr nothing ↦ rw nothing c
]

read_nothing : read_header eof [] ≡ err eof
unfolding read_header read_uvarint
read_nothing = refl

placed_lem :
    (e : Entry) (offset : ℕ)
    → IsEntry e
    → placed e.0 (length (header_bytes e.0)) offset ≡ settled (kept_at offset e)
unfolding placed
placed_lem (h, d) offset e = elim (Bool-cases (ltb 0 h.size)) [
  | inl some_bytes ↦ rw some_bytes refl
  | inr nothing ↦ rw nothing (ap (λ (n : ℕ). record h { offset = n }) e.unplaced)
]

skip_body_lem : (d rest : List ℕ) → skip_body (length d) (d ++ rest) ≡ ok rest
unfolding skip_body
skip_body_lem d rest =
    let enough : ltb (length (d ++ rest)) (length d) ≡ false =
      ground (arith, length-append d rest) in
    rw (enough, drop-append d rest) refl

module _ (T : TreeMap CompactPe) where
  -- The builder with entries added that were read from a log.
  abbrev more : {W : Type 0} → SegmentBuilder W → List Entry → SegmentBuilder W
  more o es = record o {
    total_blocks = o.total_blocks + logged_blocks es;
    cnt = o.cnt + length es;
    extents = o.extents ++ map settled (written o.offset es);
    offset = end_offset o.offset es;
  }

  abbrev more_one : {W : Type 0} → SegmentBuilder W → Entry → SegmentBuilder W
  more_one o (h, d) = record o {
    total_blocks = o.total_blocks + h.extent.blocks;
    cnt = o.cnt + 1;
    extents = o.extents ++ settled (kept_at o.offset (h, d)) ∷ [];
    offset = after_entry o.offset (h, d);
  }

  more_nothing : {W : Type 0} (o : SegmentBuilder W) → more o [] ≡ o
  more_nothing o =
      let a : o.total_blocks + 0 ≡ o.total_blocks = omega arith in
      let b : o.cnt + 0 ≡ o.cnt = omega arith in
      ap (λ (n : ℕ). record o { total_blocks = n; cnt = o.cnt + 0; extents = o.extents ++ [] }) a
      ∙ ap (λ (n : ℕ). record o { cnt = n; extents = o.extents ++ [] }) b
      ∙ ap (λ (l : List ExtentHeader). record o { extents = l }) (append-nil o.extents)

  more_split :
      {W : Type 0} (o : SegmentBuilder W) (e : Entry) (es : List Entry)
      → more (more_one o e) es ≡ more o (e ∷ es)
  more_split o (h, d) es =
      let blocks : o.total_blocks + h.extent.blocks + logged_blocks es
          ≡ o.total_blocks + (h.extent.blocks + logged_blocks es) =
        omega arith in
      let count : o.cnt + 1 + length es ≡ o.cnt + suc (length es) = omega arith in
      let tail = map settled (written (after_entry o.offset (h, d)) es) in
      rw (blocks, count, append_assoc o.extents (settled (kept_at o.offset (h, d)) ∷ []) tail) refl

  loop_step :
      {W : Type 0} (fuel : ℕ) (o : SegmentBuilder W) (em em' : ExtentMap T.Map) (h : ExtentHeader)
      (d : List ℕ) (es : List Entry) (old : List PartialExtent)
      → IsEntry (h, d)
      → update T em (cached (settled (kept_at o.offset (h, d)))) [] ≡ ok (em', old)
      → read_log_loop T (suc fuel) o em (log_bytes ((h, d) ∷ es))
        ≡ read_log_loop T fuel (more_one o (h, d)) em' (log_bytes es)
  unfolding read_log_loop
  loop_step fuel o em em' h d es old e run =
      let sum : length d + length (header_bytes h) ≡ length (header_bytes h) + length d =
        omega arith in
      let at : add64 o.offset (h.size + length (header_bytes h)) ≡ after_entry o.offset (h, d) =
        ap (λ (n : ℕ). add64 o.offset (n + length (header_bytes h))) e.sized
        ∙ ap (λ (n : ℕ). add64 o.offset n) sum in
      let skipped : skip_body h.size (d ++ log_bytes es) ≡ ok (log_bytes es) =
        ap (λ (n : ℕ). skip_body n (d ++ log_bytes es)) e.sized ∙ skip_body_lem d (log_bytes es) in
      rw
        (
          read_header_lem h (d ++ log_bytes es) eof e.wide,
          read_log_loop,
          skipped,
          placed_lem (h, d) o.offset e,
          run,
          at,
        )
        refl

  read_log_loop_lem :
      {W : Type 0} (fuel : ℕ) (o : SegmentBuilder W) (em : ExtentMap T.Map) (es : List Entry)
      → AllEntries es
      → AllSmall es
      → IsMap T em
      → length em.table.by_desc + length es ≤ 2 ^ 32
      → length es < fuel
      → (em' : ExtentMap T.Map) × (read_log_loop T fuel o em (log_bytes es) ≡ ok (more o es, em'))
        × IsMap T em'
        × ((x : ℕ)
            → find_block T em' x
              ≡ latest (map cached (map settled (written o.offset es))) x (find_block T em x))
  unfolding read_log_loop
  read_log_loop_lem zero o em es a c w room enough = absurd (omega arith)
  read_log_loop_lem (suc fuel) o em [] a c w room enough = (
    em,
    rw (read_nothing, read_log_loop) (ap (λ b. ok (b, em)) (sym (more_nothing o))),
    w,
    λ x. refl,
  )
  read_log_loop_lem (suc fuel) o em ((h, d) ∷ es) (e, more_entries) (c, cs) w room enough =
      let eh = settled (kept_at o.offset (h, d)) in
      let compact : IsCompact eh.extent = settled-IsCompact (kept_at o.offset (h, d)) c in
      let (em', old, run, w', blocks_at, former, usage, grows) =
        update-Replaces T em (cached eh) [] w (omega arith) compact in
      let (em'', rest, w'', blocks_at') =
        read_log_loop_lem fuel (more_one o (h, d)) em' es more_entries cs w' (omega arith)
          (omega arith) in
      (
        em'',
        loop_step fuel o em em' h d es old e run
            ∙ rest
            ∙ ap (λ b. ok (b, em'')) (more_split o (h, d) es),
        w'',
        λ x.
            blocks_at' x
            ∙ ap (latest (map cached (map settled (written (after_entry o.offset (h, d)) es))) x)
                (blocks_at x),
      )

  log_bytes-long : (es : List Entry) → length es ≤ length (log_bytes es)
  log_bytes-long [] = omega arith
  log_bytes-long ((h, d) ∷ es) =
      let tail =
        uvarint h.extent.blocks ++ (uvarint h.size ++ (uvarint h.offset ++ uvarint h.raw_size)) in
      omega (
        arith,
        length-append (header_bytes h) (d ++ log_bytes es),
        length-append d (log_bytes es),
        length-append (uvarint h.extent.lba) tail,
        digits_nonempty 9 h.extent.lba,
        log_bytes-long es,
      )

-- For a builder that has written the entries `es`, all of extents that compact entries can hold, and at
-- most 2 ^ 32 of them: `readLog` on its log, from a new builder and a new map, does not fail. The restored
-- builder has the same number of extents and of blocks, the same offset and the same headers, but that a
-- header without data has the offset 0. The map is in order, and maps each block to the last of these
-- headers that holds it, and no other block.
pub read_log-Restores :
    (T : TreeMap CompactPe) {W : Type 0} (w : W) (o : SegmentBuilder (List ℕ)) (es : List Entry)
    → IsLogged o es
    → AllSmall es
    → length es ≤ 2 ^ 32
    → (o' : SegmentBuilder W) × (em : ExtentMap T.Map) × (read_log T
          (new_builder w)
          (new_extent_map T)
          o.log
        ≡ ok (o', em))
      × (o'.cnt ≡ o.cnt)
      × (o'.total_blocks ≡ o.total_blocks)
      × (o'.offset ≡ o.offset)
      × (o'.extents ≡ map settled o.extents)
      × IsMap T em
      × ((x : ℕ) → find_block T em x ≡ latest (map cached (map settled o.extents)) x none)
unfolding read_log
read_log-Restores T w o es l small few =
    let (em, run, ordered, blocks_at) =
      read_log_loop_lem T (suc (length (log_bytes es))) (new_builder w) (new_extent_map T) es
        l.entries small (new_extent_map-IsMap T) (omega arith)
        (omega (arith, log_bytes-long T es)) in
    (
      more T (new_builder w) es,
      em,
      rw l.logged run,
      rw l.counted (omega arith),
      rw l.total (omega arith),
      sym l.offset_lem,
      ap (map settled) (sym l.extents_lem),
      ordered,
      λ x. blocks_at x ∙ rw (find_block-new_extent_map T x, l.extents_lem) refl,
    )
