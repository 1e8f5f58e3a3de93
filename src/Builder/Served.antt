-- ===== src/Builder/Served.antt =====
-- segment.go: `WriteExtent` of `SegmentCreator`, and that what it writes can be read.
use lsvd.Base.{
  All, Bool, ℕ, ◌/◌, ◌-◌, ◌<◌, ◌≤◌, ◌^◌, ◌≡◌, ◌≢◌, refl, sym, ap, ◌∙◌, ◌⊎◌, inl, inr, List, [], ◌∷◌,
  ◌++◌, arith, Option, some, none, ◌==◌, ◌||◌, if◌then◌else◌, true, false, Bool-cases, length,
  length-append,
}
use lsvd.Base.Outcome.{Outcome, ok, err, panic}
use lsvd.Extent.{Extent, contains}
use lsvd.Location.{ExtentHeader, ExtentLocation}
use lsvd.Compact.{CompactPe}
use lsvd.Compact.Limits.{IsCompact}
use lsvd.TreeMap.{TreeMap}
use lsvd.ExtentMap.{ExtentMap}
use lsvd.ExtentMap.Setting.{IsMap, find_block}
use lsvd.ExtentMap.Replacing.{update-Replaces}
use lsvd.Uvarint.{IoError}
use lsvd.Header.RoundTrip.{header_bytes}
use lsvd.Rebuild.{RebuildError, unreadable}
use lsvd.RangeData.{RangeData, view, is_empty, read_view}
use lsvd.RangeData.Views.{IsLoaded, byte_at}
use lsvd.Builder.{Compressor, SegmentBuilder, write_extent}
use lsvd.Builder.Log.{memory_log, Entry, IsEntry, IsLogged, kept_at, log_bytes-append}
use lsvd.Builder.Writing.{Caused, Content, Writes, write_extent-Writes}
use lsvd.Builder.Creator.{SegmentCreator, cached, mapped, creator_write_extent}
use lsvd.Builder.Fill.{ReadError}
use lsvd.Builder.Filled.{is_some}
use mathlib.Core.Path.{subst}
use lsvd.Builder.Serving.{
  read_all, empty_at, view_lem, end_offset-length, shown_at, bytes_or_none, Loads, Loads-append,
  Inverts, decode-Content, entry-Loads, in_log, seen, IsServing, in_log-append,
}

last_entry : (es : List Entry) (e : Entry) → All IsEntry (es ++ e ∷ []) → IsEntry e
last_entry [] e a = a.0
last_entry (f ∷ es) e a = last_entry es e a.1

on_true : {A : Type 0} {a : Bool} (u v : A) → a ≡ true → (if a then u else v) ≡ u
on_true u v h = rw h refl

on_false : {A : Type 0} {a : Bool} (u v : A) → a ≡ false → (if a then u else v) ≡ v
on_false u v h = rw h refl

has_block :
    (a : Bool) (l : ExtentLocation) (old : Option ExtentLocation)
    → is_some (if a then some l else old) ≡ (a || is_some old)
has_block true l old = refl
has_block false l old = refl

ok_ok : {a c : List ℕ} → ◌≡◌ {A = Outcome IoError (List ℕ)} (ok a) (ok c) → a ≡ c
ok_ok h = cc h

module _ (T : TreeMap CompactPe) (uncompress : List ℕ → ℕ → Outcome ReadError (List ℕ))
    (z : Compressor) (inv : Inverts T uncompress z) (c : SegmentCreator T (List ℕ))
    (es : List Entry) (r : RangeData) (b : List ℕ) (s : IsServing T uncompress c es)
    (l : IsLoaded r b) where
  -- What the log holds of the range after it was written.
  record IsNew (w : List ℕ) (h : ExtentHeader) : Type 0 where
    longer : (more : List ℕ) × (w ≡ c.builder.log ++ more)
    same : h.extent ≡ r.extent
    loads : h.size ≢ 0 → Loads T uncompress w (cached h) b
    blank :
        h.size ≡ 0 → (q : ℕ) → contains r.extent (q / 4096) ≡ true → byte_at r.extent b q ≡ some 0

  written-IsNew :
      (o' : SegmentBuilder (List ℕ)) (h : ExtentHeader) (d : List ℕ)
      → IsLogged o' (es ++ (h, d) ∷ [])
      → length o'.log < 2 ^ 32
      → h.extent ≡ r.extent
      → ((is_empty r ≡ true) × (d ≡ []))
        ⊎ ((input : List ℕ) × (read_view {E = IoError} r (view r) ≡ ok input)
            × Content z ((view r).stop - (view r).start) input h d)
      → IsNew o'.log (kept_at c.builder.offset (h, d))
  written-IsNew o' h d g small same content =
      let e = last_entry es (h, d) g.entries in
      let log : o'.log ≡ c.builder.log ++ (header_bytes h ++ d) =
        g.logged
        ∙ log_bytes-append es h d
        ∙ ap (λ (w : List ℕ). w ++ (header_bytes h ++ d)) (sym s.logged.logged) in
      let shorter : length c.builder.log ≤ length o'.log =
        omega (arith, ap length log, length-append c.builder.log (header_bytes h ++ d)) in
      let at : c.builder.offset ≡ length c.builder.log = omega (
        arith,
        s.logged.offset_lem,
        end_offset-length 0 es (omega (arith, shorter, small, ap length s.logged.logged)),
        ap length s.logged.logged,
      ) in
      elim content [
        | inl (nothing, no_bytes) ↦ record {
          longer = (header_bytes h ++ d, log);
          same = same;
          loads = λ full. absurd (full (omega (arith, e.sized, ap length no_bytes)));
          blank = λ size q here. empty_at r b q l nothing here;
        }
        | inr (input, got, con) ↦
            let all : input ≡ b = ok_ok (sym got ∙ read_all r b l) in
            let size : length input ≡ (view r).stop - (view r).start =
              rw (all, view_lem r b l) (omega (arith, l.whole)) in
            let some_bytes : 0 < (view r).stop - (view r).start =
              rw (view_lem r b l) (omega (arith, l.range)) in
            let (back, full) =
              decode-Content T uncompress z h d input _ inv e size some_bytes con in
            record {
              longer = (header_bytes h ++ d, log);
              same = same;
              loads = λ full'.
                  rw (log, sym all)
                    (entry-Loads T uncompress c.builder.log h d input c.builder.offset e at
                      (rw log at small) back (rw (all, same) l.whole));
              blank = λ empty' q here. absurd (full empty');
            }
      ]

  new_byte :
      (w : List ℕ) (h : ExtentHeader) (q : ℕ)
      → IsNew w h
      → contains r.extent (q / 4096) ≡ true
      → shown_at (in_log T uncompress w) (some (cached h)) q ≡ byte_at r.extent b q
  new_byte w h q new here = elim (Bool-cases (h.size == 0)) [
    | inl nothing ↦ rw nothing (sym (new.blank (ground (arith, nothing)) q here))
    | inr full ↦
        let loads = new.loads (ground (arith, full)) in
        rw (full, ap bytes_or_none loads.1, new.same) refl
  ]

  old_byte :
      (w : List ℕ) (h : ExtentHeader) (q : ℕ)
      → IsNew w h
      → shown_at (in_log T uncompress w) (find_block T c.em (q / 4096)) q ≡ seen T uncompress c q
  old_byte w h q new = go (find_block T c.em (q / 4096)) (λ k at. s.held (q / 4096) k at)
    where
      go :
          (k : Option ExtentLocation)
          → ((j : ExtentLocation)
              → k ≡ some j
              → j.header.size ≢ 0
              → (bytes : List ℕ) × Loads T uncompress c.builder.log j bytes)
          → shown_at (in_log T uncompress w) k q ≡ shown_at (in_log T uncompress c.builder.log) k q
      go none held = refl
      go (some j) held = elim (Bool-cases (j.header.size == 0)) [
        | inl nothing ↦ rw nothing refl
        | inr full ↦
            let (bytes, loads) = held j refl (ground (arith, full)) in
            let longer : (in_log T uncompress w).bytes j
                ≡ (in_log T uncompress c.builder.log).bytes j =
              ap (λ (v : List ℕ). (in_log T uncompress v).bytes j) new.longer.1
              ∙ in_log-append T uncompress c.builder.log new.longer.0 j bytes loads in
            ap (λ (v : List ℕ). if j.header.size == 0 then some 0 else byte_at j.header.extent v q)
              longer
      ]

  -- The creator with the new block in its map.
  new-IsServing :
      (em' : ExtentMap T.Map) (o' : SegmentBuilder (List ℕ)) (e : Entry) (h : ExtentHeader)
      → IsMap T em'
      → IsLogged o' (es ++ e ∷ [])
      → IsNew o'.log h
      → ((x : ℕ)
          → find_block T em' x
            ≡ (if contains h.extent x then some (cached h) else find_block T c.em x))
      → IsServing T uncompress (record { builder = o'; em = em' }) (es ++ e ∷ [])
        × ((q : ℕ)
            → seen T uncompress (record { builder = o'; em = em' }) q ≡ (
                if contains r.extent (q / 4096)
                then byte_at r.extent b q
                else seen T uncompress c q))
  new-IsServing em' o' e h m g new at = (
    record {
      ordered = m;
      logged = g;
      held = λ x k found full. elim (Bool-cases (contains h.extent x)) [
        | inl here ↦
            let same : cached h ≡ k = cc (rw (at x, here) at found) in
            (
              b,
              subst (λ (j : ExtentLocation). Loads T uncompress o'.log j b) same
                  (new.loads (subst (λ (j : ExtentLocation). j.header.size ≢ 0) (sym same) full)),
            )
        | inr away ↦
            let (bytes, loads) = s.held x k (rw (at x, away) at found) full in
            (
              bytes,
              rw (new.longer.1)
                  (Loads-append T uncompress c.builder.log new.longer.0 k bytes loads),
            )
      ];
    },
    λ q. elim (Bool-cases (contains r.extent (q / 4096))) [
      | inl here ↦
          let found : find_block T em' (q / 4096) ≡ some (cached h) =
            at (q / 4096) ∙ rw (new.same, here) refl in
          ap (λ (k : Option ExtentLocation). shown_at (in_log T uncompress o'.log) k q) found
          ∙ new_byte o'.log h q new here
          ∙ sym (on_true _ _ here)
      | inr away ↦
          let found : find_block T em' (q / 4096) ≡ find_block T c.em (q / 4096) =
            at (q / 4096) ∙ rw (new.same, away) refl in
          ap (λ (k : Option ExtentLocation). shown_at (in_log T uncompress o'.log) k q) found
          ∙ old_byte o'.log h q new
          ∙ sym (on_false _ _ away)
    ],
  )

  -- On success what is shown of the range is what was written, and all else is shown as before. On an
  -- error or a panic, which is one of the compressor, neither the map nor the log has changed.
  abbrev pub Serves : SegmentCreator T (List ℕ) × Outcome RebuildError (Unit {0}) → Type 0
  Serves (c', ok u) =
      (e : Entry) × IsServing T uncompress c' (es ++ e ∷ [])
      × ((q : ℕ)
          → seen T uncompress c' q ≡ (
              if contains r.extent (q / 4096) then byte_at r.extent b q else seen T uncompress c q))
      × ((x : ℕ)
          → is_some (find_block T c'.em x) ≡ (contains r.extent x || is_some (find_block T c.em x)))
  Serves (c', err e) =
      (c'.em ≡ c.em)
      × (c'.builder.log ≡ c.builder.log)
      × ((x : IoError) × (e ≡ unreadable x) × (z.compress b ≡ err x))
  Serves (c', panic) = (c'.em ≡ c.em) × (c'.builder.log ≡ c.builder.log) × (z.compress b ≡ panic)

  compressor_failed :
      (x : Outcome IoError (List ℕ)) → x ≢ ok b → Caused z r (view r) x → z.compress b ≡ x
  compressor_failed x bad (inl reading) = absurd (bad (sym reading ∙ read_all r b l))
  compressor_failed x bad (inr (input, got, failed)) =
      rw (ok_ok (sym got ∙ read_all r b l)) at failed

  mapped-Serves :
      IsCompact r.extent
      → length c.em.table.by_desc < 2 ^ 32
      → (x : SegmentBuilder (List ℕ) × Outcome IoError (List ℕ × ExtentHeader))
      → length x.0.log < 2 ^ 32
      → Writes z c.builder es r (view r) x
      → Serves (mapped T x.0 c.em x.1)
  unfolding mapped view
  mapped-Serves k room (o', err e) small (log, _, _, cause) =
      (refl, log, (e, refl, compressor_failed (err e) (λ h. cc h) cause))
  mapped-Serves k room (o', panic) small (log, _, _, cause) =
      (refl, log, compressor_failed panic (λ h. cc h) cause)
  mapped-Serves k room (o', ok (d, eh)) small (h, g, placed, same, content) =
      let new = written-IsNew o' h d g small same content in
      let eh_new : IsNew o'.log eh =
        subst (λ (j : ExtentHeader). IsNew o'.log j) (sym placed) new in
      let (em', old, eq, m, at, _, _, _) =
        update-Replaces T c.em (cached eh) [] s.ordered room
          (subst IsCompact (sym eh_new.same) k) in
      let served = new-IsServing em' o' (h, d) eh m g eh_new at in
      rw (eq, mapped)
        (
          (h, d),
          served.0,
          served.1,
          λ x.
              ap is_some (at x)
              ∙ has_block (contains eh.extent x) (cached eh) (find_block T c.em x)
              ∙ ap (λ (e : Extent). contains e x || is_some (find_block T c.em x)) eh_new.same,
        )

  view_few : IsCompact r.extent → (view r).stop - (view r).start < 2 ^ 32
  view_few k = rw (view_lem r b l) (omega (arith, k))

  -- For a log file that takes everything, a creator whose log has the bytes of every block that it maps,
  -- and a decompressor that takes back what the compressor has made smaller: let `WriteExtent` be called
  -- for a range in memory of 1 to 2 ^ 16 - 1 blocks below block 2 ^ 32, with a free segment index, and let
  -- the log stay below 2 ^ 32 bytes. On success the log again has the bytes of every block that is mapped,
  -- whether the range was stored plain, compressed or as empty. The creator then has the blocks of the range
  -- and those that it had, and shows the bytes of the range at its blocks, and all other blocks as before.
  -- It fails or panics only as the compressor does on these bytes; map and log are then as
  -- they were.
  pub creator_write_extent-Serves :
      IsCompact r.extent
      → length c.em.table.by_desc < 2 ^ 32
      → length (write_extent memory_log z c.builder r (view r)).0.log < 2 ^ 32
      → Serves (creator_write_extent T memory_log z c r)
  unfolding creator_write_extent view
  creator_write_extent-Serves k room small =
      mapped-Serves k room (write_extent memory_log z c.builder r (view r)) small
        (write_extent-Writes z c.builder es r (view r) s.logged l.range (view_few k))
