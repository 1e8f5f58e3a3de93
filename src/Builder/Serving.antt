-- ===== src/Builder/Serving.antt =====
-- segment.go: `WriteExtent` of `SegmentCreator`, against what can be read of the creator.
use lsvd.Base.{
  ℕ, zero, suc, ◌+◌, ◌*◌, ◌/◌, ◌-◌, ◌<◌, ◌≤◌, ◌^◌, ◌≡◌, ◌≢◌, refl, sym, ap, ◌∙◌, inl, inr, List, [],
  ◌∷◌, ◌++◌, arith, Option, some, none, ltb, ◌==◌, if◌then◌else◌, true, false, Bool-cases, length,
  length-append,
}
use lsvd.Base.Outcome.{Outcome, ok, err, panic, ◌>>=◌}
use lsvd.Base.Slices.{take, drop, take_all, get_elem?}
use lsvd.Extent.{contains, byte_size}
use lsvd.Extent.Range.{contains_lem}
use lsvd.Location.{ExtentHeader, ExtentLocation, flags, uncompressed, compressed, empty}
use lsvd.Compact.{CompactPe}
use lsvd.TreeMap.{TreeMap}
use lsvd.ExtentMap.Setting.{IsMap, find_block}
use lsvd.Uvarint.{IoError}
use lsvd.Header.RoundTrip.{header_bytes}
use lsvd.RangeData.{RangeData, view, is_empty, read_view, all_zero, empty_bytes}
use lsvd.RangeData.Empty.{empty_bytes_lem}
use lsvd.RangeData.Views.{IsLoaded, byte_at, part_of}
use lsvd.RangeData.Copying.{part, read_view_lem}
use lsvd.Builder.{Compressor}
use lsvd.Builder.Log.{Entry, IsEntry, IsLogged, log_bytes, kept_at, after_entry, end_offset}
use lsvd.Builder.Writing.{Content}
use lsvd.Builder.Creator.{SegmentCreator, cached}
use lsvd.Builder.Stored.{drop_front}
use lsvd.Builder.Fill.{ReadError, LogReader, load_logged, read_sized, undecompressed, invalid_flags}
use lsvd.Builder.Filling.{Decoded, stored_byte}

take-drop_front :
    (n k : ℕ) (w more : List ℕ) → n + k ≤ length w → take k (drop n (w ++ more)) ≡ take k (drop n w)
unfolding take drop
take-drop_front zero zero w more h = refl
take-drop_front zero (suc k) [] more h = absurd (omega arith)
take-drop_front zero (suc k) (x ∷ w) more h =
    ap (◌∷◌ x) (take-drop_front zero k w more (omega arith))
take-drop_front (suc n) zero w more h = refl
take-drop_front (suc n) (suc k) [] more h = absurd (omega arith)
take-drop_front (suc n) (suc k) (x ∷ w) more h = take-drop_front n (suc k) w more (omega arith)

pub end_offset-length :
    (n : ℕ) (es : List Entry)
    → n + length (log_bytes es) < 2 ^ 64
    → end_offset n es ≡ n + length (log_bytes es)
end_offset-length n [] h = omega arith
end_offset-length n ((g, d) ∷ es) h =
    let size : length (log_bytes ((g, d) ∷ es))
        ≡ length (header_bytes g) + (length d + length (log_bytes es)) =
      omega (
        arith,
        length-append (header_bytes g) (d ++ log_bytes es),
        length-append d (log_bytes es),
      ) in
    let next : after_entry n (g, d) ≡ n + (length (header_bytes g) + length d) = omega arith in
    rw next
      (end_offset-length (n + (length (header_bytes g) + length d)) es (omega arith) ∙ omega arith)

-- Reads of the log file itself, short at its end.
abbrev pub log_reader : (List ℕ → ℕ → Outcome ReadError (List ℕ)) → LogReader (List ℕ)
log_reader uncompress = record {
  read_at = λ w from n. ok (take n (drop from w));
  uncompress = uncompress;
}

abbrev pub bytes_or_none : Outcome ReadError (List ℕ) → List ℕ
bytes_or_none (ok bytes) = bytes
bytes_or_none (err e) = []
bytes_or_none panic = []

-- The byte of a layer at a position of the disk, with zeros for what it has as empty.
abbrev pub shown_at : Decoded → Option ExtentLocation → ℕ → Option ℕ
shown_at decoded none q = none
shown_at decoded (some l) q = stored_byte decoded (some l) (some 0) q

pub view_lem : (r : RangeData) (b : List ℕ) → IsLoaded r b → view r ≡ part_of r.extent r.extent
unfolding view byte_size
view_lem r b l = ground (arith, l.few)

pub read_all :
    (r : RangeData) (b : List ℕ) → IsLoaded r b → read_view {E = IoError} r (view r) ≡ ok b
unfolding drop
read_all r b l =
    let none_before : (r.extent.lba - r.extent.lba) * 4096 ≡ 0 = omega arith in
    rw (view_lem r b l) (
      read_view_lem r b r.extent l l.range (omega arith) {E = IoError}
      ∙ ap (λ (c : List ℕ). ok c) (whole none_before))
  where
    whole : (r.extent.lba - r.extent.lba) * 4096 ≡ 0 → part r.extent r.extent b ≡ b
    whole none_before = rw none_before (take_all _ b (omega (arith, l.whole)))

all_zero_at : (b : List ℕ) (i : ℕ) → all_zero b ≡ true → i < length b → get_elem? b i ≡ some 0
unfolding all_zero get_elem?
all_zero_at [] i z h = absurd (omega arith)
all_zero_at (x ∷ b) zero z h = ground (arith, z)
all_zero_at (x ∷ b) (suc i) z h = all_zero_at b i (ground (arith, z)) (omega arith)

pub empty_at :
    (r : RangeData) (b : List ℕ) (q : ℕ)
    → IsLoaded r b
    → is_empty r ≡ true
    → contains r.extent (q / 4096) ≡ true
    → byte_at r.extent b q ≡ some 0
unfolding is_empty
empty_at r b q l nothing here = elim (Bool-cases r.dirty) [
  | inl dirty ↦ absurd (cc (rw (is_empty, dirty) at nothing))
  | inr clean ↦
      let zeros_only : empty_bytes b ≡ true = rw (is_empty, clean, l.loaded) at nothing in
      rw here (
        all_zero_at b (q - r.extent.lba * 4096) (sym (empty_bytes_lem b) ∙ zeros_only)
          (ground (arith, l.whole, here, contains_lem r.extent (q / 4096) l.range)))
]

module _ (T : TreeMap CompactPe) (uncompress : List ℕ → ℕ → Outcome ReadError (List ℕ)) where
  -- The log has the bytes of a stored extent.
  abbrev pub Loads : List ℕ → ExtentLocation → List ℕ → Type 0
  Loads w l bytes =
      (l.header.offset + l.header.size ≤ length w)
      × (load_logged (log_reader uncompress) w l.header ≡ ok bytes)
      × (length bytes ≡ l.header.extent.blocks * 4096)

  -- From the bytes that the log has at the place of an extent.
  unfoldable pub decode : ExtentHeader → List ℕ → Outcome ReadError (List ℕ)
  unfolding flags read_sized
  decode h raw = elim (flags h) [
    | uncompressed ↦ read_sized h.size (ok raw)
    | compressed ↦ read_sized h.size (ok raw) >>= λ small. uncompress small h.raw_size >>= λ bytes.
        (if ltb (length bytes) h.raw_size then err undecompressed else ok bytes)
    | empty ↦ err invalid_flags
  ]

  load_logged_lem :
      (w : List ℕ) (h : ExtentHeader)
      → load_logged (log_reader uncompress) w h ≡ decode h (take h.size (drop h.offset w))
  unfolding load_logged decode
  load_logged_lem w h = refl

  decode_offset :
      (h : ExtentHeader) (n : ℕ) (raw : List ℕ)
      → decode (record h { offset = n }) raw ≡ decode h raw
  unfolding decode
  decode_offset h n raw = refl

  pub Loads-append :
      (w more : List ℕ) (l : ExtentLocation) (bytes : List ℕ)
      → Loads w l bytes
      → Loads (w ++ more) l bytes
  Loads-append w more l bytes (within, loads, size) =
      let same = take-drop_front l.header.offset l.header.size w more within in
      (
        omega (arith, within, length-append w more),
        load_logged_lem (w ++ more) l.header
            ∙ ap (decode l.header) same
            ∙ sym (load_logged_lem w l.header)
            ∙ loads,
        size,
      )

  -- The decompressor takes back what the compressor has made smaller.
  abbrev pub Inverts : Compressor → Type 0
  Inverts z =
      (input small : List ℕ)
      → z.compress input ≡ ok small
      → 0 < length small
      → uncompress small (length input) ≡ ok input

  pub decode-Content :
      (z : Compressor) (h : ExtentHeader) (d input : List ℕ) (n : ℕ)
      → Inverts z
      → IsEntry (h, d)
      → length input ≡ n
      → 0 < n
      → Content z n input h d
      → (decode h d ≡ ok input) × (h.size ≢ 0)
  unfolding decode
  decode-Content z h d input n inv e size some_bytes (inl (raw, same)) =
      let full : (h.size == 0) ≡ false = ground (arith, e.sized, same, size, some_bytes) in
      let is_raw : (h.raw_size == 0) ≡ true = ground (arith, raw) in
      let whole : (length d == h.size) ≡ true = ground (arith, e.sized) in
      (rw (full, decode, is_raw, whole, same) refl, ground (arith, full))
  decode-Content z h d input n inv e size some_bytes (inr (squeezed, nonempty, smaller, raw)) =
      let full : (h.size == 0) ≡ false = ground (arith, e.sized, nonempty) in
      let is_raw : (h.raw_size == 0) ≡ false = ground (arith, raw, some_bytes) in
      let whole : (length d == h.size) ≡ true = ground (arith, e.sized) in
      let back : uncompress d h.raw_size ≡ ok input =
        rw (raw, sym size) (inv input d squeezed nonempty) in
      let enough : ltb (length input) h.raw_size ≡ false = ground (arith, raw, size) in
      (rw (full, decode, is_raw, whole, back, enough) refl, ground (arith, full))

  -- The new entry is read back from behind its header.
  pub entry-Loads :
      (w : List ℕ) (h : ExtentHeader) (d input : List ℕ) (offset : ℕ)
      → IsEntry (h, d)
      → offset ≡ length w
      → length (w ++ (header_bytes h ++ d)) < 2 ^ 32
      → decode h d ≡ ok input
      → length input ≡ h.extent.blocks * 4096
      → Loads (w ++ (header_bytes h ++ d)) (cached (kept_at offset (h, d))) input
  entry-Loads w h d input offset e at small back size =
      let total : length (w ++ (header_bytes h ++ d))
          ≡ length w + (length (header_bytes h) + length d) =
        omega (arith, length-append w (header_bytes h ++ d), length-append (header_bytes h) d) in
      let place : (kept_at offset (h, d)).offset ≡ length w + length (header_bytes h) =
        omega (arith, at, small, total) in
      let there : take h.size (drop (kept_at offset (h, d)).offset (w ++ (header_bytes h ++ d)))
          ≡ d =
        rw (place, drop_front w (header_bytes h) d, e.sized)
          (take_all (length d) d (omega arith)) in
      (
        omega (arith, place, total, e.sized),
        load_logged_lem (w ++ (header_bytes h ++ d)) (kept_at offset (h, d))
            ∙ ap (decode (kept_at offset (h, d))) there
            ∙ decode_offset h (kept_at offset (h, d)).offset d
            ∙ back,
        size,
      )

  -- What the creator shows at a position of the disk: zeros for what it has as empty, and nothing where it
  -- has no block.
  abbrev pub in_log : List ℕ → Decoded
  in_log w = record {
    bytes = λ l. bytes_or_none (load_logged (log_reader uncompress) w l.header);
    may_fail = λ e. false;
  }

  abbrev pub seen : SegmentCreator T (List ℕ) → ℕ → Option ℕ
  seen c q = shown_at (in_log c.builder.log) (find_block T c.em (q / 4096)) q

  -- A creator that has written these entries, and whose log has the bytes of every block in its map.
  pub record IsServing (c : SegmentCreator T (List ℕ)) (es : List Entry) : Type 0 where
    pub ordered : IsMap T c.em
    pub logged : IsLogged c.builder es
    pub held :
        (x : ℕ) (l : ExtentLocation)
        → find_block T c.em x ≡ some l
        → l.header.size ≢ 0
        → (bytes : List ℕ) × Loads c.builder.log l bytes

  -- Each block that the log had is read as before from a longer one.
  pub in_log-append :
      (w more : List ℕ) (l : ExtentLocation) (bytes : List ℕ)
      → Loads w l bytes
      → (in_log (w ++ more)).bytes l ≡ (in_log w).bytes l
  in_log-append w more l bytes h =
      let longer = Loads-append w more l bytes h in
      ap bytes_or_none longer.1 ∙ sym (ap bytes_or_none h.1)
