-- ===== src/Builder/Publish.antt =====
-- segment.go: the file that `Flush` publishes, read again.
use lsvd.Base.{
  ℕ, zero, suc, ◌+◌, ◌<◌, ◌^◌, ◌≡◌, refl, sym, ap, ◌∙◌, List, [], ◌∷◌, ◌++◌, arith, length,
  length-append, All, Bool, true,
}
use lsvd.Base.Words.{add64, to32}
use lsvd.Base.Outcome.{Outcome, ok, err, panic, ◌>>=◌}
use lsvd.Base.Slices.{drop, drop-append}
use lsvd.Location.{SegmentId, ExtentHeader, ExtentLocation}
use lsvd.Uvarint.{IoError}
use lsvd.Header.{SegmentHeader, write_segment_header, read_segment_header}
use lsvd.Header.RoundTrip.{
  IsHeader, header_bytes, write_header_lem, read_segment_header-write_segment_header,
}
use lsvd.Uvarint.RoundTrip.{zero_add}
use lsvd.Rebuild.{located}
use lsvd.Rebuild.Recover.{stored, total_blocks}
use lsvd.Builder.{SegmentBuilder}
use lsvd.Builder.Flush.{
  SegmentAccess, SegmentStats, SegmentFiles, data_begin, advertised, make_file, write_headers,
  publish, flushed, flush,
}
use mathlib.Core.List.{map, append_assoc, append-nil}

-- The headers that earlier attempts have left in the buffer: it is not emptied when one fails.
abbrev pub copies : ℕ → List ℕ → List ℕ
copies zero b = []
copies (suc n) b = b ++ copies n b

copies-append : (n : ℕ) (b : List ℕ) → copies n b ++ b ≡ copies (suc n) b
copies-append zero b = sym (append-nil b)
copies-append (suc n) b = append_assoc b (copies n b) b ∙ ap (◌++◌ b) (copies-append n b)

abbrev pub AllHeaders : List ExtentHeader → Type 0
AllHeaders = All IsHeader

write_headers_lem :
    (hs : List ExtentHeader) (buffer : List ℕ) (blocks : ℕ)
    → AllHeaders hs
    → blocks + total_blocks hs < 2 ^ 64
    → write_headers hs buffer blocks ≡ ok (buffer ++ stored hs, blocks + total_blocks hs)
unfolding write_headers
write_headers_lem [] buffer blocks a small =
    let none : blocks + 0 ≡ blocks = omega arith in rw (none, append-nil buffer) refl
write_headers_lem (h ∷ hs) buffer blocks (a, more) small =
    let sum : add64 blocks h.extent.blocks ≡ blocks + h.extent.blocks = omega arith in
    let total : blocks + h.extent.blocks + total_blocks hs
        ≡ blocks + (h.extent.blocks + total_blocks hs) =
      omega arith in
    rw
      (
        write_header_lem h buffer a,
        sum,
        write_headers_lem hs (buffer ++ header_bytes h) (blocks + h.extent.blocks) more
            (omega arith),
        append_assoc buffer (header_bytes h) (stored hs),
        total,
      )
      refl

-- The bytes of the file of a segment, from the number of extents, the buffer with the headers and the log.
abbrev pub segment_bytes : ℕ → List ℕ → List ℕ → List ℕ
segment_bytes cnt header log =
    write_segment_header (record { extent_count = to32 cnt; data_offset = data_begin header })
    ++ (header ++ log)

pub drop-segment_bytes :
    (cnt : ℕ) (header log : List ℕ)
    → length header + 8 < 2 ^ 32
    → drop (length header + 8) (segment_bytes cnt header log) ≡ log
drop-segment_bytes cnt header log short =
    let hdr : SegmentHeader = record { extent_count = to32 cnt; data_offset = data_begin header } in
    let eight = (read_segment_header-write_segment_header hdr [] (omega arith) (omega arith)).1 in
    let long : length (write_segment_header hdr ++ header) ≡ length header + 8 =
      omega (arith, length-append (write_segment_header hdr) header, eight) in
    ap (λ (b : List ℕ). drop (length header + 8) b)
      (sym (append_assoc (write_segment_header hdr) header log))
    ∙ ap (λ (k : ℕ). drop k ((write_segment_header hdr ++ header) ++ log)) (sym long)
    ∙ drop-append (write_segment_header hdr ++ header) log

-- What a step with a local file leaves: the bytes that it should, or one of the errors of local files.
abbrev pub Leaves : (IoError → Bool) → {X : Type 0} → (X → Type 0) → Outcome IoError X → Type 0
Leaves may_fail Good (ok x) = Good x
Leaves may_fail Good (err e) = may_fail e ≡ true
Leaves may_fail Good panic = ⊥

-- Local files that either do what they say, or fail with one of these errors.
pub record IsFiles {W : Type 0} (F : SegmentFiles W) (contents : W → List ℕ)
    (may_fail : IoError → Bool) : Type 0 where
  pub creates : Leaves may_fail (λ f. F.read_all f ≡ []) F.create
  pub writes :
      (f : F.File) (b : List ℕ)
      → Leaves may_fail (λ r. (F.read_all r.0 ≡ F.read_all f ++ b) × (r.1 ≡ length b)) (F.write f b)
  pub seeks : (w : W) → Leaves may_fail (λ v. contents v ≡ contents w) (F.seek_start w)
  pub copies_log :
      (f : F.File) (w : W)
      → Leaves may_fail
          (λ r. (F.read_all r.0 ≡ F.read_all f ++ contents w) × (r.1 ≡ length (contents w)))
          (F.copy_log f w)

module _ {W : Type 0} (F : SegmentFiles W) (contents : W → List ℕ) (may_fail : IoError → Bool)
    (L : IsFiles F contents may_fail) where
  and_then :
      {X Y : Type 0} (Good : X → Type 0) (Better : Y → Type 0) (x : Outcome IoError X)
      (f : X → Outcome IoError Y)
      → Leaves may_fail Good x
      → ((v : X) → Good v → Leaves may_fail Better (f v))
      → Leaves may_fail Better (x >>= f)
  and_then Good Better (ok v) f h g = g v h
  and_then Good Better (err e) f h g = h
  and_then Good Better panic f h g = h

  -- The file that is made, and the number of bytes behind its header.
  abbrev pub Made : SegmentBuilder W → F.File × ℕ → Type 0
  Made o m =
      (F.read_all m.0 ≡ segment_bytes o.cnt o.header (contents o.log))
      × (m.1 ≡ length o.header + length (contents o.log))

  Wrote : F.File → List ℕ → F.File × ℕ → Type 0
  Wrote f b r = (F.read_all r.0 ≡ F.read_all f ++ b) × (r.1 ≡ length b)

  pub make_file-Leaves : (o : SegmentBuilder W) → Leaves may_fail (Made o) (make_file F o)
  unfolding make_file Wrote
  make_file-Leaves o =
      let head : List ℕ =
        write_segment_header
          (record { extent_count = to32 o.cnt; data_offset = data_begin o.header }) in
      and_then (λ f. F.read_all f ≡ []) (Made o) F.create _ L.creates
        (λ f new. and_then (Wrote f head) (Made o) (F.write f head) _ (L.writes f head) (λ h first.
          and_then (Wrote h.0 o.header) (Made o) (F.write h.0 o.header) _ (L.writes h.0 o.header)
            (λ b body.
              and_then (λ w. contents w ≡ contents o.log) (Made o) (F.seek_start o.log) _
                (L.seeks o.log)
                (λ w same.
                  and_then (Wrote b.0 (contents w)) (Made o) (F.copy_log b.0 w) _
                    (L.copies_log b.0 w)
                    (λ d rest. (
                      rest.0
                          ∙ rw (body.0, first.0, new, same)
                              (append_assoc head o.header (contents o.log)),
                      rw (body.1, rest.1, same) refl,
                    ))))))

module _ {W : Type 0} (F : SegmentFiles W) (contents : W → List ℕ) (may_fail : IoError → Bool)
    (L : IsFiles F contents may_fail) (A : SegmentAccess) (s : A.S) (o : SegmentBuilder W)
    (seg : SegmentId) (n : ℕ) (wide : AllHeaders o.extents)
    (buffer : o.header ≡ copies n (stored o.extents)) (few : total_blocks o.extents < 2 ^ 64) where
  -- The buffer after this attempt, where the data begins, and the file.
  abbrev pub headers : List ℕ
  headers = copies (suc n) (stored o.extents)

  abbrev pub begin : ℕ
  begin = length headers + 8

  abbrev pub file : List ℕ
  file = segment_bytes o.cnt headers (contents o.log)

  abbrev pub published :
      Outcome IoError (Unit {0}) → Outcome IoError (A.S × List ExtentLocation × SegmentStats)
  published made = made >>= λ u. A.upload_segment s seg file >>= λ s1.
      A.append_to_segments s1 seg >>= λ s2. ok (
        s2,
        map (located seg begin) o.extents,
        record {
          blocks = total_blocks o.extents;
          total_bytes = length headers + length (contents o.log);
          data_offset = begin;
        },
      )

  -- What is done with a file once it is made.
  abbrev offered :
      SegmentBuilder W → ℕ → List ℕ → ℕ → Outcome IoError (A.S × List ExtentLocation × SegmentStats)
  offered o' blocks f total = A.upload_segment s seg f >>= λ s1.
      A.append_to_segments s1 seg >>= λ s2. ok (
        s2,
        map (advertised seg (data_begin o'.header)) o'.extents,
        record { blocks = blocks; total_bytes = total; data_offset = data_begin o'.header },
      )

  publish-Made :
      (o' : SegmentBuilder W) (blocks : ℕ) (x : Outcome IoError (F.File × ℕ))
      → Leaves may_fail (Made F contents may_fail L o') x
      → (made : Outcome IoError (Unit {0})) × Leaves may_fail (λ u. Unit {0}) made
        × ((x >>= λ m. offered o' blocks (F.read_all m.0) m.1) ≡ (
            made >>= λ u.
            offered o' blocks
              (segment_bytes o'.cnt o'.header (contents o'.log))
              (length o'.header + length (contents o'.log))))
  publish-Made o' blocks (ok m) g = (ok tt, tt, rw (g.0, g.1) refl)
  publish-Made o' blocks (err e) g = (err e, g, refl)
  publish-Made o' blocks panic g = absurd g

  -- The outcome of the steps with local files decides whether the file is uploaded.
  pub flush_lem :
      begin < 2 ^ 32
      → (made : Outcome IoError (Unit {0})) × Leaves may_fail (λ u. Unit {0}) made
        × (flush F A s o seg ≡ (record o { header = headers }, published made))
  unfolding flush publish flushed
  flush_lem short =
      let collected : write_headers o.extents o.header 0 ≡ ok (headers, total_blocks o.extents) =
        write_headers_lem o.extents o.header 0 wide (omega arith)
        ∙ rw (buffer, copies-append n (stored o.extents))
            (ap (λ (b : ℕ). ok (headers, b)) (zero_add (total_blocks o.extents))) in
      let fits : to32 begin ≡ begin = omega arith in
      let o' : SegmentBuilder W = record o { header = headers } in
      let (made, good, same) =
        publish-Made o' (total_blocks o.extents) (make_file F o')
          (make_file-Leaves F contents may_fail L o') in
      let begins : (made >>= λ u.
      offered o' (total_blocks o.extents) (segment_bytes o'.cnt o'.header (contents o'.log))
        (length o'.header + length (contents o'.log)))
          ≡ published made =
        rw fits refl in
      (
        made,
        good,
        rw collected (
            ap (λ (p : Outcome IoError (A.S × List ExtentLocation × SegmentStats)). (o', p))
              (same ∙ begins)),
      )

  pub read_file :
      begin < 2 ^ 32
      → o.cnt < 2 ^ 32
      → read_segment_header file
        ≡ ok (
          record { extent_count = o.cnt; data_offset = begin },
          stored o.extents ++ (copies n (stored o.extents) ++ contents o.log),
        )
  read_file short small =
      let fits : to32 begin ≡ begin = omega arith in
      let count : to32 o.cnt ≡ o.cnt = omega arith in
      let hdr : SegmentHeader = record { extent_count = o.cnt; data_offset = begin } in
      rw
        (
          fits,
          count,
          append_assoc (stored o.extents) (copies n (stored o.extents)) (contents o.log),
        )
        (read_segment_header-write_segment_header hdr
          (stored o.extents ++ (copies n (stored o.extents) ++ contents o.log)) small short).0
