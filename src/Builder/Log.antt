-- ===== src/Builder/Log.antt =====
-- segment.go: the contents of the write log, and the builder that has written them.
use lsvd.Base.{ℕ, ◌+◌, ◌≡◌, refl, ap, List, [], ◌∷◌, ◌++◌, arith, length, All}
use lsvd.Base.Words.{add64, add32, to32}
use lsvd.Base.Outcome.{ok}
use lsvd.Location.{ExtentHeader}
use lsvd.Uvarint.{append_byte}
use lsvd.Header.RoundTrip.{IsHeader, header_bytes}
use lsvd.Builder.{LogFile, SegmentBuilder}
use mathlib.Core.List.{append_assoc, append-nil}

-- A log file that takes everything.
abbrev pub memory_log : LogFile
memory_log = record {
  W = List ℕ;
  write_byte = append_byte;
  write = λ w b. ok (w ++ b, length b);
  flush = λ w. ok w;
}

-- What the log has of an extent: its header, in which the offset is still 0, and its bytes.
abbrev pub Entry : Type 0
Entry = ExtentHeader × List ℕ

abbrev pub log_bytes : List Entry → List ℕ
log_bytes [] = []
log_bytes ((h, d) ∷ es) = header_bytes h ++ (d ++ log_bytes es)

pub record IsEntry (e : Entry) : Type 0 where
  pub wide : IsHeader e.0
  pub sized : e.0.size ≡ length e.1
  pub unplaced : e.0.offset ≡ 0

abbrev pub AllEntries : List Entry → Type 0
AllEntries = All IsEntry

-- The header that the builder keeps for an entry that the log has at an offset, and the offset after it.
abbrev pub kept_at : ℕ → Entry → ExtentHeader
kept_at offset (h, d) = record h { offset = add32 (to32 offset) (to32 (length (header_bytes h))) }

abbrev pub after_entry : ℕ → Entry → ℕ
after_entry offset (h, d) = add64 offset (length (header_bytes h) + length d)

abbrev pub written : ℕ → List Entry → List ExtentHeader
written offset [] = []
written offset (e ∷ es) = kept_at offset e ∷ written (after_entry offset e) es

abbrev pub end_offset : ℕ → List Entry → ℕ
end_offset offset [] = offset
end_offset offset (e ∷ es) = end_offset (after_entry offset e) es

abbrev pub logged_blocks : List Entry → ℕ
logged_blocks [] = 0
logged_blocks ((h, d) ∷ es) = h.extent.blocks + logged_blocks es

-- The builder has written these entries, and no blocks were zeroed without the log.
pub record IsLogged (o : SegmentBuilder (List ℕ)) (es : List Entry) : Type 0 where
  pub entries : AllEntries es
  pub logged : o.log ≡ log_bytes es
  pub offset_lem : o.offset ≡ end_offset 0 es
  pub counted : o.cnt ≡ length es
  pub total : o.total_blocks ≡ logged_blocks es
  pub extents_lem : o.extents ≡ written 0 es

pub log_bytes-append :
    (es : List Entry) (h : ExtentHeader) (d : List ℕ)
    → log_bytes (es ++ (h, d) ∷ []) ≡ log_bytes es ++ (header_bytes h ++ d)
log_bytes-append [] h d = simp append-nil
log_bytes-append ((g, c) ∷ es) h d = rw (log_bytes-append es h d) (simp append_assoc)

pub written-append :
    (offset : ℕ) (es : List Entry) (e : Entry)
    → written offset (es ++ e ∷ []) ≡ written offset es ++ kept_at (end_offset offset es) e ∷ []
written-append offset [] e = refl
written-append offset (f ∷ es) e =
    ap (◌∷◌ (kept_at offset f)) (written-append (after_entry offset f) es e)

pub end_offset-append :
    (offset : ℕ) (es : List Entry) (e : Entry)
    → end_offset offset (es ++ e ∷ []) ≡ after_entry (end_offset offset es) e
end_offset-append offset [] e = refl
end_offset-append offset (f ∷ es) e = end_offset-append (after_entry offset f) es e

pub logged_blocks-append :
    (es : List Entry) (h : ExtentHeader) (d : List ℕ)
    → logged_blocks (es ++ (h, d) ∷ []) ≡ logged_blocks es + h.extent.blocks
logged_blocks-append [] h d = omega arith
logged_blocks-append ((g, c) ∷ es) h d = omega (arith, logged_blocks-append es h d)
