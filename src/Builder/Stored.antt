-- ===== src/Builder/Stored.antt =====
-- segment.go and rebuild.go: what a published segment is good for. The headers in its file rebuild the
-- extent map, and at the advertised places lies the data.
use lsvd.Base.{ℕ, Bool, suc, ◌+◌, ◌≡◌, sym, ap, ◌∙◌, List, [], ◌∷◌, ◌++◌, length, length-append}
use lsvd.Base.Outcome.{Outcome, ok, ◌>>=◌}
use lsvd.Base.Slices.{take, drop, drop-append}
use lsvd.Location.{SegmentId, ExtentLocation}
use lsvd.TreeMap.{TreeMap}
use lsvd.ExtentMap.{ExtentMap}
use lsvd.Segments.{Segments}
use lsvd.Uvarint.{IoError}
use lsvd.Rebuild.{located}
use lsvd.Rebuild.Recover.{stored, total_blocks}
use lsvd.Builder.{SegmentBuilder}
use lsvd.Builder.Log.{Entry}
use lsvd.Builder.Flush.{SegmentFiles, SegmentAccess, SegmentStats, flush}
use lsvd.Builder.Publish.{copies, Leaves}
use mathlib.Core.List.{map, append_assoc}

-- The bytes at the places of the locations are those of the entries.
abbrev pub Held : List ℕ → List ExtentLocation → List Entry → Type 0
Held f [] [] = Unit {0}
Held f (l ∷ ls) ((h, d) ∷ es) = (take l.header.size (drop l.header.offset f) ≡ d) × Held f ls es
Held f [] (e ∷ es) = ⊥
Held f (l ∷ ls) [] = ⊥

pub drop_front : (pre a rest : List ℕ) → drop (length pre + length a) (pre ++ (a ++ rest)) ≡ rest
drop_front pre a rest =
    ap (λ (n : ℕ). drop n (pre ++ (a ++ rest))) (sym (length-append pre a))
    ∙ ap (drop (length (pre ++ a))) (sym (append_assoc pre a rest))
    ∙ drop-append (pre ++ a) rest

module _ {W : Type 0} (F : SegmentFiles W) (contents : W → List ℕ) (may_fail : IoError → Bool)
    (A : SegmentAccess) (s : A.S) (o : SegmentBuilder W) (seg : SegmentId) (n : ℕ) where
  -- What `Flush` leaves, uploads and returns, where `made` is the outcome of the steps with local files: when
  -- they fail, nothing is uploaded.
  abbrev pub Flushes : List ℕ → ℕ → Type 0
  Flushes f b =
      (o' : SegmentBuilder W) × (stats : SegmentStats) × (made : Outcome IoError (Unit {0}))
      × Leaves may_fail (λ u. Unit {0}) made
      × (flush F A s o seg ≡ (
        o',
        made >>= λ u. A.upload_segment s seg f >>= λ s1.
            A.append_to_segments s1 seg >>= λ s2. ok (s2, map (located seg b) o.extents, stats),
      ))
      × (o'.extents ≡ o.extents)
      × (o'.header ≡ copies (suc n) (stored o.extents))
      × (o'.cnt ≡ o.cnt)
      × (stats.blocks ≡ total_blocks o.extents)
      × (stats.data_offset ≡ b)
