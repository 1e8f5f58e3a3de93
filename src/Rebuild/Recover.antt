-- ===== src/Rebuild/Recover.antt =====
-- rebuild.go: a rebuilt segment, against the block map.
use lsvd.Base.{
  ℕ, ◌+◌, ◌≤◌, ◌<◌, ◌^◌, ◌≡◌, refl, ap, ◌∙◌, List, [], ◌∷◌, ◌++◌, arith, length, All, some, ◌==◌,
  true, false,
}
use lsvd.Base.Outcome.{ok}
use lsvd.Base.Words.{add64}
use lsvd.Location.{SegmentId, ExtentHeader}
use lsvd.Compact.{CompactPe}
use lsvd.Compact.Limits.{IsCompact}
use lsvd.TreeMap.{TreeMap}
use lsvd.ExtentMap.{ExtentMap}
use lsvd.ExtentMap.Setting.{IsMap, find_block}
use lsvd.ExtentMap.Replacing.{update-Replaces}
use lsvd.Segments.{Segments, find, create, update_usage}
use lsvd.Segments.Find.{find-put}
use lsvd.Segments.Committing.{latest}
use lsvd.Uvarint.{IoError}
use lsvd.Header.RoundTrip.{IsHeader, header_bytes, read_header_lem}
use lsvd.Rebuild.{located, rebuild_loop, rebuild_from_segment}
use mathlib.Core.List.{map, append_assoc}

-- The headers as they are stored, one behind the other.
abbrev pub stored : List ExtentHeader → List ℕ
stored [] = []
stored (h ∷ hs) = header_bytes h ++ stored hs

abbrev pub total_blocks : List ExtentHeader → ℕ
total_blocks [] = 0
total_blocks (h ∷ hs) = h.extent.blocks + total_blocks hs

abbrev pub AllStorable : List ExtentHeader → Type 0
AllStorable = All (λ h. IsHeader h × IsCompact h.extent)

module _ (T : TreeMap CompactPe) (seg : SegmentId) (data_offset : ℕ) (e : IoError)
    (after : List ℕ) where
  rebuild_loop_lem :
      (hs : List ExtentHeader) (blocks : ℕ) (em : ExtentMap T.Map) (ss : Segments)
      → AllStorable hs
      → IsMap T em
      → length em.table.by_desc + length hs ≤ 2 ^ 32
      → blocks + total_blocks hs < 2 ^ 64
      → (em' : ExtentMap T.Map) × (ss' : Segments) × (rebuild_loop T
            (length hs)
            seg
            data_offset
            e
            (stored hs ++ after)
            blocks
            em
            ss
          ≡ ok (blocks + total_blocks hs, em', ss'))
        × IsMap T em'
        × ((x : ℕ)
            → find_block T em' x ≡ latest (map (located seg data_offset) hs) x (find_block T em x))
  unfolding rebuild_loop
  rebuild_loop_lem [] blocks em ss a w room small =
      let none : blocks + 0 ≡ blocks = omega arith in (em, ss, rw none refl, w, λ x. refl)
  rebuild_loop_lem (h ∷ hs) blocks em ss ((wide, c), more) w room small =
      let (em', old, run, w', blocks_at, former, usage, grows) =
        update-Replaces T em (located seg data_offset h) [] w (omega arith) c in
      let (em'', ss', run', w'', blocks_at') =
        rebuild_loop_lem hs (blocks + h.extent.blocks) em' (update_usage old ss) more w'
          (omega arith) (omega arith) in
      let sum : add64 blocks h.extent.blocks ≡ blocks + h.extent.blocks = omega arith in
      let total : blocks + h.extent.blocks + total_blocks hs
          ≡ blocks + (h.extent.blocks + total_blocks hs) =
        omega arith in
      (
        em'',
        ss',
        rw
            (
              append_assoc (header_bytes h) (stored hs) after,
              read_header_lem h (stored hs ++ after) e wide,
              run,
              sum,
              run',
              total,
            )
            refl,
        w'',
        λ x. blocks_at' x ∙ ap (latest (map (located seg data_offset) hs) x) (blocks_at x),
      )

-- From the stored headers of a segment, each with fields of the source's widths and an extent of 1 to
-- 2 ^ 16 - 1 blocks below block 2 ^ 32, with room for their segment indices and fewer than 2 ^ 64 blocks
-- in all, on a map in order: the rebuild does not fail, the map stays in order, and each block lies where
-- the last extent that holds it says, or where it lay before if none does. The segment is recorded with
-- all the blocks of its extents as its size and as used, those that it overwrites itself included.
pub rebuild-Recovers :
    (T : TreeMap CompactPe) (seg : SegmentId) (data_offset : ℕ) (e : IoError) (after : List ℕ)
    (hs : List ExtentHeader) (em : ExtentMap T.Map) (ss : Segments)
    → AllStorable hs
    → IsMap T em
    → length em.table.by_desc + length hs ≤ 2 ^ 32
    → total_blocks hs < 2 ^ 64
    → (em' : ExtentMap T.Map) × (ss' : Segments) × (rebuild_from_segment T seg
          (record { extent_count = length hs; data_offset = data_offset })
          e
          (stored hs ++ after)
          em
          ss
        ≡ ok (em', ss'))
      × IsMap T em'
      × ((x : ℕ)
          → find_block T em' x ≡ latest (map (located seg data_offset) hs) x (find_block T em x))
      × (find seg ss'
          ≡ some (record { size = total_blocks hs; used = total_blocks hs; deleted = false }))
unfolding rebuild_from_segment create
rebuild-Recovers T seg data_offset e after hs em ss a w room small =
    let (em', ss', run, w', blocks_at) =
      rebuild_loop_lem T seg data_offset e after hs 0 em (create seg 0 ss) a w room (omega arith) in
    let total : 0 + total_blocks hs ≡ total_blocks hs = omega arith in
    let same : (seg == seg) ≡ true = ground arith in
    (
      em',
      create seg (total_blocks hs) ss',
      rw (run, total) refl,
      w',
      blocks_at,
      find-put seg seg (record { size = total_blocks hs; used = total_blocks hs; deleted = false })
            ss'
          ∙ rw same refl,
    )
