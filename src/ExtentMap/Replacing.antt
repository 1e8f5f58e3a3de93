-- ===== src/ExtentMap/Replacing.antt =====
-- extent_map.go, `update`: the block map after an update, against the block map before it.
use lsvd.Base.{
  ℕ, suc, ◌+◌, ◌≤◌, ◌<◌, ◌^◌, ◌≡◌, refl, List, ◌++◌, ◌∙◌, ap, arith, if◌then◌else◌, inl, inr,
  Bool-cases, some, none, length,
}
use lsvd.Base.Outcome.{ok}
use lsvd.Extent.{Extent, contains}
use lsvd.Extent.Range.{IsRange}
use lsvd.Location.{SegmentId, ExtentLocation, PartialExtent}
use lsvd.Compact.{CompactPe, live, from_header}
use lsvd.Compact.Live.{IsLive, live-with_live, with_live-IsLive}
use lsvd.Compact.Limits.{IsCompact}
use lsvd.TreeMap.{TreeMap}
use lsvd.TreeMap.Entries.{insert}
use lsvd.ExtentMap.{ExtentMap, to_pe, update, segment_idx}
use lsvd.ExtentMap.Table.{Assigns, segment_idx-Assigns, segment_idx_grows}
use lsvd.ExtentMap.Carve.{carve, hidden}
use lsvd.ExtentMap.Run.{applied}
use lsvd.ExtentMap.Update.{update-Cuts}
use lsvd.ExtentMap.Blocks.{
  pe_at, block_at-carve, pe_at-hidden, block_at-insert_at, insert_at-Entries,
}
use lsvd.ExtentMap.Usage.{
  used_blocks, pe_blocks, share, used_blocks-carve, used_blocks-insert, used_blocks-Extends,
}
use lsvd.ExtentMap.Carved.{carve-Entries, carve-Clear, carve-Known, insert-Known, Known-mono}
use mathlib.Core.List.{map}
use lsvd.ExtentMap.Setting.{
  IsMap, find_block, fresh, fresh-Fits, set_pe_lem, location_of-fresh, replaced, block_at-Extends,
}

module _ (T : TreeMap CompactPe) where
  open T use {Map, entries, set, entries-set}

  module _ (em : ExtentMap Map) (pba : ExtentLocation) (w : IsMap T em)
      (room : length em.table.by_desc < 2 ^ 32) (c : IsCompact pba.header.extent) (m : Map)
      (cut : entries m ≡ carve pba.header.extent (entries em.m)) where
    abbrev rng : Extent
    rng = pba.header.extent

    range : IsRange rng
    range = omega (arith, c)

    assigned :
        Assigns em.table (record { seg = pba.segment; disk = pba.disk }) (segment_idx em.table pba)
    assigned = segment_idx-Assigns em.table pba w.indexed room

    fresh_live : live (fresh T em pba) ≡ rng
    fresh_live =
        live-with_live (from_header pba.header (segment_idx em.table pba).1) rng
          (fresh-Fits T em pba c)

    fresh-IsLive : IsLive (fresh T em pba)
    fresh-IsLive =
        with_live-IsLive (from_header pba.header (segment_idx em.table pba).1) rng
          (fresh-Fits T em pba c)

    entries-replaced :
        entries (set m rng.lba (fresh T em pba))
        ≡ insert rng.lba (fresh T em pba) (carve rng (entries em.m))
    entries-replaced =
        entries-set m rng.lba (fresh T em pba) ∙ ap (insert rng.lba (fresh T em pba)) cut

    seg_idx-fresh : (fresh T em pba).seg_idx < length (segment_idx em.table pba).0.by_desc
    unfolding from_header
    seg_idx-fresh = assigned.1

    replaced-IsMap : IsMap T (replaced T em pba m)
    replaced-IsMap = record {
      ordered = rw entries-replaced (
          insert_at-Entries (fresh T em pba) rng 0 (carve rng (entries em.m)) fresh_live
            fresh-IsLive (omega arith) (carve-Entries rng 0 (entries em.m) range w.ordered)
            (carve-Clear rng 0 (entries em.m) range w.ordered));
      indexed = assigned.0;
      known = rw (entries-replaced) (
          insert-Known rng.lba (fresh T em pba) (length (segment_idx em.table pba).0.by_desc)
            (carve rng (entries em.m)) seg_idx-fresh
            (carve-Known rng _ (entries em.m)
              (Known-mono (length em.table.by_desc) _ (entries em.m) assigned.3.longer w.known)));
    }

    find_block-replaced :
        (x : ℕ)
        → find_block T (replaced T em pba m) x
          ≡ (if contains rng x then some pba else find_block T em x)
    find_block-replaced x =
        rw
          (
            entries-replaced,
            block_at-insert_at (fresh T em pba) rng 0 (carve rng (entries em.m)) fresh_live
                fresh-IsLive (segment_idx em.table pba).0 x
                (carve-Entries rng 0 (entries em.m) range w.ordered)
                (carve-Clear rng 0 (entries em.m) range w.ordered),
            location_of-fresh T em pba w room c,
            block_at-carve (segment_idx em.table pba).0 rng 0 (entries em.m) x range w.ordered,
            block_at-Extends T em.table (segment_idx em.table pba).0 (entries em.m) x assigned.3
                w.known,
          )
          (elim (Bool-cases (contains rng x)) [ inl f ↦ rw f refl | inr f ↦ rw f refl ])

    used_blocks-replaced :
        (s : SegmentId)
        → used_blocks (replaced T em pba m).table s (entries (replaced T em pba m).m)
            + pe_blocks s (map (to_pe em.table) (hidden rng (entries em.m)))
          ≡ share s pba rng + used_blocks em.table s (entries em.m)
    used_blocks-replaced s =
        rw
          (
            entries-replaced,
            used_blocks-insert (segment_idx em.table pba).0 s (fresh T em pba) rng 0
                (carve rng (entries em.m)) range
                (carve-Entries rng 0 (entries em.m) range w.ordered)
                (carve-Clear rng 0 (entries em.m) range w.ordered),
            location_of-fresh T em pba w room c,
            fresh_live,
            used_blocks-Extends em.table (segment_idx em.table pba).0 s (carve rng (entries em.m))
                assigned.3 (carve-Known rng _ (entries em.m) w.known),
          )
          (omega (arith, used_blocks-carve em.table s rng range 0 (entries em.m) w.ordered))

  -- What an update does to the map and to the list of affected extents.
  abbrev pub Replaces : ExtentMap Map → ExtentLocation → List PartialExtent → Type 0
  Replaces em pba aff =
      (em' : ExtentMap Map) × (old : List PartialExtent) × (update T em pba aff
        ≡ ok (em', aff ++ old))
      × IsMap T em'
      × ((x : ℕ)
          → find_block T em' x
            ≡ (if contains pba.header.extent x then some pba else find_block T em x))
      × ((x : ℕ) → pe_at old x ≡ (if contains pba.header.extent x then find_block T em x else none))
      × ((s : SegmentId)
          → used_blocks em'.table s (entries em'.m) + pe_blocks s old
            ≡ share s pba pba.header.extent + used_blocks em.table s (entries em.m))
      × (length em'.table.by_desc ≤ suc (length em.table.by_desc))

-- `update` of an extent of 1 to 2^16 - 1 blocks below block 2^32, on a map in order with a free segment
-- index, succeeds: the map stays in order, the new extent's blocks are at the new location, every
-- other block is where it was. To `affected` come extents that give the former location of each block
-- of the new extent that had one, and nothing for other blocks. Per segment, the blocks in use before
-- and the new ones are as many as the blocks in use after and those that came to `affected`. At most
-- one segment index is new.
pub update-Replaces :
    (T : TreeMap CompactPe) (em : ExtentMap T.Map) (pba : ExtentLocation) (aff : List PartialExtent)
    → IsMap T em
    → length em.table.by_desc < 2 ^ 32
    → IsCompact pba.header.extent
    → Replaces T em pba aff
unfolding update
update-Replaces T em pba aff w room c =
    let rng = pba.header.extent in
    let range : IsRange rng = omega (arith, c) in
    let (s, s', first, second, cut, old) = update-Cuts T em rng aff range w.ordered in
    (
      replaced T em pba (applied T s'),
      map (to_pe em.table) (hidden rng (T.entries em.m)),
      rw (first, second, set_pe_lem T em (applied T s') pba c, old) refl,
      replaced-IsMap T em pba w room c (applied T s') cut,
      find_block-replaced T em pba w room c (applied T s') cut,
      λ x. pe_at-hidden em.table rng 0 (T.entries em.m) x range w.ordered,
      used_blocks-replaced T em pba w room c (applied T s') cut,
      segment_idx_grows em.table pba,
    )
