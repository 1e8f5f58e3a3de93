-- ===== src/ExtentMap/Setting.antt =====
-- extent_map.go, `set`: the state of the map, and the entry of a new extent.
use lsvd.Base.{ℕ, ◌<◌, ◌^◌, ◌≡◌, refl, List, [], ◌∷◌, ◌∙◌, ap, arith, Option, length, none}
use lsvd.Base.Outcome.{ok}
use lsvd.Extent.{Extent}
use lsvd.Location.{ExtentLocation}
use lsvd.Compact.{CompactPe, live_lba, from_header, phys_extent, phys_lba, phys_blocks}
use lsvd.Compact.Live.{Fits, with_live, live-with_live, set_live_lem}
use lsvd.Compact.Limits.{IsCompact, phys-from_header, phys_extent-from_header}
use lsvd.TreeMap.{TreeMap}
use lsvd.ExtentMap.{
  new_extent_map, ExtentMap, SegTable, SegLocation, Error, set_pe, segment_idx, location_of,
}
use lsvd.ExtentMap.Table.{Indexed, Extends, segment_idx-Assigns, location_of-Extends}
use lsvd.ExtentMap.Carve.{Entries, live_lba_lem}
use lsvd.ExtentMap.Blocks.{block_at}
use lsvd.ExtentMap.Carved.{Known}

module _ (T : TreeMap CompactPe) where
  open T use {Map, entries, set, entries-set}

  -- The state between two operations.
  pub record IsMap (em : ExtentMap Map) : Type 0 where
    pub ordered : Entries 0 (entries em.m)
    pub indexed : Indexed em.table.by_desc em.table.by_idx
    pub known : Known (length em.table.by_desc) (entries em.m)

  -- Where the data of a block lies.
  abbrev pub find_block : ExtentMap Map → ℕ → Option ExtentLocation
  find_block em x = block_at em.table (entries em.m) x

  -- The entry that `set` makes for a new extent.
  abbrev pub fresh : ExtentMap Map → ExtentLocation → CompactPe
  fresh em pba = with_live (from_header pba.header (segment_idx em.table pba).1) pba.header.extent

  pub fresh-Fits :
      (em : ExtentMap Map) (pba : ExtentLocation)
      → IsCompact pba.header.extent
      → Fits (from_header pba.header (segment_idx em.table pba).1) pba.header.extent
  fresh-Fits em pba c = omega (arith, phys-from_header pba.header (segment_idx em.table pba).1 c)

  pub set_pe_lem :
      (em : ExtentMap Map) (m : Map) (pba : ExtentLocation)
      → IsCompact pba.header.extent
      → set_pe T
          (record { m = m; table = em.table })
          (record { live = pba.header.extent; location = pba })
        ≡ ok (record {
          m = set m pba.header.extent.lba (fresh em pba);
          table = (segment_idx em.table pba).0;
        })
  unfolding set_pe
  set_pe_lem em m pba c =
      let fit = fresh-Fits em pba c in
      let at : live_lba (fresh em pba) ≡ pba.header.extent.lba =
        live_lba_lem (fresh em pba)
        ∙ ap (λ (e : Extent). e.lba)
            (live-with_live (from_header pba.header (segment_idx em.table pba).1) pba.header.extent
              fit) in
      rw
        (
          set_live_lem {E = Error} (from_header pba.header (segment_idx em.table pba).1)
              pba.header.extent fit,
          at,
        )
        refl

  pub location_of-fresh :
      (em : ExtentMap Map) (pba : ExtentLocation)
      → IsMap em
      → length em.table.by_desc < 2 ^ 32
      → IsCompact pba.header.extent
      → location_of (segment_idx em.table pba).0 (fresh em pba) ≡ pba
  unfolding location_of phys_extent phys_lba phys_blocks from_header
  location_of-fresh em pba w h c =
      let a = segment_idx-Assigns em.table pba w.indexed h in
      let idx = (segment_idx em.table pba).1 in
      ap
        (λ (l : SegLocation). record {
          header = record pba.header { extent = phys_extent (from_header pba.header idx) };
          segment = l.seg;
          disk = l.disk;
        })
        a.2
      ∙ ap (λ (e : Extent). record pba { header = record pba.header { extent = e } })
          (phys_extent-from_header pba.header idx c)

  -- The map after the update.
  abbrev pub replaced : ExtentMap Map → ExtentLocation → Map → ExtentMap Map
  replaced em pba m = record {
    m = set m pba.header.extent.lba (fresh em pba);
    table = (segment_idx em.table pba).0;
  }

  pub block_at-Extends :
      (t t' : SegTable) (es : List (ℕ × CompactPe)) (x : ℕ)
      → Extends t t'
      → Known (length t.by_desc) es
      → block_at t' es x ≡ block_at t es x
  block_at-Extends t t' [] x h w = refl
  block_at-Extends t t' ((k, c) ∷ es) x h (w, ws) =
      rw (location_of-Extends t t' c h w, block_at-Extends t t' es x h ws) refl

-- The empty map.
module _ (T : TreeMap CompactPe) where
  pub new_extent_map-IsMap : IsMap T (new_extent_map T)
  new_extent_map-IsMap = record {
    ordered = rw T.entries-empty tt;
    indexed = tt;
    known = rw T.entries-empty tt;
  }

  pub find_block-new_extent_map : (x : ℕ) → find_block T (new_extent_map T) x ≡ none
  find_block-new_extent_map x = rw T.entries-empty refl
