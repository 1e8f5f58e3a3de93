-- ===== src/DiskRead/Reading.antt =====
-- disk.go: `ReadExtentInto` as a whole, against the three layers of a disk.
use lsvd.Base.{
  ℕ, ◌/◌, ◌≡◌, ◌≢◌, refl, ◌∙◌, Bool, not, ◌&&◌, ◌||◌, List, [], ◌∷◌, Option, some, none, arith,
  if◌then◌else◌, true, false,
}
use lsvd.Base.Outcome.{Outcome, ok, err, panic}
use lsvd.Extent.{Extent, contains}
use lsvd.Extent.Subtract.{any_contains}
use lsvd.Location.{ExtentLocation}
use lsvd.Compact.{CompactPe}
use lsvd.TreeMap.{TreeMap}
use lsvd.ExtentMap.Resolve.{resolve}
use lsvd.ExtentMap.Setting.{IsMap, find_block}
use lsvd.RangeData.{RangeData}
use lsvd.RangeData.Views.{IsLoaded, byte_at}
use lsvd.Builder.Fill.{ReadError, LogReader}
use lsvd.Builder.Filling.{Decoded, stored_byte}
use lsvd.Builder.Filled.{Layer, is_some}
use lsvd.DiskRead.WriteCache.{Disk, fill_from_write_cache}
use lsvd.DiskRead.Segments.{SegmentReaders, CachePosition, with_state, read_holes, read_extent_into}
use lsvd.DiskRead.Cached.{shown, Shows, layer_of, prev_layer, CanServe, fill_from_write_cache-Shows}
use lsvd.DiskRead.Gathering.{expected}
use lsvd.DiskRead.Planning.{Slow}
use lsvd.DiskRead.Serving.{CanFetch, Reads, read_holes-Reads}

-- A byte by the first of three layers that has the block. A block that is stored as empty, and one that no
-- layer has, holds zeros.
abbrev pub disk_byte : Decoded → Decoded → Decoded → Layer → Layer → Layer → ℕ → Option ℕ
disk_byte dc dp ds cur prev stored q =
    if is_some (cur (q / 4096))
    then stored_byte dc (cur (q / 4096)) (some 0) q
    else (if is_some (prev (q / 4096))
        then stored_byte dp (prev (q / 4096)) (some 0) q
        else stored_byte ds (stored (q / 4096)) (some 0) q)

shown_nowhere :
    (dc dp : Decoded) (cur prev : Layer) (old : Option ℕ) (q : ℕ)
    → is_some (cur (q / 4096)) ≡ false
    → is_some (prev (q / 4096)) ≡ false
    → shown dc dp cur prev old q ≡ old
shown_nowhere dc dp cur prev old q no_cur no_prev = rw no_cur (unstored (prev (q / 4096)) no_prev)
  where
    unstored : (l : Option ExtentLocation) → is_some l ≡ false → stored_byte dp l old q ≡ old
    unstored none h = refl
    unstored (some l) h = absurd (cc h)

-- No block of a range that a write cache has is stored in a segment as empty.
abbrev pub Unshadowed : Layer → Layer → Layer → Extent → Type 0
Unshadowed cur prev stored e =
    (x : ℕ) (l : ExtentLocation)
    → contains e x ≡ true
    → (is_some (cur x) || is_some (prev x)) ≡ true
    → stored x ≡ some l
    → l.header.size ≢ 0

module _ (Q : SegmentReaders) (dc dp ds : Decoded) (Valid : Q.S → Type 0) (T : TreeMap CompactPe)
    {W : Type 0} (R : LogReader W) (d : Disk T W) (dest : RangeData) (b : List ℕ) where
  open Q use {S}

  abbrev cur : Layer
  cur = layer_of T d.cur_oc

  abbrev prev : Layer
  prev = prev_layer T d

  abbrev stored : Layer
  stored = find_block T d.lba2pba

  -- The range with the bytes of the disk, or an error of one of the readers.
  unfoldable pub ReadsDisk : S × Outcome ReadError (RangeData × Option CachePosition) → Type 0
  ReadsDisk (s, ok (dest', at)) =
      Valid s
      × (at ≡ none)
      × ((c : List ℕ) × (dest'.extent ≡ dest.extent)
          × IsLoaded dest' c
          × ((q : ℕ)
              → contains dest.extent (q / 4096) ≡ true
              → byte_at dest.extent c q ≡ disk_byte dc dp ds cur prev stored q))
  ReadsDisk (s, err e) = Valid s × (((dc.may_fail e || dp.may_fail e) || ds.may_fail e) ≡ true)
  ReadsDisk (s, panic) = ⊥

  module _ (m : IsMap T d.lba2pba) (can : CanFetch Q ds (find_block T d.lba2pba) Valid)
      (unshadowed : Unshadowed cur prev stored dest.extent)
      (zeroed : (q : ℕ)
        → contains dest.extent (q / 4096) ≡ true
        → byte_at dest.extent b q ≡ some 0) where
    Reads-ReadsDisk :
        (holes : List Extent) (b1 : List ℕ)
        → ((x : ℕ)
            → any_contains holes x
              ≡ (contains dest.extent x && not (is_some (cur x) || is_some (prev x))))
        → ((q : ℕ)
            → contains dest.extent (q / 4096) ≡ true
            → byte_at dest.extent b1 q ≡ shown dc dp cur prev (byte_at dest.extent b q) q)
        → (x : S × Outcome ReadError (RangeData × Option CachePosition))
        → Reads Q ds stored Valid dest.extent b1 holes can x
        → ReadsDisk x
    unfolding Reads ReadsDisk
    Reads-ReadsDisk holes b1 u h (s, ok (dest', at)) (v, n, (c, e, l, r)) =
        (v, n, (c, e, l, λ q here. r q here ∙ layered q here))
      where
        layered :
            (q : ℕ)
            → contains dest.extent (q / 4096) ≡ true
            → expected ds stored dest.extent b1 holes q ≡ disk_byte dc dp ds cur prev stored q
        layered q here =
            rw (u (q / 4096), h q here, zeroed q here)
              (rw here (three _ _ _ (is_some (cur (q / 4096))) (is_some (prev (q / 4096)))))
          where
            three :
                {A : Type 0} (u v w : A) (c p : Bool)
                → (if not (c || p) then w else (if c then u else v))
                  ≡ (if c then u else (if p then v else w))
            three u v w true p = refl
            three u v w false true = refl
            three u v w false false = refl
    Reads-ReadsDisk holes b1 u h (s, err e) (v, f) = (v, rw f (ground arith))
    Reads-ReadsDisk holes b1 u h (s, panic) r = r

    -- For a range in memory that holds zeros, creators that can read what they have of it, readers of the
    -- segments that give the bytes of the stored extents, an extent map that is well formed, and no block of
    -- the range that a creator has and that the map has as empty, where the segments have more of the range
    -- than a single part that is not compressed, or nothing: `ReadExtentInto` fails only with an error of one
    -- of the readers, and leaves them able to read on. Otherwise the range holds the bytes of the disk: each
    -- block those of the current creator if that has it, else of the previous one, else of the segment that
    -- the map names, and zeros for what is empty or nowhere. Nothing is left to be read from a cache.
    pub read_extent_into-ReadsDisk :
        (s : S)
        → Valid s
        → IsLoaded dest b
        → CanServe R T dc d.cur_oc dest.extent
        → CanServe R T dp d.prev_cache dest.extent
        → Slow (dest.extent ∷ []) dest.extent (resolve T d.lba2pba dest.extent [])
        → ReadsDisk (read_extent_into Q R T s d dest)
    unfolding read_extent_into ReadsDisk
    read_extent_into-ReadsDisk s v l serve below slow =
        go (fill_from_write_cache R T d dest)
          (fill_from_write_cache-Shows R T dc dp d dest b l serve below)
      where
        go :
            (x : Outcome ReadError (RangeData × List Extent))
            → Shows dc dp cur prev dest b x
            → ReadsDisk (with_state (s, x) (λ s' filled. read_holes Q R T s' d filled.0 filled.1))
        go (ok (dest1, holes)) (b1, e, l1, p, u, h) =
            let cached : (x : ℕ)
                → contains dest.extent x ≡ true
                → any_contains holes x ≡ false
                → (is_some (cur x) || is_some (prev x)) ≡ true =
              λ x here outside. ground (arith, u x, here, outside) in
            let blank : (q : ℕ)
                → contains dest.extent (q / 4096) ≡ true
                → any_contains holes (q / 4096) ≡ true
                → byte_at dest.extent b1 q ≡ some 0 =
              λ q here hole.
                let no_cur : is_some (cur (q / 4096)) ≡ false =
                  ground (arith, u (q / 4096), here, hole) in
                let no_prev : is_some (prev (q / 4096)) ≡ false =
                  ground (arith, u (q / 4096), here, hole) in
                h q here
                ∙ shown_nowhere dc dp cur prev (byte_at dest.extent b q) q no_cur no_prev
                ∙ zeroed q here in
            Reads-ReadsDisk holes b1 u h _ (
              read_holes-Reads Q ds Valid T R d m can s dest1 dest.extent b1 holes v e l1 p
                (λ x k here outside at. unshadowed x k here (cached x here outside) at)
                (λ q here hole no_block. blank q here hole) slow)
        go (err e) f = (v, rw f refl)
        go panic f = f
