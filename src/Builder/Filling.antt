-- ===== src/Builder/Filling.antt =====
-- segment.go: what `FillExtent` fills, by the bytes at each position of the disk.
use lsvd.Base.{
  ℕ, ◌*◌, ◌/◌, ◌≤◌, ◌<◌, ◌≡◌, ◌≢◌, refl, sym, ◌∙◌, List, [], ◌∷◌, ◌++◌, Option, some, none, arith,
  ltb, Bool, ◌==◌, if◌then◌else◌, length, Bool-cases, inl, inr, true, false, All,
}
use lsvd.Base.Outcome.{Outcome, ok, err, panic, ◌>>=◌}
use lsvd.Extent.{Extent, contains}
use lsvd.Extent.Range.{IsRange, contains_lem}
use lsvd.Extent.Overlap.{Inside, overlap, clamp-overlap}
use lsvd.Location.{ExtentHeader, ExtentLocation, PartialExtent}
use lsvd.ExtentMap.Carve.{end_of}
use lsvd.ExtentMap.Blocks.{pe_at}
use lsvd.ExtentMap.Parts.{IsPart, PartsFrom, Touches, pe_at-below}
use lsvd.RangeData.{RangeData, sub_view}
use lsvd.RangeData.Views.{IsLoaded, byte_at, part_of, sub_range_lem, map_range_data_lem}
use lsvd.RangeData.Copying.{copy_view_lem, after, moved, after-IsLoaded, byte_at-moved}
use lsvd.Builder.Fill.{ReadError, LogReader, load_logged, copy_logged, fill_loop}
use mathlib.Core.List.{map, append_assoc, append-nil}

-- What a layer has in store: the bytes of all blocks of a stored extent, and the errors of its readers.
pub record Decoded : Type 0 where
  pub bytes : ExtentLocation → List ℕ
  pub may_fail : ReadError → Bool

-- The byte of a stored extent at a position of the disk. An extent without bytes tells none.
abbrev pub stored_byte : Decoded → Option ExtentLocation → Option ℕ → ℕ → Option ℕ
stored_byte decoded none old p = old
stored_byte decoded (some l) old p =
    if l.header.size == 0 then old else byte_at l.header.extent (decoded.bytes l) p

-- A reader gives these bytes, or fails with one of these errors.
abbrev pub Yields : Decoded → ExtentLocation → Outcome ReadError (List ℕ) → Type 0
Yields decoded l (ok b) = (b ≡ decoded.bytes l) × (length b ≡ l.header.extent.blocks * 4096)
Yields decoded l (err e) = decoded.may_fail e ≡ true
Yields decoded l panic = ⊥

pub overlap-IsRange :
    (y : Extent) (p : PartialExtent)
    → IsRange y
    → IsPart p
    → Touches y p
    → IsRange (overlap y p.live)
      × Inside (overlap y p.live) y
      × Inside (overlap y p.live) p.location.header.extent
overlap-IsRange y p r i t = omega (arith, r, i.range, i.inside, t)

pub sub_view-overlap :
    (dest : RangeData) (b : List ℕ) (y : Extent) (p : PartialExtent)
    → IsLoaded dest b
    → IsRange y
    → Inside y dest.extent
    → IsPart p
    → Touches y p
    → sub_view (part_of dest.extent y) p.live ≡ some (part_of dest.extent (overlap y p.live))
unfolding sub_view
sub_view-overlap dest b y p l r j i t =
    let some_blocks : ltb 0 (overlap y p.live).blocks ≡ true = ground (arith, t, r, i.range) in
    rw (clamp-overlap y p.live r i.range, some_blocks, sub_view)
      (ground (arith, l.few, l.range, r, j, i.range, t))

-- A stored extent in memory.
abbrev pub source : ExtentHeader → List ℕ → RangeData
source eh c = record { extent = eh.extent; bytes = some c; dirty = true }

pub source-IsLoaded :
    (p : PartialExtent) (c : List ℕ)
    → IsPart p
    → length c ≡ p.location.header.extent.blocks * 4096
    → IsLoaded (source p.location.header c) c
source-IsLoaded p c i size = record {
  loaded = refl;
  whole = size;
  range = omega (arith, i.range, i.inside, i.few, i.low);
  few = omega (arith, i.few);
}

module _ (dest : RangeData) (b c : List ℕ) (y : Extent) (p : PartialExtent) (l : IsLoaded dest b)
    (s : IsRange y) (i : Inside y dest.extent) (j : IsPart p) (t : Touches y p)
    (size : length c ≡ p.location.header.extent.blocks * 4096) where
  -- The destination with the part copied to it.
  abbrev pub copied : RangeData
  copied =
      let o = overlap-IsRange y p s j t in
      after dest (source p.location.header c) b c (overlap y p.live) l (source-IsLoaded p c j size)
        o.0 (omega (arith, o, i)) o.2

  abbrev pub copied_bytes : List ℕ
  copied_bytes =
      let o = overlap-IsRange y p s j t in
      moved dest (source p.location.header c) b c (overlap y p.live) l (source-IsLoaded p c j size)
        o.0 (omega (arith, o, i)) o.2

  pub copied-IsLoaded : IsLoaded copied copied_bytes
  copied-IsLoaded =
      let o = overlap-IsRange y p s j t in
      after-IsLoaded dest (source p.location.header c) b c (overlap y p.live) l
        (source-IsLoaded p c j size) o.0 (omega (arith, o, i)) o.2

  pub copy_logged_lem :
      copy_logged p.location.header c dest (part_of dest.extent (overlap y p.live))
      ≡ ok (copied, (overlap y p.live).blocks * 4096)
  unfolding copy_logged
  copy_logged_lem =
      let o = overlap-IsRange y p s j t in
      let src = source p.location.header c in
      let m = source-IsLoaded p c j size in
      rw
        (
          map_range_data_lem {E = ReadError} p.location.header.extent c size
              (omega (arith, m.range)) (omega (arith, j.few)) (omega (arith, j.low, j.few)),
          sub_range_lem src c (overlap y p.live) m o.0 o.2,
        )
        (copy_view_lem dest src b c (overlap y p.live) l m o.0 (omega (arith, o, i)) o.2
          {E = ReadError})

  -- Its bytes where the part and the range share a block, its own elsewhere.
  pub byte_at-copied :
      (q : ℕ)
      → byte_at dest.extent copied_bytes q ≡ (
          if contains y (q / 4096)
          then (if contains p.live (q / 4096)
              then byte_at p.location.header.extent c q
              else byte_at dest.extent b q)
          else byte_at dest.extent b q)
  byte_at-copied q =
      let o = overlap-IsRange y p s j t in
      byte_at-moved dest (source p.location.header c) b c (overlap y p.live) l
        (source-IsLoaded p c j size) o.0 (omega (arith, o, i)) o.2 q
      ∙ ground (
        arith,
        contains_lem (overlap y p.live) (q / 4096) o.0,
        contains_lem y (q / 4096) s,
        contains_lem p.live (q / 4096) j.range,
      )

-- What filling the part `y` of a range makes of it: the parts that were found are filled, each shared
-- block with the stored bytes.
abbrev pub Fills :
    Decoded
    → RangeData
    → List ℕ
    → Extent
    → List Extent
    → List PartialExtent
    → Outcome ReadError (RangeData × List Extent)
    → Type 0
Fills decoded dest b y ret ps (ok (dest', used)) =
    (b' : List ℕ) × (dest'.extent ≡ dest.extent)
    × IsLoaded dest' b'
    × (used ≡ ret ++ map (λ p. overlap y p.live) ps)
    × ((q : ℕ)
        → byte_at dest.extent b' q ≡ (
            if contains y (q / 4096)
            then stored_byte decoded (pe_at ps (q / 4096)) (byte_at dest.extent b q) q
            else byte_at dest.extent b q))
Fills decoded dest b y ret ps (err e) = decoded.may_fail e ≡ true
Fills decoded dest b y ret ps panic = ⊥

Fills-cons :
    (decoded : Decoded) (dest dest1 : RangeData) (b b1 : List ℕ) (y : Extent) (p : PartialExtent)
    (ps : List PartialExtent) (ret : List Extent) (n : ℕ)
    → IsRange y
    → IsPart p
    → PartsFrom (end_of p.live) ps
    → n ≤ p.live.lba
    → dest1.extent ≡ dest.extent
    → ((q : ℕ)
        → byte_at dest.extent b1 q ≡ (
            if contains y (q / 4096)
            then (if contains p.live (q / 4096)
                then stored_byte decoded (some p.location) (byte_at dest.extent b q) q
                else byte_at dest.extent b q)
            else byte_at dest.extent b q))
    → (x : Outcome ReadError (RangeData × List Extent))
    → Fills decoded dest1 b1 y (ret ++ overlap y p.live ∷ []) ps x
    → Fills decoded dest b y ret (p ∷ ps) x
Fills-cons decoded dest dest1 b b1 y p ps ret n s j c o same first (err e) h = h
Fills-cons decoded dest dest1 b b1 y p ps ret n s j c o same first panic h = h
Fills-cons decoded dest dest1 b b1 y p ps ret n s j c o same first (ok (dest', used))
      (b', e, l', u, h) =
    (
      b',
      e ∙ same,
      l',
      u ∙ append_assoc ret (overlap y p.live ∷ []) (map (λ p. overlap y p.live) ps),
      λ q.
          rw same at (h q)
          ∙ rw (first q) (elim (Bool-cases (contains y (q / 4096))) [
            | inl in_y ↦ elim (Bool-cases (contains p.live (q / 4096))) [
              | inl here ↦
                  let below : q / 4096 < end_of p.live =
                    ground (arith, here, contains_lem p.live (q / 4096) j.range) in
                  rw (in_y, here, pe_at-below (end_of p.live) ps (q / 4096) c below) refl
              | inr away ↦ rw (in_y, away) refl
            ]
            | inr out ↦ rw out refl
          ]),
    )

module _ {W : Type 0} (R : LogReader W) (w : W) (decoded : Decoded) (y : Extent)
    (s : IsRange y) where
  -- Each part that has bytes can be read.
  abbrev pub AllYield : List PartialExtent → Type 0
  AllYield = All (λ p.
      p.location.header.size ≢ 0 → Yields decoded p.location (load_logged R w p.location.header))

  pub fill_loop-Fills :
      (ps : List PartialExtent) (n : ℕ) (dest : RangeData) (b : List ℕ) (ret : List Extent)
      → IsLoaded dest b
      → Inside y dest.extent
      → PartsFrom n ps
      → All (Touches y) ps
      → AllYield ps
      → Fills decoded dest b y ret ps (fill_loop R w dest (part_of dest.extent y) ps ret)
  unfolding fill_loop
  fill_loop-Fills [] n dest b ret l i c t a = (b, refl, l, sym (append-nil ret), λ q. ground arith)
  fill_loop-Fills (p ∷ ps) n dest b ret l i (j, o, c) (t, ts) (a, more) =
      rw (sub_view-overlap dest b y p l s i j t, fill_loop)
        (elim (Bool-cases (p.location.header.size == 0)) [
          | inl nothing ↦ rw nothing (
              Fills-cons decoded dest dest b b y p ps ret n s j c o refl
                (λ q. rw nothing (ground arith)) _
                (fill_loop-Fills ps (end_of p.live) dest b (ret ++ overlap y p.live ∷ []) l i c ts
                  more))
          | inr some_bytes ↦ rw some_bytes (
              loaded
                (λ dest1 b1 l1 i1.
                  fill_loop-Fills ps (end_of p.live) dest1 b1 (ret ++ overlap y p.live ∷ []) l1 i1 c
                    ts more)
                (ground (arith, some_bytes)) (load_logged R w p.location.header)
                (a (ground (arith, some_bytes))))
        ])
    where
      loaded :
          ((dest1 : RangeData) (b1 : List ℕ)
            → IsLoaded dest1 b1
            → Inside y dest1.extent
            → Fills decoded dest1 b1 y
                (ret ++ overlap y p.live ∷ [])
                ps
                (fill_loop R w dest1 (part_of dest1.extent y) ps (ret ++ overlap y p.live ∷ [])))
          → (p.location.header.size == 0) ≡ false
          → (x : Outcome ReadError (List ℕ)) → Yields decoded p.location x
          → Fills decoded dest b y ret (p ∷ ps) (
              x >>= λ bytes.
              copy_logged p.location.header bytes dest (part_of dest.extent (overlap y p.live))
              >>= λ copied.
                  fill_loop R w copied.0 (part_of dest.extent y) ps (ret ++ overlap y p.live ∷ []))
      loaded ih full (err e) h = h
      loaded ih full panic h = h
      loaded ih full (ok bytes) (e, size) = rw (copy_logged_lem dest b bytes y p l s i j t size) (
          Fills-cons decoded dest (copied dest b bytes y p l s i j t size) b
            (copied_bytes dest b bytes y p l s i j t size) y p ps ret n s j c o refl
            (λ q. byte_at-copied dest b bytes y p l s i j t size q ∙ rw (full, e) refl) _
            (ih (copied dest b bytes y p l s i j t size)
              (copied_bytes dest b bytes y p l s i j t size)
              (copied-IsLoaded dest b bytes y p l s i j t size) i))
