-- ===== src/ExtentMap/Blocks.antt =====
-- extent_map.go: the map as a function from blocks to the location of their data.
use lsvd.Base.{
  ℕ, ◌≤◌, ◌≡◌, refl, List, [], ◌∷◌, ◌++◌, sym, arith, ltb, leb, ◌==◌, if◌then◌else◌, inl, inr,
  Bool-cases, true, false, Option, some, none, ◌&&◌, All,
}
use lsvd.Extent.{Extent, contains}
use lsvd.Extent.Range.{IsRange, contains_lem}
use lsvd.Extent.Overlap.{overlap}
use lsvd.Location.{ExtentLocation, PartialExtent}
use lsvd.Compact.{CompactPe, live, phys_extent, phys_lba, phys_blocks}
use lsvd.Compact.Live.{IsLive, live-IsRange, with_live, live-with_live}
use lsvd.TreeMap.Entries.{insert}
use lsvd.ExtentMap.{SegTable, location_of, to_pe}
use lsvd.ExtentMap.Carve.{
  end_of, Entries, hides, left_of, right_of, lefts, rights, carve, hidden, overlap-Fits,
  left_of-Fits, right_of-Fits,
}
use mathlib.Core.List.{map, append_assoc}

-- Where the data of a block lies, by the entries of the map.
abbrev pub block_at : SegTable → List (ℕ × CompactPe) → ℕ → Option ExtentLocation
block_at t [] x = none
block_at t ((k, c) ∷ es) x = if contains (live c) x then some (location_of t c) else block_at t es x

-- The same by the live ranges of partial extents.
abbrev pub pe_at : List PartialExtent → ℕ → Option ExtentLocation
pe_at [] x = none
pe_at (p ∷ ps) x = if contains p.live x then some p.location else pe_at ps x

pub location_of-with_live :
    (t : SegTable) (c : CompactPe) (e : Extent) → location_of t (with_live c e) ≡ location_of t c
unfolding location_of phys_extent phys_lba phys_blocks
location_of-with_live t c e = refl

module _ (t : SegTable) (rng : Extent) (r : IsRange rng) (k : ℕ) (c : CompactPe) (l : IsLive c)
    (x : ℕ) where
  abbrev pieces : List (ℕ × CompactPe)
  pieces = lefts rng k c ++ rights rng c

  lefts_at :
      (es : List (ℕ × CompactPe))
      → hides rng c ≡ true
      → block_at t (lefts rng k c ++ es) x
        ≡ (if contains (live c) x && ltb x rng.lba then some (location_of t c) else block_at t es x)
  lefts_at es f = elim (Bool-cases (ltb (live c).lba rng.lba)) [
    | inl g ↦
        rw
          (
            g,
            live-with_live c (left_of rng (live c)) (left_of-Fits c rng l f (ground arith)),
            location_of-with_live t c (left_of rng (live c)),
          )
          (ground (
            arith,
            contains_lem (live c) x (live-IsRange c l),
            contains_lem (left_of rng (live c)) x,
            live-IsRange c l,
          ))
    | inr g ↦ rw g (ground (arith, contains_lem (live c) x (live-IsRange c l)))
  ]

  rights_at :
      (es : List (ℕ × CompactPe))
      → hides rng c ≡ true
      → block_at t (rights rng c ++ es) x ≡ (
          if contains (live c) x && leb (end_of rng) x
          then some (location_of t c)
          else block_at t es x)
  rights_at es f = elim (Bool-cases (ltb (end_of rng) (end_of (live c)))) [
    | inl g ↦
        rw
          (
            g,
            live-with_live c (right_of rng (live c)) (right_of-Fits c rng l f (ground arith)),
            location_of-with_live t c (right_of rng (live c)),
          )
          (ground (
            arith,
            contains_lem (live c) x (live-IsRange c l),
            contains_lem (right_of rng (live c)) x,
            live-IsRange c l,
          ))
    | inr g ↦ rw g (ground (arith, contains_lem (live c) x (live-IsRange c l)))
  ]

-- The blocks of the range are gone; the others are where they were.
pub block_at-carve :
    (t : SegTable) (rng : Extent) (n : ℕ) (es : List (ℕ × CompactPe)) (x : ℕ)
    → IsRange rng
    → Entries n es
    → block_at t (carve rng es) x ≡ (if contains rng x then none else block_at t es x)
block_at-carve t rng n [] x r w = ground arith
block_at-carve t rng n ((k, c) ∷ es) x r (l, e, o, w) = elim (Bool-cases (hides rng c)) [
  | inl f ↦
      rw
        (
          f,
          append_assoc (lefts rng k c) (rights rng c) (carve rng es),
          lefts_at t rng r k c l x (rights rng c ++ carve rng es) f,
          rights_at t rng r k c l x (carve rng es) f,
        )
        (ground (
          arith,
          contains_lem (live c) x (live-IsRange c l),
          contains_lem rng x r,
          block_at-carve t rng (end_of (live c)) es x r w,
        ))
  | inr f ↦ rw f (
      ground (
        arith,
        contains_lem (live c) x (live-IsRange c l),
        contains_lem rng x r,
        block_at-carve t rng (end_of (live c)) es x r w,
      ))
]

-- What `update` reports as affected is what the range hides: at each of its blocks the location that
-- the block had, and nothing else.
pub pe_at-hidden :
    (t : SegTable) (rng : Extent) (n : ℕ) (es : List (ℕ × CompactPe)) (x : ℕ)
    → IsRange rng
    → Entries n es
    → pe_at (map (to_pe t) (hidden rng es)) x ≡ (if contains rng x then block_at t es x else none)
unfolding to_pe
pe_at-hidden t rng n [] x r w = ground arith
pe_at-hidden t rng n ((k, c) ∷ es) x r (l, e, o, w) = elim (Bool-cases (hides rng c)) [
  | inl f ↦
      let part = overlap (live c) rng in
      rw (f, live-with_live c part (overlap-Fits c rng l f r), location_of-with_live t c part)
        (ground (
          arith,
          contains_lem (live c) x (live-IsRange c l),
          contains_lem rng x r,
          contains_lem part x,
          live-IsRange c l,
          pe_at-hidden t rng (end_of (live c)) es x r w,
        ))
  | inr f ↦ rw f (
      ground (
        arith,
        contains_lem (live c) x (live-IsRange c l),
        contains_lem rng x r,
        pe_at-hidden t rng (end_of (live c)) es x r w,
      ))
]

-- No entry reaches into the range.
abbrev pub Clear : Extent → List (ℕ × CompactPe) → Type 0
Clear rng = All (λ e. hides rng e.1 ≡ false)

pub block_at-insert :
    (t : SegTable) (c : CompactPe) (n : ℕ) (es : List (ℕ × CompactPe)) (x : ℕ)
    → IsLive c
    → Entries n es
    → Clear (live c) es
    → block_at t (insert (live c).lba c es) x
      ≡ (if contains (live c) x then some (location_of t c) else block_at t es x)
unfolding insert
block_at-insert t c n [] x lc w h = refl
block_at-insert t c n ((k, d) ∷ es) x lc (l, e, o, w) (h, hs) = ground (
  arith,
  contains_lem (live c) x (live-IsRange c lc),
  contains_lem (live d) x (live-IsRange d l),
  live-IsRange c lc,
  live-IsRange d l,
  block_at-insert t c (end_of (live d)) es x lc w hs,
)

pub insert-Entries :
    (c : CompactPe) (n : ℕ) (es : List (ℕ × CompactPe))
    → IsLive c
    → n ≤ (live c).lba
    → Entries n es
    → Clear (live c) es
    → Entries n (insert (live c).lba c es)
unfolding insert
insert-Entries c n [] lc b w h = (lc, refl, b, tt)
insert-Entries c n ((k, d) ∷ es) lc b (l, e, o, w) (h, hs) =
    elim (Bool-cases (ltb k (live c).lba)) [
      | inl g ↦ rw g (
        l,
        e,
        o,
        insert-Entries c (end_of (live d)) es lc (ground (arith, live-IsRange c lc)) w hs,
      )
      | inr g ↦
          let f : (k == (live c).lba) ≡ false =
            ground (arith, live-IsRange c lc, live-IsRange d l) in
          rw (g, f) (lc, refl, b, (l, e, ground (arith, live-IsRange c lc, live-IsRange d l), w))
    ]

-- The same for an entry whose live range is known.
module _ (c : CompactPe) (rng : Extent) (n : ℕ) (es : List (ℕ × CompactPe)) (e : live c ≡ rng)
    (l : IsLive c) where
  pub block_at-insert_at :
      (t : SegTable) (x : ℕ)
      → Entries n es
      → Clear rng es
      → block_at t (insert rng.lba c es) x
        ≡ (if contains rng x then some (location_of t c) else block_at t es x)
  block_at-insert_at t x w h = rw (sym e) (block_at-insert t c n es x l w (rw (sym e) at h))

  pub insert_at-Entries :
      n ≤ rng.lba → Entries n es → Clear rng es → Entries n (insert rng.lba c es)
  insert_at-Entries b w h =
      rw (sym e) (insert-Entries c n es l (rw (sym e) at b) w (rw (sym e) at h))
