-- ===== src/ExtentMap/Parts.antt =====
-- extent_map.go: the partial extents that `Resolve` finds, in the order of the disk.
use lsvd.Base.{
  ℕ, ◌^◌, ◌≤◌, ◌<◌, ◌≡◌, refl, List, [], ◌∷◌, arith, Bool-cases, inl, inr, true, false, none, some,
  All, if◌then◌else◌,
}
use lsvd.Extent.{Extent, contains}
use lsvd.Extent.Range.{IsRange, contains_lem}
use lsvd.Extent.Overlap.{Inside}
use lsvd.Location.{PartialExtent}
use lsvd.Compact.{CompactPe, live, phys_extent}
use lsvd.Compact.Live.{IsLive, live_lem, live-IsRange, phys-lt}
use lsvd.TreeMap.{TreeMap}
use lsvd.ExtentMap.{ExtentMap, SegTable, to_pe, location_of}
use lsvd.ExtentMap.Resolve.{resolve}
use lsvd.ExtentMap.Carve.{end_of, Entries, hides, touching}
use lsvd.ExtentMap.Blocks.{pe_at, block_at}
use lsvd.ExtentMap.Setting.{IsMap, find_block}
use lsvd.ExtentMap.Resolving.{resolve-touching, touching_at}
use mathlib.Core.List.{map}

-- A part of a stored extent, of at least a block.
pub record IsPart (p : PartialExtent) : Type 0 where
  pub range : IsRange p.live
  pub inside : Inside p.live p.location.header.extent
  pub few : p.location.header.extent.blocks < 2 ^ 16
  pub low : p.location.header.extent.lba < 2 ^ 32

-- Parts from block `n` on, none before the end of another.
abbrev pub PartsFrom : ℕ → List PartialExtent → Type 0
PartsFrom n [] = Unit {0}
PartsFrom n (p ∷ ps) = IsPart p × (n ≤ p.live.lba) × PartsFrom (end_of p.live) ps

abbrev pub Touches : Extent → PartialExtent → Type 0
Touches rng p = (p.live.lba < end_of rng) × (rng.lba < end_of p.live)

pub PartsFrom-mono : (n m : ℕ) (ps : List PartialExtent) → n ≤ m → PartsFrom m ps → PartsFrom n ps
PartsFrom-mono n m [] h w = tt
PartsFrom-mono n m (p ∷ ps) h (i, o, w) = (i, omega arith, w)

to_pe-IsPart : (t : SegTable) (c : CompactPe) → IsLive c → IsPart (to_pe t c)
unfolding to_pe location_of phys_extent
to_pe-IsPart t c l = record {
  range = live-IsRange c l;
  inside = omega (arith, live_lem c l, l.front, l.rest);
  few = omega (arith, phys-lt c);
  low = omega (arith, phys-lt c);
}

touching-PartsFrom :
    (t : SegTable) (rng : Extent) (n : ℕ) (es : List (ℕ × CompactPe))
    → Entries n es
    → PartsFrom n (map (to_pe t) (touching rng es))
      × All (Touches rng) (map (to_pe t) (touching rng es))
unfolding to_pe
touching-PartsFrom t rng n [] w = (tt, tt)
touching-PartsFrom t rng n ((k, c) ∷ es) (l, e, o, w) =
    let (ps, ts) = touching-PartsFrom t rng (end_of (live c)) es w in
    elim (Bool-cases (hides rng c)) [
      | inl f ↦ rw f ((to_pe-IsPart t c l, omega arith, ps), (ground (arith, f), ts))
      | inr f ↦ rw f (
        PartsFrom-mono n (end_of (live c)) (map (to_pe t) (touching rng es))
            (omega (arith, live-IsRange c l)) ps,
        ts,
      )
    ]

pub pe_at-below :
    (n : ℕ) (ps : List PartialExtent) (x : ℕ) → PartsFrom n ps → x < n → pe_at ps x ≡ none
pe_at-below n [] x w h = refl
pe_at-below n (p ∷ ps) x (i, o, w) h = ground (
  arith,
  contains_lem p.live x i.range,
  pe_at-below (end_of p.live) ps x w (omega (arith, i.range)),
  i.range,
)

touching-Stored :
    (t : SegTable) (rng : Extent) (n : ℕ) (es : List (ℕ × CompactPe))
    → Entries n es
    → All
        (λ p. (x : ℕ) → contains p.live x ≡ true → (n ≤ x) × (block_at t es x ≡ some p.location))
        (map (to_pe t) (touching rng es))
unfolding to_pe
touching-Stored t rng n [] w = tt
touching-Stored t rng n ((k, c) ∷ es) (l, e, o, w) =
    let rest =
      weaken (map (to_pe t) (touching rng es)) (touching-Stored t rng (end_of (live c)) es w) in
    elim (Bool-cases (hides rng c)) [
      | inl f ↦ rw f (
        (λ x here.
            (ground (arith, here, contains_lem (live c) x (live-IsRange c l)), rw here refl)),
        rest,
      )
      | inr f ↦ rw f rest
    ]
  where
    weaken :
        (ps : List PartialExtent)
        → All
            (λ p.
              (x : ℕ)
              → contains p.live x ≡ true
              → (end_of (live c) ≤ x) × (block_at t es x ≡ some p.location))
            ps
        → All
            (λ p.
              (x : ℕ)
              → contains p.live x ≡ true
              → (n ≤ x) × (block_at t ((k, c) ∷ es) x ≡ some p.location))
            ps
    weaken [] a = tt
    weaken (p ∷ ps) (h, a) = (
      λ x here.
          let (far, at) = h x here in
          let away : contains (live c) x ≡ false =
            ground (arith, far, contains_lem (live c) x (live-IsRange c l)) in
          (omega (arith, o, far, live-IsRange c l), rw away at),
      weaken ps a,
    )

-- What `resolve` finds for a range: parts in order that touch it, and tell where each block lies.
pub record Found (T : TreeMap CompactPe) (em : ExtentMap T.Map) (rng : Extent)
    (ps : List PartialExtent) : Type 0 where
  pub resolved : resolve T em rng [] ≡ ps
  pub parts : PartsFrom 0 ps
  pub touches : All (Touches rng) ps
  pub stored :
      All (λ p. (x : ℕ) → contains p.live x ≡ true → find_block T em x ≡ some p.location) ps
  pub at :
      (x : ℕ)
      → (if contains rng x then pe_at ps x else none)
        ≡ (if contains rng x then find_block T em x else none)

pub resolve-Found :
    (T : TreeMap CompactPe) (em : ExtentMap T.Map) (rng : Extent)
    → IsRange rng
    → IsMap T em
    → Found T em rng (map (to_pe em.table) (touching rng (T.entries em.m)))
resolve-Found T em rng r w =
    let (ps, ts) = touching-PartsFrom em.table rng 0 (T.entries em.m) w.ordered in
    record {
      resolved = resolve-touching T em rng [] r w.ordered;
      parts = ps;
      touches = ts;
      stored =
          in_map (map (to_pe em.table) (touching rng (T.entries em.m)))
            (touching-Stored em.table rng 0 (T.entries em.m) w.ordered);
      at = λ x. touching_at em.table rng r 0 (T.entries em.m) x w.ordered;
    }
  where
    in_map :
        (ps : List PartialExtent)
        → All
            (λ p.
              (x : ℕ) → contains p.live x ≡ true → (0 ≤ x) × (find_block T em x ≡ some p.location))
            ps
        → All (λ p. (x : ℕ) → contains p.live x ≡ true → find_block T em x ≡ some p.location) ps
    in_map [] a = tt
    in_map (p ∷ ps) (h, a) = ((λ x here. (h x here).1), in_map ps a)
