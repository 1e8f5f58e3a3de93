-- ===== src/ExtentMap/Resolving.antt =====
-- extent_map.go: `Resolve` against the entries and the block map.
use lsvd.Base.{
  ℕ, ◌≤◌, ◌<◌, ◌≡◌, ◌≢◌, All, refl, List, [], ◌∷◌, ◌++◌, ◌∙◌, sym, ap, arith, leb, if◌then◌else◌,
  inl, inr, ◌⊎◌, Bool-cases, true, false, none,
}
use lsvd.Extent.{Extent, contains, cover, disjoint}
use lsvd.Extent.Range.{IsRange, contains_lem}
use lsvd.Extent.Overlap.{cover_cases}
use lsvd.Location.{PartialExtent}
use lsvd.Compact.{CompactPe, live}
use lsvd.Compact.Live.{IsLive, live_lem, live-IsRange}
use lsvd.TreeMap.{TreeMap}
use lsvd.TreeMap.Entries.{
  AtLeast, from_floor, floor_or, from_lower_bound, from_lower_bound-append, from_floor_first,
  from_floor-AtLeast, from_floor-append,
}
use lsvd.ExtentMap.{ExtentMap, SegTable, to_pe}
use lsvd.ExtentMap.Resolve.{resolve_floor, resolve_lower, resolve}
use lsvd.ExtentMap.Carve.{end_of, Entries, hides, touching, touching_beyond}
use lsvd.ExtentMap.Blocks.{block_at, pe_at}
use lsvd.ExtentMap.Setting.{IsMap, find_block}
use lsvd.ExtentMap.Run.{Entries-Sorted}
use lsvd.ExtentMap.Apply.{Below-mono}
use lsvd.ExtentMap.Update.{Entries-from, Below-snoc}
use lsvd.ExtentMap.Locate.{Located, locate}
use mathlib.Core.List.{map, map-append, append-nil, append_assoc}

module _ (t : SegTable) (rng : Extent) (r : IsRange rng) where
  -- The second loop finds the entries from the beginning of the range on that touch it.
  resolve_lower_lem :
      (n : ℕ) (es : List (ℕ × CompactPe)) (ret : List PartialExtent)
      → rng.lba ≤ n
      → Entries n es
      → resolve_lower t rng es ret ≡ ret ++ map (to_pe t) (touching rng es)
  unfolding resolve_lower
  resolve_lower_lem n [] ret h w = simp append-nil
  resolve_lower_lem n ((k, c) ∷ es) ret h (l, e, o, w) =
      let ih =
        resolve_lower_lem (end_of (live c)) es (ret ++ to_pe t c ∷ []) (omega (arith, live_lem c l))
          w in
      let past = touching_beyond rng (end_of (live c)) es in
      elim (cover_cases (live c) rng (live-IsRange c l) r) [
        | inl (d, a) ↦
            let f : hides rng c ≡ false = ground (arith, r, live-IsRange c l) in
            rw (d, resolve_lower, f, past (ground (arith, r, live-IsRange c l)) w) (simp append-nil)
        | inr (inl (d, p, q)) ↦
            let f : hides rng c ≡ true = ground (arith, r) in
            rw (d, resolve_lower, f, past (omega arith) w) refl
        | inr (inr (inl (d, i, q))) ↦
            let f : hides rng c ≡ true = ground (arith, r) in
            rw (d, resolve_lower, f, past (omega arith) w) refl
        | inr (inr (inr (d, p, q, x))) ↦
            let f : hides rng c ≡ true = ground arith in
            rw (d, resolve_lower, f, ih) (simp append_assoc)
      ]

  resolve_floor_halts :
      (es : List (ℕ × CompactPe)) (ret : List PartialExtent)
      → AtLeast rng.lba es
      → resolve_floor t rng es ret ≡ ret
  unfolding resolve_floor
  resolve_floor_halts [] ret h = refl
  resolve_floor_halts ((k, c) ∷ es) ret h = ground arith

  -- The first finds the entry that begins before the range, if it touches it.
  abbrev front : CompactPe → List CompactPe
  front c = if hides rng c then c ∷ [] else []

  resolve_floor_lem :
      (k : ℕ) (c : CompactPe) (es : List (ℕ × CompactPe)) (ret : List PartialExtent)
      → IsLive c
      → k ≡ (live c).lba
      → k < rng.lba
      → AtLeast rng.lba es
      → resolve_floor t rng ((k, c) ∷ es) ret ≡ ret ++ map (to_pe t) (front c)
  unfolding resolve_floor
  resolve_floor_lem k c es ret l e b h =
      let low : leb rng.lba k ≡ false = ground arith in
      elim (cover_cases (live c) rng (live-IsRange c l) r) [
        | inl (d, a) ↦
            let f : hides rng c ≡ false = ground arith in
            rw (low, d, resolve_floor, f) (simp append-nil)
        | inr (inl (d, p, q)) ↦ absurd (omega arith)
        | inr (inr (inl (d, i, q))) ↦
            let f : hides rng c ≡ true = ground (arith, r) in rw (low, d, resolve_floor, f) refl
        | inr (inr (inr (d, p, q, x))) ↦
            let f : hides rng c ≡ true = ground arith in
            rw (low, d, resolve_floor, f) (resolve_floor_halts es (ret ++ to_pe t c ∷ []) h)
      ]

  -- Within the range they tell where each block lies.
  pub touching_at :
      (n : ℕ) (es : List (ℕ × CompactPe)) (x : ℕ)
      → Entries n es
      → (if contains rng x then pe_at (map (to_pe t) (touching rng es)) x else none)
        ≡ (if contains rng x then block_at t es x else none)
  unfolding to_pe
  touching_at n [] x w = refl
  touching_at n ((k, c) ∷ es) x (l, e, o, w) = elim (Bool-cases (hides rng c)) [
    | inl f ↦ rw f (ground (arith, touching_at (end_of (live c)) es x w))
    | inr f ↦ rw f (
        ground (
          arith,
          contains_lem (live c) x (live-IsRange c l),
          contains_lem rng x r,
          touching_at (end_of (live c)) es x w,
        ))
  ]

  -- Each of them shares a block with the range.
  touching-Touches :
      (n : ℕ) (es : List (ℕ × CompactPe))
      → Entries n es
      → All (λ p. cover p.live rng ≢ disjoint) (map (to_pe t) (touching rng es))
  unfolding to_pe
  touching-Touches n [] w = tt
  touching-Touches n ((k, c) ∷ es) (l, e, o, w) = elim (Bool-cases (hides rng c)) [
    | inl f ↦ rw f (
      ground (arith, cover_cases (live c) rng (live-IsRange c l) r),
      touching-Touches (end_of (live c)) es w,
    )
    | inr f ↦ rw f (touching-Touches (end_of (live c)) es w)
  ]

module _ (T : TreeMap CompactPe) (em : ExtentMap T.Map) (rng : Extent) (ret : List PartialExtent)
    (r : IsRange rng) where
  open T use {entries, floor, lower_bound, floor_lem, lower_bound_lem}

  abbrev FindsTouching : Type 0
  FindsTouching = resolve T em rng ret ≡ ret ++ map (to_pe em.table) (touching rng (entries em.m))

  without : Entries 0 (entries em.m) → AtLeast rng.lba (entries em.m) → FindsTouching
  unfolding resolve
  without w h =
      let from = Entries-from rng.lba 0 (entries em.m) h w in
      rw
        (
          floor_lem em.m rng.lba,
          resolve_floor_halts em.table rng r (from_floor rng.lba (entries em.m)) ret
              (from_floor-AtLeast rng.lba rng.lba (entries em.m) h),
          lower_bound_lem em.m rng.lba,
          from_lower_bound-append rng.lba [] (entries em.m) tt h,
        )
        (resolve_lower_lem em.table rng r rng.lba (entries em.m) ret (omega arith) from)

  module _ (d : Located rng 0 (entries em.m)) where
    open d use {pre, key, cur, post}

    floor_run_from :
        (fs : List (ℕ × CompactPe))
        → AtLeast rng.lba fs
        → (fs ≡ []) ⊎ (end_of (live cur) ≤ rng.lba)
        → resolve_floor em.table rng (floor_or ((key, cur) ∷ post) fs) ret
          ≡ ret ++ map (to_pe em.table) (front em.table rng r cur)
    floor_run_from [] h e =
        resolve_floor_lem em.table rng r key cur post ret d.is_live d.keyed d.low d.post_from
    floor_run_from (f ∷ fs) h (inl e) = cc
    floor_run_from (f ∷ fs) h (inr e) =
        let apart : hides rng cur ≡ false = ground arith in
        rw apart (resolve_floor_halts em.table rng r (f ∷ fs) ret h ∙ sym (append-nil ret))

    floor_run :
        resolve_floor em.table rng (floor em.m rng.lba) ret
        ≡ ret ++ map (to_pe em.table) (front em.table rng r cur)
    floor_run =
        let below = Below-mono key rng.lba pre (omega (arith, d.low)) d.pre_below in
        let found : floor em.m rng.lba ≡ floor_or ((key, cur) ∷ post) (from_floor rng.lba post) =
          floor_lem em.m rng.lba
          ∙ ap (from_floor rng.lba) d.split
          ∙ from_floor-append rng.lba key cur pre post below (omega (arith, d.low)) in
        rw found (
          floor_run_from (from_floor rng.lba post)
            (from_floor-AtLeast rng.lba rng.lba post d.post_from)
            (from_floor_first rng.lba (end_of (live cur)) post
              (Entries-Sorted (end_of (live cur)) post d.post_entries) d.post_from))

    found_behind : lower_bound em.m rng.lba ≡ post
    found_behind =
        lower_bound_lem em.m rng.lba
        ∙ ap (from_lower_bound rng.lba) (d.split ∙ sym (append_assoc pre ((key, cur) ∷ []) post))
        ∙ from_lower_bound-append rng.lba (pre ++ (key, cur) ∷ []) post
            (Below-snoc rng.lba key cur pre d.pre_below d.low) d.post_from

    inside : FindsTouching
    unfolding resolve
    inside =
        let from = Entries-from rng.lba (end_of (live cur)) post d.post_from d.post_entries in
        rw
          (
            floor_run,
            found_behind,
            resolve_lower_lem em.table rng r rng.lba post
                (ret ++ map (to_pe em.table) (front em.table rng r cur)) (omega arith) from,
            d.split,
            d.touching_pre ((key, cur) ∷ post),
            map-append (to_pe em.table) (front em.table rng r cur) (touching rng post),
          )
          (append_assoc ret _ _)

pub resolve-touching :
    (T : TreeMap CompactPe) (em : ExtentMap T.Map) (rng : Extent) (ret : List PartialExtent)
    → IsRange rng
    → Entries 0 (T.entries em.m)
    → resolve T em rng ret ≡ ret ++ map (to_pe em.table) (touching rng (T.entries em.m))
resolve-touching T em rng ret r w = elim (locate rng 0 (T.entries em.m) w) [
  | inl h ↦ without T em rng ret r w h
  | inr d ↦ inside T em rng ret r d
]

-- For a nonempty range that does not reach the end of the address space and a map in order, `resolve`
-- appends to its argument extents that each share a block with the range and that together give, for
-- each block of the range, its location if it has one.
pub resolve-Finds :
    (T : TreeMap CompactPe) (em : ExtentMap T.Map) (rng : Extent) (ret : List PartialExtent)
    → IsRange rng
    → IsMap T em
    → (found : List PartialExtent) × (resolve T em rng ret ≡ ret ++ found)
      × All (λ p. cover p.live rng ≢ disjoint) found
      × ((x : ℕ)
          → (if contains rng x then pe_at found x else none)
            ≡ (if contains rng x then find_block T em x else none))
resolve-Finds T em rng ret r w = (
  map (to_pe em.table) (touching rng (T.entries em.m)),
  resolve-touching T em rng ret r w.ordered,
  touching-Touches em.table rng r 0 (T.entries em.m) w.ordered,
  λ x. touching_at em.table rng r 0 (T.entries em.m) x w.ordered,
)
