-- ===== src/ExtentMap/Update.antt =====
-- extent_map.go, `update`: the two loops and what follows them cut the new range out of the entries.
use lsvd.Base.{
  All-append, ℕ, ◌≤◌, ◌<◌, ◌≡◌, refl, List, [], ◌∷◌, ◌++◌, ◌∙◌, sym, ap, arith, ltb, inl, inr, ◌⊎◌,
  Bool-cases, true, false,
}
use lsvd.Base.Outcome.{ok}
use lsvd.Extent.{Extent}
use lsvd.Extent.Range.{IsRange}
use lsvd.Location.{PartialExtent}
use lsvd.Compact.{CompactPe, live}
use lsvd.Compact.Live.{with_live}
use lsvd.TreeMap.{TreeMap}
use lsvd.TreeMap.Entries.{
  AtLeast, Below, from_floor, floor_or, replace, from_floor_first, from_floor-AtLeast,
  from_floor-append, replace-append, replace_head,
}
use lsvd.ExtentMap.{ExtentMap, Scratch, floor_loop, after_round}
use lsvd.ExtentMap.Carve.{end_of, Entries, hides, left_of, right_of, live_lba-right, carve, hidden}
use lsvd.ExtentMap.Lower.{lower_result}
use lsvd.ExtentMap.Floor.{floor_loop_halts, floor_loop_lem, floor_result}
use lsvd.ExtentMap.Apply.{Below-mono}
use lsvd.ExtentMap.Run.{Entries-Sorted, Cuts, applied, lower_run, applied_plain, applied_split}
use lsvd.ExtentMap.Locate.{Located, locate}
use mathlib.Core.List.{append_assoc}

pub Entries-from :
    (a n : ℕ) (es : List (ℕ × CompactPe)) → AtLeast a es → Entries n es → Entries a es
Entries-from a n [] h w = tt
Entries-from a n ((k, c) ∷ es) h (l, e, o, w) = (l, e, h.0, w)

pub Below-snoc :
    (a k : ℕ) (c : CompactPe) (es : List (ℕ × CompactPe))
    → Below k es
    → k < a
    → Below a (es ++ (k, c) ∷ [])
Below-snoc a k c es b h =
    All-append (λ e. e.0 < a) es ((k, c) ∷ []) (Below-mono k a es (omega arith) b) (h, tt)

module _ (T : TreeMap CompactPe) (em : ExtentMap T.Map) (rng : Extent) (aff : List PartialExtent)
    (r : IsRange rng) where
  open T use {Map, entries, write, floor, entries-write, floor_lem}

  abbrev start : Scratch Map
  start = record { map = em.m; to_delete = []; to_add = []; affected = aff }

  Cuts-without : Entries 0 (entries em.m) → AtLeast rng.lba (entries em.m) → Cuts T em rng aff
  Cuts-without w h =
      let from = Entries-from rng.lba 0 (entries em.m) h w in
      (
        start,
        lower_result T em.table rng r (entries em.m) start,
        rw (floor_lem em.m rng.lba) (
            floor_loop_halts T em.table rng (from_floor rng.lba (entries em.m)) start
              (from_floor-AtLeast rng.lba rng.lba (entries em.m) h)),
        lower_run T em.table rng r rng.lba [] (entries em.m) tt (omega arith) from start refl,
        applied_plain T em.table rng r rng.lba [] (entries em.m) tt (omega arith) from start refl
            refl refl,
        refl,
      )

  module _ (d : Located rng 0 (entries em.m)) where
    open d use {pre, key, cur, post}

    abbrev first : Scratch Map
    first = floor_result T em.table rng key cur start

    floor_run_from :
        (fs : List (ℕ × CompactPe))
        → AtLeast rng.lba fs
        → (fs ≡ []) ⊎ (end_of (live cur) ≤ rng.lba)
        → floor_loop T em.table rng (floor_or ((key, cur) ∷ post) fs) start ≡ ok first
    floor_run_from [] h e =
        floor_loop_lem T em.table rng key cur post start r d.is_live d.keyed d.low d.post_from
    floor_run_from (f ∷ fs) h (inl e) = cc
    floor_run_from (f ∷ fs) h (inr e) =
        let apart : hides rng cur ≡ false = ground arith in
        rw apart (floor_loop_halts T em.table rng (f ∷ fs) start h)

    floor_run : floor_loop T em.table rng (floor em.m rng.lba) start ≡ ok first
    floor_run =
        let below = Below-mono key rng.lba pre (omega (arith, d.low)) d.pre_below in
        let found : floor em.m rng.lba ≡ floor_or ((key, cur) ∷ post) (from_floor rng.lba post) =
          floor_lem em.m rng.lba
          ∙ ap (from_floor rng.lba) d.split
          ∙ from_floor-append rng.lba key cur pre post below (omega (arith, d.low)) in
        rw found (
          floor_run_from (from_floor rng.lba post)
            (from_floor-AtLeast rng.lba rng.lba post d.post_from)
            (from_floor_first rng.lba (end_of (live cur)) post
              (Entries-Sorted (end_of (live cur)) post d.post_entries) d.post_from))

    abbrev lows : CompactPe → List (ℕ × CompactPe)
    lows c = pre ++ (key, c) ∷ []

    lows-Below : (c : CompactPe) → Below rng.lba (lows c)
    lows-Below c = Below-snoc rng.lba key c pre d.pre_below d.low

    regroup : (c : CompactPe) (es : List (ℕ × CompactPe)) → pre ++ (key, c) ∷ es ≡ lows c ++ es
    regroup c es = sym (append_assoc pre ((key, c) ∷ []) es)

    carve_split : carve rng (entries em.m) ≡ pre ++ carve rng ((key, cur) ∷ post)
    carve_split = ap (carve rng) d.split ∙ d.carve_pre ((key, cur) ∷ post)

    hidden_split : hidden rng (entries em.m) ≡ hidden rng ((key, cur) ∷ post)
    hidden_split = ap (hidden rng) d.split ∙ d.hidden_pre ((key, cur) ∷ post)

    -- The range begins behind the last block of `cur`,
    Cuts-clear : hides rng cur ≡ false → Cuts T em rng aff
    Cuts-clear f =
        let from = Entries-from rng.lba (end_of (live cur)) post d.post_from d.post_entries in
        let same : first ≡ start = rw f refl in
        let here : entries em.m ≡ lows cur ++ post = d.split ∙ regroup cur post in
        let low = lows-Below cur in
        let at : rng.lba ≤ rng.lba = omega arith in
        (
          start,
          lower_result T em.table rng r post start,
          floor_run ∙ ap ok same,
          lower_run T em.table rng r rng.lba (lows cur) post low at from start here,
          applied_plain T em.table rng r rng.lba (lows cur) post low at from start here refl refl
              ∙ rw (carve_split, f) (sym (regroup cur (carve rng post))),
          rw (hidden_split, f) refl,
        )

    abbrev kept : CompactPe
    kept = with_live cur (left_of rng (live cur))

    entries-first : hides rng cur ≡ true → entries first.map ≡ lows kept ++ post
    unfolding after_round
    entries-first f = rw f (
        entries-write em.m key kept
        ∙ ap (replace key kept) d.split
        ∙ replace-append key kept pre ((key, cur) ∷ post) d.pre_below
        ∙ ap (◌++◌ pre) (replace_head key kept cur post)
        ∙ regroup kept post)

    -- or inside it.
    Cuts-inside : hides rng cur ≡ true → Cuts T em rng aff
    unfolding after_round
    Cuts-inside f = (
      first,
      lower_result T em.table rng r post first,
      floor_run,
      lower_run T em.table rng r rng.lba (lows kept) post low at from first here,
      carved (Bool-cases (ltb (end_of rng) (end_of (live cur)))),
      rw (hidden_split, f) (append_assoc aff _ _),
    )
      where
        from : Entries rng.lba post
        from = Entries-from rng.lba (end_of (live cur)) post d.post_from d.post_entries

        low : Below rng.lba (lows kept)
        low = lows-Below kept

        at : rng.lba ≤ rng.lba
        at = omega arith

        here : entries first.map ≡ lows kept ++ post
        here = entries-first f

        left : ltb (live cur).lba rng.lba ≡ true
        left = ground (arith, d.low, d.keyed)

        no_delete : first.to_delete ≡ []
        no_delete = rw f refl

        carved :
            (ltb (end_of rng) (end_of (live cur)) ≡ true)
              ⊎ (ltb (end_of rng) (end_of (live cur)) ≡ false)
            → entries (applied T (lower_result T em.table rng r post first))
              ≡ carve rng (entries em.m)
        carved (inl g) =
            applied_split T em.table rng r (end_of (live cur)) (lows kept) post low (ground arith)
              d.post_entries first (with_live cur (right_of rng (live cur))) here no_delete
              (rw (f, g) refl) (live_lba-right cur rng d.is_live f (ground arith)) (ground arith)
            ∙ rw (carve_split, f, left, g) (sym (regroup kept _))
        carved (inr g) =
            applied_plain T em.table rng r rng.lba (lows kept) post low at from first here no_delete
              (rw (f, g) refl)
            ∙ rw (carve_split, f, left, g) (sym (regroup kept _))

-- For a range and entries in order, the two loops of `update` succeed. After the deletions and additions
-- the entries are the old ones with the range cut out of each, whatever the map holds, and `affected`
-- has gained the hidden part of each entry, in the order of the entries.
pub update-Cuts :
    (T : TreeMap CompactPe) (em : ExtentMap T.Map) (rng : Extent) (aff : List PartialExtent)
    → IsRange rng
    → Entries 0 (T.entries em.m)
    → Cuts T em rng aff
update-Cuts T em rng aff r w = elim (locate rng 0 (T.entries em.m) w) [
  | inl h ↦ Cuts-without T em rng aff r w h
  | inr d ↦ elim (Bool-cases (hides rng d.cur)) [
    | inl f ↦ Cuts-inside T em rng aff r d f
    | inr f ↦ Cuts-clear T em rng aff r d f
  ]
]
