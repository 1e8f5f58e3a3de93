-- ===== src/ExtentMap/Floor.antt =====
-- extent_map.go, `update`: the first loop, at the last entry that begins before the new range.
use lsvd.Base.{
  ℕ, ◌-◌, ◌≤◌, ◌<◌, ◌≡◌, refl, true, false, List, [], ◌∷◌, arith, ltb, leb, if◌then◌else◌, inl, inr,
  sym, some, none, ap, compare_le,
}
use lsvd.Base.Words.{add64, sub64}
use lsvd.Base.Outcome.{ok}
use lsvd.Extent.{Extent, cover, partly, last, extent_from}
use lsvd.Extent.Range.{IsRange, last_lem, extent_from_lem, extent_from-none}
use lsvd.Extent.Overlap.{overlap, cover_cases}
use lsvd.Compact.{CompactPe, live, live_lba}
use lsvd.Compact.Live.{IsLive, with_live, live-IsRange, set_live_lem, set_live_twice}
use lsvd.TreeMap.{TreeMap}
use lsvd.TreeMap.Entries.{AtLeast}
use lsvd.ExtentMap.{
  floor_loop, after_round, SegTable, Scratch, Round, punch_hole, cut_tail, suffix_of,
}
use lsvd.ExtentMap.Carve.{
  end_of, hides, left_of, right_of, behind, live_lba_lem, overlap-Fits, left_of-Fits, right_of-Fits,
}

-- What a round does to an entry that begins before the range and is cut by it.
abbrev pub cut : CompactPe → Extent → Round
cut c rng = record {
  kept = with_live c (left_of rng (live c));
  masked = with_live c (overlap (live c) rng);
  added = behind rng c;
}

module _ (c : CompactPe) (rng : Extent) (l : IsLive c) (r : IsRange rng) (h : hides rng c ≡ true)
    (b : (live c).lba < rng.lba) where
  prefix_lem : extent_from (live_lba c) (sub64 rng.lba 1) ≡ some (left_of rng (live c))
  prefix_lem =
      ground (arith, live-IsRange c l, live_lba_lem c, extent_from_lem (live_lba c) (rng.lba - 1))

  suffix_lem :
      end_of rng ≤ end_of (live c)
      → suffix_of c (extent_from (add64 (last rng) 1) (last (live c))) ≡ ok (behind rng c)
  unfolding suffix_of
  suffix_lem e = elim (compare_le (end_of rng) (end_of (live c))) [
    | inl more ↦
        let some_lem : extent_from (add64 (last rng) 1) (last (live c))
            ≡ some (right_of rng (live c)) =
          ground (
            arith,
            live-IsRange c l,
            last_lem rng r,
            last_lem (live c) (live-IsRange c l),
            extent_from_lem (end_of rng) (last (live c)),
          ) in
        let yes_lem : ltb (end_of rng) (end_of (live c)) ≡ true = ground arith in
        rw
          (some_lem, yes_lem, set_live_lem c (right_of rng (live c)) (right_of-Fits c rng l h more))
          refl
    | inr same ↦
        let none_lem : extent_from (add64 (last rng) 1) (last (live c)) ≡ none = ground (
          arith,
          live-IsRange c l,
          last_lem rng r,
          last_lem (live c) (live-IsRange c l),
          extent_from-none (end_of rng) (last (live c)),
        ) in
        let no_lem : ltb (end_of rng) (end_of (live c)) ≡ false = ground arith in
        rw (none_lem, no_lem) refl
  ]

  masked_lem :
      end_of (live c) < end_of rng
      → extent_from rng.lba (last (live c)) ≡ some (overlap (live c) rng)
  masked_lem e = ground (
    arith,
    live-IsRange c l,
    last_lem (live c) (live-IsRange c l),
    extent_from_lem rng.lba (last (live c)),
  )

  punch_hole_lem : end_of rng ≤ end_of (live c) → punch_hole c rng ≡ ok (cut c rng)
  unfolding punch_hole
  punch_hole_lem e =
      let all_of : overlap (live c) rng ≡ rng = ground arith in
      let pos : ltb 0 rng.lba ≡ true = ground arith in
      let part = rw all_of at (overlap-Fits c rng l h r) in
      let kept = left_of rng (live c) in
      rw
        (
          suffix_lem e,
          prefix_lem,
          pos,
          set_live_lem c kept (left_of-Fits c rng l h b),
          set_live_twice c kept rng part,
        )
        (ap
          (λ (x : Extent).
            ok (record { kept = with_live c kept; masked = with_live c x; added = behind rng c }))
          (sym all_of))

  cut_tail_lem : end_of (live c) < end_of rng → cut_tail c rng ≡ ok (cut c rng)
  unfolding cut_tail
  cut_tail_lem e =
      let crosses : cover rng (live c) ≡ partly =
        ground (arith, cover_cases rng (live c) r (live-IsRange c l)) in
      let nothing : ltb (end_of rng) (end_of (live c)) ≡ false = ground arith in
      let kept = left_of rng (live c) in
      rw
        (
          crosses,
          cut_tail,
          prefix_lem,
          masked_lem e,
          set_live_lem c kept (left_of-Fits c rng l h b),
          set_live_twice c kept (overlap (live c) rng) (overlap-Fits c rng l h r),
          nothing,
        )
        refl

module _ (T : TreeMap CompactPe) (t : SegTable) (rng : Extent) where
  open T use {Map}

  -- Entries from the beginning of the range on are left to the second loop.
  pub floor_loop_halts :
      (es : List (ℕ × CompactPe)) (s : Scratch Map)
      → AtLeast rng.lba es
      → floor_loop T t rng es s ≡ ok s
  unfolding floor_loop
  floor_loop_halts [] s h = refl
  floor_loop_halts ((k, c) ∷ es) s h = ground arith

  abbrev pub floor_result : ℕ → CompactPe → Scratch Map → Scratch Map
  floor_result k c s = if hides rng c then after_round T t k s (cut c rng) else s

  -- At most one entry begins before the range and reaches into it.
  pub floor_loop_lem :
      (k : ℕ) (c : CompactPe) (es : List (ℕ × CompactPe)) (s : Scratch Map)
      → IsRange rng
      → IsLive c
      → k ≡ (live c).lba
      → k < rng.lba
      → AtLeast rng.lba es
      → floor_loop T t rng ((k, c) ∷ es) s ≡ ok (floor_result k c s)
  unfolding floor_loop
  floor_loop_lem k c es s r l e b h =
      let low : leb rng.lba k ≡ false = ground arith in
      elim (cover_cases (live c) rng (live-IsRange c l) r) [
        | inl (d, a) ↦ let f : hides rng c ≡ false = ground arith in rw (low, d, floor_loop, f) refl
        | inr (inl (d, p, q)) ↦ absurd (omega arith)
        | inr (inr (inl (d, i, q))) ↦
            let f : hides rng c ≡ true = ground (arith, r) in
            rw (low, d, floor_loop, f, punch_hole_lem c rng l r f (omega arith) i.1)
              (floor_loop_halts es _ h)
        | inr (inr (inr (d, p, q, x))) ↦
            let f : hides rng c ≡ true = ground arith in
            rw (low, d, floor_loop, f, cut_tail_lem c rng l r f (omega arith) (ground arith))
              (floor_loop_halts es _ h)
      ]
