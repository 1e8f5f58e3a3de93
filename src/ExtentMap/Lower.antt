-- ===== src/ExtentMap/Lower.antt =====
-- extent_map.go, `update`: the second loop, over the entries that begin at the new range or later.
use lsvd.Base.{
  ℕ, ◌≤◌, ◌<◌, ◌≡◌, refl, true, false, ◌&&◌, List, [], ◌∷◌, ◌++◌, arith, ltb, if◌then◌else◌, inl,
  inr, some, ◌⊎◌,
}
use lsvd.Base.Words.{add64}
use lsvd.Base.Outcome.{ok}
use lsvd.Extent.{Extent, cover, super_range, exact, partly, disjoint, last, extent_from}
use lsvd.Extent.Range.{IsRange, last_lem, extent_from_lem}
use lsvd.Extent.Overlap.{overlap, cover_cases}
use lsvd.Compact.{CompactPe, live, live_lba}
use lsvd.Compact.Live.{IsLive, with_live, live_lem, live-IsRange, set_live_lem, set_live_twice}
use lsvd.TreeMap.{TreeMap}
use mathlib.Core.List.{map, foldl, append-nil, append_assoc}
use lsvd.ExtentMap.{lower_loop, to_pe, SegTable, Scratch, cut_front}
use lsvd.ExtentMap.Carve.{
  end_of, Entries, hides, right_of, hidden, behind, live_lba_lem, with_live_self, beyond,
  overlap-Fits, right_of-Fits,
}

-- An entry that begins inside the range and ends behind it.
pub cut_front_lem :
    (c : CompactPe) (rng : Extent)
    → IsLive c
    → IsRange rng
    → hides rng c ≡ true
    → rng.lba ≤ (live c).lba
    → end_of rng < end_of (live c)
    → cut_front c rng
      ≡ ok (record {
        kept = with_live c (right_of rng (live c));
        masked = with_live c (overlap (live c) rng);
        added = with_live c (right_of rng (live c)) ∷ [];
      })
unfolding cut_front
cut_front_lem c rng l r h k b =
    rw
      (
        update,
        rem_live,
        set_live_lem c part (overlap-Fits c rng l h r),
        set_live_twice c part rest (right_of-Fits c rng l h b),
      )
      refl
  where
    part : Extent
    part = overlap (live c) rng

    rest : Extent
    rest = right_of rng (live c)

    lr : IsRange (live c)
    lr = live-IsRange c l

    update : extent_from (add64 (last rng) 1) (last (live c)) ≡ some rest
    update = ground (
      arith,
      lr,
      last_lem rng r,
      last_lem (live c) lr,
      extent_from_lem (end_of rng) (last (live c)),
    )

    rem_live : extent_from (live_lba c) (last rng) ≡ some part
    rem_live =
        ground (arith, lr, live_lba_lem c, last_lem rng r, extent_from_lem (live_lba c) (last rng))

-- What the loop adds to its variables.
abbrev pub doomed : Extent → List (ℕ × CompactPe) → List ℕ
doomed rng [] = []
doomed rng ((k, c) ∷ es) = (if hides rng c then k ∷ [] else []) ++ doomed rng es

abbrev pub readded : Extent → List (ℕ × CompactPe) → List CompactPe
readded rng [] = []
readded rng ((k, c) ∷ es) = (if hides rng c then behind rng c else []) ++ readded rng es

abbrev pub written : Extent → List (ℕ × CompactPe) → List (ℕ × CompactPe)
written rng [] = []
written rng ((k, c) ∷ es) =
    (if hides rng c && ltb (end_of rng) (end_of (live c))
      then (k, with_live c (right_of rng (live c))) ∷ []
      else [])
    ++ written rng es

pub beyond_lists :
    (rng : Extent) (n : ℕ) (es : List (ℕ × CompactPe))
    → end_of rng ≤ n
    → Entries n es
    → (doomed rng es ≡ []) × (readded rng es ≡ []) × (written rng es ≡ [])
beyond_lists rng n [] h w = (refl, refl, refl)
beyond_lists rng n ((k, c) ∷ es) h (l, e, o, w) =
    ground
      (arith, live_lem c l, beyond_lists rng (end_of (live c)) es (omega (arith, live_lem c l)) w)

module _ (T : TreeMap CompactPe) (t : SegTable) (rng : Extent) (r : IsRange rng) where
  open T use {Map, write}

  abbrev pub write_all : Map → List (ℕ × CompactPe) → Map
  write_all = foldl λ m w. write m w.0 w.1

  abbrev pub lower_result : List (ℕ × CompactPe) → Scratch Map → Scratch Map
  lower_result es s = record {
    map = write_all s.map (written rng es);
    to_delete = s.to_delete ++ doomed rng es;
    to_add = s.to_add ++ readded rng es;
    affected = s.affected ++ map (to_pe t) (hidden rng es);
  }

  abbrev LowerLoop : List (ℕ × CompactPe) → Scratch Map → Type 0
  LowerLoop es s = lower_loop T t rng es s ≡ ok (lower_result es s)

  stop_lem :
      (k : ℕ) (c : CompactPe) (es : List (ℕ × CompactPe)) (s : Scratch Map)
      → IsLive c
      → cover rng (live c) ≡ disjoint
      → end_of rng ≤ (live c).lba
      → Entries (end_of (live c)) es
      → LowerLoop ((k, c) ∷ es) s
  unfolding lower_loop
  stop_lem k c es s l d b w =
      let (p, q, u) = beyond_lists rng (end_of (live c)) es (omega (arith, live_lem c l)) w in
      let v = (beyond rng (end_of (live c)) es (omega (arith, live_lem c l)) w).1 in
      let f : hides rng c ≡ false = ground arith in
      rw (d, lower_loop, f, p, q, u, v) (simp append-nil)

  delete_lem :
      (k : ℕ) (c : CompactPe) (es : List (ℕ × CompactPe)) (s : Scratch Map)
      → IsLive c
      → (cover rng (live c) ≡ super_range) ⊎ (cover rng (live c) ≡ exact)
      → rng.lba ≤ (live c).lba
      → end_of (live c) ≤ end_of rng
      → ((s : Scratch Map) → LowerLoop es s)
      → LowerLoop ((k, c) ∷ es) s
  unfolding lower_loop
  delete_lem k c es s l (inl d) h b ih =
      let f : hides rng c ≡ true = ground (arith, live-IsRange c l) in
      let g : ltb (end_of rng) (end_of (live c)) ≡ false = ground arith in
      let q : with_live c (overlap (live c) rng) ≡ c = ground (arith, with_live_self c l) in
      rw (d, lower_loop, ih, f, g, q) (simp append_assoc)
  delete_lem k c es s l (inr d) h b ih =
      let f : hides rng c ≡ true = ground (arith, live-IsRange c l) in
      let g : ltb (end_of rng) (end_of (live c)) ≡ false = ground arith in
      let q : with_live c (overlap (live c) rng) ≡ c = ground (arith, with_live_self c l) in
      rw (d, lower_loop, ih, f, g, q) (simp append_assoc)

  front_lem :
      (k : ℕ) (c : CompactPe) (es : List (ℕ × CompactPe)) (s : Scratch Map)
      → IsLive c
      → cover rng (live c) ≡ partly
      → hides rng c ≡ true
      → rng.lba ≤ (live c).lba
      → end_of rng < end_of (live c)
      → ((s : Scratch Map) → LowerLoop es s)
      → LowerLoop ((k, c) ∷ es) s
  unfolding lower_loop
  front_lem k c es s l d f h b ih =
      let g : ltb (end_of rng) (end_of (live c)) ≡ true = ground arith in
      rw (d, lower_loop, cut_front_lem c rng l r f h b, ih, f, g) (simp append_assoc)

  -- The loop never fails, and does to its variables what these lists say.
  pub lower_loop_lem :
      (n : ℕ) (es : List (ℕ × CompactPe)) (s : Scratch Map)
      → rng.lba ≤ n
      → Entries n es
      → LowerLoop es s
  lower_loop_lem n [] s h w = unfold lower_loop in simp append-nil
  lower_loop_lem n ((k, c) ∷ es) s h (l, e, o, w) =
      let rest = λ (s : Scratch Map).
        lower_loop_lem (end_of (live c)) es s (omega (arith, live_lem c l)) w in
      elim (cover_cases rng (live c) r (live-IsRange c l)) [
        | inl (d, a) ↦ stop_lem k c es s l d (ground (arith, live-IsRange c l)) w
        | inr (inl (d, p, q)) ↦ delete_lem k c es s l (inr d) (omega arith) (omega arith) rest
        | inr (inr (inl (d, i, q))) ↦ delete_lem k c es s l (inl d) (omega arith) (omega arith) rest
        | inr (inr (inr (d, p, q, x))) ↦
            front_lem k c es s l d (ground arith) (omega arith) (omega arith) rest
      ]
