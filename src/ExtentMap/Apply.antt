-- ===== src/ExtentMap/Apply.antt =====
-- extent_map.go, `update`: what the collected writes, deletions and additions do to the entries.
use lsvd.Base.{
  ℕ, suc, ◌≤◌, ◌≡◌, refl, true, false, List, [], ◌∷◌, ◌++◌, arith, ltb, inl, inr, Bool-cases, All,
}
use lsvd.Extent.{Extent}
use lsvd.Extent.Range.{IsRange}
use lsvd.Compact.{CompactPe, live, live_lba}
use lsvd.Compact.Live.{IsLive, with_live, live_lem}
use lsvd.TreeMap.Entries.{
  AtLeast, Below, insert, erase, replace, insert-append, erase-append, replace-append, insert_front,
  erase_head, replace_head,
}
use lsvd.ExtentMap.Lower.{doomed, readded, written, beyond_lists}
use lsvd.ExtentMap.Carve.{
  end_of, Entries, hides, right_of, carve, beyond, live_lba-right, Entries-AtLeast,
}

abbrev pub replace_all : List (ℕ × CompactPe) → List (ℕ × CompactPe) → List (ℕ × CompactPe)
replace_all [] es = es
replace_all ((k, c) ∷ ws) es = replace_all ws (replace k c es)

abbrev pub erase_all : List ℕ → List (ℕ × CompactPe) → List (ℕ × CompactPe)
erase_all [] es = es
erase_all (k ∷ ks) es = erase_all ks (erase k es)

abbrev pub insert_all : List CompactPe → List (ℕ × CompactPe) → List (ℕ × CompactPe)
insert_all [] es = es
insert_all (c ∷ cs) es = insert_all cs (insert (live_lba c) c es)

pub Below-mono : (a b : ℕ) (es : List (ℕ × CompactPe)) → a ≤ b → Below a es → Below b es
Below-mono a b [] h w = tt
Below-mono a b ((k, c) ∷ es) h w = (omega arith, Below-mono a b es h w.1)

-- All three pass by the entries below the keys that they work at.
module _ (a : ℕ) (ls : List (ℕ × CompactPe)) (low : Below a ls) where
  pub replace_all-append :
      (ws es : List (ℕ × CompactPe))
      → AtLeast a ws
      → replace_all ws (ls ++ es) ≡ ls ++ replace_all ws es
  replace_all-append [] es h = refl
  replace_all-append ((k, c) ∷ ws) es (h, hs) =
      rw (replace-append k c ls es (Below-mono a k ls h low))
        (replace_all-append ws (replace k c es) hs)

  pub erase_all-append :
      (ks : List ℕ) (es : List (ℕ × CompactPe))
      → All (λ k. a ≤ k) ks
      → erase_all ks (ls ++ es) ≡ ls ++ erase_all ks es
  erase_all-append [] es h = refl
  erase_all-append (k ∷ ks) es (h, hs) =
      rw (erase-append k ls es (Below-mono a k ls h low)) (erase_all-append ks (erase k es) hs)

  pub insert_all-append :
      (cs : List CompactPe) (es : List (ℕ × CompactPe))
      → All (λ c. a ≤ live_lba c) cs
      → insert_all cs (ls ++ es) ≡ ls ++ insert_all cs es
  insert_all-append [] es h = refl
  insert_all-append (c ∷ cs) es (h, hs) =
      rw (insert-append (live_lba c) c ls es (Below-mono a (live_lba c) ls h low))
        (insert_all-append cs (insert (live_lba c) c es) hs)

-- The keys that the second loop works at.
abbrev pub Keys : ℕ → Extent → List (ℕ × CompactPe) → Type 0
Keys a rng es =
    AtLeast a (written rng es)
    × All (λ k. a ≤ k) (doomed rng es)
    × All (λ c. a ≤ live_lba c) (readded rng es)

pub lower-Keys :
    (a n : ℕ) (rng : Extent) (es : List (ℕ × CompactPe))
    → a ≤ n
    → a ≤ end_of rng
    → Entries n es
    → Keys a rng es
lower-Keys a n rng [] h b w = (tt, tt, tt)
lower-Keys a n rng ((k, c) ∷ es) h b (l, e, o, w) =
    let (p, q, u) = lower-Keys a (end_of (live c)) rng es (omega (arith, live_lem c l)) b w in
    elim (Bool-cases (hides rng c)) [
      | inl f ↦ elim (Bool-cases (ltb (end_of rng) (end_of (live c)))) [
        | inl g ↦ rw (f, g) ((omega arith, p), (omega arith, q), (readd f g, u))
        | inr g ↦ rw (f, g) (p, (omega arith, q), u)
      ]
      | inr f ↦ rw f (p, q, u)
    ]
  where
    readd :
        hides rng c ≡ true
        → ltb (end_of rng) (end_of (live c)) ≡ true
        → a ≤ live_lba (with_live c (right_of rng (live c)))
    readd f g = omega (arith, live_lba-right c rng l f (ground arith))

module _ (rng : Extent) (k : ℕ) (c : CompactPe) (es : List (ℕ × CompactPe)) (l : IsLive c)
    (r : IsRange rng) (h : rng.lba ≤ (live c).lba) (e : k ≡ (live c).lba)
    (w : Entries (end_of (live c)) es) where
  abbrev Applied : Type 0
  Applied =
      insert_all (readded rng ((k, c) ∷ es)) (
        erase_all (doomed rng ((k, c) ∷ es))
          (replace_all (written rng ((k, c) ∷ es)) ((k, c) ∷ es)))
      ≡ carve rng ((k, c) ∷ es)

  apply_clear : hides rng c ≡ false → Applied
  apply_clear f =
      let past : end_of rng ≤ end_of (live c) = ground (arith, live_lem c l) in
      let (p, q, u) = beyond_lists rng (end_of (live c)) es past w in
      let v = (beyond rng (end_of (live c)) es past w).0 in rw (f, p, q, u, v) refl

  apply_front : hides rng c ≡ true → ltb (end_of rng) (end_of (live c)) ≡ true → Applied
  apply_front f g =
      let past : end_of rng ≤ end_of (live c) = ground arith in
      let (p, q, u) = beyond_lists rng (end_of (live c)) es past w in
      let v = (beyond rng (end_of (live c)) es past w).0 in
      let x : ltb (live c).lba rng.lba ≡ false = ground arith in
      let kept = with_live c (right_of rng (live c)) in
      rw
        (
          f,
          g,
          x,
          p,
          q,
          u,
          v,
          replace_head k kept c es,
          erase_head k kept es,
          live_lba-right c rng l f (ground arith),
        )
        (insert_front (end_of rng) kept es
          (Entries-AtLeast (suc (end_of rng)) (end_of (live c)) es (ground arith) w))

  apply_covered :
      hides rng c ≡ true
      → ltb (end_of rng) (end_of (live c)) ≡ false
      → insert_all (readded rng es) (erase_all (doomed rng es) (replace_all (written rng es) es))
        ≡ carve rng es
      → Applied
  apply_covered f g ih =
      let x : ltb (live c).lba rng.lba ≡ false = ground arith in
      let keys =
        lower-Keys (suc k) (end_of (live c)) rng es (omega (arith, live_lem c l)) (ground arith)
          w in
      rw
        (
          f,
          g,
          x,
          replace_all-append (suc k) ((k, c) ∷ []) (omega arith, tt) (written rng es) es keys.0,
          erase_head k c (replace_all (written rng es) es),
        )
        ih

-- On the entries from the range on, the three together cut the range out.
pub apply_lower :
    (n : ℕ) (rng : Extent) (es : List (ℕ × CompactPe))
    → IsRange rng
    → rng.lba ≤ n
    → Entries n es
    → insert_all (readded rng es) (erase_all (doomed rng es) (replace_all (written rng es) es))
      ≡ carve rng es
apply_lower n rng [] r h w = refl
apply_lower n rng ((k, c) ∷ es) r h (l, e, o, w) = elim (Bool-cases (hides rng c)) [
  | inl f ↦ elim (Bool-cases (ltb (end_of rng) (end_of (live c)))) [
    | inl g ↦ apply_front rng k c es l r (omega arith) e w f g
    | inr g ↦
        apply_covered rng k c es l r (omega arith) e w f g
          (apply_lower (end_of (live c)) rng es r (omega (arith, live_lem c l)) w)
  ]
  | inr f ↦ apply_clear rng k c es l r (omega arith) e w f
]
