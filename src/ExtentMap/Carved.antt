-- ===== src/ExtentMap/Carved.antt =====
-- extent_map.go: entries stay in order when a range is cut out of them, and nothing is left in it.
use lsvd.Base.{
  ℕ, ◌≤◌, ◌<◌, ◌≡◌, refl, List, [], ◌∷◌, ◌++◌, arith, ltb, inl, inr, Bool-cases, true, All,
}
use lsvd.Extent.{Extent}
use lsvd.Extent.Range.{IsRange}
use lsvd.Compact.{CompactPe, live}
use lsvd.Compact.Live.{IsLive, live-IsRange, with_live, live-with_live, with_live-IsLive}
use lsvd.TreeMap.Entries.{insert}
use lsvd.ExtentMap.Carve.{
  end_of, Entries, hides, left_of, right_of, lefts, rights, carve, left_of-Fits, right_of-Fits,
}
use lsvd.ExtentMap.Blocks.{Clear}
use mathlib.Core.List.{append_assoc}

pub Entries-mono : (n m : ℕ) (es : List (ℕ × CompactPe)) → n ≤ m → Entries m es → Entries n es
Entries-mono n m [] h w = tt
Entries-mono n m ((k, c) ∷ es) h (l, e, o, w) = (l, e, omega arith, w)

module _ (rng : Extent) (r : IsRange rng) (k : ℕ) (c : CompactPe) (l : IsLive c)
    (f : hides rng c ≡ true) where
  left_live :
      (live c).lba < rng.lba → live (with_live c (left_of rng (live c))) ≡ left_of rng (live c)
  left_live g = live-with_live c (left_of rng (live c)) (left_of-Fits c rng l f g)

  right_live :
      end_of rng < end_of (live c)
      → live (with_live c (right_of rng (live c))) ≡ right_of rng (live c)
  right_live g = live-with_live c (right_of rng (live c)) (right_of-Fits c rng l f g)

  rights-Entries :
      (m : ℕ) (es : List (ℕ × CompactPe))
      → m ≤ end_of rng
      → m ≤ end_of (live c)
      → Entries (end_of (live c)) es
      → Entries m (rights rng c ++ es)
  rights-Entries m es below under w = elim (Bool-cases (ltb (end_of rng) (end_of (live c)))) [
    | inl g ↦
        let b : end_of rng < end_of (live c) = ground arith in
        let to_end : end_of (live c) ≡ end_of (right_of rng (live c)) = omega arith in
        rw (g, right_live b)
          (
            with_live-IsLive c (right_of rng (live c)) (right_of-Fits c rng l f b),
            refl,
            below,
            rw to_end at w,
          )
    | inr g ↦ rw g (Entries-mono m (end_of (live c)) es under w)
  ]

  pieces-Entries :
      (n : ℕ) (es : List (ℕ × CompactPe))
      → k ≡ (live c).lba
      → n ≤ k
      → Entries (end_of (live c)) es
      → Entries n (lefts rng k c ++ (rights rng c ++ es))
  pieces-Entries n es e o w = elim (Bool-cases (ltb (live c).lba rng.lba)) [
    | inl g ↦
        let b : (live c).lba < rng.lba = ground arith in
        rw (g, left_live b)
          (
            with_live-IsLive c (left_of rng (live c)) (left_of-Fits c rng l f b),
            e,
            o,
            rights-Entries (end_of (left_of rng (live c))) es (omega arith) (ground arith) w,
          )
    | inr g ↦ rw g (rights-Entries n es (ground arith) (ground (arith, live-IsRange c l)) w)
  ]

  lefts-Clear : (es : List (ℕ × CompactPe)) → Clear rng es → Clear rng (lefts rng k c ++ es)
  lefts-Clear es w = elim (Bool-cases (ltb (live c).lba rng.lba)) [
    | inl g ↦ let b : (live c).lba < rng.lba = ground arith in rw (g, left_live b) (ground arith, w)
    | inr g ↦ rw g w
  ]

  rights-Clear : (es : List (ℕ × CompactPe)) → Clear rng es → Clear rng (rights rng c ++ es)
  rights-Clear es w = elim (Bool-cases (ltb (end_of rng) (end_of (live c)))) [
    | inl g ↦
        let b : end_of rng < end_of (live c) = ground arith in
        rw (g, right_live b) (ground arith, w)
    | inr g ↦ rw g w
  ]

pub carve-Entries :
    (rng : Extent) (n : ℕ) (es : List (ℕ × CompactPe))
    → IsRange rng
    → Entries n es
    → Entries n (carve rng es)
carve-Entries rng n [] r w = tt
carve-Entries rng n ((k, c) ∷ es) r (l, e, o, w) = elim (Bool-cases (hides rng c)) [
  | inl f ↦
      rw (f, append_assoc (lefts rng k c) (rights rng c) (carve rng es))
        (pieces-Entries rng r k c l f n (carve rng es) e o
          (carve-Entries rng (end_of (live c)) es r w))
  | inr f ↦ rw f (l, e, o, carve-Entries rng (end_of (live c)) es r w)
]

pub carve-Clear :
    (rng : Extent) (n : ℕ) (es : List (ℕ × CompactPe))
    → IsRange rng
    → Entries n es
    → Clear rng (carve rng es)
carve-Clear rng n [] r w = tt
carve-Clear rng n ((k, c) ∷ es) r (l, e, o, w) = elim (Bool-cases (hides rng c)) [
  | inl f ↦
      rw (f, append_assoc (lefts rng k c) (rights rng c) (carve rng es))
        (lefts-Clear rng r k c l f (rights rng c ++ carve rng es)
          (rights-Clear rng r k c l f (carve rng es) (carve-Clear rng (end_of (live c)) es r w)))
  | inr f ↦ rw f (f, carve-Clear rng (end_of (live c)) es r w)
]

-- The indices of the segment table that the entries use.
abbrev pub Known : ℕ → List (ℕ × CompactPe) → Type 0
Known m = All (λ e. e.1.seg_idx < m)

pub carve-Known :
    (rng : Extent) (m : ℕ) (es : List (ℕ × CompactPe)) → Known m es → Known m (carve rng es)
carve-Known rng m [] h = tt
carve-Known rng m ((k, c) ∷ es) (h, hs) = elim (Bool-cases (hides rng c)) [
  | inl f ↦ elim (Bool-cases (ltb (live c).lba rng.lba)) [
    | inl a ↦ elim (Bool-cases (ltb (end_of rng) (end_of (live c)))) [
      | inl b ↦ rw (f, a, b) (h, (h, carve-Known rng m es hs))
      | inr b ↦ rw (f, a, b) (h, carve-Known rng m es hs)
    ]
    | inr a ↦ elim (Bool-cases (ltb (end_of rng) (end_of (live c)))) [
      | inl b ↦ rw (f, a, b) (h, carve-Known rng m es hs)
      | inr b ↦ rw (f, a, b) (carve-Known rng m es hs)
    ]
  ]
  | inr f ↦ rw f (h, carve-Known rng m es hs)
]

pub insert-Known :
    (k : ℕ) (c : CompactPe) (m : ℕ) (es : List (ℕ × CompactPe))
    → c.seg_idx < m
    → Known m es
    → Known m (insert k c es)
unfolding insert
insert-Known k c m [] h w = (h, tt)
insert-Known k c m ((j, d) ∷ es) h (w, ws) = ground (arith, insert-Known k c m es h ws)

pub Known-mono : (m n : ℕ) (es : List (ℕ × CompactPe)) → m ≤ n → Known m es → Known n es
Known-mono m n [] h w = tt
Known-mono m n ((k, c) ∷ es) h (w, ws) = (omega arith, Known-mono m n es h ws)
