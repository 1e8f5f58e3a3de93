-- ===== src/TreeMap/Entries.antt =====
-- The entries of an ordered map as a list in the order of the keys, and its operations on that list.
use lsvd.Base.{
  ℕ, suc, ◌≤◌, ◌<◌, ◌≡◌, ◌⊎◌, refl, false, List, [], ◌∷◌, ◌++◌, arith, ltb, ◌==◌, if◌then◌else◌,
  All, Bool-cases, inl, inr,
}

module _ {V : Type 0} where
  -- Strictly increasing keys, from `n` on.
  abbrev pub Sorted : ℕ → List (ℕ × V) → Type 0
  Sorted n [] = Unit {0}
  Sorted n ((k, v) ∷ es) = (n ≤ k) × Sorted (suc k) es

  -- `Set` overrides the value of a key that is there.
  unfoldable pub insert : ℕ → V → List (ℕ × V) → List (ℕ × V)
  insert k v [] = (k, v) ∷ []
  insert k v ((j, w) ∷ es) =
      if ltb j k
      then (j, w) ∷ insert k v es
      else if j == k
      then (k, v) ∷ es
      else (k, v) ∷ (j, w) ∷ es

  unfoldable pub erase : ℕ → List (ℕ × V) → List (ℕ × V)
  erase k [] = []
  erase k ((j, w) ∷ es) = if j == k then es else (j, w) ∷ erase k es

  unfoldable pub replace : ℕ → V → List (ℕ × V) → List (ℕ × V)
  replace k v [] = []
  replace k v ((j, w) ∷ es) = if j == k then (j, v) ∷ es else (j, w) ∷ replace k v es

  -- From the first key that is not less than `k`.
  unfoldable pub from_lower_bound : ℕ → List (ℕ × V) → List (ℕ × V)
  from_lower_bound k [] = []
  from_lower_bound k ((j, w) ∷ es) = if ltb j k then from_lower_bound k es else (j, w) ∷ es

  abbrev pub floor_or : List (ℕ × V) → List (ℕ × V) → List (ℕ × V)
  floor_or here [] = here
  floor_or here (e ∷ es) = e ∷ es

  -- From the last key that is not greater than `k`; nothing, if there is none.
  unfoldable pub from_floor : ℕ → List (ℕ × V) → List (ℕ × V)
  from_floor k [] = []
  from_floor k ((j, w) ∷ es) = if ltb k j then [] else floor_or ((j, w) ∷ es) (from_floor k es)

  -- All keys are below `n`; all are at least `n`.
  abbrev pub Below : ℕ → List (ℕ × V) → Type 0
  Below n = All (λ e. e.0 < n)

  abbrev pub AtLeast : ℕ → List (ℕ × V) → Type 0
  AtLeast n = All (λ e. n ≤ e.0)

  pub Sorted-AtLeast : (n m : ℕ) (es : List (ℕ × V)) → n ≤ m → Sorted m es → AtLeast n es
  Sorted-AtLeast n m [] h s = tt
  Sorted-AtLeast n m ((k, v) ∷ es) h (l, s) =
      (omega arith, Sorted-AtLeast n (suc k) es (omega arith) s)

  -- An operation at a key passes by the smaller ones.
  pub insert-append :
      (k : ℕ) (v : V) (ls es : List (ℕ × V))
      → Below k ls
      → insert k v (ls ++ es) ≡ ls ++ insert k v es
  unfolding insert
  insert-append k v [] es b = refl
  insert-append k v ((j, w) ∷ ls) es b = ground (arith, insert-append k v ls es b.1)

  pub erase-append :
      (k : ℕ) (ls es : List (ℕ × V)) → Below k ls → erase k (ls ++ es) ≡ ls ++ erase k es
  unfolding erase
  erase-append k [] es b = refl
  erase-append k ((j, w) ∷ ls) es b = ground (arith, erase-append k ls es b.1)

  pub replace-append :
      (k : ℕ) (v : V) (ls es : List (ℕ × V))
      → Below k ls
      → replace k v (ls ++ es) ≡ ls ++ replace k v es
  unfolding replace
  replace-append k v [] es b = refl
  replace-append k v ((j, w) ∷ ls) es b = ground (arith, replace-append k v ls es b.1)

  -- An insertion before all keys.
  pub insert_front :
      (k : ℕ) (v : V) (es : List (ℕ × V)) → AtLeast (suc k) es → insert k v es ≡ (k, v) ∷ es
  unfolding insert
  insert_front k v [] a = refl
  insert_front k v ((j, w) ∷ es) a = ground arith

  pub from_lower_bound-append :
      (k : ℕ) (ls es : List (ℕ × V))
      → Below k ls
      → AtLeast k es
      → from_lower_bound k (ls ++ es) ≡ es
  unfolding from_lower_bound
  from_lower_bound-append k [] [] b a = refl
  from_lower_bound-append k [] ((j, w) ∷ es) b a = ground arith
  from_lower_bound-append k ((j, w) ∷ ls) es b a =
      ground (arith, from_lower_bound-append k ls es b.1 a)

  pub erase_head : (k : ℕ) (v : V) (es : List (ℕ × V)) → erase k ((k, v) ∷ es) ≡ es
  unfolding erase
  erase_head k v es = ground arith

  pub replace_head : (k : ℕ) (v w : V) (es : List (ℕ × V)) → replace k v ((k, w) ∷ es) ≡ (k, v) ∷ es
  unfolding replace
  replace_head k v w es = ground arith

  floor_or_twice :
      (xs ys es : List (ℕ × V)) (y : ℕ × V)
      → floor_or xs (floor_or (y ∷ ys) es) ≡ floor_or (y ∷ ys) es
  floor_or_twice xs ys [] y = refl
  floor_or_twice xs ys (e ∷ es) y = refl

  pub from_floor-append :
      (k j : ℕ) (v : V) (ls es : List (ℕ × V))
      → Below k ls
      → j ≤ k
      → from_floor k (ls ++ (j, v) ∷ es) ≡ floor_or ((j, v) ∷ es) (from_floor k es)
  unfolding from_floor
  from_floor-append k j v [] es b h = ground arith
  from_floor-append k j v ((i, w) ∷ ls) es (b, bs) h =
      let low : ltb k i ≡ false = ground arith in
      rw (low, from_floor-append k j v ls es bs h) (floor_or_twice _ es (from_floor k es) (j, v))

  -- Among keys from `k` on, `Floor` finds the key `k` or nothing.
  pub from_floor_first :
      (k n : ℕ) (es : List (ℕ × V)) → Sorted n es → AtLeast k es → (from_floor k es ≡ []) ⊎ (n ≤ k)
  unfolding from_floor
  from_floor_first k n [] s h = inl refl
  from_floor_first k n ((j, v) ∷ es) s h = elim (Bool-cases (ltb k j)) [
    | inl above ↦ inl (rw above)
    | inr at ↦ inr (ground arith)
  ]

  pub from_floor-AtLeast :
      (a k : ℕ) (es : List (ℕ × V)) → AtLeast a es → AtLeast a (from_floor k es)
  unfolding from_floor
  from_floor-AtLeast a k [] h = tt
  from_floor-AtLeast a k ((j, v) ∷ es) h = elim (Bool-cases (ltb k j)) [
    | inl above ↦ rw above tt
    | inr at ↦ rw at (keep (from_floor k es) (from_floor-AtLeast a k es h.1))
  ]
    where
      keep : (fs : List (ℕ × V)) → AtLeast a fs → AtLeast a (floor_or ((j, v) ∷ es) fs)
      keep [] g = h
      keep (f ∷ fs) g = g
