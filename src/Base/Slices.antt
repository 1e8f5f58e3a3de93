-- ===== src/Base/Slices.antt =====
-- Parts of lists, by native numbers.
use Prim.Native.Nat.{ℕ, zero, suc, ◌+◌, ◌-◌, ◌≤◌, ◌<◌, min}
use mathlib.Core.Path.{◌≡◌, refl, sym, ◌∙◌}
use mathlib.Core.List.{List, [], ◌∷◌, ◌++◌}
use mathlib.Core.Option.{Option, none, some}
use native.Mathlib.Omega.{arith}
use lsvd.Base.Lists.{length}
use lsvd.Base.Tests.{ltb, leb, if◌then◌else◌}

module _ {ℓ} {A : Type ℓ} where
  unfoldable pub take : ℕ → List A → List A
  take zero xs = []
  take (suc n) [] = []
  take (suc n) (x ∷ xs) = x ∷ take n xs

  unfoldable pub drop : ℕ → List A → List A
  drop zero xs = xs
  drop (suc n) [] = []
  drop (suc n) (x ∷ xs) = drop n xs

  unfoldable pub get_elem? : List A → ℕ → Option A
  get_elem? [] i = none
  get_elem? (x ∷ xs) zero = some x
  get_elem? (x ∷ xs) (suc i) = get_elem? xs i

  -- `new` written over `xs` from position `n` on, as far as `xs` goes.
  unfoldable pub overwrite : ℕ → List A → List A → List A
  overwrite n new [] = []
  overwrite zero [] (x ∷ xs) = x ∷ xs
  overwrite zero (y ∷ new) (x ∷ xs) = y ∷ overwrite zero new xs
  overwrite (suc n) new (x ∷ xs) = x ∷ overwrite n new xs

  -- `xs[start:stop]`
  abbrev pub slice : ℕ → ℕ → List A → List A
  slice start stop xs = take (stop - start) (drop start xs)

  pub length-take : (n : ℕ) (xs : List A) → length (take n xs) ≡ min n (length xs)
  unfolding take
  length-take zero xs = ground arith
  length-take (suc n) [] = ground arith
  length-take (suc n) (x ∷ xs) = ground (arith, length-take n xs)

  pub length-drop : (n : ℕ) (xs : List A) → length (drop n xs) ≡ length xs - n
  unfolding drop
  length-drop zero xs = omega arith
  length-drop (suc n) [] = omega arith
  length-drop (suc n) (x ∷ xs) = omega (arith, length-drop n xs)

  pub length-overwrite : (n : ℕ) (new xs : List A) → length (overwrite n new xs) ≡ length xs
  unfolding overwrite
  length-overwrite n new [] = refl
  length-overwrite zero [] (x ∷ xs) = refl
  length-overwrite zero (y ∷ new) (x ∷ xs) = omega (arith, length-overwrite zero new xs)
  length-overwrite (suc n) new (x ∷ xs) = omega (arith, length-overwrite n new xs)

  pub get_elem?-take :
      (n : ℕ) (xs : List A) (i : ℕ)
      → get_elem? (take n xs) i ≡ (if ltb i n then get_elem? xs i else none)
  unfolding take get_elem?
  get_elem?-take zero xs i = ground arith
  get_elem?-take (suc n) [] i = ground arith
  get_elem?-take (suc n) (x ∷ xs) zero = ground arith
  get_elem?-take (suc n) (x ∷ xs) (suc i) = ground (arith, get_elem?-take n xs i)

  pub get_elem?-drop :
      (n : ℕ) (xs : List A) (i : ℕ) → get_elem? (drop n xs) i ≡ get_elem? xs (n + i)
  unfolding drop get_elem?
  get_elem?-drop zero xs i = ground arith
  get_elem?-drop (suc n) [] i = ground arith
  get_elem?-drop (suc n) (x ∷ xs) i = ground (arith, get_elem?-drop n xs i)

  pub get_elem?-overwrite :
      (n : ℕ) (new xs : List A) (i : ℕ)
      → i < length xs
      → get_elem? (overwrite n new xs) i ≡ (
          if leb n i
          then (if ltb i (n + length new) then get_elem? new (i - n) else get_elem? xs i)
          else get_elem? xs i)
  unfolding overwrite get_elem?
  get_elem?-overwrite n new [] i h = absurd (omega arith)
  get_elem?-overwrite zero [] (x ∷ xs) i h = ground arith
  get_elem?-overwrite zero (y ∷ new) (x ∷ xs) zero h = ground arith
  get_elem?-overwrite zero (y ∷ new) (x ∷ xs) (suc i) h =
      ground (arith, get_elem?-overwrite zero new xs i)
  get_elem?-overwrite (suc n) new (x ∷ xs) zero h = ground arith
  get_elem?-overwrite (suc n) new (x ∷ xs) (suc i) h =
      ground (arith, get_elem?-overwrite n new xs i)

  pub drop-append : (xs ys : List A) → drop (length xs) (xs ++ ys) ≡ ys
  unfolding drop
  drop-append [] ys = refl
  drop-append (x ∷ xs) ys = drop-append xs ys

  pub take-append : (xs ys : List A) → take (length xs) (xs ++ ys) ≡ xs
  unfolding take
  take-append [] ys = refl
  take-append (x ∷ xs) ys = ground (arith, take-append xs ys)

  pub take_all : (n : ℕ) (xs : List A) → length xs ≤ n → take n xs ≡ xs
  unfolding take
  take_all zero [] h = refl
  take_all zero (x ∷ xs) h = absurd (omega arith)
  take_all (suc n) [] h = refl
  take_all (suc n) (x ∷ xs) h = ground (arith, take_all n xs)

  drop_nothing : (n : ℕ) → drop n [] ≡ []
  unfolding drop
  drop_nothing zero = refl
  drop_nothing (suc n) = refl

  pub drop-drop : (n m : ℕ) (xs : List A) → drop m (drop n xs) ≡ drop (n + m) xs
  unfolding drop
  drop-drop zero m xs = ground arith
  drop-drop (suc n) m [] = drop_nothing m ∙ sym (drop_nothing (suc n + m))
  drop-drop (suc n) m (x ∷ xs) =
      let sum : suc n + m ≡ suc (n + m) = omega arith in rw sum (drop-drop n m xs)

  pub length-slice : (a n : ℕ) (b : List A) → a + n ≤ length b → length (slice a (a + n) b) ≡ n
  length-slice a n b h = omega (arith, length-take (a + n - a) (drop a b), length-drop a b)

  pub get_elem?-slice :
      (a n : ℕ) (b : List A) (i : ℕ)
      → get_elem? (slice a (a + n) b) i ≡ (if ltb i n then get_elem? b (a + i) else none)
  get_elem?-slice a n b i =
      let size : a + n - a ≡ n = omega arith in
      rw (size, get_elem?-take n (drop a b) i, get_elem?-drop a b i) refl

  pub get_elem?-beyond : (xs : List A) (i : ℕ) → length xs ≤ i → get_elem? xs i ≡ none
  unfolding get_elem?
  get_elem?-beyond [] i h = refl
  get_elem?-beyond (x ∷ xs) zero h = absurd (omega arith)
  get_elem?-beyond (x ∷ xs) (suc i) h = get_elem?-beyond xs i (omega arith)

  pub get_elem?-append :
      (xs ys : List A) (i : ℕ)
      → get_elem? (xs ++ ys) i
        ≡ (if ltb i (length xs) then get_elem? xs i else get_elem? ys (i - length xs))
  unfolding get_elem?
  get_elem?-append [] ys i = ground arith
  get_elem?-append (x ∷ xs) ys zero = ground arith
  get_elem?-append (x ∷ xs) ys (suc i) = ground (arith, get_elem?-append xs ys i)
