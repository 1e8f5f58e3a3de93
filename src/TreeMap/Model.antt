-- ===== src/TreeMap/Model.antt =====
-- Sorted lists behave as the ordered map is documented to, so the laws can be met.
use lsvd.Base.{ℕ, suc, ◌≤◌, refl, List, [], ◌∷◌, arith}
use lsvd.TreeMap.{TreeMap}
use lsvd.TreeMap.Entries.{Sorted, insert, erase, replace, from_floor, from_lower_bound}

pub record SortedList (V : Type 0) : Type 0 where
  pub items : List (ℕ × V)
  pub sorted : Sorted 0 items

module _ {V : Type 0} where
  Sorted-mono : (n m : ℕ) (es : List (ℕ × V)) → n ≤ m → Sorted m es → Sorted n es
  Sorted-mono n m [] h s = tt
  Sorted-mono n m ((k, v) ∷ es) h (l, s) = (omega arith, s)

  pub insert-Sorted :
      (n k : ℕ) (v : V) (es : List (ℕ × V)) → n ≤ k → Sorted n es → Sorted n (insert k v es)
  unfolding insert
  insert-Sorted n k v [] h s = (h, tt)
  insert-Sorted n k v ((j, w) ∷ es) h (l, s) =
      ground (arith, insert-Sorted (suc j) k v es, Sorted-mono (suc k) (suc j) es)

  pub erase-Sorted : (n k : ℕ) (es : List (ℕ × V)) → Sorted n es → Sorted n (erase k es)
  unfolding erase
  erase-Sorted n k [] s = tt
  erase-Sorted n k ((j, w) ∷ es) (l, s) =
      ground (arith, erase-Sorted (suc j) k es s, Sorted-mono n (suc j) es)

  pub replace-Sorted :
      (n k : ℕ) (v : V) (es : List (ℕ × V)) → Sorted n es → Sorted n (replace k v es)
  unfolding replace
  replace-Sorted n k v [] s = tt
  replace-Sorted n k v ((j, w) ∷ es) (l, s) = ground (arith, replace-Sorted (suc j) k v es s)

abbrev pub sorted_list : (V : Type 0) → TreeMap V
sorted_list V = record {
  Map = SortedList V;
  empty = record { items = []; sorted = tt };
  entries = λ m. m.items;
  floor = λ m k. from_floor k m.items;
  lower_bound = λ m k. from_lower_bound k m.items;
  set = λ m k v. record {
    items = insert k v m.items;
    sorted = insert-Sorted 0 k v m.items (omega arith) m.sorted;
  };
  del = λ m k. record { items = erase k m.items; sorted = erase-Sorted 0 k m.items m.sorted };
  write = λ m k v. record {
    items = replace k v m.items;
    sorted = replace-Sorted 0 k v m.items m.sorted;
  };
  entries-Sorted = λ m. m.sorted;
  entries-empty = refl;
  floor_lem = λ m k. refl;
  lower_bound_lem = λ m k. refl;
  entries-set = λ m k v. refl;
  entries-del = λ m k. refl;
  entries-write = λ m k v. refl;
}
