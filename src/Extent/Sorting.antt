-- ===== src/Extent/Sorting.antt =====
-- extent.go: the sorting in `SubMany`, and lists of extents that share no block.
use lsvd.Base.{ℕ, ◌+◌, ◌≤◌, ◌≡◌, inl, inr, refl, ◌||◌, List, [], ◌∷◌, arith, All, Bool-cases}
use lsvd.Extent.{Extent, contains, extent_less, insert_extent, sort_extents}
use lsvd.Extent.Range.{IsRange}
use lsvd.Extent.Overlap.{Apart, Inside}
use lsvd.Extent.Subtract.{any_contains}

-- Ranges in the order of their blocks, none overlapping, from block `n` on and before block `m`.
abbrev pub Chain : ℕ → ℕ → List Extent → Type 0
Chain n m [] = Unit {0}
Chain n m (e ∷ es) =
    IsRange e × (n ≤ e.lba) × (e.lba + e.blocks ≤ m) × Chain (e.lba + e.blocks) m es

-- No two share a block.
abbrev pub Scattered : List Extent → Type 0
Scattered [] = Unit {0}
Scattered (e ∷ es) = All (Apart e) es × Scattered es

-- Every one is a range inside `e`.
abbrev pub Parts : Extent → List Extent → Type 0
Parts e = All (λ s. IsRange s × Inside s e)

pub Chain-mono : (k n m : ℕ) (es : List Extent) → k ≤ n → Chain n m es → Chain k m es
Chain-mono k n m [] h c = tt
Chain-mono k n m (e ∷ es) h (r, l, u, c) = (r, omega arith, u, c)

insert_extent-Chain :
    (x : Extent) (n m : ℕ) (es : List Extent)
    → IsRange x
    → n ≤ x.lba
    → x.lba + x.blocks ≤ m
    → All (Apart x) es
    → Chain n m es
    → Chain n m (insert_extent x es)
unfolding insert_extent extent_less
insert_extent-Chain x n m [] r l u a c = (r, l, u, tt)
insert_extent-Chain x n m (e ∷ es) r l u (a, as') (s, le, ue, c) =
    elim (Bool-cases (extent_less e x)) [
      | inl before' ↦
          rw before'
            (s, le, ue, insert_extent-Chain x (e.lba + e.blocks) m es r (ground arith) u as' c)
      | inr after' ↦ rw after' (r, l, u, (s, ground arith, ue, c))
    ]

pub sort_extents-Chain :
    (e : Extent) (es : List Extent)
    → Parts e es
    → Scattered es
    → Chain e.lba (e.lba + e.blocks) (sort_extents es)
unfolding sort_extents
sort_extents-Chain e [] p s = tt
sort_extents-Chain e (x ∷ es) ((r, i), p) (a, s) =
    insert_extent-Chain x e.lba (e.lba + e.blocks) (sort_extents es) r i.0 i.1
      (All-sort (Apart x) es a) (sort_extents-Chain e es p s)
  where
    All-insert :
        (P : Extent → Type 0) (y : Extent) (ys : List Extent)
        → P y
        → All P ys
        → All P (insert_extent y ys)
    All-insert P y [] h k = (h, tt)
    All-insert P y (z ∷ zs) h (k, ks) = elim (Bool-cases (extent_less z y)) [
      | inl b ↦ unfold insert_extent in rw b (k, All-insert P y zs h ks)
      | inr b ↦ unfold insert_extent in rw b (h, (k, ks))
    ]

    All-sort : (P : Extent → Type 0) (ys : List Extent) → All P ys → All P (sort_extents ys)
    All-sort P [] h = tt
    All-sort P (y ∷ ys) (h, hs) = All-insert P y (sort_extents ys) h (All-sort P ys hs)

any_contains-insert :
    (x : Extent) (es : List Extent) (b : ℕ)
    → any_contains (insert_extent x es) b ≡ (contains x b || any_contains es b)
unfolding insert_extent
any_contains-insert x [] b = refl
any_contains-insert x (e ∷ es) b = ground (arith, any_contains-insert x es b)

pub any_contains-sort :
    (es : List Extent) (b : ℕ) → any_contains (sort_extents es) b ≡ any_contains es b
unfolding sort_extents
any_contains-sort [] b = refl
any_contains-sort (e ∷ es) b =
    ground (arith, any_contains-sort es b, any_contains-insert e (sort_extents es) b)
