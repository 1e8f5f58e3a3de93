-- ===== src/Extent/Many.antt =====
-- extent.go: `SubMany`, which sorts what it subtracts and walks it once.
use lsvd.Base.{
  ℕ, ◌+◌, ◌≤◌, ◌<◌, ◌≡◌, inl, inr, refl, true, false, not, ◌&&◌, ◌||◌, List, [], ◌∷◌, ◌∙◌, Option,
  some, arith, ltb, if◌then◌else◌, Bool-cases, All-append,
}
use lsvd.Extent.{
  Extent, zero_extent, contains, sub_specific, is_valid, append_valid, sort_extents, sub_loop,
  sub_many,
}
use lsvd.Extent.Range.{IsRange, contains_lem}
use lsvd.Extent.Overlap.{Inside}
use lsvd.Extent.Subtract.{
  before, after, Cuts, sub_specific-Cuts, contains-before, contains-after, any_contains,
  any_contains-append_valid,
}
use lsvd.Extent.Sorting.{Chain, Scattered, Parts, sort_extents-Chain, any_contains-sort}

-- What the loop returns for `considering`, on top of the holes that it has found.
abbrev Leaves : Extent → Extent → List Extent → List Extent → Option (List Extent) → Type 0
Leaves e considering subs holes r =
    (out : List Extent) × (r ≡ some out)
    × Parts e out
    × ((x : ℕ)
        → any_contains out x
          ≡ (any_contains holes x || (contains considering x && not (any_contains subs x))))

append_valid-Parts :
    (e x : Extent) (es : List Extent)
    → Parts e es
    → (is_valid x ≡ true → IsRange x × Inside x e)
    → Parts e (append_valid es x)
unfolding append_valid
append_valid-Parts e x es p h = elim (Bool-cases (is_valid x)) [
  | inl v ↦ rw v (All-append (λ s. IsRange s × Inside s e) es (x ∷ []) p (h v, tt))
  | inr v ↦ rw v p
]

before-Part :
    (e c s : Extent)
    → IsRange c
    → Inside c e
    → Cuts s c
    → is_valid (before c s) ≡ true
    → IsRange (before c s) × Inside (before c s) e
unfolding is_valid
before-Part e c s r i k v = ground arith

after-Part :
    (e c s : Extent)
    → IsRange c
    → Inside c e
    → Cuts s c
    → is_valid (after c s) ≡ true
    → IsRange (after c s) × Inside (after c s) e
unfolding is_valid
after-Part e c s r i k v = ground arith

Chain-below : (n m b : ℕ) (es : List Extent) → Chain n m es → b < n → any_contains es b ≡ false
Chain-below n m b [] c h = refl
Chain-below n m b (e ∷ es) (r, l, u, c) h =
    ground (arith, contains_lem e b r, Chain-below (e.lba + e.blocks) m b es c (omega arith))

-- The suffix that the loop goes on with begins where `s` ends, and ends where `c` does.
after_bounds :
    (c s : Extent)
    → IsRange c
    → Cuts s c
    → is_valid (after c s) ≡ true
    → ((after c s).lba ≡ s.lba + s.blocks)
      × ((after c s).lba + (after c s).blocks ≡ c.lba + c.blocks)
unfolding is_valid
after_bounds c s r k v = ground arith

Chain-at : (n n' m m' : ℕ) (es : List Extent) → n' ≡ n → m' ≡ m → Chain n m es → Chain n' m' es
Chain-at n n' m m' es p q c = rw (p, q) c

after_none :
    (c s : Extent)
    → IsRange c
    → Cuts s c
    → is_valid (after c s) ≡ false
    → c.lba + c.blocks ≤ s.lba + s.blocks
unfolding is_valid
after_none c s r k v = ground arith

sub_loop_step :
    (c s p q : Extent) (subs holes : List Extent)
    → sub_specific c s ≡ some (p, q)
    → sub_loop c (s ∷ subs) holes ≡ (
        if is_valid q
        then sub_loop q subs (append_valid holes p)
        else some (append_valid (append_valid holes p) zero_extent))
unfolding sub_loop
sub_loop_step c s p q subs holes h = rw (h, sub_loop)

abbrev with_before : Extent → Extent → List Extent → List Extent
with_before c s holes = append_valid holes (before c s)

module _ (e c s : Extent) (subs holes : List Extent) (r : IsRange c) (i : Inside c e)
    (rs : IsRange s) (cut : Cuts s c) (ch : Chain (s.lba + s.blocks) (c.lba + c.blocks) subs)
    (p : Parts e holes) where
  with_before-Parts : Parts e (with_before c s holes)
  with_before-Parts = append_valid-Parts e (before c s) holes p (before-Part e c s r i cut)

  any_contains-with_before :
      (x : ℕ)
      → any_contains (with_before c s holes) x
        ≡ (any_contains holes x || (contains c x && ltb x s.lba))
  any_contains-with_before x =
      any_contains-append_valid holes (before c s) x ∙ rw (contains-before c s x r rs cut)

  step_more :
      is_valid (after c s) ≡ true
      → Leaves e
          (after c s)
          subs
          (with_before c s holes)
          (sub_loop (after c s) subs (with_before c s holes))
      → Leaves e c (s ∷ subs) holes (sub_loop c (s ∷ subs) holes)
  step_more v (out, eq, p', h) = (
    out,
    sub_loop_step c s _ _ subs holes (sub_specific-Cuts c s r rs cut) ∙ rw v eq,
    p',
    λ x.
        h x
        ∙ rw (any_contains-with_before x, contains-after c s x r rs cut)
            (ground (
              arith,
              contains_lem c x r,
              contains_lem s x rs,
              Chain-below (s.lba + s.blocks) (c.lba + c.blocks) x subs ch,
            )),
  )

  step_done :
      is_valid (after c s) ≡ false → Leaves e c (s ∷ subs) holes (sub_loop c (s ∷ subs) holes)
  step_done v = (
    with_before c s holes,
    sub_loop_step c s _ _ subs holes (sub_specific-Cuts c s r rs cut)
        ∙ rw v (unfold append_valid is_valid in refl),
    with_before-Parts,
    λ x. rw (any_contains-with_before x) (
        ground (
          arith,
          after_none c s r cut v,
          contains_lem c x r,
          contains_lem s x rs,
          Chain-below (s.lba + s.blocks) (c.lba + c.blocks) x subs ch,
        )),
  )

sub_loop-Leaves :
    (e considering : Extent) (subs holes : List Extent)
    → IsRange considering
    → Inside considering e
    → Chain considering.lba (considering.lba + considering.blocks) subs
    → Parts e holes
    → Leaves e considering subs holes (sub_loop considering subs holes)
sub_loop-Leaves e c [] holes r i ch p =
    unfold sub_loop in
    (
      append_valid holes c,
      refl,
      append_valid-Parts e c holes p (λ v. (r, i)),
      λ x. ground (arith, any_contains-append_valid holes c x),
    )
sub_loop-Leaves e c (s ∷ subs) holes r i (rs, l, u, ch) p =
    elim (Bool-cases (is_valid (after c s))) [
      | inl v ↦
          let (r', i') = after-Part e c s r i (ground arith) v in
          let (bl, bu) = after_bounds c s r (ground arith) v in
          step_more e c s subs holes r i rs (ground arith) ch p v (
            sub_loop-Leaves e (after c s) subs (append_valid holes (before c s)) r' i'
              (Chain-at _ _ _ _ subs bl bu ch)
              (append_valid-Parts e (before c s) holes p (before-Part e c s r i (ground arith))))
      | inr v ↦ step_done e c s subs holes r i rs (ground arith) ch p v
    ]

-- When `e` is not empty and does not reach the end of the address space, and the extents to subtract are
-- nonempty parts of `e` that share no block, in whatever order they come, `SubMany` succeeds. It returns
-- parts of `e`, which hold exactly the blocks of `e` that none of the subtracted ones holds.
pub contains-sub_many :
    (e : Extent) (subs : List Extent)
    → IsRange e
    → Parts e subs
    → Scattered subs
    → (holes : List Extent) × (sub_many e subs ≡ some holes)
      × Parts e holes
      × ((x : ℕ) → any_contains holes x ≡ (contains e x && not (any_contains subs x)))
unfolding sub_many
contains-sub_many e subs r p s =
    let (holes, eq, ps, h) =
      sub_loop-Leaves e e (sort_extents subs) [] r (omega arith) (sort_extents-Chain e subs p s)
        tt in
    (holes, eq, ps, λ x. h x ∙ rw (any_contains-sort subs x))
