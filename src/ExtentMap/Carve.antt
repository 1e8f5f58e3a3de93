-- ===== src/ExtentMap/Carve.antt =====
-- The specification of `update` on the list of entries: a range is cut out of every entry.
use lsvd.Base.{
  ℕ, ◌+◌, ◌-◌, ◌≤◌, ◌<◌, ◌≡◌, refl, ap, ◌∙◌, Bool, true, ◌&&◌, List, [], ◌∷◌, ◌++◌, arith, ltb,
  if◌then◌else◌,
}
use lsvd.Extent.{Extent}
use lsvd.Extent.Range.{IsRange}
use lsvd.Extent.Overlap.{overlap}
use lsvd.Compact.{CompactPe, live, live_lba}
use lsvd.Compact.Live.{live-with_live, IsLive, Fits, with_live, live_lem, phys-lt}
use lsvd.TreeMap.Entries.{AtLeast}

-- The first block behind an extent.
abbrev pub end_of : Extent → ℕ
end_of e = e.lba + e.blocks

-- Entries in order, from block `n` on: live, at the key of their first live block, not overlapping.
abbrev pub Entries : ℕ → List (ℕ × CompactPe) → Type 0
Entries n [] = Unit {0}
Entries n ((k, c) ∷ es) = IsLive c × (k ≡ (live c).lba) × (n ≤ k) × Entries (end_of (live c)) es

-- Does the range hide a block of the entry?
abbrev pub hides : Extent → CompactPe → Bool
hides rng c = ltb (live c).lba (end_of rng) && ltb rng.lba (end_of (live c))

-- What is left of an extent before and behind the range.
abbrev pub left_of : Extent → Extent → Extent
left_of rng e = record { lba = e.lba; blocks = rng.lba - e.lba }

abbrev pub right_of : Extent → Extent → Extent
right_of rng e = record { lba = end_of rng; blocks = end_of e - end_of rng }

abbrev pub behind : Extent → CompactPe → List CompactPe
behind rng c =
    if ltb (end_of rng) (end_of (live c)) then with_live c (right_of rng (live c)) ∷ [] else []

abbrev pub lefts : Extent → ℕ → CompactPe → List (ℕ × CompactPe)
lefts rng k c =
    if ltb (live c).lba rng.lba then (k, with_live c (left_of rng (live c))) ∷ [] else []

abbrev pub rights : Extent → CompactPe → List (ℕ × CompactPe)
rights rng c =
    if ltb (end_of rng) (end_of (live c))
    then (end_of rng, with_live c (right_of rng (live c))) ∷ []
    else []

abbrev pub carve : Extent → List (ℕ × CompactPe) → List (ℕ × CompactPe)
carve rng [] = []
carve rng ((k, c) ∷ es) =
    (if hides rng c then lefts rng k c ++ rights rng c else (k, c) ∷ []) ++ carve rng es

-- The hidden part of each entry, as an entry.
abbrev pub hidden : Extent → List (ℕ × CompactPe) → List CompactPe
hidden rng [] = []
hidden rng ((k, c) ∷ es) =
    (if hides rng c then with_live c (overlap (live c) rng) ∷ [] else []) ++ hidden rng es

-- The entries that the range hides something of.
abbrev pub touching : Extent → List (ℕ × CompactPe) → List CompactPe
touching rng [] = []
touching rng ((k, c) ∷ es) = (if hides rng c then c ∷ [] else []) ++ touching rng es

pub live_lba_lem : (c : CompactPe) → live_lba c ≡ (live c).lba
unfolding live
live_lba_lem c = refl

-- To set the live range that an entry has already changes nothing.
pub with_live_self : (c : CompactPe) → IsLive c → with_live c (live c) ≡ c
with_live_self c l = ground (arith, live_lem c l, phys-lt c)

-- Entries behind the range stay as they are.
pub beyond :
    (rng : Extent) (n : ℕ) (es : List (ℕ × CompactPe))
    → end_of rng ≤ n
    → Entries n es
    → (carve rng es ≡ es) × (hidden rng es ≡ [])
beyond rng n [] h w = (refl, refl)
beyond rng n ((k, c) ∷ es) h (l, e, o, w) =
    ground (arith, live_lem c l, beyond rng (end_of (live c)) es (omega (arith, live_lem c l)) w)

pub touching_beyond :
    (rng : Extent) (n : ℕ) (es : List (ℕ × CompactPe))
    → end_of rng ≤ n
    → Entries n es
    → touching rng es ≡ []
touching_beyond rng n [] h w = refl
touching_beyond rng n ((k, c) ∷ es) h (l, e, o, w) =
    ground (
      arith,
      live_lem c l,
      touching_beyond rng (end_of (live c)) es (omega (arith, live_lem c l)) w,
    )

-- The parts of an entry that the range hides from fit into it.
pub overlap-Fits :
    (c : CompactPe) (rng : Extent)
    → IsLive c
    → hides rng c ≡ true
    → IsRange rng
    → Fits c (overlap (live c) rng)
overlap-Fits c rng l h r = ground (arith, live_lem c l)

pub right_of-Fits :
    (c : CompactPe) (rng : Extent)
    → IsLive c
    → hides rng c ≡ true
    → end_of rng < end_of (live c)
    → Fits c (right_of rng (live c))
right_of-Fits c rng l h b = ground (arith, live_lem c l)

pub left_of-Fits :
    (c : CompactPe) (rng : Extent)
    → IsLive c
    → hides rng c ≡ true
    → (live c).lba < rng.lba
    → Fits c (left_of rng (live c))
left_of-Fits c rng l h b = ground (arith, live_lem c l)

pub live_lba-right :
    (c : CompactPe) (rng : Extent)
    → IsLive c
    → hides rng c ≡ true
    → end_of rng < end_of (live c)
    → live_lba (with_live c (right_of rng (live c))) ≡ end_of rng
live_lba-right c rng l h b =
    live_lba_lem (with_live c (right_of rng (live c)))
    ∙ ap (λ (e : Extent). e.lba)
        (live-with_live c (right_of rng (live c)) (right_of-Fits c rng l h b))

pub Entries-AtLeast : (a n : ℕ) (es : List (ℕ × CompactPe)) → a ≤ n → Entries n es → AtLeast a es
Entries-AtLeast a n [] h w = tt
Entries-AtLeast a n ((k, c) ∷ es) h (l, e, o, w) =
    (omega arith, Entries-AtLeast a (end_of (live c)) es (omega (arith, live_lem c l)) w)
