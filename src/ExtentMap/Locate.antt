-- ===== src/ExtentMap/Locate.antt =====
-- Where the first loop of `update` starts: at the last entry that begins before the new range.
use lsvd.Base.{
  ℕ, ◌≤◌, ◌<◌, ◌≡◌, refl, List, [], ◌∷◌, ◌++◌, arith, inl, inr, ap, ◌⊎◌, compare_le, false,
}
use lsvd.Extent.{Extent}
use lsvd.Compact.{CompactPe, live}
use lsvd.Compact.Live.{IsLive, live_lem}
use lsvd.TreeMap.Entries.{AtLeast, Below}
use lsvd.ExtentMap.Carve.{end_of, Entries, hides, carve, hidden, touching, Entries-AtLeast}

-- The entry and what lies on both sides of it. No entry before it reaches the range.
pub record Located (rng : Extent) (n : ℕ) (es : List (ℕ × CompactPe)) : Type 0 where
  pub pre : List (ℕ × CompactPe)
  pub key : ℕ
  pub cur : CompactPe
  pub post : List (ℕ × CompactPe)
  pub split : es ≡ pre ++ (key, cur) ∷ post
  pub after_n : n ≤ key
  pub low : key < rng.lba
  pub is_live : IsLive cur
  pub keyed : key ≡ (live cur).lba
  pub pre_below : Below key pre
  pub post_from : AtLeast rng.lba post
  pub post_entries : Entries (end_of (live cur)) post
  pub carve_pre : (r : List (ℕ × CompactPe)) → carve rng (pre ++ r) ≡ pre ++ carve rng r
  pub hidden_pre : (r : List (ℕ × CompactPe)) → hidden rng (pre ++ r) ≡ hidden rng r
  pub touching_pre : (r : List (ℕ × CompactPe)) → touching rng (pre ++ r) ≡ touching rng r

pub locate :
    (rng : Extent) (n : ℕ) (es : List (ℕ × CompactPe))
    → Entries n es
    → AtLeast rng.lba es ⊎ Located rng n es
locate rng n [] w = inl tt
locate rng n ((k, c) ∷ es) (l, e, o, w) = elim (compare_le k rng.lba) [
  | inr at ↦ inl (at, Entries-AtLeast rng.lba (end_of (live c)) es (omega (arith, live_lem c l)) w)
  | inl low ↦ elim (locate rng (end_of (live c)) es w) [
    | inl at ↦ inr (record {
      pre = [];
      key = k;
      cur = c;
      post = es;
      split = refl;
      after_n = o;
      low = low;
      is_live = l;
      keyed = e;
      pre_below = tt;
      post_from = at;
      post_entries = w;
      carve_pre = λ r. refl;
      hidden_pre = λ r. refl;
      touching_pre = λ r. refl;
    })
    | inr d ↦
        let apart : hides rng c ≡ false = ground (arith, d.low, d.after_n) in
        inr (record {
          pre = (k, c) ∷ d.pre;
          key = d.key;
          cur = d.cur;
          post = d.post;
          split = ap (◌∷◌ (k, c)) d.split;
          after_n = omega (arith, live_lem c l, d.after_n);
          low = d.low;
          is_live = d.is_live;
          keyed = d.keyed;
          pre_below = (omega (arith, live_lem c l, d.after_n), d.pre_below);
          post_from = d.post_from;
          post_entries = d.post_entries;
          carve_pre = λ r. rw apart (ap (◌∷◌ (k, c)) (d.carve_pre r));
          hidden_pre = λ r. rw apart (d.hidden_pre r);
          touching_pre = λ r. rw apart (d.touching_pre r);
        })
  ]
]
