-- ===== src/ExtentMap/Run.antt =====
-- extent_map.go, `update`: the collected changes, carried out on the map.
use lsvd.Base.{ℕ, suc, ◌≤◌, ◌<◌, ◌≡◌, refl, List, [], ◌∷◌, ◌++◌, ◌∙◌, ap, arith}
use lsvd.Base.Outcome.{ok}
use lsvd.Extent.{Extent}
use lsvd.Extent.Range.{IsRange}
use lsvd.Location.{PartialExtent}
use lsvd.Compact.{CompactPe, live, live_lba}
use lsvd.Compact.Live.{live_lem}
use lsvd.TreeMap.{TreeMap}
use lsvd.TreeMap.Entries.{Sorted, Below, from_lower_bound-append, insert_front, insert-append}
use lsvd.ExtentMap.{ExtentMap, SegTable, Scratch, to_pe, floor_loop, lower_loop, del_all, set_all}
use lsvd.ExtentMap.Carve.{end_of, Entries, carve, hidden, beyond, Entries-AtLeast}
use lsvd.ExtentMap.Lower.{doomed, readded, written, lower_loop_lem, lower_result, beyond_lists}
use lsvd.ExtentMap.Apply.{
  Below-mono, replace_all, erase_all, insert_all, replace_all-append, erase_all-append,
  insert_all-append, lower-Keys, apply_lower,
}
use mathlib.Core.List.{map, foldl}

pub Entries-Sorted : (n : ℕ) (es : List (ℕ × CompactPe)) → Entries n es → Sorted n es
Entries-Sorted n [] w = tt
Entries-Sorted n ((k, c) ∷ es) (l, e, o, w) = (
  o,
  lower-bound (suc k) (end_of (live c)) es (omega (arith, live_lem c l))
      (Entries-Sorted (end_of (live c)) es w),
)
  where
    lower-bound : (a b : ℕ) (fs : List (ℕ × CompactPe)) → a ≤ b → Sorted b fs → Sorted a fs
    lower-bound a b [] h s = tt
    lower-bound a b ((j, d) ∷ fs) h (m, s) = (omega arith, s)

module _ (T : TreeMap CompactPe) where
  open T use {
    Map, entries, write, set, del, lower_bound, floor, entries-write, entries-del, entries-set,
    floor_lem, lower_bound_lem,
  }

  entries-write_all :
      (m : Map) (ws : List (ℕ × CompactPe))
      → entries (foldl (λ m w. write m w.0 w.1) m ws) ≡ replace_all ws (entries m)
  entries-write_all m [] = refl
  entries-write_all m ((k, c) ∷ ws) =
      entries-write_all (write m k c) ws ∙ ap (replace_all ws) (entries-write m k c)

  entries-del_all : (m : Map) (ks : List ℕ) → entries (del_all T m ks) ≡ erase_all ks (entries m)
  unfolding del_all
  entries-del_all m [] = refl
  entries-del_all m (k ∷ ks) = entries-del_all (del m k) ks ∙ ap (erase_all ks) (entries-del m k)

  entries-set_all :
      (m : Map) (cs : List CompactPe) → entries (set_all T m cs) ≡ insert_all cs (entries m)
  unfolding set_all
  entries-set_all m [] = refl
  entries-set_all m (c ∷ cs) =
      entries-set_all (set m (live_lba c) c) cs ∙ ap (insert_all cs) (entries-set m (live_lba c) c)

  -- The map after the loops.
  abbrev pub applied : Scratch Map → Map
  applied s = set_all T (del_all T s.map s.to_delete) s.to_add

  -- What `update` has done before it sets the new entry.
  abbrev pub Cuts : ExtentMap Map → Extent → List PartialExtent → Type 0
  Cuts em rng aff =
      (s : Scratch Map) × (s' : Scratch Map) × (floor_loop T em.table rng (floor em.m rng.lba)
          (record { map = em.m; to_delete = []; to_add = []; affected = aff })
        ≡ ok s)
      × (lower_loop T em.table rng (lower_bound s.map rng.lba) s ≡ ok s')
      × (entries (applied s') ≡ carve rng (entries em.m))
      × (s'.affected ≡ aff ++ map (to_pe em.table) (hidden rng (entries em.m)))

  -- The second loop, over entries `es` behind the entries `ls`.
  module _ (t : SegTable) (rng : Extent) (r : IsRange rng) (n : ℕ) (ls es : List (ℕ × CompactPe))
      (low : Below rng.lba ls) (h : rng.lba ≤ n) (w : Entries n es) where
    pub lower_run :
        (s : Scratch Map)
        → entries s.map ≡ ls ++ es
        → lower_loop T t rng (lower_bound s.map rng.lba) s ≡ ok (lower_result T t rng r es s)
    lower_run s e =
        let at = Entries-AtLeast rng.lba n es h w in
        let found : lower_bound s.map rng.lba ≡ es =
          rw (lower_bound_lem s.map rng.lba, e) (from_lower_bound-append rng.lba ls es low at) in
        rw found (lower_loop_lem T t rng r n es s h w)

    entries-applied :
        (s : Scratch Map)
        → entries s.map ≡ ls ++ es
        → s.to_delete ≡ []
        → entries (applied (lower_result T t rng r es s))
          ≡ insert_all
              (s.to_add ++ readded rng es)
              (ls ++ erase_all (doomed rng es) (replace_all (written rng es) es))
    entries-applied s e d =
        let (p, q, u) = lower-Keys rng.lba n rng es h (omega arith) w in
        entries-set_all _ (s.to_add ++ readded rng es)
        ∙ ap (insert_all (s.to_add ++ readded rng es)) (
            entries-del_all _ (s.to_delete ++ doomed rng es)
            ∙ rw d (
                ap (erase_all (doomed rng es)) (
                  entries-write_all s.map (written rng es)
                  ∙ rw e (replace_all-append rng.lba ls low (written rng es) es p))
                ∙ erase_all-append rng.lba ls low (doomed rng es) (replace_all (written rng es) es)
                    q))

    -- Without an addition from the first loop,
    pub applied_plain :
        (s : Scratch Map)
        → entries s.map ≡ ls ++ es
        → s.to_delete ≡ []
        → s.to_add ≡ []
        → entries (applied (lower_result T t rng r es s)) ≡ ls ++ carve rng es
    applied_plain s e d a =
        let (p, q, u) = lower-Keys rng.lba n rng es h (omega arith) w in
        entries-applied s e d
        ∙ rw a (
            insert_all-append rng.lba ls low (readded rng es) _ u
            ∙ ap (◌++◌ ls) (apply_lower n rng es r h w))

    -- and with one, which leaves nothing to the second loop.
    pub applied_split :
        (s : Scratch Map) (c : CompactPe)
        → entries s.map ≡ ls ++ es
        → s.to_delete ≡ []
        → s.to_add ≡ c ∷ []
        → live_lba c ≡ end_of rng
        → end_of rng < n
        → entries (applied (lower_result T t rng r es s)) ≡ ls ++ (end_of rng, c) ∷ carve rng es
    applied_split s c e d a b past =
        let (p, q, u) = beyond_lists rng n es (omega arith) w in
        let v = (beyond rng n es (omega arith) w).0 in
        entries-applied s e d
        ∙ rw (a, p, q, u, v, b)
            (insert-append (end_of rng) c ls es
                (Below-mono rng.lba (end_of rng) ls (omega arith) low)
              ∙ ap (◌++◌ ls)
                  (insert_front (end_of rng) c es (Entries-AtLeast (suc (end_of rng)) n es past w)))
