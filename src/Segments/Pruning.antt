-- ===== src/Segments/Pruning.antt =====
-- segments.go: `PruneDeadSegments` and `FindDeleted`, after which the disk removes the files of the
-- segments, against the blocks that the extent map still finds in them.
use lsvd.Base.{
  ℕ, ◌+◌, ◌<◌, ◌≡◌, refl, List, [], ◌∷◌, ◌∙◌, sym, ap, arith, ◌==◌, if◌then◌else◌, inl, inr, Bool,
  Bool-cases, true, false, Option, some, none,
}
use lsvd.Extent.{contains}
use lsvd.Extent.Range.{contains_lem}
use lsvd.Location.{SegmentId, ExtentLocation}
use lsvd.Compact.{CompactPe, live}
use lsvd.Compact.Live.{live-IsRange}
use lsvd.TreeMap.{TreeMap}
use lsvd.ExtentMap.{ExtentMap, SegTable, location_of}
use lsvd.ExtentMap.Carve.{end_of, Entries}
use lsvd.ExtentMap.Blocks.{block_at}
use lsvd.ExtentMap.Usage.{used_blocks}
use lsvd.ExtentMap.Setting.{find_block}
use lsvd.Segments.{Segment, Segments, find, bury, prune_dead_segments, marked, delete, find_deleted}
use lsvd.Segments.Find.{Charged}
use lsvd.Segments.Committing.{Accounts}
use mathlib.Core.List.{foldl}
use mathlib.Core.Option

-- Each key of the map once.
abbrev pub Distinct : Segments → Type 0
Distinct [] = Unit {0}
Distinct ((k, g) ∷ ss) = (find k ss ≡ none) × Distinct ss

abbrev pub listed : SegmentId → List SegmentId → Bool
listed s [] = false
listed s (k ∷ ks) = if k == s then true else listed s ks

find-prune :
    (s : SegmentId) (ss : Segments)
    → find s (prune_dead_segments ss).0 ≡ Option.map bury (find s ss)
unfolding find prune_dead_segments
find-prune s [] = refl
find-prune s ((k, g) ∷ ss) = elim (Bool-cases (k == s)) [
  | inl e ↦ rw e refl
  | inr e ↦ rw e (find-prune s ss)
]

prune-Distinct : (ss : Segments) → Distinct ss → Distinct (prune_dead_segments ss).0
unfolding prune_dead_segments
prune-Distinct [] d = tt
prune-Distinct ((k, g) ∷ ss) (n, d) =
    (find-prune k ss ∙ ap (Option.map bury) n, prune-Distinct ss d)

find-delete :
    (s k : SegmentId) (ss : Segments) → find s (delete ss k) ≡ (if k == s then none else find s ss)
unfolding find delete
find-delete s k [] = ground arith
find-delete s k ((j, g) ∷ ss) = ground (arith, find-delete s k ss)

find-delete_all :
    (s : SegmentId) (ks : List SegmentId) (ss : Segments)
    → find s (foldl delete ss ks) ≡ (if listed s ks then none else find s ss)
find-delete_all s [] ss = refl
find-delete_all s (k ∷ ks) ss =
    find-delete_all s ks (delete ss k) ∙ ground (arith, find-delete s k ss)

-- Only segments of the map are marked,
listed_missing : (s : SegmentId) (ss : Segments) → find s ss ≡ none → listed s (marked ss) ≡ false
unfolding find
listed_missing s [] f = refl
listed_missing s ((k, h) ∷ ss) f = elim (Bool-cases (k == s)) [
  | inl e ↦ absurd (ground arith)
  | inr e ↦ ground (arith, listed_missing s ss (rw e at f))
]

-- and only if they are deleted.
listed-marked :
    (s : SegmentId) (g : Segment) (ss : Segments)
    → Distinct ss
    → find s ss ≡ some g
    → g.deleted ≡ false
    → listed s (marked ss) ≡ false
unfolding find
listed-marked s g [] d f e = refl
listed-marked s g ((k, h) ∷ ss) (n, d) f e = elim (Bool-cases (k == s)) [
  | inl q ↦
      let same : k ≡ s = ground arith in
      let here : h ≡ g = ground arith in ground (arith, listed_missing s ss (rw same at n))
  | inr q ↦ ground (arith, listed-marked s g ss d (rw q at f) e)
]

-- A segment in which the map finds a block is in use.
block_at-used :
    (t : SegTable) (n : ℕ) (es : List (ℕ × CompactPe)) (x : ℕ) (l : ExtentLocation)
    → Entries n es
    → block_at t es x ≡ some l
    → 0 < used_blocks t l.segment es
block_at-used t n [] x l w h = cc
block_at-used t n ((k, c) ∷ es) x l (v, e, o, w) h = elim (Bool-cases (contains (live c) x)) [
  | inl f ↦
      let same : location_of t c ≡ l = ground arith in
      rw (sym same) (ground (arith, contains_lem (live c) x (live-IsRange c v), live-IsRange c v))
  | inr f ↦ omega (arith, block_at-used t (end_of (live c)) es x l w (rw f at h))
]

module _ (T : TreeMap CompactPe) (em : ExtentMap T.Map) (ss : Segments)
    (a : Accounts T em ss []) where
  -- A recorded segment that the map finds a block in is not dead.
  in_use :
      (x : ℕ) (l : ExtentLocation) (g : Segment)
      → find_block T em x ≡ some l
      → find l.segment ss ≡ some g
      → (g.deleted ≡ false) × (0 < g.used)
  in_use x l g h f =
      let used = block_at-used em.table 0 (T.entries em.m) x l a.ordered.ordered h in
      let charged : Charged (0 + used_blocks em.table l.segment (T.entries em.m)) (some g) =
        rw f at (a.charged l.segment) in
      ground (arith, Bool-cases g.deleted)

  bury-Charged : (n : ℕ) (o : Option Segment) → Charged n o → Charged n (Option.map bury o)
  bury-Charged n none h = tt
  bury-Charged n (some g) h = elim (Bool-cases g.deleted) [
    | inl d ↦ ground arith
    | inr d ↦ ground arith
  ]

-- If the recorded usage of every segment is the number of blocks that the map uses of it, it still is
-- after the dead segments are pruned.
pub prune-Accounts :
    (T : TreeMap CompactPe) (em : ExtentMap T.Map) (ss : Segments)
    → Accounts T em ss []
    → Accounts T em (prune_dead_segments ss).0 []
prune-Accounts T em ss a = record {
  ordered = a.ordered;
  charged = λ s. rw (find-prune s ss) (bury-Charged T em ss a _ (find s ss) (a.charged s));
}

-- Let the recorded usage of every segment be the number of blocks that the map uses of it. When the dead
-- segments are pruned and the deleted ones are taken out, a recorded segment in which the map finds a
-- block is not among those returned, and its record stays as it was.
pub find_deleted-Keeps :
    (T : TreeMap CompactPe) (em : ExtentMap T.Map) (ss : Segments) (x : ℕ) (l : ExtentLocation)
    (g : Segment)
    → Accounts T em ss []
    → Distinct ss
    → find_block T em x ≡ some l
    → find l.segment ss ≡ some g
    → (listed l.segment (find_deleted (prune_dead_segments ss).0).1 ≡ false)
      × (find l.segment (find_deleted (prune_dead_segments ss).0).0 ≡ some g)
unfolding find_deleted
find_deleted-Keeps T em ss x l g a d h f =
    let pruned = (prune_dead_segments ss).0 in
    let (live, used) = in_use T em ss a x l g h f in
    let alive : bury g ≡ g = ground arith in
    let kept : find l.segment pruned ≡ some g =
      find-prune l.segment ss ∙ ap (Option.map bury) f ∙ ap some alive in
    let spared : listed l.segment (marked pruned) ≡ false =
      listed-marked l.segment g pruned (prune-Distinct ss d) kept live in
    (spared, find-delete_all l.segment (marked pruned) pruned ∙ rw (spared, kept) refl)
