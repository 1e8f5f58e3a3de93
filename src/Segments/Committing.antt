-- ===== src/Segments/Committing.antt =====
-- A committed segment, against the block map and the usage of the segments.
use lsvd.Base.{
  ℕ, ◌+◌, ◌≤◌, ◌<◌, ◌^◌, ◌≡◌, refl, List, [], ◌∷◌, ◌∙◌, sym, ap, arith, ◌==◌, if◌then◌else◌, inl,
  inr, Bool-cases, false, Option, some, All, length,
}
use lsvd.Base.Outcome.{ok}
use lsvd.Extent.{contains}
use lsvd.Location.{SegmentId, ExtentLocation}
use lsvd.Compact.{CompactPe}
use lsvd.Compact.Limits.{IsCompact}
use lsvd.TreeMap.{TreeMap}
use lsvd.ExtentMap.{ExtentMap}
use lsvd.ExtentMap.Usage.{share, used_blocks, pe_blocks}
use lsvd.ExtentMap.Setting.{IsMap, find_block}
use lsvd.ExtentMap.Replacing.{update-Replaces}
use lsvd.Segments.{Segments, find, create, update_usage}
use lsvd.Segments.Find.{Charged, update_usage-Charged, find-put}
use lsvd.Segments.Commit.{update_batch, commit}

-- The blocks of a segment in a list of extents.
abbrev pub pending : SegmentId → List ExtentLocation → ℕ
pending s [] = 0
pending s (l ∷ ls) = share s l l.header.extent + pending s ls

-- Where a block lies when the extents are written in their order.
abbrev pub latest : List ExtentLocation → ℕ → Option ExtentLocation → Option ExtentLocation
latest [] x o = o
latest (l ∷ ls) x o = latest ls x (if contains l.header.extent x then some l else o)

abbrev pub AllCompact : List ExtentLocation → Type 0
AllCompact = All (λ l. IsCompact l.header.extent)

module _ (T : TreeMap CompactPe) where
  open T use {Map, entries}

  -- The recorded usage of each segment is what the map uses of it and what is yet to come to the map.
  pub record Accounts (em : ExtentMap Map) (ss : Segments) (todo : List ExtentLocation)
      : Type 0 where
    pub ordered : IsMap T em
    pub charged :
        (s : SegmentId)
        → Charged (pending s todo + used_blocks em.table s (entries em.m)) (find s ss)

  abbrev pub Settles : ExtentMap Map → Segments → List ExtentLocation → Type 0
  Settles em ss todo =
      (em' : ExtentMap Map) × (ss' : Segments) × (update_batch T em todo ss ≡ ok (em', ss'))
      × Accounts em' ss' []
      × ((x : ℕ) → find_block T em' x ≡ latest todo x (find_block T em x))

  pub update_batch-Settles :
      (em : ExtentMap Map) (ss : Segments) (todo : List ExtentLocation)
      → Accounts em ss todo
      → length em.table.by_desc + length todo ≤ 2 ^ 32
      → AllCompact todo
      → Settles em ss todo
  unfolding update_batch
  update_batch-Settles em ss [] a room c = (em, ss, refl, a, λ x. refl)
  update_batch-Settles em ss (l ∷ todo) a room (c, cs) =
      let (em', old, run, w, blocks, former, usage, grows) =
        update-Replaces T em l [] a.ordered (omega arith) c in
      let rest : Accounts em' (update_usage old ss) todo = record {
        ordered = w;
        charged = λ s.
            let sum : pending s (l ∷ todo) + used_blocks em.table s (entries em.m)
                ≡ pe_blocks s old + (pending s todo + used_blocks em'.table s (entries em'.m)) =
              omega (arith, usage s) in
            update_usage-Charged old ss s _ (rw sum at (a.charged s));
      } in
      let (em'', ss', run', a', blocks') =
        update_batch-Settles em' (update_usage old ss) todo rest (omega arith) cs in
      (em'', ss', rw (run, run') refl, a', λ x. blocks' x ∙ ap (latest todo x) (blocks x))

pending_foreign :
    (seg s : SegmentId) (todo : List ExtentLocation)
    → All (λ l. l.segment ≡ seg) todo
    → (seg == s) ≡ false
    → pending s todo ≡ 0
pending_foreign seg s [] o e = refl
pending_foreign seg s (l ∷ todo) (o, os) e =
    rw (o, e) (omega (arith, pending_foreign seg s todo os e))

-- Let the map be in order and the recorded usage of every segment the number of blocks that the map uses
-- of it. When a new segment is committed that the map does not use yet, with extents of its own of 1 to
-- 2 ^ 16 - 1 blocks below block 2 ^ 32, their total number of blocks, and room for their indices, no error
-- occurs. Both properties hold afterwards, and each block lies where the last of the extents that holds
-- it says, or where it lay before if none does.
pub commit-Settles :
    (T : TreeMap CompactPe) (em : ExtentMap T.Map) (ss : Segments) (seg : SegmentId) (blocks : ℕ)
    (todo : List ExtentLocation)
    → Accounts T em ss []
    → used_blocks em.table seg (T.entries em.m) ≡ 0
    → All (λ l. l.segment ≡ seg) todo
    → blocks ≡ pending seg todo
    → blocks < 2 ^ 64
    → AllCompact todo
    → length em.table.by_desc + length todo ≤ 2 ^ 32
    → (em' : ExtentMap T.Map) × (ss' : Segments) × (commit T seg blocks todo em ss ≡ ok (em', ss'))
      × Accounts T em' ss' []
      × ((x : ℕ) → find_block T em' x ≡ latest todo x (find_block T em x))
unfolding commit create
commit-Settles T em ss seg blocks todo a fresh own total small c room =
    update_batch-Settles T em (create seg blocks ss) todo created room c
  where
    created : Accounts T em (create seg blocks ss) todo
    created = record {
      ordered = a.ordered;
      charged = λ s.
          rw (find-put s seg (record { size = blocks; used = blocks; deleted = false }) ss)
            (elim (Bool-cases (seg == s)) [
              | inl e ↦
                  let same : s ≡ seg = ground arith in rw (e, same) (ground (arith, fresh, total))
              | inr e ↦ rw e (rw (sym (pending_foreign seg s todo own e)) at (a.charged s))
            ]);
    }
