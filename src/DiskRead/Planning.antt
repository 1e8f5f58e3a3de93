-- ===== src/DiskRead/Planning.antt =====
-- disk.go: the loop of `ReadExtentInto` over the holes, against the extent map.
use lsvd.Base.{
  ℕ, ◌/◌, ◌≡◌, refl, sym, Bool, ◌&&◌, ◌||◌, List, [], ◌∷◌, none, arith, Bool-cases, inl, inr, true,
  false, All,
}
use lsvd.Base.Outcome.{Outcome, ok, err, panic, ◌>>=◌}
use lsvd.Extent.{Extent, contains}
use lsvd.Extent.Subtract.{any_contains}
use lsvd.Location.{PartialExtent}
use lsvd.Compact.{CompactPe}
use lsvd.TreeMap.{TreeMap}
use lsvd.ExtentMap.{ExtentMap, to_pe}
use lsvd.ExtentMap.Resolve.{resolve}
use lsvd.ExtentMap.Carve.{touching}
use lsvd.ExtentMap.Blocks.{pe_at}
use lsvd.ExtentMap.Setting.{IsMap, find_block}
use lsvd.ExtentMap.Parts.{Found, resolve-Found}
use lsvd.RangeData.{RangeData}
use lsvd.Builder.Fill.{ReadError}
use lsvd.Builder.Filling.{Decoded}
use lsvd.Builder.Filled.{is_some}
use lsvd.DiskRead.Requests.{
  ReadRequest, Plan, direct, requests, gather_parts, fast_path, gather_holes,
}
use lsvd.DiskRead.Gathering.{
  asked, IsHole, IsGathered, Gathers, Kept, clear_part-Settled, gather_parts-Gathers,
}
use mathlib.Core.List.{map}

-- The parts that are found for a hole do not lead to the fast path.
abbrev pub Slow : List Extent → Extent → List PartialExtent → Type 0
Slow holes rng [] = Unit {0}
Slow holes rng (pe ∷ pes) = fast_path holes rng pe pes ≡ false

module _ (T : TreeMap CompactPe) (ds : Decoded) (em : ExtentMap T.Map) (m : IsMap T em) (E : Extent)
    (b : List ℕ) (holes : List Extent) (kept : Kept ds (find_block T em) E b holes) where
  -- The blocks of holes that segments have.
  abbrev later : List Extent → ℕ → Bool
  later hs x = is_some (find_block T em x) && any_contains hs x

  unfoldable pub Plans : Outcome ReadError Plan → Type 0
  Plans (ok (direct pe dest)) = ⊥
  Plans (ok (requests dest reqs)) = IsGathered ds (find_block T em) E b holes (λ x. false) dest reqs
  Plans (err e) = ⊥
  Plans panic = ⊥

  gathered-Plans :
      (hs : List Extent)
      → ((dest : RangeData) (reqs : List ReadRequest)
          → IsGathered ds (find_block T em) E b holes (later hs) dest reqs
          → Plans (gather_holes T em holes hs dest reqs))
      → (x : Outcome ReadError (RangeData × List ReadRequest))
      → Gathers ds (find_block T em) E b holes (later hs) x
      → Plans (x >>= λ g. gather_holes T em holes hs g.0 g.1)
  unfolding Gathers Plans
  gathered-Plans hs ih (ok (dest, reqs)) g = ih dest reqs g
  gathered-Plans hs ih (err e) g = g
  gathered-Plans hs ih panic g = g

  hole-Plans :
      (h : Extent) (hs : List Extent) (ps : List PartialExtent) (dest : RangeData)
      (reqs : List ReadRequest)
      → Found T em h ps
      → IsHole ds (find_block T em) E b holes h
      → Slow holes E ps
      → ((dest : RangeData) (reqs : List ReadRequest)
          → IsGathered ds (find_block T em) E b holes (later hs) dest reqs
          → Plans (gather_holes T em holes hs dest reqs))
      → IsGathered ds (find_block T em) E b holes (later (h ∷ hs)) dest reqs
      → Plans (gather_holes T em holes (h ∷ hs) dest reqs)
  unfolding gather_holes Plans
  hole-Plans h hs [] dest reqs f i slow ih (c, e, l, a, settled) =
      let no_block : (x : ℕ) → contains h x ≡ true → find_block T em x ≡ none =
        λ x here. rw here at (sym (f.at x)) in
      let (dest1, c1, eq, e1, l1, settled1) =
        clear_part-Settled ds (find_block T em) E b holes (λ x. later (h ∷ hs) x || asked reqs x)
          (λ x. later hs x || asked reqs x) dest c h e l i.0
          (λ q here there. rw (i.2 (q / 4096) there, no_block (q / 4096) there) refl)
          (λ x away h'. rw away h') settled in
      rw (f.resolved, gather_holes, eq) (ih dest1 reqs (c1, e1, l1, a, settled1))
  hole-Plans h hs (pe ∷ pes) dest reqs f i slow ih (c, e, l, a, settled) =
      let gathers =
        gather_parts-Gathers ds (find_block T em) E b holes h i kept (later hs) 0 (pe ∷ pes) dest c
          reqs f.parts f.touches f.stored e l a
          (λ q here nothing. settled q here (covers (q / 4096) nothing)) in
      rw (f.resolved, gather_holes, e, slow)
        (gathered-Plans hs ih (gather_parts h (pe ∷ pes) dest reqs) gathers)
    where
      covers :
          (x : ℕ)
          → ((later hs x || (contains h x && is_some (pe_at (pe ∷ pes) x))) || asked reqs x) ≡ false
          → (later (h ∷ hs) x || asked reqs x) ≡ false
      covers x nothing = elim (Bool-cases (contains h x)) [
        | inl here ↦
            let same : pe_at (pe ∷ pes) x ≡ find_block T em x = rw here at (f.at x) in
            rw (here, sym same) (ground (arith, rw (here, same) at nothing))
        | inr away ↦ rw away (ground (arith, rw away at nothing))
      ]

  pub gather_holes-Plans :
      (hs : List Extent) (dest : RangeData) (reqs : List ReadRequest)
      → All (IsHole ds (find_block T em) E b holes) hs
      → All (λ h. Slow holes E (resolve T em h [])) hs
      → IsGathered ds (find_block T em) E b holes (later hs) dest reqs
      → Plans (gather_holes T em holes hs dest reqs)
  unfolding gather_holes Plans
  gather_holes-Plans [] dest reqs i s (c, e, l, a, settled) =
      (c, e, l, a, λ q here nothing. settled q here (ground (arith, nothing)))
  gather_holes-Plans (h ∷ hs) dest reqs (i, more) (s, ss) g =
      let f = resolve-Found T em h i.0 m in
      hole-Plans h hs (map (to_pe em.table) (touching h (T.entries em.m))) dest reqs f i
        (rw f.resolved at s) (λ dest1 reqs1. gather_holes-Plans hs dest1 reqs1 more ss) g
