-- ===== src/DiskRead/Gathering.antt =====
-- disk.go: what the loop of `ReadExtentInto` over the holes has done and what it leaves to the requests.
use lsvd.Base.{
  ℕ, ◌/◌, ◌≡◌, ◌≢◌, refl, sym, ◌∙◌, Bool, ◌&&◌, ◌||◌, ◌==◌, List, [], ◌∷◌, Option, some, arith,
  if◌then◌else◌, Bool-cases, inl, inr, true, false, All, All-append,
}
use lsvd.Base.Outcome.{Outcome, ok, err, panic}
use lsvd.Extent.{Extent, contains}
use lsvd.Extent.Range.{IsRange}
use lsvd.Extent.Overlap.{Inside}
use lsvd.Extent.Subtract.{any_contains}
use lsvd.Location.{ExtentLocation, PartialExtent}
use lsvd.ExtentMap.Carve.{end_of}
use lsvd.ExtentMap.Blocks.{pe_at}
use lsvd.ExtentMap.Parts.{IsPart, PartsFrom, Touches}
use lsvd.RangeData.{RangeData}
use lsvd.RangeData.Views.{IsLoaded, byte_at}
use lsvd.Builder.Fill.{ReadError}
use lsvd.Builder.Filling.{Decoded, stored_byte}
use lsvd.Builder.Filled.{Layer, is_some}
use lsvd.DiskRead.Layers.{any_contains-append}
use lsvd.DiskRead.Requests.{ReadRequest, clear_part, same_pe, add_request, gather_parts}
use lsvd.DiskRead.Emptying.{both, not_second, same_pe_lem, clear_part_lem}

-- The blocks that requests are for.
abbrev pub asked : List ReadRequest → ℕ → Bool
asked [] x = false
asked (r ∷ reqs) x = any_contains r.extents x && contains r.pe.live x || asked reqs x

asked-add_request :
    (pe : PartialExtent) (h : Extent) (reqs : List ReadRequest) (x : ℕ)
    → asked (add_request pe h reqs) x ≡ (contains h x && contains pe.live x || asked reqs x)
unfolding add_request
asked-add_request pe h [] x = ground arith
asked-add_request pe h (r ∷ reqs) x = elim (Bool-cases (same_pe r.pe pe)) [
  | inl same ↦
      rw (same, any_contains-append r.extents (h ∷ []) x, sym (same_pe_lem r.pe pe same))
        (ground arith)
  | inr other ↦ rw other (ground arith)
]

module _ (ds : Decoded) (M : Layer) (E : Extent) (b : List ℕ) (holes : List Extent) where
  -- The byte that reading should leave: of the segments in the holes, with zeros for what they do not have
  -- or have as empty, and the old one elsewhere.
  abbrev pub expected : ℕ → Option ℕ
  expected q =
      if any_contains holes (q / 4096)
      then stored_byte ds (M (q / 4096)) (some 0) q
      else byte_at E b q

  -- All bytes are as expected but those of the blocks of `todo`.
  abbrev pub Settled : (ℕ → Bool) → List ℕ → Type 0
  Settled todo c =
      (q : ℕ) → contains E (q / 4096) ≡ true → todo (q / 4096) ≡ false → byte_at E c q ≡ expected q

  abbrev pub IsHole : Extent → Type 0
  IsHole h = IsRange h × Inside h E × ((x : ℕ) → contains h x ≡ true → any_contains holes x ≡ true)

  pub record IsRequest (r : ReadRequest) : Type 0 where
    pub part : IsPart r.pe
    pub full : r.pe.location.header.size ≢ 0
    pub stored : (x : ℕ) → contains r.pe.live x ≡ true → M x ≡ some r.pe.location
    pub wanted : All (λ h. IsHole h × Touches h r.pe) r.extents

  add_request-IsRequest :
      (pe : PartialExtent) (h : Extent) (reqs : List ReadRequest)
      → IsPart pe
      → pe.location.header.size ≢ 0
      → ((x : ℕ) → contains pe.live x ≡ true → M x ≡ some pe.location)
      → IsHole h
      → Touches h pe
      → All IsRequest reqs
      → All IsRequest (add_request pe h reqs)
  unfolding add_request
  add_request-IsRequest pe h [] p f s i t a =
      (record { part = p; full = f; stored = s; wanted = ((i, t), tt) }, tt)
  add_request-IsRequest pe h (r ∷ reqs) p f s i t (a, more) = elim (Bool-cases (same_pe r.pe pe)) [
    | inl same ↦ rw same (
      record {
        part = a.part;
        full = a.full;
        stored = a.stored;
        wanted =
            All-append (λ h. IsHole h × Touches h r.pe) r.extents (h ∷ []) a.wanted
              ((i, rw (same_pe_lem r.pe pe same) t), tt);
      },
      more,
    )
    | inr other ↦
        rw other (record { part = p; full = f; stored = s; wanted = ((i, t), tt) }, (a, more))
  ]

  -- A range and requests, with the blocks that are neither settled nor asked for.
  abbrev pub IsGathered : (ℕ → Bool) → RangeData → List ReadRequest → Type 0
  IsGathered todo dest reqs =
      (c : List ℕ) × (dest.extent ≡ E)
      × IsLoaded dest c
      × All IsRequest reqs
      × Settled (λ x. todo x || asked reqs x) c

  unfoldable pub Gathers : (ℕ → Bool) → Outcome ReadError (RangeData × List ReadRequest) → Type 0
  Gathers todo (ok (dest, reqs)) = IsGathered todo dest reqs
  Gathers todo (err e) = ⊥
  Gathers todo panic = ⊥

  -- Outside of the holes no block is stored as empty.
  abbrev pub Kept : Type 0
  Kept =
      (x : ℕ) (l : ExtentLocation)
      → contains E x ≡ true
      → any_contains holes x ≡ false
      → M x ≡ some l
      → l.header.size ≢ 0

  -- Clearing settles blocks that are empty, or that no segment has and a hole holds.
  pub clear_part-Settled :
      (todo todo' : ℕ → Bool) (dest : RangeData) (c : List ℕ) (e : Extent)
      → dest.extent ≡ E
      → IsLoaded dest c
      → IsRange e
      → ((q : ℕ)
          → contains E (q / 4096) ≡ true
          → contains e (q / 4096) ≡ true
          → expected q ≡ some 0)
      → ((x : ℕ) → contains e x ≡ false → todo' x ≡ false → todo x ≡ false)
      → Settled todo c
      → (dest1 : RangeData) × (c1 : List ℕ) × (clear_part dest e ≡ ok dest1)
        × (dest1.extent ≡ E)
        × IsLoaded dest1 c1
        × Settled todo' c1
  clear_part-Settled todo todo' dest c e same l s zero_there fewer h =
      let (dest1, c1, eq, same1, l1, at) = clear_part_lem dest c e l s in
      (
        dest1,
        c1,
        eq,
        same1 ∙ same,
        l1,
        λ q here no'.
            let at' : byte_at E c1 q ≡ (
                if contains E (q / 4096) && contains e (q / 4096) then some 0 else byte_at E c q) =
              rw same at (at q) in
            elim (Bool-cases (contains e (q / 4096))) [
              | inl there ↦
                  at'
                  ∙ both (some 0) (byte_at E c q) (contains E (q / 4096)) (contains e (q / 4096))
                      here there
                  ∙ sym (zero_there q here there)
              | inr away ↦
                  at'
                  ∙ not_second (some 0) (byte_at E c q) (contains E (q / 4096))
                      (contains e (q / 4096)) away
                  ∙ h q here (fewer (q / 4096) away no')
            ],
      )

  module _ (h : Extent) (i : IsHole h) (kept : Kept) where
    pub gather_parts-Gathers :
        (todo : ℕ → Bool) (n : ℕ) (ps : List PartialExtent) (dest : RangeData) (c : List ℕ)
        (reqs : List ReadRequest)
        → PartsFrom n ps
        → All (Touches h) ps
        → All (λ p. (x : ℕ) → contains p.live x ≡ true → M x ≡ some p.location) ps
        → dest.extent ≡ E
        → IsLoaded dest c
        → All IsRequest reqs
        → Settled (λ x. (todo x || (contains h x && is_some (pe_at ps x))) || asked reqs x) c
        → Gathers todo (gather_parts h ps dest reqs)
    unfolding gather_parts Gathers
    gather_parts-Gathers todo n [] dest c reqs p t s e l a settled =
        (c, e, l, a, λ q here no'. settled q here (ground (arith, no')))
    gather_parts-Gathers todo n (pe ∷ ps) dest c reqs (p, o, ps') (t, ts) (s, ss) e l a settled =
        elim (Bool-cases (pe.location.header.size == 0)) [
          | inl nothing ↦
              let (dest1, c1, eq, e1, l1, settled1) =
                clear_part-Settled
                  (λ x. (todo x || (contains h x && is_some (pe_at (pe ∷ ps) x))) || asked reqs x)
                  (λ x. (todo x || (contains h x && is_some (pe_at ps x))) || asked reqs x) dest c
                  pe.live e l p.range (empties pe nothing s) (λ x away h'. rw away h') settled in
              rw (nothing, eq, gather_parts)
                (gather_parts-Gathers todo (end_of pe.live) ps dest1 c1 reqs ps' ts ss e1 l1 a
                  settled1)
          | inr something ↦
              rw (something, gather_parts)
                (gather_parts-Gathers todo (end_of pe.live) ps dest c (add_request pe h reqs) ps' ts
                  ss e l (add_request-IsRequest pe h reqs p (ground (arith, something)) s i t a)
                  (λ q here no'.
                    settled q here (ground (arith, no', asked-add_request pe h reqs (q / 4096)))))
        ]
      where
        empties :
            (pe : PartialExtent)
            → (pe.location.header.size == 0) ≡ true
            → ((x : ℕ) → contains pe.live x ≡ true → M x ≡ some pe.location)
            → (q : ℕ) → contains E (q / 4096) ≡ true
            → contains pe.live (q / 4096) ≡ true
            → expected q ≡ some 0
        empties pe nothing s q here live_here = elim (Bool-cases (any_contains holes (q / 4096))) [
          | inl hole ↦ rw (hole, s (q / 4096) live_here, nothing) refl
          | inr filled ↦ absurd (
              kept (q / 4096) pe.location here filled (s (q / 4096) live_here)
                (ground (arith, nothing)))
        ]
