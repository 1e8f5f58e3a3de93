-- ===== src/DiskRead/Fetching.antt =====
-- disk.go: `readPartialExtent`, and how the requests settle the blocks that they are for.
use lsvd.Base.{
  ℕ, ◌/◌, ◌<◌, ◌≡◌, refl, sym, ◌∙◌, Bool, ◌&&◌, ◌||◌, ◌==◌, List, [], ◌∷◌, some, arith,
  if◌then◌else◌, Bool-cases, inl, inr, true, false, All, ltb,
}
use lsvd.Base.Outcome.{Outcome, ok, err, panic}
use lsvd.Extent.{Extent, contains}
use lsvd.Extent.Range.{IsRange, contains_lem}
use lsvd.Extent.Overlap.{Inside, overlap, clamp-overlap}
use lsvd.Extent.Subtract.{any_contains}
use lsvd.Location.{ExtentLocation}
use lsvd.ExtentMap.Parts.{Touches}
use lsvd.RangeData.{RangeData}
use lsvd.RangeData.Views.{IsLoaded, byte_at, sub_range_lem}
use lsvd.RangeData.Copying.{copy_view_lem, after, moved, after-IsLoaded, byte_at-moved}
use lsvd.Builder.Fill.{ReadError}
use lsvd.Builder.Filling.{Decoded}
use lsvd.Builder.Filled.{Layer}
use lsvd.DiskRead.Requests.{ReadRequest}
use lsvd.DiskRead.Segments.{copy_overlap, copy_overlaps}
use lsvd.DiskRead.Gathering.{expected, Settled, IsHole, IsRequest}

-- A stored extent with all its bytes in memory.
abbrev pub IsFetched : Decoded → ExtentLocation → RangeData → Type 0
IsFetched ds l src = (src.extent ≡ l.header.extent) × IsLoaded src (ds.bytes l)

copy_overlap_lem :
    (dest src : RangeData) (b c : List ℕ) (live x : Extent)
    → IsLoaded dest b
    → IsLoaded src c
    → IsRange live
    → Inside live src.extent
    → IsRange x
    → Inside x dest.extent
    → 0 < (overlap live x).blocks
    → (dest1 : RangeData) × (b1 : List ℕ) × (copy_overlap dest src live x ≡ ok dest1)
      × (dest1.extent ≡ dest.extent)
      × IsLoaded dest1 b1
      × ((q : ℕ)
          → byte_at dest.extent b1 q ≡ (
              if contains live (q / 4096) && contains x (q / 4096)
              then byte_at src.extent c q
              else byte_at dest.extent b q))
unfolding copy_overlap
copy_overlap_lem dest src b c live x l m r j s i some_blocks =
    let o = overlap live x in
    let some_true : ltb 0 (overlap live x).blocks ≡ true = ground (arith, some_blocks) in
    let (t, k, k') : IsRange o × Inside o dest.extent × Inside o src.extent =
      omega (arith, r, s, some_blocks, i, j) in
    (
      after dest src b c o l m t k k',
      moved dest src b c o l m t k k',
      rw
          (
            clamp-overlap live x r s,
            copy_overlap,
            some_true,
            sub_range_lem dest b o l t k,
            sub_range_lem src c o m t k',
            copy_view_lem dest src b c o l m t k k' {E = ReadError},
          )
          refl,
      refl,
      after-IsLoaded dest src b c o l m t k k',
      λ q.
          byte_at-moved dest src b c o l m t k k' q
          ∙ ground (
            arith,
            contains_lem o (q / 4096) t,
            contains_lem live (q / 4096) r,
            contains_lem x (q / 4096) s,
          ),
    )

module _ (ds : Decoded) (M : Layer) (E : Extent) (b : List ℕ) (holes : List Extent) where
  -- What is left to settle afterwards, or an error of the readers.
  unfoldable pub Leads : (ℕ → Bool) → Outcome ReadError RangeData → Type 0
  Leads todo (ok dest) =
      (c : List ℕ) × (dest.extent ≡ E) × IsLoaded dest c × Settled ds M E b holes todo c
  Leads todo (err e) = ds.may_fail e ≡ true
  Leads todo panic = ⊥

  pub copy_overlaps-Leads :
      (r : ReadRequest) (src : RangeData) (xs : List Extent) (todo : ℕ → Bool) (dest : RangeData)
      (c : List ℕ)
      → IsRequest ds M E b holes r
      → IsFetched ds r.pe.location src
      → All (λ h. IsHole ds M E b holes h × Touches h r.pe) xs
      → dest.extent ≡ E
      → IsLoaded dest c
      → Settled ds M E b holes (λ x. todo x || (any_contains xs x && contains r.pe.live x)) c
      → Leads todo (copy_overlaps dest src r.pe.live xs)
  unfolding copy_overlaps Leads
  copy_overlaps-Leads r src [] todo dest c q f h e l settled =
      (c, e, l, λ q here nothing. settled q here (ground (arith, nothing)))
  copy_overlaps-Leads r src (x ∷ xs) todo dest c q f ((i, t), more) e l settled =
      let (dest1, c1, eq, e1, l1, at) =
        copy_overlap_lem dest src c (ds.bytes r.pe.location) r.pe.live x l f.1 q.part.range
          (rw (f.0) q.part.inside) i.0 (rw e i.1) (omega (arith, t, i.0, q.part.range)) in
      rw eq (
        copy_overlaps-Leads r src xs todo dest1 c1 q f more (e1 ∙ e) l1 (λ p here nothing.
          let at' : byte_at E c1 p ≡ (
              if contains r.pe.live (p / 4096) && contains x (p / 4096)
              then byte_at r.pe.location.header.extent (ds.bytes r.pe.location) p
              else byte_at E c p) =
            rw (e, f.0) at (at p) in
          elim (Bool-cases (contains r.pe.live (p / 4096))) [
            | inl live_here ↦ elim (Bool-cases (contains x (p / 4096))) [
              | inl x_here ↦
                  rw (live_here, x_here) at at'
                  ∙ sym (as_stored p (i.2 (p / 4096) x_here) (q.stored (p / 4096) live_here))
              | inr away ↦
                  rw (live_here, away) at at'
                  ∙ settled p here (rw (live_here, away) (rw live_here at nothing))
            ]
            | inr away ↦
                rw away at at' ∙ settled p here (rw away (ground (arith, rw away at nothing)))
          ]))
    where
      as_stored :
          (p : ℕ)
          → any_contains holes (p / 4096) ≡ true
          → M (p / 4096) ≡ some r.pe.location
          → expected ds M E b holes p
            ≡ byte_at r.pe.location.header.extent (ds.bytes r.pe.location) p
      as_stored p hole stored =
          let full : (r.pe.location.header.size == 0) ≡ false = ground (arith, q.full) in
          rw (hole, stored, full) refl
