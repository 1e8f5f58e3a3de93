-- ===== src/DiskRead/Serving.antt =====
-- disk.go: `ReadExtentInto` behind the write caches, with readers of the segments that do what they say.
use lsvd.Base.{
  ℕ, ◌/◌, ◌≡◌, ◌≢◌, refl, Bool, ◌&&◌, ◌||◌, List, [], ◌∷◌, Option, some, none, arith, Bool-cases,
  Option-cases, inl, inr, true, false, All,
}
use lsvd.Base.Outcome.{Outcome, ok, err, panic}
use lsvd.Extent.{Extent, contains}
use lsvd.Extent.Subtract.{any_contains}
use lsvd.Location.{PartialExtent}
use lsvd.Compact.{CompactPe}
use lsvd.TreeMap.{TreeMap}
use lsvd.Extent.Sorting.{Parts}
use lsvd.ExtentMap.{ExtentMap}
use lsvd.ExtentMap.Resolve.{resolve}
use lsvd.ExtentMap.Setting.{IsMap, find_block}
use lsvd.ExtentMap.Parts.{IsPart}
use lsvd.RangeData.{RangeData}
use lsvd.RangeData.Views.{IsLoaded, byte_at}
use lsvd.Builder.Fill.{ReadError, LogReader}
use lsvd.Builder.Filling.{Decoded}
use lsvd.Builder.Filled.{Layer, is_some}
use lsvd.DiskRead.WriteCache.{Disk}
use lsvd.DiskRead.Requests.{ReadRequest, only_hole, same_extent, Plan, direct, requests, fast_path}
use lsvd.DiskRead.Segments.{
  SegmentReaders, CachePosition, with_state, read_partial_extent, read_requests, read_plan,
  read_holes, copy_overlaps,
}
use lsvd.DiskRead.Gathering.{expected, asked, Settled, IsHole, IsRequest, Kept}
use lsvd.DiskRead.Planning.{Slow, Plans, gather_holes-Plans}
use lsvd.DiskRead.Fetching.{IsFetched, Leads, copy_overlaps-Leads}

module _ (Q : SegmentReaders) (ds : Decoded) (M : Layer) (Valid : Q.S → Type 0) where
  open Q use {S, fetch_extent}

  unfoldable pub Fetches : PartialExtent → S × Outcome ReadError RangeData → Type 0
  Fetches pe (s, ok src) = Valid s × IsFetched ds pe.location src
  Fetches pe (s, err e) = Valid s × (ds.may_fail e ≡ true)
  Fetches pe (s, panic) = ⊥

  -- Reading a part of a stored extent gives the bytes of that extent, or fails with one of its errors.
  abbrev pub CanFetch : Type 0
  CanFetch =
      (s : S) (pe : PartialExtent)
      → Valid s
      → IsPart pe
      → pe.location.header.size ≢ 0
      → ((x : ℕ) → contains pe.live x ≡ true → M x ≡ some pe.location)
      → Fetches pe (fetch_extent s pe)

  module _ (E : Extent) (b : List ℕ) (holes : List Extent) (can : CanFetch) where
    LeadsFrom : (ℕ → Bool) → S × Outcome ReadError RangeData → Type 0
    LeadsFrom todo (s, x) = Valid s × Leads ds M E b holes todo x

    read_partial_extent-Leads :
        (r : ReadRequest) (todo : ℕ → Bool) (s : S) (dest : RangeData) (c : List ℕ)
        → Valid s
        → IsRequest ds M E b holes r
        → dest.extent ≡ E
        → IsLoaded dest c
        → Settled ds M E b holes
            (λ x. todo x || (any_contains r.extents x && contains r.pe.live x))
            c
        → LeadsFrom todo (read_partial_extent Q s r.pe r.extents dest)
    unfolding read_partial_extent Fetches LeadsFrom Leads
    read_partial_extent-Leads r todo s dest c v q e l settled =
        go (fetch_extent s r.pe) (can s r.pe v q.part q.full q.stored)
      where
        go :
            (x : S × Outcome ReadError RangeData)
            → Fetches r.pe x
            → LeadsFrom todo
                (with_state x (λ s' src. (s', copy_overlaps dest src r.pe.live r.extents)))
        go (s', ok src) (v', f) = (
          v',
          copy_overlaps-Leads ds M E b holes r src r.extents todo dest c q f q.wanted e l settled,
        )
        go (s', err e) (v', h) = (v', h)
        go (s', panic) h = absurd h

    read_requests-Leads :
        (reqs : List ReadRequest) (todo : ℕ → Bool) (s : S) (dest : RangeData) (c : List ℕ)
        → Valid s
        → All (IsRequest ds M E b holes) reqs
        → dest.extent ≡ E
        → IsLoaded dest c
        → Settled ds M E b holes (λ x. todo x || asked reqs x) c
        → LeadsFrom todo (read_requests Q s dest reqs)
    unfolding read_requests LeadsFrom Leads
    read_requests-Leads [] todo s dest c v q e l settled =
        (v, (c, e, l, λ p here nothing. settled p here (ground (arith, nothing))))
    read_requests-Leads (r ∷ reqs) todo s dest c v (q, qs) e l settled = go _ (
        read_requests-Leads reqs (λ x. todo x || (any_contains r.extents x && contains r.pe.live x))
          s dest c v qs e l (λ p here nothing. settled p here (ground (arith, nothing))))
      where
        go :
            (x : S × Outcome ReadError RangeData)
            → LeadsFrom (λ x. todo x || (any_contains r.extents x && contains r.pe.live x)) x
            → LeadsFrom todo
                (with_state x (λ s' dest'. read_partial_extent Q s' r.pe r.extents dest'))
        go (s', ok dest') (v', (c', e', l', settled')) =
            read_partial_extent-Leads r todo s' dest' c' v' q e' l' settled'
        go (s', err e) (v', h) = (v', h)
        go (s', panic) (v', h) = absurd h

    -- The range as expected, without a position to read from, or an error of the readers.
    unfoldable pub Reads : S × Outcome ReadError (RangeData × Option CachePosition) → Type 0
    Reads (s, ok (dest, at)) =
        Valid s
        × (at ≡ none)
        × ((c : List ℕ) × (dest.extent ≡ E)
            × IsLoaded dest c
            × ((q : ℕ) → contains E (q / 4096) ≡ true → byte_at E c q ≡ expected ds M E b holes q))
    Reads (s, err e) = Valid s × (ds.may_fail e ≡ true)
    Reads (s, panic) = ⊥

    LeadsFrom-Reads :
        (x : S × Outcome ReadError RangeData)
        → LeadsFrom (λ x. false) x
        → Reads (with_state x (λ s' dest'. (s', ok (dest', none))))
    unfolding LeadsFrom Leads Reads
    LeadsFrom-Reads (s', ok dest') (v, (c, e, l, settled)) =
        (v, refl, (c, e, l, λ q here. settled q here refl))
    LeadsFrom-Reads (s', err e) h = h
    LeadsFrom-Reads (s', panic) h = h.1

only_hole_no :
    (holes : List Extent) (E : Extent) (ps : List PartialExtent)
    → only_hole holes E ≡ false
    → Slow holes E ps
unfolding fast_path
only_hole_no holes E [] h = tt
only_hole_no holes E (pe ∷ pes) h = rw h refl

-- The fast path is only for the whole range.
Slow-holes :
    (T : TreeMap CompactPe) (em : ExtentMap T.Map) (E : Extent) (holes : List Extent)
    → Slow (E ∷ []) E (resolve T em E [])
    → All (λ h. Slow holes E (resolve T em h [])) holes
Slow-holes T em E [] slow = tt
Slow-holes T em E (h ∷ []) slow = elim (Bool-cases (same_extent h E)) [
  | inl same ↦ let equal : h ≡ E = ground (arith, same) in (rw equal slow, tt)
  | inr other ↦ (only_hole_no (h ∷ []) E (resolve T em h []) other, tt)
]
Slow-holes T em E (h ∷ h' ∷ more) slow = all_slow (h ∷ h' ∷ more)
  where
    all_slow : (hs : List Extent) → All (λ k. Slow (h ∷ h' ∷ more) E (resolve T em k [])) hs
    all_slow [] = tt
    all_slow (k ∷ hs) = (only_hole_no (h ∷ h' ∷ more) E (resolve T em k []) refl, all_slow hs)

Parts-IsHole :
    (ds : Decoded) (M : Layer) (E : Extent) (b : List ℕ) (holes : List Extent)
    → Parts E holes
    → All (IsHole ds M E b holes) holes
Parts-IsHole ds M E b holes p = go holes p (λ x h. h)
  where
    go :
        (hs : List Extent)
        → Parts E hs
        → ((x : ℕ) → any_contains hs x ≡ true → any_contains holes x ≡ true)
        → All (IsHole ds M E b holes) hs
    go [] q h = tt
    go (k ∷ hs) ((r, i), q) h =
        ((r, i, λ x here. h x (rw here refl)), go hs q (λ x there. h x (ground (arith, there))))

module _ (Q : SegmentReaders) (ds : Decoded) (Valid : Q.S → Type 0) (T : TreeMap CompactPe)
    {W : Type 0} (R : LogReader W) (d : Disk T W) (m : IsMap T d.lba2pba)
    (can : CanFetch Q ds (find_block T d.lba2pba) Valid) where
  open Q use {S}

  abbrev M : Layer
  M = find_block T d.lba2pba

  planned-Reads :
      (E : Extent) (b : List ℕ) (holes : List Extent) (kept : Kept ds M E b holes) (s : S)
      (x : Outcome ReadError Plan)
      → Valid s
      → Plans T ds d.lba2pba m E b holes kept x
      → Reads Q ds M Valid E b holes can (with_state (s, x) (read_plan Q))
  unfolding Plans read_plan
  planned-Reads E b holes kept s (ok (direct pe dest)) v h = absurd h
  planned-Reads E b holes kept s (ok (requests dest reqs)) v (c, e, l, a, settled) =
      LeadsFrom-Reads Q ds M Valid E b holes can _
        (read_requests-Leads Q ds M Valid E b holes can reqs (λ x. false) s dest c v a e l settled)
  planned-Reads E b holes kept s (err x) v h = absurd h
  planned-Reads E b holes kept s panic v h = absurd h

  pub read_holes-Reads :
      (s : S) (dest : RangeData) (E : Extent) (b : List ℕ) (holes : List Extent)
      → Valid s
      → dest.extent ≡ E
      → IsLoaded dest b
      → Parts E holes
      → Kept ds M E b holes
      → ((q : ℕ)
          → contains E (q / 4096) ≡ true
          → any_contains holes (q / 4096) ≡ true
          → M (q / 4096) ≡ none
          → byte_at E b q ≡ some 0)
      → Slow (E ∷ []) E (resolve T d.lba2pba E [])
      → Reads Q ds M Valid E b holes can (read_holes Q R T s d dest holes)
  unfolding read_holes Reads
  read_holes-Reads s dest E b [] v e l p kept zeroed slow = (v, refl, (b, e, l, λ q here. refl))
  read_holes-Reads s dest E b (h ∷ holes) v e l p kept zeroed slow =
      planned-Reads E b (h ∷ holes) kept s _ v (
        gather_holes-Plans T ds d.lba2pba m E b (h ∷ holes) kept (h ∷ holes) dest []
          (Parts-IsHole ds M E b (h ∷ holes) p) (Slow-holes T d.lba2pba E (h ∷ holes) slow)
          (b, e, l, tt, start))
    where
      start :
          Settled ds M E b
            (h ∷ holes)
            (λ x. (is_some (M x) && any_contains (h ∷ holes) x) || false)
            b
      start q here nothing = elim (Bool-cases (any_contains (h ∷ holes) (q / 4096))) [
        | inl hole ↦ elim (Option-cases (M (q / 4096))) [
          | inl no_block ↦ rw no_block (rw hole (zeroed q here hole no_block))
          | inr (c, block) ↦ absurd (cc (rw (hole, block) at nothing))
        ]
        | inr outside ↦ rw outside refl
      ]
