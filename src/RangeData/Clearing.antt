-- ===== src/RangeData/Clearing.antt =====
-- range_data.go: the clearing of a part of a range, against the bytes at each position of the disk.
use lsvd.Base.{
  ℕ, zero, suc, ◌+◌, ◌-◌, ◌*◌, ◌/◌, ◌≤◌, ◌<◌, ◌≡◌, refl, ap, ◌∙◌, List, some, none, arith, ltb,
  if◌then◌else◌, true, false, Bool-cases, inl, inr,
}
use lsvd.Base.Slices.{overwrite, get_elem?, length-overwrite, get_elem?-overwrite}
use lsvd.Base.Outcome.{Outcome, ok, ◌>>=◌}
use lsvd.Extent.{Extent, contains}
use lsvd.Extent.Range.{IsRange, contains_lem}
use lsvd.Extent.Overlap.{Inside, overlap, clamp-overlap}
use lsvd.RangeData.{RangeData, zeros, sub_range, clear_view, assign_view}
use lsvd.RangeData.Views.{IsLoaded, byte_at, part_of, length-zeros}
use lsvd.RangeData.Copying.{assign_view_lem}

-- An extent that is not inside the range has the view of what they share.
pub sub_range-overlap :
    (r : RangeData) (b : List ℕ) (y : Extent)
    → IsLoaded r b
    → IsRange y
    → sub_range r y ≡ (
        if ltb 0 (overlap r.extent y).blocks
        then some (part_of r.extent (overlap r.extent y))
        else none)
unfolding sub_range
sub_range-overlap r b y l s = elim (Bool-cases (ltb 0 (overlap r.extent y).blocks)) [
  | inl yes' ↦
      rw (clamp-overlap r.extent y l.range s, yes', sub_range) (ground (arith, l.few, l.range, s))
  | inr no' ↦ rw (clamp-overlap r.extent y l.range s, no', sub_range) refl
]

pub get_elem?-zeros : (n i : ℕ) → i < n → get_elem? (zeros n) i ≡ some 0
unfolding zeros get_elem?
get_elem?-zeros zero i h = absurd (omega arith)
get_elem?-zeros (suc n) zero h = refl
get_elem?-zeros (suc n) (suc i) h = get_elem?-zeros n i (omega arith)

module _ (r : RangeData) (b : List ℕ) (y : Extent) (l : IsLoaded r b) (s : IsRange y)
    (i : Inside y r.extent) where
  abbrev pub cleared_bytes : List ℕ
  cleared_bytes = overwrite ((y.lba - r.extent.lba) * 4096) (zeros (y.blocks * 4096)) b

  abbrev pub cleared_range : RangeData
  cleared_range = record { extent = r.extent; bytes = some cleared_bytes; dirty = true }

  pub clear_view_lem {ℓ} :
      {E : Type ℓ} → clear_view {E = E} r (part_of r.extent y) ≡ ok cleared_range
  unfolding clear_view
  clear_view_lem {E} =
      let size : (y.lba - r.extent.lba) * 4096 + y.blocks * 4096 - (y.lba - r.extent.lba) * 4096
          ≡ y.blocks * 4096 =
        omega arith in
      ap (λ n. assign_view {E = E} r (part_of r.extent y) (zeros n) >>= λ w. ok w.0) size
      ∙ ap (λ (o : Outcome E (RangeData × ℕ)). o >>= λ w. ok w.0)
          (assign_view_lem r b y l s i {E = E} (zeros (y.blocks * 4096))
            (length-zeros (y.blocks * 4096)))

  pub cleared-IsLoaded : IsLoaded cleared_range cleared_bytes
  cleared-IsLoaded = record {
    loaded = refl;
    whole = length-overwrite ((y.lba - r.extent.lba) * 4096) (zeros (y.blocks * 4096)) b ∙ l.whole;
    range = l.range;
    few = l.few;
  }

  pub byte_at-cleared :
      (p : ℕ)
      → byte_at r.extent cleared_bytes p
        ≡ (if contains y (p / 4096) then some 0 else byte_at r.extent b p)
  byte_at-cleared p = elim (Bool-cases (contains r.extent (p / 4096))) [
    | inl here ↦
        let over =
          get_elem?-overwrite ((y.lba - r.extent.lba) * 4096) (zeros (y.blocks * 4096)) b
            (p - r.extent.lba * 4096)
            (ground (arith, l.whole, contains_lem r.extent (p / 4096) l.range)) in
        elim (Bool-cases (contains y (p / 4096))) [
          | inl new ↦
              let at = (y.lba - r.extent.lba) * 4096 in
              let k = p - r.extent.lba * 4096 in
              let low : at ≤ k = ground (arith, contains_lem y (p / 4096) s) in
              let high : k < at + y.blocks * 4096 = ground (arith, contains_lem y (p / 4096) s) in
              let zero_here = get_elem?-zeros (y.blocks * 4096) (k - at) (omega arith) in
              rw (here, new) (ground (arith, over, length-zeros (y.blocks * 4096), zero_here))
          | inr old ↦
              rw (here, old)
                (ground (
                  arith,
                  over,
                  length-zeros (y.blocks * 4096),
                  contains_lem y (p / 4096) s,
                  contains_lem r.extent (p / 4096) l.range,
                ))
        ]
    | inr away ↦
        let apart : contains y (p / 4096) ≡ false =
          ground (arith, contains_lem r.extent (p / 4096) l.range, contains_lem y (p / 4096) s) in
        rw (away, apart) refl
  ]
