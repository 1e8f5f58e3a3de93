-- ===== src/DiskRead/Emptying.antt =====
-- disk.go: the clearing of what a range shares with an extent, and the comparison of partial extents.
use lsvd.Base.{
  ℕ, ◌/◌, ◌<◌, ◌≡◌, refl, ◌∙◌, Bool, ◌&&◌, List, some, arith, if◌then◌else◌, Bool-cases, inl, inr,
  true, false, ltb,
}
use lsvd.Base.Outcome.{ok}
use lsvd.Extent.{Extent, contains}
use lsvd.Extent.Range.{IsRange, contains_lem}
use lsvd.Extent.Overlap.{Inside, overlap}
use lsvd.Location.{PartialExtent}
use lsvd.RangeData.{RangeData}
use lsvd.RangeData.Views.{IsLoaded, byte_at}
use lsvd.RangeData.Clearing.{
  sub_range-overlap, clear_view_lem, cleared_range, cleared_bytes, cleared-IsLoaded,
  byte_at-cleared,
}
use lsvd.Builder.Fill.{ReadError}
use lsvd.DiskRead.Requests.{clear_part, same_pe}

pub both : {A : Type 0} (u v : A) (a c : Bool) → a ≡ true → c ≡ true → (if a && c then u else v) ≡ u
both u v a c ha hc = rw (ha, hc) refl

pub not_second : {A : Type 0} (u v : A) (a c : Bool) → c ≡ false → (if a && c then u else v) ≡ v
not_second u v a c hc = ground (arith, hc)

pub same_pe_lem : (a b : PartialExtent) → same_pe a b ≡ true → a ≡ b
same_pe_lem a b h = ground (arith, h)

pub clear_part_lem :
    (dest : RangeData) (b : List ℕ) (e : Extent)
    → IsLoaded dest b
    → IsRange e
    → (dest1 : RangeData) × (b1 : List ℕ) × (clear_part dest e ≡ ok dest1)
      × (dest1.extent ≡ dest.extent)
      × IsLoaded dest1 b1
      × ((q : ℕ)
          → byte_at dest.extent b1 q ≡ (
              if contains dest.extent (q / 4096) && contains e (q / 4096)
              then some 0
              else byte_at dest.extent b q))
unfolding clear_part
clear_part_lem dest b e l s = elim (Bool-cases (ltb 0 (overlap dest.extent e).blocks)) [
  | inl shared ↦
      let o = overlap dest.extent e in
      let some_blocks : 0 < o.blocks = ground (arith, shared) in
      let (r, i) : IsRange o × Inside o dest.extent = omega (arith, l.range, s, some_blocks) in
      (
        cleared_range dest b o l r i,
        cleared_bytes dest b o l r i,
        cleared_shared r i shared,
        refl,
        cleared-IsLoaded dest b o l r i,
        λ q.
            byte_at-cleared dest b o l r i q
            ∙ ground (
              arith,
              contains_lem o (q / 4096) r,
              contains_lem e (q / 4096) s,
              contains_lem dest.extent (q / 4096) l.range,
            ),
      )
  | inr apart ↦ (
    dest,
    b,
    untouched apart,
    refl,
    l,
    λ q.
        ground
          (arith, apart, contains_lem e (q / 4096) s, contains_lem dest.extent (q / 4096) l.range),
  )
]
  where
    cleared_shared :
        (r : IsRange (overlap dest.extent e)) (i : Inside (overlap dest.extent e) dest.extent)
        → ltb 0 (overlap dest.extent e).blocks ≡ true
        → clear_part dest e ≡ ok (cleared_range dest b (overlap dest.extent e) l r i)
    cleared_shared r i shared =
        rw (sub_range-overlap dest b e l s, shared, clear_part)
          (clear_view_lem dest b (overlap dest.extent e) l r i {E = ReadError})

    untouched : ltb 0 (overlap dest.extent e).blocks ≡ false → clear_part dest e ≡ ok dest
    untouched apart = rw (sub_range-overlap dest b e l s, apart, clear_part) refl
