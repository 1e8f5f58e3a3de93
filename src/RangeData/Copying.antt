-- ===== src/RangeData/Copying.antt =====
-- range_data.go: `Copy` between two views, against the bytes at each position of the disk.
use lsvd.Base.{
  ℕ, ◌+◌, ◌-◌, ◌*◌, ◌/◌, ◌≤◌, ◌<◌, ◌≡◌, refl, sym, ◌∙◌, List, some, arith, ltb, leb, if◌then◌else◌,
  length, ◌||◌, true, false, Bool-cases, Option-cases, inl, inr,
}
use lsvd.Base.Slices.{
  take, drop, slice, overwrite, get_elem?, length-take, length-drop, length-overwrite,
  get_elem?-overwrite, take_all, length-slice, get_elem?-slice,
}
use lsvd.Base.Outcome.{ok}
use lsvd.Extent.{Extent, contains}
use lsvd.Extent.Range.{IsRange, contains_lem}
use lsvd.Extent.Overlap.{Inside}
use lsvd.RangeData.{
  RangeData, View, sub_range, read_view, slice_of, assign_view, copy_view, write_data, read_data,
}
use lsvd.RangeData.Views.{IsLoaded, byte_at, part_of, sub_range_lem}

slice_of-length {ℓ} :
    {E : Type ℓ} (v : View) (c b : List ℕ)
    → slice_of {E = E} v c ≡ ok b
    → length b ≡ v.stop - v.start
unfolding slice_of
slice_of-length v c b h = elim (Bool-cases (ltb v.stop v.start || ltb (length c) v.stop)) [
  | inl out ↦ absurd (cc (h, out))
  | inr within ↦
      let same : slice v.start v.stop c ≡ b = ground (arith, h, within) in
      rw (sym same) (
        ground
          (arith, within, length-take (v.stop - v.start) (drop v.start c), length-drop v.start c))
]

pub read_view-length {ℓ} :
    {E : Type ℓ} (r : RangeData) (v : View) (b : List ℕ)
    → read_view {E = E} r v ≡ ok b
    → length b ≡ v.stop - v.start
unfolding read_view read_data
read_view-length {E} r v b h = elim (Option-cases r.bytes) [
  | inl nothing ↦ absurd (cc (h, nothing))
  | inr (c, some_bytes) ↦ slice_of-length {E = E} v c b (rw (some_bytes, read_data) at h)
]

-- The bytes of a part.
abbrev pub part : Extent → Extent → List ℕ → List ℕ
part e y b = slice ((y.lba - e.lba) * 4096) ((y.lba - e.lba) * 4096 + y.blocks * 4096) b

module _ (r : RangeData) (b : List ℕ) (y : Extent) (l : IsLoaded r b) (s : IsRange y)
    (i : Inside y r.extent) where
  bounds : (y.lba - r.extent.lba) * 4096 + y.blocks * 4096 ≤ length b
  bounds = omega (arith, l.whole, i)

  checks :
      (ltb (part_of r.extent y).stop (part_of r.extent y).start
        || ltb (length b) (part_of r.extent y).stop)
      ≡ false
  checks = ground (arith, bounds)

  pub length-part : length (part r.extent y b) ≡ y.blocks * 4096
  length-part = length-slice ((y.lba - r.extent.lba) * 4096) (y.blocks * 4096) b bounds

  pub read_view_lem {ℓ} :
      {E : Type ℓ} → read_view {E = E} r (part_of r.extent y) ≡ ok (part r.extent y b)
  unfolding read_view
  read_view_lem = rw (l.loaded, read_view, checks) refl

  pub assign_view_lem {ℓ} :
      {E : Type ℓ} (new : List ℕ)
      → length new ≡ y.blocks * 4096
      → assign_view {E = E} r (part_of r.extent y) new
        ≡ ok (
          record {
            extent = r.extent;
            bytes = some (overwrite ((y.lba - r.extent.lba) * 4096) new b);
            dirty = true;
          },
          y.blocks * 4096,
        )
  unfolding assign_view
  assign_view_lem new h =
      let fitting : take (length (part r.extent y b)) new ≡ new =
        take_all (length (part r.extent y b)) new (omega (arith, length-part)) in
      rw (l.loaded, write_data, checks, fitting, h) refl

module _ (dest src : RangeData) (b c : List ℕ) (y : Extent) (l : IsLoaded dest b)
    (m : IsLoaded src c) (s : IsRange y) (i : Inside y dest.extent) (j : Inside y src.extent) where
  -- The bytes of the destination after the copy.
  abbrev pub moved : List ℕ
  moved = overwrite ((y.lba - dest.extent.lba) * 4096) (part src.extent y c) b

  abbrev pub after : RangeData
  after = record { extent = dest.extent; bytes = some moved; dirty = true }

  pub copy_view_lem {ℓ} :
      {E : Type ℓ}
      → copy_view {E = E} dest (part_of dest.extent y) src (part_of src.extent y)
        ≡ ok (after, y.blocks * 4096)
  unfolding copy_view
  copy_view_lem {E} =
      rw (m.loaded, copy_view, read_view_lem src c y m s j {E = E})
        (assign_view_lem dest b y l s i (part src.extent y c) (length-part src c y m s j))

  pub after-IsLoaded : IsLoaded after moved
  after-IsLoaded = record {
    loaded = refl;
    whole = length-overwrite ((y.lba - dest.extent.lba) * 4096) (part src.extent y c) b ∙ l.whole;
    range = l.range;
    few = l.few;
  }

  overwritten :
      (p : ℕ)
      → contains dest.extent (p / 4096) ≡ true
      → get_elem? moved (p - dest.extent.lba * 4096) ≡ (
          if leb ((y.lba - dest.extent.lba) * 4096) (p - dest.extent.lba * 4096)
          then (if ltb
                (p - dest.extent.lba * 4096)
                ((y.lba - dest.extent.lba) * 4096 + length (part src.extent y c))
              then get_elem?
                  (part src.extent y c)
                  (p - dest.extent.lba * 4096 - (y.lba - dest.extent.lba) * 4096)
              else get_elem? b (p - dest.extent.lba * 4096))
          else get_elem? b (p - dest.extent.lba * 4096))
  overwritten p here =
      get_elem?-overwrite ((y.lba - dest.extent.lba) * 4096) (part src.extent y c) b
        (p - dest.extent.lba * 4096)
        (ground (arith, l.whole, contains_lem dest.extent (p / 4096) l.range))

  pub byte_at-moved :
      (p : ℕ)
      → byte_at dest.extent moved p
        ≡ (if contains y (p / 4096) then byte_at src.extent c p else byte_at dest.extent b p)
  byte_at-moved p = elim (Bool-cases (contains dest.extent (p / 4096))) [
    | inl here ↦ elim (Bool-cases (contains y (p / 4096))) [
      | inl new ↦
          let there : contains src.extent (p / 4096) ≡ true =
            ground
              (arith, contains_lem src.extent (p / 4096) m.range, contains_lem y (p / 4096) s) in
          let low : y.lba * 4096 ≤ p = ground (arith, contains_lem y (p / 4096) s) in
          let high : p < y.lba * 4096 + y.blocks * 4096 =
            ground (arith, contains_lem y (p / 4096) s) in
          let from : leb at k ≡ true = ground arith in
          let upto : ltb k (at + length (part src.extent y c)) ≡ true = ground (arith, size) in
          let inner : ltb (k - at) (y.blocks * 4096) ≡ true = ground arith in
          let same : (y.lba - src.extent.lba) * 4096 + (k - at) ≡ p - src.extent.lba * 4096 =
            omega arith in
          rw (here, new, there, overwritten p here, from, upto)
            (get_elem?-slice ((y.lba - src.extent.lba) * 4096) (y.blocks * 4096) c (k - at)
              ∙ rw (inner, same) refl)
      | inr old ↦
          rw (here, old, overwritten p here)
            (ground (
              arith,
              size,
              contains_lem y (p / 4096) s,
              contains_lem dest.extent (p / 4096) l.range,
            ))
    ]
    | inr away ↦
        let apart : contains y (p / 4096) ≡ false =
          ground
            (arith, contains_lem dest.extent (p / 4096) l.range, contains_lem y (p / 4096) s) in
        rw (away, apart) refl
  ]
    where
      at : ℕ
      at = (y.lba - dest.extent.lba) * 4096

      k : ℕ
      k = p - dest.extent.lba * 4096

      size : length (part src.extent y c) ≡ y.blocks * 4096
      size = length-part src c y m s j

-- For two ranges of fewer than 2 ^ 20 blocks with all their bytes, and a nonempty extent inside both:
-- the views of the extent exist, and `Copy` between them succeeds and counts the bytes of the extent.
-- Afterwards the destination has the source's bytes in the blocks of the extent, at the same positions
-- of the disk, and its own elsewhere, and it is again a range with all its bytes.
pub copy_view-sub_range :
    (dest src : RangeData) (b c : List ℕ) (y : Extent)
    → IsLoaded dest b
    → IsLoaded src c
    → IsRange y
    → Inside y dest.extent
    → Inside y src.extent
    → (d : View) × (v : View) × (after : RangeData) × (e : List ℕ) × (sub_range dest y ≡ some d)
      × (sub_range src y ≡ some v)
      × (copy_view {E = Unit {0}} dest d src v ≡ ok (after, y.blocks * 4096))
      × (after.extent ≡ dest.extent)
      × IsLoaded after e
      × ((p : ℕ)
          → byte_at dest.extent e p
            ≡ (if contains y (p / 4096) then byte_at src.extent c p else byte_at dest.extent b p))
copy_view-sub_range dest src b c y l m s i j = (
  part_of dest.extent y,
  part_of src.extent y,
  after dest src b c y l m s i j,
  moved dest src b c y l m s i j,
  sub_range_lem dest b y l s i,
  sub_range_lem src c y m s j,
  copy_view_lem dest src b c y l m s i j,
  refl,
  after-IsLoaded dest src b c y l m s i j,
  byte_at-moved dest src b c y l m s i j,
)
