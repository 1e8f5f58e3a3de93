-- ===== src/ExtentMap/Table.antt =====
-- extent_map.go: the segment table, in which the entries of the map look up where their data lies.
use lsvd.Base.{
  ℕ, suc, ◌≤◌, ◌<◌, ◌^◌, ◌%◌, ◌≡◌, refl, List, [], ◌∷◌, Option, some, none, arith, length,
}
use lsvd.Location.{ExtentLocation}
use lsvd.Compact.{CompactPe}
use lsvd.ExtentMap.{
  SegLocation, SegTable, lookup_desc, lookup_idx, segment_idx, add_segment, location_of,
}

-- The two maps hold the same pairs, each segment once, numbered in the order of arrival.
abbrev pub Indexed : List (SegLocation × ℕ) → List (ℕ × SegLocation) → Type 0
Indexed [] [] = Unit {0}
Indexed ((d, i) ∷ ds) ((j, l) ∷ ls) =
    (i ≡ length ds) × (j ≡ length ds) × (l ≡ d) × (lookup_desc d ds ≡ none) × Indexed ds ls
Indexed [] (l ∷ ls) = ⊥
Indexed (d ∷ ds) [] = ⊥

-- Every index that was given out means the same in the later table.
pub record Extends (t t' : SegTable) : Type 0 where
  pub longer : length t.by_desc ≤ length t'.by_desc
  pub keeps : (i : ℕ) → i < length t.by_desc → lookup_idx i t'.by_idx ≡ lookup_idx i t.by_idx

lookup_idx-desc :
    (k : SegLocation) (i : ℕ) (ds : List (SegLocation × ℕ)) (ls : List (ℕ × SegLocation))
    → Indexed ds ls
    → lookup_desc k ds ≡ some i
    → (i < length ds) × (lookup_idx i ls ≡ k)
unfolding lookup_desc lookup_idx
lookup_idx-desc k i [] [] w h = cc
lookup_idx-desc k i [] (l ∷ ls) w h = elim w [ ]
lookup_idx-desc k i (d ∷ ds) [] w h = elim w [ ]
lookup_idx-desc k i ((d, a) ∷ ds) ((j, l) ∷ ls) (p, q, e, f, w) h =
    ground (arith, lookup_idx-desc k i ds ls w)

-- What `segmentIdx` promises of the table and the index that it returns.
abbrev pub Assigns : SegTable → SegLocation → SegTable × ℕ → Type 0
Assigns t key (t', i) =
    Indexed t'.by_desc t'.by_idx
    × (i < length t'.by_desc)
    × (lookup_idx i t'.by_idx ≡ key)
    × Extends t t'

add_segment-Assigns :
    (t : SegTable) (key : SegLocation) (o : Option ℕ)
    → lookup_desc key t.by_desc ≡ o
    → Indexed t.by_desc t.by_idx
    → length t.by_desc < 2 ^ 32
    → Assigns t key (add_segment t key o)
unfolding add_segment
add_segment-Assigns t key (some i) e w h =
    let (below, found) = lookup_idx-desc key i t.by_desc t.by_idx w e in
    (w, below, found, record { longer = omega arith; keeps = λ j l. refl })
add_segment-Assigns t key none e w h =
    let number : length t.by_desc % 2 ^ 32 ≡ length t.by_desc = omega arith in
    (
      (number, number, refl, e, w),
      omega arith,
      unfold lookup_idx in (ground arith),
      record { longer = omega arith; keeps = λ j l. unfold lookup_idx in (ground arith) },
    )

-- On a table whose two maps agree and that has fewer than 2 ^ 32 segments, `segmentIdx` gives an index of
-- the table that it returns, under which the segment and the disk are found. The two maps still agree,
-- and every older index means what it meant.
pub segment_idx-Assigns :
    (t : SegTable) (loc : ExtentLocation)
    → Indexed t.by_desc t.by_idx
    → length t.by_desc < 2 ^ 32
    → Assigns t (record { seg = loc.segment; disk = loc.disk }) (segment_idx t loc)
unfolding segment_idx
segment_idx-Assigns t loc w h = add_segment-Assigns t _ _ refl w h

add_segment_grows :
    (t : SegTable) (key : SegLocation) (o : Option ℕ)
    → length (add_segment t key o).0.by_desc ≤ suc (length t.by_desc)
unfolding add_segment
add_segment_grows t key (some i) = omega arith
add_segment_grows t key none = omega arith

pub segment_idx_grows :
    (t : SegTable) (loc : ExtentLocation)
    → length (segment_idx t loc).0.by_desc ≤ suc (length t.by_desc)
unfolding segment_idx
segment_idx_grows t loc = add_segment_grows t _ _

-- The location of a known entry survives.
pub location_of-Extends :
    (t t' : SegTable) (c : CompactPe)
    → Extends t t'
    → c.seg_idx < length t.by_desc
    → location_of t' c ≡ location_of t c
unfolding location_of
location_of-Extends t t' c x h = rw (x.keeps c.seg_idx h) refl
