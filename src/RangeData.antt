-- ===== src/RangeData.antt =====
-- range_data.go: `RangeData` and `RangeDataView`, and `emptyBytes` of util.go. A byte slice is the list of
-- its bytes; its spare capacity is not modelled, so slicing beyond the length panics here. A view holds a
-- pointer to its range; here the range is an argument of its own. `Append` keeps a copy.
pub mod Views
pub mod Copying
pub mod Clearing
pub mod Empty
mod Examples
use lsvd.Base.{
  ℕ, zero, suc, ◌+◌, ◌-◌, ◌*◌, ◌%◌, ◌/◌, ◌^◌, Bool, true, false, not, ◌&&◌, ◌||◌, List, [], ◌∷◌,
  ◌++◌, Option, some, none, ltb, leb, ◌==◌, if◌then◌else◌, length,
}
use lsvd.Base.Words.{add64, sub64, add32, to32}
use lsvd.Base.Outcome.{Outcome, ok, panic, ◌>>=◌}
use lsvd.Base.Slices.{take, drop, slice, overwrite}
use lsvd.Extent.{Extent, block_size, max_blocks, max_lba, byte_size, clamp}

-- `data` may be nil.
pub record RangeData : Type 0 where
  pub extent : Extent
  pub bytes : Option (List ℕ)
  pub dirty : Bool

-- The part of a range from byte `start` to byte `stop`.
pub record View : Type 0 where
  pub extent : Extent
  pub start : ℕ
  pub stop : ℕ

unfoldable pub zeros : ℕ → List ℕ
zeros zero = []
zeros (suc n) = 0 ∷ zeros n

-- `emptyBytes`. Each round of its loop takes a block off, so there are at most as many as bytes.
unfoldable pub all_zero : List ℕ → Bool
all_zero [] = true
all_zero (b ∷ bs) = (b == 0) && all_zero bs

unfoldable pub empty_loop : ℕ → List ℕ → Bool
unfolding all_zero
empty_loop zero b = all_zero b
empty_loop (suc rounds) b =
    let rest = empty_loop rounds (drop block_size b) in
    if ltb block_size (length b)
    then (if not (all_zero (take block_size b)) then false else rest)
    else if length b == 0
    then true
    else all_zero b

unfoldable pub empty_bytes : List ℕ → Bool
unfolding empty_loop
empty_bytes b = empty_loop (length b) b

-- `Blocks` and `MapTo` of `RawBlocks`
unfoldable pub raw_blocks : List ℕ → ℕ
raw_blocks b = to32 (length b / block_size)

unfoldable pub map_to : List ℕ → ℕ → RangeData
unfolding raw_blocks
map_to b lba = record {
  extent = record { lba = lba; blocks = raw_blocks b };
  bytes = some b;
  dirty = false;
}

unfoldable pub map_range_data {ℓ} : {E : Type ℓ} → Extent → List ℕ → Outcome E RangeData
map_range_data ext src =
    if not (length src % block_size == 0)
    then panic
    else if ltb max_lba ext.lba
    then panic
    else if ltb max_blocks ext.blocks
    then panic
    else ok (record { extent = ext; bytes = some src; dirty = true })

-- `WriteData` marks the range, and is then assigned through.
unfoldable pub write_data {ℓ} : {E : Type ℓ} → RangeData → Outcome E (RangeData × List ℕ)
write_data r = elim r.bytes [ none ↦ panic | some b ↦ ok (record r { dirty = true }, b) ]

unfoldable pub read_data {ℓ} : {E : Type ℓ} → RangeData → Outcome E (List ℕ)
read_data r = elim r.bytes [ none ↦ panic | some b ↦ ok b ]

unfoldable pub is_empty : RangeData → Bool
unfolding empty_bytes
is_empty r = if r.dirty then false else elim r.bytes [ none ↦ true | some b ↦ empty_bytes b ]

-- `SubRange` of a range, of a view, and `View`. The product with the block size is a uint64, that of the
-- number of blocks a uint32.
unfoldable pub sub_range : RangeData → Extent → Option View
sub_range r ext = elim (clamp r.extent ext) [
  | none ↦ none
  | some e ↦
      let offset = sub64 e.lba r.extent.lba * block_size % 2 ^ 64 in
      some
        (record { extent = e; start = offset; stop = add64 offset (to32 (e.blocks * block_size)) })
]

unfoldable pub view : RangeData → View
view r = record { extent = r.extent; start = 0; stop = byte_size r.extent }

unfoldable pub sub_view : View → Extent → Option View
sub_view v ext = elim (clamp v.extent ext) [
  | none ↦ none
  | some e ↦
      let offset = v.start + sub64 e.lba v.extent.lba * block_size % 2 ^ 64 in
      some (record { extent = e; start = offset; stop = offset + to32 (e.blocks * block_size) })
]

-- A slice of the bytes with both its bounds checked.
slice_of {ℓ} : {E : Type ℓ} → View → List ℕ → Outcome E (List ℕ)
slice_of v b =
    if ltb v.stop v.start || ltb (length b) v.stop then panic else ok (slice v.start v.stop b)

unfoldable pub read_view {ℓ} : {E : Type ℓ} → RangeData → View → Outcome E (List ℕ)
unfolding read_data slice_of
read_view r v = read_data r >>= slice_of v

-- An assignment to the bytes of a view, as `copy` and `clear` make it: as many as fit.
unfoldable pub assign_view {ℓ} :
    {E : Type ℓ} → RangeData → View → List ℕ → Outcome E (RangeData × ℕ)
unfolding write_data slice_of
assign_view r v new = do
  w ← write_data r
  old ← slice_of v w.1
  let fitting = take (length old) new
  ok (record w.0 { bytes = some (overwrite v.start fitting w.1) }, length fitting)

-- `clear(v.WriteData())`
unfoldable pub clear_view {ℓ} : {E : Type ℓ} → RangeData → View → Outcome E RangeData
unfolding assign_view zeros
clear_view r v = assign_view r v (zeros (v.stop - v.start)) >>= λ w. ok w.0

-- `d.Copy(s)`, with the number of bytes that it returns.
unfoldable pub copy_view {ℓ} :
    {E : Type ℓ} → RangeData → View → RangeData → View → Outcome E (RangeData × ℕ)
unfolding assign_view read_view
copy_view dest d src s = elim src.bytes [
  | none ↦ ok (dest, d.stop - d.start)
  | some _ ↦ read_view src s >>= assign_view dest d
]

unfoldable pub append : RangeData → RangeData → RangeData
append r o = if r.extent.blocks == 0 then o else record {
  extent = record { lba = r.extent.lba; blocks = add32 r.extent.blocks o.extent.blocks };
  bytes = elim r.bytes [
    | none ↦ o.bytes
    | some b ↦ elim o.bytes [ none ↦ some b | some c ↦ some (b ++ c) ]
  ];
  dirty = true;
}
