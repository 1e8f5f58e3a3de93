-- ===== src/Nbd/Image.antt =====
-- nbd.go: what the clients of the wrapper see, byte by byte: the disk under what is pending. Also what
-- the disk promises the wrapper.
use lsvd.Base.{
  ℕ, compare_le, ◌+◌, ◌-◌, ◌*◌, ◌^◌, ◌≤◌, ◌<◌, ◌≡◌, refl, ◌⊎◌, List, [], ◌++◌, Option, some, none,
  arith, ltb, leb, ◌&&◌, if◌then◌else◌, length, inl, inr, true, false,
}
use lsvd.Base.Slices.{get_elem?, get_elem?-beyond, get_elem?-append}
use lsvd.Base.Outcome.{Outcome, ok, err, panic}
use lsvd.Extent.{Extent}
use lsvd.RangeData.{RangeData}
use lsvd.Nbd.{BlockDisk, NbdWrapper}

-- Bytes that are written from the start of an extent on, over what stands there.
abbrev pub or_else : Option ℕ → ℕ → ℕ
or_else none x = x
or_else (some v) x = v

unfoldable pub overlay : ℕ → List ℕ → (ℕ → ℕ) → ℕ → ℕ
overlay lba b old p =
    if leb (lba * 4096) p then or_else (get_elem? b (p - lba * 4096)) (old p) else old p

unfoldable pub cleared : Extent → (ℕ → ℕ) → ℕ → ℕ
cleared e old p =
    if leb (e.lba * 4096) p && ltb p (e.lba * 4096 + e.blocks * 4096) then 0 else old p

-- An extent that the disk takes: one that an entry of the extent map can hold. The map makes the disk panic
-- on extents from block 2 ^ 32 on, and on longer ones.
abbrev pub Fits : Extent → Type 0
Fits e = (e.blocks ≤ 65535) × (e.lba + e.blocks ≤ 2 ^ 32)

module _ {E : Type 0} (B : BlockDisk E) (contents : B.D → ℕ → ℕ) where
  open B use {D, write_extent, zero_blocks, sync_write_cache}

  -- A call that returned has this effect on the contents; none panics.
  abbrev pub Makes : (ℕ → ℕ) → D × Outcome E (Unit {0}) → Type 0
  Makes after (d', ok u) = (p : ℕ) → contents d' p ≡ after p
  Makes after (d', err e) = Unit {0}
  Makes after (d', panic) = ⊥

  -- What is asked of the disk, of which the write path of a segment creator is modelled in Builder: it is
  -- not read-only, and on extents that fit it does not panic, and does what it is asked when it returns.
  -- Nothing is said of its contents after an error.
  pub record IsBlockDisk : Type 0 where
    pub writes :
        (d : D) (r : RangeData) (b : List ℕ)
        → r.bytes ≡ some b
        → length b ≡ r.extent.blocks * 4096
        → 0 < r.extent.blocks
        → Fits r.extent
        → Makes (overlay r.extent.lba b (contents d)) (write_extent d r)
    pub zeroes :
        (d : D) (e : Extent)
        → 0 < e.blocks
        → Fits e
        → Makes (cleared e (contents d)) (zero_blocks d e)
    pub syncs : (d : D) → Makes (contents d) (sync_write_cache d)

  abbrev pub image : NbdWrapper D → ℕ → ℕ
  image n =
      overlay n.pending_write.lba n.pending_write_data (cleared n.pending_trim (contents n.disk))

-- At most one of the two is pending, and each is such that the disk can take it, but for the number of
-- blocks that a trim can grow to.
pub record IsQueue {D : Type 0} (n : NbdWrapper D) : Type 0 where
  pub one : (n.pending_trim.blocks ≡ 0) ⊎ (n.pending_write.blocks ≡ 0)
  pub whole : length n.pending_write_data ≡ n.pending_write.blocks * 4096
  pub write_fits : Fits n.pending_write
  pub trim_ends : n.pending_trim.lba + n.pending_trim.blocks ≤ 2 ^ 32
  pub trim_narrow : n.pending_trim.blocks < 2 ^ 32

pub overlay_nothing : (lba : ℕ) (old : ℕ → ℕ) (p : ℕ) → overlay lba [] old p ≡ old p
unfolding overlay get_elem?
overlay_nothing lba old p = ground arith

pub overlay-under :
    (lba : ℕ) (b : List ℕ) (old older : ℕ → ℕ) (p : ℕ)
    → old p ≡ older p
    → overlay lba b old p ≡ overlay lba b older p
unfolding overlay
overlay-under lba b old older p h = rw h refl

pub cleared-under :
    (e : Extent) (old older : ℕ → ℕ) (p : ℕ) → old p ≡ older p → cleared e old p ≡ cleared e older p
unfolding cleared
cleared-under e old older p h = rw h refl

pub cleared_nothing : (e : Extent) (old : ℕ → ℕ) (p : ℕ) → e.blocks ≡ 0 → cleared e old p ≡ old p
unfolding cleared
cleared_nothing e old p h = ground arith

-- What is written right behind joins.
pub overlay-append :
    (lba blocks next : ℕ) (b c : List ℕ) (old : ℕ → ℕ) (p : ℕ)
    → length b ≡ blocks * 4096
    → next ≡ lba + blocks
    → overlay lba (b ++ c) old p ≡ overlay next c (overlay lba b old) p
unfolding overlay
overlay-append lba blocks next b c old p size behind = elim (compare_le p (next * 4096)) [
  | inl before ↦ ground (arith, get_elem?-append b c (p - lba * 4096), before)
  | inr after ↦
      let nothing : get_elem? b (p - lba * 4096) ≡ none =
        get_elem?-beyond b (p - lba * 4096) (omega arith) in
      let same : p - lba * 4096 - length b ≡ p - next * 4096 = omega arith in
      let there : leb (lba * 4096) p ≡ true = ground arith in
      let there' : leb (next * 4096) p ≡ true = ground arith in
      let late : ltb (p - lba * 4096) (length b) ≡ false = ground arith in
      rw (there, there', nothing, get_elem?-append b c (p - lba * 4096), late, same) refl
]

pub cleared-append :
    (e f both : Extent) (old : ℕ → ℕ) (p : ℕ)
    → f.lba ≡ e.lba + e.blocks
    → both.lba ≡ e.lba
    → both.blocks ≡ e.blocks + f.blocks
    → cleared both old p ≡ cleared f (cleared e old) p
unfolding cleared
cleared-append e f both old p behind start sum = ground arith
