-- ===== src/Nbd/Flushing.antt =====
-- nbd.go: `flushPendingWrite`.
use lsvd.Base.{
  ℕ, ◌*◌, ◌≤◌, ◌<◌, ◌≡◌, refl, sym, ◌∙◌, List, [], ◌∷◌, some, arith, ltb, ◌==◌, length, Bool-cases,
  inl, inr, true,
}
use lsvd.Base.Outcome.{Outcome, ok, err, panic}
use lsvd.Extent.{Extent, zero_extent}
use lsvd.RangeData.{RangeData, map_range_data}
use lsvd.RangeData.Views.{map_range_data_lem}
use lsvd.Nbd.{
  BlockDisk, NbdWrapper, and_then, write_through, zero_through, flush_pending_trim, flush_data,
  flush_pending_write,
}
use lsvd.Nbd.Image.{
  IsBlockDisk, IsQueue, Fits, Makes, image, overlay, cleared, overlay_nothing, cleared_nothing,
  overlay-under,
}

-- Nothing is pending.
pub record IsIdle {D : Type 0} (n : NbdWrapper D) : Type 0 where
  pub queue : IsQueue n
  pub no_trim : n.pending_trim.blocks ≡ 0
  pub no_write : n.pending_write.blocks ≡ 0
  pub no_data : n.pending_write_data ≡ []

IsIdle-disk : {D : Type 0} (n : NbdWrapper D) (d : D) → IsIdle n → IsIdle (record n { disk = d })
IsIdle-disk n d i = record {
  queue = record {
    one = i.queue.one;
    whole = i.queue.whole;
    write_fits = i.queue.write_fits;
    trim_ends = i.queue.trim_ends;
    trim_narrow = i.queue.trim_narrow;
  };
  no_trim = i.no_trim;
  no_write = i.no_write;
  no_data = i.no_data;
}

no_bytes : (b : List ℕ) → length b ≡ 0 → b ≡ []
no_bytes [] h = refl
no_bytes (x ∷ xs) h = absurd (omega arith)

pub no_data_lem :
    {D : Type 0} (n : NbdWrapper D)
    → IsQueue n
    → n.pending_write.blocks ≡ 0
    → n.pending_write_data ≡ []
no_data_lem n q h = no_bytes n.pending_write_data (omega (arith, q.whole, h))

module _ {E : Type 0} (B : BlockDisk E) (contents : B.D → ℕ → ℕ) where
  open B use {D, write_extent, zero_blocks}

  -- What a flush leaves when clients saw certain bytes. Also after an error nothing is pending.
  abbrev pub Flushed : (ℕ → ℕ) → NbdWrapper D × Outcome E (Unit {0}) → Type 0
  Flushed seen (n', ok u) = IsIdle n' × ((p : ℕ) → contents n'.disk p ≡ seen p)
  Flushed seen (n', err e) = IsIdle n'
  Flushed seen (n', panic) = ⊥

  -- To go on where a flush has returned.
  pub and_then_lem :
      {A : Type 0} (Q : NbdWrapper D × Outcome E A → Type 0)
      (x : NbdWrapper D × Outcome E (Unit {0})) (f : NbdWrapper D → NbdWrapper D × Outcome E A)
      (seen : ℕ → ℕ)
      → Flushed seen x
      → ((n : NbdWrapper D) (e : E) → IsIdle n → Q (n, err e))
      → ((n : NbdWrapper D) → IsIdle n → ((p : ℕ) → contents n.disk p ≡ seen p) → Q (f n))
      → Q (and_then x f)
  and_then_lem Q (n, ok u) f seen h failed go_on = go_on n h.0 h.1
  and_then_lem Q (n, err e) f seen h failed go_on = failed n e h
  and_then_lem Q (n, panic) f seen h failed go_on = absurd h

  pub Flushed-seen :
      (seen seen' : ℕ → ℕ) (x : NbdWrapper D × Outcome E (Unit {0}))
      → ((p : ℕ) → seen p ≡ seen' p)
      → Flushed seen x
      → Flushed seen' x
  Flushed-seen seen seen' (n, ok u) same h = (h.0, λ p. h.1 p ∙ same p)
  Flushed-seen seen seen' (n, err e) same h = h
  Flushed-seen seen seen' (n, panic) same h = h

  -- A call of the disk when nothing is pending.
  pub Makes-Flushed :
      (n : NbdWrapper D) (after : ℕ → ℕ) (x : D × Outcome E (Unit {0}))
      → IsIdle n
      → Makes B contents after x
      → Flushed after (record n { disk = x.0 }, x.1)
  Makes-Flushed n after (d, ok u) i h = (IsIdle-disk n d i, h)
  Makes-Flushed n after (d, err x) i h = IsIdle-disk n d i
  Makes-Flushed n after (d, panic) i h = absurd h

  flush_data_idle : (n : NbdWrapper D) → IsIdle n → flush_data B n ≡ (n, ok tt)
  unfolding flush_data
  flush_data_idle n idle = rw idle.no_data refl

  module _ (L : IsBlockDisk B contents) where
    write_through-Flushed :
        (n : NbdWrapper D) (e : Extent) (b : List ℕ)
        → IsIdle n
        → length b ≡ e.blocks * 4096
        → 0 < e.blocks
        → Fits e
        → Flushed (overlay e.lba b (contents n.disk)) (write_through B n (map_range_data e b))
    unfolding write_through
    write_through-Flushed n e b idle size nonempty fits =
        let r : RangeData = record { extent = e; bytes = some b; dirty = true } in
        rw
          (map_range_data_lem {E = E} e b size nonempty fits.0 (omega (arith, fits)), write_through)
          (Makes-Flushed n (overlay e.lba b (contents n.disk)) (write_extent n.disk r) idle
            (L.writes n.disk r b refl size nonempty fits))

    pub zero_through-Flushed :
        (n : NbdWrapper D) (e : Extent)
        → IsIdle n
        → 0 < e.blocks
        → Fits e
        → Flushed (cleared e (contents n.disk)) (zero_through B n e)
    unfolding zero_through
    zero_through-Flushed n e idle nonempty fits =
        Makes-Flushed n (cleared e (contents n.disk)) (zero_blocks n.disk e) idle
          (L.zeroes n.disk e nonempty fits)

    flush_data-Flushed :
        (n : NbdWrapper D)
        → IsQueue n
        → n.pending_trim.blocks ≡ 0
        → Flushed
            (overlay n.pending_write.lba n.pending_write_data (contents n.disk))
            (flush_data B n)
    unfolding flush_data
    flush_data-Flushed n q none = elim (Bool-cases (length n.pending_write_data == 0)) [
      | inl nothing ↦
          let w : n.pending_write.blocks ≡ 0 = ground (arith, q.whole, nothing) in
          let b : n.pending_write_data ≡ [] = no_data_lem n q w in
          rw nothing (
            record { queue = q; no_trim = none; no_write = w; no_data = b },
            λ p. rw b (sym (overlay_nothing n.pending_write.lba (contents n.disk) p)),
          )
      | inr filled ↦ rw filled (
          write_through-Flushed (record n { pending_write = zero_extent; pending_write_data = [] })
            n.pending_write n.pending_write_data
            (record {
              queue = record {
                one = inl none;
                whole = refl;
                write_fits = omega arith;
                trim_ends = q.trim_ends;
                trim_narrow = q.trim_narrow;
              };
              no_trim = none;
              no_write = refl;
              no_data = refl;
            })
            q.whole (ground (arith, q.whole, filled)) q.write_fits)
    ]

    -- For a disk that does not panic on extents of at most 65535 blocks that end at or below block 2 ^
    -- 32, and that does what it is asked when it returns, and a trim of at most 65535 blocks: a flush
    -- does not panic, and nothing is pending after it. When it returns, the disk holds what clients saw
    -- before; when the disk fails, what was pending is lost.
    pub flush_pending_write-Flushed :
        (n : NbdWrapper D)
        → IsQueue n
        → n.pending_trim.blocks ≤ 65535
        → Flushed (image B contents n) (flush_pending_write B n)
    unfolding flush_pending_write flush_pending_trim
    flush_pending_write-Flushed n q few = elim (Bool-cases (ltb 0 n.pending_trim.blocks)) [
      | inl trimming ↦
          let w : n.pending_write.blocks ≡ 0 = ground (arith, q.one, trimming) in
          let b : n.pending_write_data ≡ [] = no_data_lem n q w in
          rw trimming (
            and_then_lem (Flushed (image B contents n))
              (zero_through B (record n { pending_trim = zero_extent }) n.pending_trim)
              (flush_data B) (cleared n.pending_trim (contents n.disk))
              (zero_through-Flushed _ n.pending_trim
                (record {
                  queue = record {
                    one = inl refl;
                    whole = q.whole;
                    write_fits = q.write_fits;
                    trim_ends = omega arith;
                    trim_narrow = omega arith;
                  };
                  no_trim = refl;
                  no_write = w;
                  no_data = b;
                })
                (ground (arith, trimming)) (few, q.trim_ends))
              (λ n' e idle. idle)
              (λ n' idle c.
                rw (flush_data_idle n' idle)
                  (idle, λ p. rw b (c p ∙ sym (overlay_nothing n.pending_write.lba _ p)))))
      | inr no_trims ↦
          let none : n.pending_trim.blocks ≡ 0 = ground (arith, no_trims) in
          rw no_trims (
            Flushed-seen (overlay n.pending_write.lba n.pending_write_data (contents n.disk))
              (image B contents n) (flush_data B n)
              (λ p.
                overlay-under n.pending_write.lba n.pending_write_data _ _ p
                  (sym (cleared_nothing n.pending_trim (contents n.disk) p none)))
              (flush_data-Flushed n q none))
    ]
