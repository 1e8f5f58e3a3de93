-- ===== src/Nbd/Queue.antt =====
-- nbd.go: `queuePendingWrite` and `queueTrim`.
use lsvd.Base.{
  ℕ, ◌+◌, ◌*◌, ◌^◌, ◌≤◌, ◌<◌, ◌≡◌, refl, sym, ◌∙◌, List, [], ◌++◌, arith, ltb, ◌==◌, not, length,
  length-append, Bool, both_branches, inl, inr, true, false,
}
use lsvd.Base.Words.{add64, add32}
use lsvd.Extent.{Extent, last}
use lsvd.Nbd.{BlockDisk, NbdWrapper, queue_pending_write, queue_trim}
use lsvd.Nbd.Image.{
  IsQueue, Fits, image, overlay, cleared, overlay_nothing, cleared_nothing, overlay-under,
  cleared-under, overlay-append, cleared-append,
}
use lsvd.Nbd.Flushing.{IsIdle, no_data_lem}

next_lem : (e : Extent) → e.lba + e.blocks ≤ 2 ^ 32 → add64 (last e) 1 ≡ e.lba + e.blocks
unfolding last
next_lem e h = omega arith

module _ {E : Type 0} (B : BlockDisk E) (contents : B.D → ℕ → ℕ) where
  open B use {D}

  -- A queue takes an extent, and clients see its effect, or it stays as it is.
  abbrev pub Taken : NbdWrapper D → (ℕ → ℕ) → NbdWrapper D × Bool → Type 0
  Taken n after (n', true) = IsQueue n' × ((p : ℕ) → image B contents n' p ≡ after p)
  Taken n after (n', false) = n' ≡ n

  module _ (n : NbdWrapper D) (q : IsQueue n) (ext : Extent) where
    first_write :
        (b : List ℕ)
        → n.pending_trim.blocks ≡ 0
        → n.pending_write_data ≡ []
        → length b ≡ ext.blocks * 4096
        → Fits ext
        → Taken n
            (overlay ext.lba b (image B contents n))
            (record n { pending_write = ext; pending_write_data = n.pending_write_data ++ b }, true)
    first_write b none nothing size fits = rw nothing (
      record {
        one = inl none;
        whole = size;
        write_fits = fits;
        trim_ends = q.trim_ends;
        trim_narrow = q.trim_narrow;
      },
      λ p. overlay-under ext.lba b _ _ p (sym (overlay_nothing n.pending_write.lba _ p)),
    )

    next_write :
        (b : List ℕ)
        → n.pending_trim.blocks ≡ 0
        → length b ≡ ext.blocks * 4096
        → Fits ext
        → ext.lba ≡ n.pending_write.lba + n.pending_write.blocks
        → n.pending_write.blocks + ext.blocks ≤ 20
        → Taken n (overlay ext.lba b (image B contents n)) (
          record n {
            pending_write = record n.pending_write {
              blocks = add32 n.pending_write.blocks ext.blocks;
            };
            pending_write_data = n.pending_write_data ++ b;
          },
          true,
        )
    next_write b none size fits behind few = (
      record {
        one = inl none;
        whole = omega (arith, length-append n.pending_write_data b, size, q.whole);
        write_fits = omega (arith, fits, behind, few);
        trim_ends = q.trim_ends;
        trim_narrow = q.trim_narrow;
      },
      λ p.
          overlay-append n.pending_write.lba n.pending_write.blocks ext.lba n.pending_write_data b
            (cleared n.pending_trim (contents n.disk)) p q.whole behind,
    )

    trim_only :
        (t : Extent)
        → n.pending_write.blocks ≡ 0
        → t.lba + t.blocks ≤ 2 ^ 32
        → t.blocks < 2 ^ 32
        → ((p : ℕ)
            → cleared t (contents n.disk) p
              ≡ cleared ext (cleared n.pending_trim (contents n.disk)) p)
        → Taken n (cleared ext (image B contents n)) (record n { pending_trim = t }, true)
    trim_only t none ends narrow same =
        let b : n.pending_write_data ≡ [] = no_data_lem n q none in
        (
          record {
            one = inr none;
            whole = q.whole;
            write_fits = q.write_fits;
            trim_ends = ends;
            trim_narrow = narrow;
          },
          λ p. rw b (
              overlay_nothing n.pending_write.lba _ p
              ∙ same p
              ∙ cleared-under ext _ _ p (sym (overlay_nothing n.pending_write.lba _ p))),
        )

    first_trim :
        n.pending_write.blocks ≡ 0
        → n.pending_trim.blocks ≡ 0
        → ext.blocks ≤ 65535
        → ext.lba + ext.blocks ≤ 2 ^ 32
        → Taken n (cleared ext (image B contents n)) (record n { pending_trim = ext }, true)
    first_trim none nothing few ends = trim_only ext none ends (omega arith) λ p.
        cleared-under ext _ _ p (sym (cleared_nothing n.pending_trim (contents n.disk) p nothing))

    next_trim :
        n.pending_write.blocks ≡ 0
        → ext.blocks ≤ 65535
        → ext.lba + ext.blocks ≤ 2 ^ 32
        → n.pending_trim.blocks ≤ 65535
        → ext.lba ≡ n.pending_trim.lba + n.pending_trim.blocks
        → Taken n (cleared ext (image B contents n)) (
          record n {
            pending_trim = record n.pending_trim {
              blocks = add32 n.pending_trim.blocks ext.blocks;
            };
          },
          true,
        )
    next_trim none few ends few' behind =
        let sum : add32 n.pending_trim.blocks ext.blocks ≡ n.pending_trim.blocks + ext.blocks =
          omega (arith, few, few') in
        rw sum (
          trim_only (record n.pending_trim { blocks = n.pending_trim.blocks + ext.blocks }) none
            (omega (arith, behind, ends)) (omega (arith, few, few'))
            λ p. cleared-append n.pending_trim ext _ (contents n.disk) p behind refl refl)

    pub queue_pending_write-Taken :
        (b : List ℕ)
        → length b ≡ ext.blocks * 4096
        → Fits ext
        → Taken n (overlay ext.lba b (image B contents n)) (queue_pending_write n ext b)
    unfolding queue_pending_write
    queue_pending_write-Taken b size fits =
        let P : NbdWrapper D × Bool → Type 0 = Taken n (overlay ext.lba b (image B contents n)) in
        both_branches P (ltb 0 n.pending_trim.blocks) (λ _. refl)
          λ idle.
            let none : n.pending_trim.blocks ≡ 0 = ground (arith, idle) in
            both_branches P (length n.pending_write_data == 0)
              (λ empty.
                first_write b none (no_data_lem n q (ground (arith, q.whole, empty))) size fits)
              λ filled.
                both_branches P (not (add64 (last n.pending_write) 1 == ext.lba)) (λ _. refl)
                  λ behind.
                    both_branches P (ltb 20 (add32 n.pending_write.blocks ext.blocks)) (λ _. refl)
                      λ few.
                        next_write b none size fits
                          (ground (arith, behind, next_lem n.pending_write q.write_fits.1))
                          (ground (arith, few, q.write_fits, fits))

    pub queue_trim-Taken :
        ext.blocks ≤ 65535
        → ext.lba + ext.blocks ≤ 2 ^ 32
        → n.pending_trim.blocks ≤ 65535
        → Taken n (cleared ext (image B contents n)) (queue_trim n ext)
    unfolding queue_trim
    queue_trim-Taken few ends few' =
        let P : NbdWrapper D × Bool → Type 0 = Taken n (cleared ext (image B contents n)) in
        both_branches P (ltb 0 n.pending_write.blocks) (λ _. refl)
          λ idle.
            let none : n.pending_write.blocks ≡ 0 = ground (arith, idle) in
            both_branches P (n.pending_trim.blocks == 0)
              (λ empty. first_trim none (ground (arith, empty)) few ends)
              λ filled.
                both_branches P (add64 (last n.pending_trim) 1 == ext.lba)
                  (λ behind.
                    next_trim none few ends few'
                      (ground (arith, behind, next_lem n.pending_trim q.trim_ends)))
                  (λ _. refl)

  -- Nothing is refused when nothing is pending.
  pub queue_pending_write_idle :
      (n : NbdWrapper D) (ext : Extent) (b : List ℕ)
      → IsIdle n
      → (queue_pending_write n ext b).1 ≡ true
  unfolding queue_pending_write
  queue_pending_write_idle n ext b i = rw (i.no_data, i.no_trim) refl

  pub queue_trim_idle : (n : NbdWrapper D) (ext : Extent) → IsIdle n → (queue_trim n ext).1 ≡ true
  unfolding queue_trim
  queue_trim_idle n ext i = rw (i.no_write, i.no_trim) refl
