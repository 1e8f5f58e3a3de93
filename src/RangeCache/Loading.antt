-- ===== src/RangeCache/Loading.antt =====
-- range_cache.go: what saving and loading a chunk make of the cache.
use lsvd.Base.{
  false, ℕ, none, ◌<◌, refl, ◌+◌, ◌*◌, ◌≡◌, sym, ◌∙◌, inl, inr, true, List, Option, some, arith,
  ltb, length, Option-cases, both_branches,
}
use lsvd.Base.Outcome.{Outcome, ok, err, panic}
use lsvd.Base.Slices.{length-slice, get_elem?-slice}
use lsvd.RangeCache.{Chunks, RangeCache, RangeCacheKey, saved_at, save_chunk, mem_chunk, load_chunk}
use lsvd.RangeCache.Slots.{
  Content, Copies, Removed, Told, Fetched, IsChunks, IsFree, IsCache, Saved, saved_at-Saved,
}

module _ {E : Type 0} (K : Chunks E) (content : Content) (W : IsChunks K content) where
  open K use {L, get, len, remove_oldest, seek_current, fetch}

  -- A cache with the same places.
  moved-IsCache :
      (r : RangeCache L) (l : L)
      → IsCache K content W r
      → ((k : RangeCacheKey) → W.peek l k ≡ W.peek r.lru k)
      → len l ≡ len r.lru
      → IsCache K content W (record r { lru = l })
  moved-IsCache r l c same size = record {
    slots = record {
      inside = λ k o h. c.slots.inside k o (sym (same k) ∙ h);
      held = λ k o h. c.slots.held k o (sym (same k) ∙ h);
      apart = λ k j o p x y. c.slots.apart k j o p (sym (same k) ∙ x) (sym (same j) ∙ y);
    };
    reaches = c.reaches;
    below = λ k o h. c.below k o (sym (same k) ∙ h);
    counted = omega (arith, c.counted, size);
    few = omega (arith, c.few, size);
  }

  reused-IsFree :
      (r : RangeCache L) (l : L) (old : RangeCacheKey) (off : ℕ)
      → IsCache K content W r
      → Removed K content W.peek r.lru (l, some (old, off))
      → IsFree K content W l r.region off
  reused-IsFree r l old off c d = record {
    slots = record {
      inside = λ k o h. c.slots.inside k o (d.3 k o h).0;
      held = λ k o h. c.slots.held k o (d.3 k o h).0;
      apart = λ k j o p x y. c.slots.apart k j o p (d.3 k o x).0 (d.3 j p y).0;
    };
    room = d.1;
    starts = omega (arith, c.slots.inside old off d.0);
    alone = λ k o h.
        let x = d.3 k o h in
        elim (c.slots.apart old k off o d.0 x.0) [
          | inl e ↦ absurd (cc (e, x.1))
          | inr far ↦ omega (arith, far)
        ];
  }

  Removed-absent :
      (l l' : L) (old key : RangeCacheKey) (off : ℕ)
      → Removed K content W.peek l (l', some (old, off))
      → W.peek l key ≡ none
      → W.peek l' key ≡ none
  Removed-absent l l' old key off d absent = elim (Option-cases (W.peek l' key)) [
    | inl gone ↦ gone
    | inr (o, there) ↦ absurd (cc ((d.3 key o there).0, absent))
  ]

  save_chunk-Saved :
      (r : RangeCache L) (key : RangeCacheKey) (bytes : List ℕ)
      → IsCache K content W r
      → W.peek r.lru key ≡ none
      → length bytes ≡ 1048576
      → Copies content key.0 (key.1 * 1048576) 1048576 0 bytes
      → Saved K content W (save_chunk K r key bytes)
  unfolding save_chunk
  save_chunk-Saved r key bytes c absent size copies =
      both_branches (Saved K content W) (ltb (len r.lru) 1024)
        (λ room. appended (ground (arith, room)) (seek_current r.cursor) (W.told r.cursor))
        (λ full. evicted (remove_oldest r.lru) (W.removes r.lru))
    where
      appended :
          len r.lru < 1024
          → (x : Outcome E ℕ) → Told K content r.cursor x
          → Saved K content W (elim x [
            | err e ↦ (r, err e)
            | panic ↦ (r, panic)
            | ok off ↦ saved_at K r key off (λ n. off + n) bytes
          ])
      appended room (err e) h = tt
      appended room panic h = h
      appended room (ok off) at =
          saved_at-Saved K content W r key off (off + length bytes) (λ n. off + n) bytes
            (record {
              slots = c.slots;
              room = room;
              starts = omega (arith, at, c.reaches);
              alone = λ k o h. inl (omega (arith, at, c.below k o h));
            })
            absent size copies refl (omega (arith, at, size, c.counted)) (omega (arith, size))
            (inr (omega (arith, size))) (λ k o h. omega (arith, at, c.below k o h))

      evicted :
          (x : L × Option (RangeCacheKey × ℕ))
          → Removed K content W.peek r.lru x
          → Saved K content W (elim x.1 [
            | none ↦ (record r { lru = x.0 }, err K.misused)
            | some (old, off) ↦ saved_at K (record r { lru = x.0 }) key off (λ n. r.cursor) bytes
          ])
      evicted (l, none) h = tt
      evicted (l, some (old, off)) h =
          saved_at-Saved K content W (record r { lru = l }) key off r.cursor (λ n. r.cursor) bytes
            (reused-IsFree r l old off c h) (Removed-absent r.lru l old key off h absent) size
            copies refl (omega (arith, c.counted, h.2)) (c.below old off h.0) (inl c.reaches)
            (λ k o p. c.below k o (h.3 k o p).0)

  -- A chunk that was loaded holds the bytes of its segment.
  abbrev pub Loads : RangeCacheKey → RangeCache L × Outcome E (List ℕ) → Type 0
  Loads key (r', ok mem) =
      IsCache K content W r'
      × (length mem ≡ 1048576)
      × Copies content key.0 (key.1 * 1048576) 1048576 0 mem
  Loads key (r', err e) = Unit {0}
  Loads key (r', panic) = ⊥

  Saved-Loads :
      (key : RangeCacheKey) (bytes : List ℕ) (x : RangeCache L × Outcome E ℕ)
      → Fetched K content key.0 (key.1 * 1048576) (ok bytes)
      → Saved K content W x
      → Loads key
          (elim x.1 [ err e ↦ (x.0, err e) | panic ↦ (x.0, panic) | ok off ↦ (x.0, ok bytes) ])
  Saved-Loads key bytes (r, ok off) h s = (s, h.0, h.1)
  Saved-Loads key bytes (r, err e) h s = tt
  Saved-Loads key bytes (r, panic) h s = s

  Fetched-Loads :
      (r : RangeCache L) (key : RangeCacheKey) (x : Outcome E (List ℕ))
      → IsCache K content W r
      → W.peek r.lru key ≡ none
      → Fetched K content key.0 (key.1 * 1048576) x
      → Loads key (elim x [
        | err e ↦ (r, err e)
        | panic ↦ (r, panic)
        | ok bytes ↦ elim (save_chunk K r key bytes).1 [
          | err e ↦ ((save_chunk K r key bytes).0, err e)
          | panic ↦ ((save_chunk K r key bytes).0, panic)
          | ok off ↦ ((save_chunk K r key bytes).0, ok bytes)
        ]
      ])
  Fetched-Loads r key (err e) c absent h = tt
  Fetched-Loads r key panic c absent h = h
  Fetched-Loads r key (ok bytes) c absent h =
      Saved-Loads key bytes (save_chunk K r key bytes) h
        (save_chunk-Saved r key bytes c absent h.0 h.1)

  pub load_chunk-Loads :
      (r : RangeCache L) (key : RangeCacheKey)
      → IsCache K content W r
      → Loads key (load_chunk K r key)
  unfolding load_chunk mem_chunk
  load_chunk-Loads r key c =
      let c' =
        moved-IsCache r (get r.lru key).0 c (λ k. W.keeps r.lru key k) (W.gets_len r.lru key) in
      elim (Option-cases (get r.lru key).1) [
        | inr (off, hit) ↦
            let p : W.peek r.lru key ≡ some off = sym (W.gets r.lru key) ∙ hit in
            let mapped : ltb 1073741824 (off + 1048576) ≡ false =
              ground (arith, c.below key off p, c.counted, c.few) in
            let stored : ltb (length r.region) (off + 1048576) ≡ false =
              ground (arith, c.slots.inside key off p) in
            rw (hit, load_chunk, mapped, stored)
              (
                c',
                length-slice off 1048576 r.region (c.slots.inside key off p),
                λ i v lt e.
                    let start : 0 + i ≡ i = omega arith in
                    let found : ltb i 1048576 ≡ true = ground arith in
                    rw (start, get_elem?-slice off 1048576 r.region i, found)
                      (c.slots.held key off p i v lt e),
              )
        | inl miss ↦
            rw (miss, load_chunk)
              (Fetched-Loads (record r { lru = (get r.lru key).0 }) key
                (fetch key.0 (key.1 * 1048576)) c'
                (W.keeps r.lru key key ∙ sym (W.gets r.lru key) ∙ miss)
                (W.fetched key.0 (key.1 * 1048576)))
      ]
