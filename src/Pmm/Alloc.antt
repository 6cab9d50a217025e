-- ===== src/Pmm/Alloc.antt =====
-- What `pmm_alloc_frame` and `pmm_free_frame` do to the frames, and what `pmm_get_free_frames` says.
use orion_final.Base.{
  ℕ, ◌+◌, ◌-◌, ◌*◌, ◌/◌, ◌^◌, ◌<◌, ◌≡◌, refl, ◌≢◌, ◌⊎◌, inl, inr, arith, ne→eqb, dec_lt,
}
use orion_final.Bitmap.{bitmap_test}
use orion_final.Bitmap.Laws.{
  count_set, count_set-le, test-set_self, test-set_ne, test-clear_self, test-clear_ne,
}
use orion_final.Pmm.{Pmm, max_frames, take_frame, alloc_frame, free_frame, get_free_frames}
use orion_final.Pmm.Scan.{Allocates, exhausted, allocated, alloc_frame-Allocates}
use orion_final.Pmm.Inv.{Inv}

-- `t` is `s` with frame `f` newly reserved, and nothing else touched.
pub record Reserves (s : Pmm) (f : ℕ) (t : Pmm) : Type 0 where
  pub below : f < max_frames
  pub not_zero : f ≢ 0
  pub was_free : bitmap_test s.bitmap f ≡ 0
  pub now_reserved : bitmap_test t.bitmap f ≡ 1
  pub others : (g : ℕ) → f ≢ g → bitmap_test t.bitmap g ≡ bitmap_test s.bitmap g
  pub used : t.used_frames ≡ s.used_frames + 1
  pub total : t.total_frames ≡ s.total_frames

take_frame-Reserves :
    (s : Pmm) (f : ℕ)
    → Inv s
    → f < max_frames
    → f ≢ 0
    → bitmap_test s.bitmap f ≡ 0
    → Reserves s f (take_frame s f).1
unfolding take_frame
take_frame-Reserves s f v l n e = record {
  below = l;
  not_zero = n;
  was_free = e;
  now_reserved = test-set_self s.bitmap f;
  others = λ g h. test-set_ne s.bitmap f g h;
  used = omega (arith, v.counted, count_set-le s.bitmap max_frames);
  total = refl;
}

-- `pmm_alloc_frame` returns 0 and changes nothing only if no memory was ever made available or every
-- frame but frame 0 is reserved. Otherwise it returns the address of a frame that was free, that
-- exists and is not frame 0, and reserves that frame alone.
pub alloc_frame_lem :
    (s : Pmm)
    → Inv s
    → let (addr, t) = alloc_frame s in
      ((addr ≡ 0)
        × (t ≡ s)
        × ((s.total_frames ≡ 0) ⊎ ((g : ℕ) → g ≢ 0 → g < max_frames → bitmap_test s.bitmap g ≡ 1)))
      ⊎ ((f : ℕ) × (addr ≡ f * 4096) × (addr ≢ 0) × Reserves s f t)
alloc_frame_lem s v = by_cases (alloc_frame-Allocates s)
  where
    by_cases :
        {r : ℕ × Pmm}
        → Allocates s r
        → ((r.0 ≡ 0)
            × (r.1 ≡ s)
            × ((s.total_frames ≡ 0)
                ⊎ ((g : ℕ) → g ≢ 0 → g < max_frames → bitmap_test s.bitmap g ≡ 1)))
          ⊎ ((f : ℕ) × (r.0 ≡ f * 4096) × (r.0 ≢ 0) × Reserves s f r.1)
    by_cases (exhausted (inl e)) = inl (refl, refl, inl e)
    by_cases (exhausted (inr (h, k))) = inl (
      refl,
      refl,
      inr (λ g n l. elim (dec_lt g s.alloc_search) [
        | yes m ↦ k g (omega arith) m (omega arith) m n
        | no m ↦ h g (omega arith) l (omega arith) l n
      ]),
    )
    by_cases (allocated f w) =
        let l : f < max_frames = omega (arith, v.search_in) in
        inr (
          f,
          unfold take_frame in omega arith,
          unfold take_frame in omega arith,
          take_frame-Reserves s f v l w.2 w.3,
        )

free_frame-Reserves :
    (s t : Pmm) (f addr : ℕ)
    → Inv s
    → addr ≡ f * 4096
    → Reserves s f t
    → ((g : ℕ) → bitmap_test (free_frame t addr).bitmap g ≡ bitmap_test s.bitmap g)
      × ((free_frame t addr).used_frames ≡ s.used_frames)
      × ((free_frame t addr).total_frames ≡ s.total_frames)
unfolding free_frame
free_frame-Reserves s t f addr v e r =
    let at : addr / 2 ^ 12 ≡ f = omega arith in
    rw
      (at, ne→eqb f 0 r.not_zero, ne→eqb (bitmap_test t.bitmap f) 0 (omega (arith, r.now_reserved)))
      (
        λ g. ground (arith, test-clear_self t.bitmap f, test-clear_ne t.bitmap f g, r.others g),
        omega (arith, r.used, v.counted, count_set-le s.bitmap max_frames),
        r.total,
      )

-- Freeing the frame that was just allocated brings back every bit of the bitmap and the counters.
pub free_frame-alloc_frame :
    (s : Pmm)
    → Inv s
    → (alloc_frame s).0 ≢ 0
    → let t = free_frame (alloc_frame s).1 (alloc_frame s).0 in
      ((g : ℕ) → bitmap_test t.bitmap g ≡ bitmap_test s.bitmap g)
      × (t.used_frames ≡ s.used_frames)
      × (t.total_frames ≡ s.total_frames)
free_frame-alloc_frame s v n = elim (alloc_frame_lem s v) [
  | inl h ↦ absurd (n h.0)
  | inr (f, a, m, r) ↦ free_frame-Reserves s (alloc_frame s).1 f (alloc_frame s).0 v a r
]

-- A free frame, and frame 0, are not freed again: `pmm_free_frame` then changes nothing.
pub free_frame_double :
    (s : Pmm) (addr : ℕ)
    → (addr / 4096 ≡ 0) ⊎ (bitmap_test s.bitmap (addr / 4096) ≡ 0)
    → free_frame s addr ≡ s
unfolding free_frame
free_frame_double s addr h = ground arith

-- `pmm_get_free_frames` subtracts all reserved frames, those that do not exist included, from the
-- frames that were made available: as long as fewer than 2 ^ 20 frames were, what it returns is not
-- the number of frames that are free.
pub get_free_frames_wrong :
    (s : Pmm)
    → Inv s
    → s.total_frames < max_frames
    → get_free_frames s ≢ max_frames - count_set s.bitmap max_frames
unfolding get_free_frames
get_free_frames_wrong s v l = omega (arith, v.counted, count_set-le s.bitmap max_frames)
