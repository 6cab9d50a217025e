-- ===== src/Pmm/Inv.antt =====
-- The invariant of kernel/mm/pmm.c: its counters and its bitmap.
use orion_final.Base.{
  ℕ, zero, suc, ◌+◌, ◌/◌, ◌^◌, ◌≤◌, ◌<◌, ◌≡◌, ◌≢◌, arith, ◌==◌, false, Bool-cases, eqb→eq, inl, inr,
}
use orion_final.Base.Words.{u32, sub32}
use orion_final.Bitmap.{bitmap_set, bitmap_clear, bitmap_test}
use orion_final.Bitmap.Laws.{
  count_set, count_set-set, count_set-clear, count_set-le, test_cases, test-set_self, test-set_ne,
  test-clear_ne,
}
use orion_final.Pmm.{
  Pmm, max_frames, reserve_frame, release_frame, reserve_frames, release_frames, take_frame,
  alloc_frame, free_frame,
}
use orion_final.Pmm.Scan.{Allocates, exhausted, allocated, alloc_frame-Allocates}

pub record Inv (s : Pmm) : Type 0 where
  pub zero_reserved : bitmap_test s.bitmap 0 ≡ 1
  pub counted : s.used_frames ≡ count_set s.bitmap max_frames
  pub search_in : (1 ≤ s.alloc_search) × (s.alloc_search < max_frames)

pub take_frame-Inv :
    (s : Pmm) (f : ℕ)
    → Inv s
    → f < max_frames
    → f ≢ 0
    → bitmap_test s.bitmap f ≡ 0
    → Inv (take_frame s f).1
unfolding take_frame
take_frame-Inv s f v l n e = record {
  zero_reserved = ground (arith, test-set_ne s.bitmap f 0);
  counted = omega (
    arith,
    v.counted,
    count_set-set s.bitmap f max_frames l e,
    count_set-le s.bitmap max_frames,
    count_set-le (bitmap_set s.bitmap f) max_frames,
  );
  search_in = ground arith;
}

-- One frame less is reserved, and one less is counted.
cleared :
    (s : Pmm) (f : ℕ)
    → Inv s
    → f < max_frames
    → (bitmap_test s.bitmap f == 0) ≡ false
    → sub32 s.used_frames 1 ≡ count_set (bitmap_clear s.bitmap f) max_frames
cleared s f v l e = omega (
  arith,
  v.counted,
  count_set-clear s.bitmap f max_frames l (ground (arith, test_cases s.bitmap f)),
  count_set-le s.bitmap max_frames,
)

-- `pmm_free_frame` keeps the invariant, whatever 32-bit address it is given.
pub free_frame-Inv : (s : Pmm) (a : ℕ) → Inv s → a < 2 ^ 32 → Inv (free_frame s a)
unfolding free_frame
free_frame-Inv s a v l = elim (Bool-cases (a / 2 ^ 12 == 0)) [
  | inl e ↦ rw e v
  | inr e ↦ rw e (elim (Bool-cases (bitmap_test s.bitmap (a / 2 ^ 12) == 0)) [
    | inl d ↦ rw d v
    | inr d ↦ rw d (record {
      zero_reserved = ground (arith, v.zero_reserved, test-clear_ne s.bitmap (a / 2 ^ 12) 0);
      counted = cleared s (a / 2 ^ 12) v (omega arith) d;
      search_in = ground arith;
    })
  ])
]

pub reserve_frame-Inv : (s : Pmm) (f : ℕ) → Inv s → f < max_frames → Inv (reserve_frame s f)
unfolding reserve_frame
reserve_frame-Inv s f v l = elim (Bool-cases (bitmap_test s.bitmap f == 0)) [
  | inl e ↦ rw e (record {
    zero_reserved =
        ground (arith, v.zero_reserved, test-set_ne s.bitmap f 0, test-set_self s.bitmap f);
    counted = omega (
      arith,
      v.counted,
      count_set-set s.bitmap f max_frames l (eqb→eq _ _ e),
      count_set-le s.bitmap max_frames,
      count_set-le (bitmap_set s.bitmap f) max_frames,
    );
    search_in = v.search_in;
  })
  | inr e ↦ rw e v
]

release_frame-Inv : (s : Pmm) (f : ℕ) → Inv s → f < max_frames → Inv (release_frame s f)
unfolding release_frame
release_frame-Inv s f v l = elim (Bool-cases (f == 0)) [
  | inl e ↦ rw e v
  | inr e ↦ rw e (elim (Bool-cases (bitmap_test s.bitmap f == 0)) [
    | inl d ↦ rw d v
    | inr d ↦ rw d (record {
      zero_reserved = ground (arith, v.zero_reserved, test-clear_ne s.bitmap f 0);
      counted = cleared s f v l d;
      search_in = v.search_in;
    })
  ])
]

pub reserve_frames-Inv :
    (s : Pmm) (f left : ℕ) → Inv s → f + left ≤ max_frames → Inv (reserve_frames s f left)
unfolding reserve_frames
reserve_frames-Inv s f zero v l = v
reserve_frames-Inv s f (suc left) v l =
    let next : u32 (f + 1) ≡ f + 1 = omega arith in
    rw next (
      reserve_frames-Inv (reserve_frame s f) (f + 1) left (reserve_frame-Inv s f v (omega arith))
        (omega arith))

pub release_frames-Inv :
    (s : Pmm) (f left : ℕ) → Inv s → f + left ≤ max_frames → Inv (release_frames s f left)
unfolding release_frames
release_frames-Inv s f zero v l = v
release_frames-Inv s f (suc left) v l =
    let next : u32 (f + 1) ≡ f + 1 = omega arith in
    rw next (
      release_frames-Inv (release_frame s f) (f + 1) left (release_frame-Inv s f v (omega arith))
        (omega arith))

-- `pmm_alloc_frame` keeps the invariant, memory or not.
pub alloc_frame-Inv : (s : Pmm) → Inv s → Inv (alloc_frame s).1
alloc_frame-Inv s v = by_cases (alloc_frame-Allocates s)
  where
    by_cases : {r : ℕ × Pmm} → Allocates s r → Inv r.1
    by_cases (exhausted _) = v
    by_cases (allocated f w) = take_frame-Inv s f v (omega (arith, v.search_in)) w.2 w.3
