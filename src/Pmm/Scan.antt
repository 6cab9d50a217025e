-- ===== src/Pmm/Scan.antt =====
-- The two-pass search of `pmm_alloc_frame` in kernel/mm/pmm.c.
use mathlib.Core.Path.{subst}
use orion_final.Base.{
  ℕ, zero, suc, ◌+◌, ◌-◌, ◌*◌, ◌/◌, ◌^◌, ◌≤◌, ◌<◌, ◌≡◌, refl, sym, ap, ◌∙◌, ◌≢◌, ◌⊎◌, inl, inr,
  arith, ◌==◌, ◌||◌, if◌then◌else◌, Bool-cases, eqb→eq, eqb→ne, Option, none, some, ltb, leb,
  dec_lt,
}
use orion_final.Bitmap.{Bitmap, bitmap_test}
use orion_final.Bitmap.Laws.{test-full_word, test_cases}
use orion_final.Pmm.{Pmm, max_frames, scan_bits, scan_words, scan_pass, take_frame, alloc_frame}

module _ (b : Bitmap) (start end : ℕ) where
  -- All frames of the range that lie from `lo` up to `hi` are reserved, frame 0 aside.
  abbrev pub Full : ℕ → ℕ → Type 0
  Full lo hi = (g : ℕ) → lo ≤ g → g < hi → start ≤ g → g < end → g ≢ 0 → bitmap_test b g ≡ 1

  -- What a search from `lo` up to `hi` finds.
  abbrev pub Finds : ℕ → ℕ → Option ℕ → Type 0
  Finds lo hi none = Full lo hi
  Finds lo hi (some f) =
      (lo ≤ f) × (f < hi) × (start ≤ f) × (f < end) × (f ≢ 0) × (bitmap_test b f ≡ 0) × Full lo f

  Full-grow : (lo mid hi : ℕ) → Full lo mid → Full mid hi → Full lo hi
  Full-grow lo mid hi h k g p q r s t = ground (arith, h g, k g)

  Finds-grow :
      (lo mid hi : ℕ) (r : Option ℕ) → lo ≤ mid → Full lo mid → Finds mid hi r → Finds lo hi r
  Finds-grow lo mid hi none l h k = Full-grow lo mid hi h k
  Finds-grow lo mid hi (some f) l h k =
      (omega arith, k.1, k.2, k.3, k.4, k.5, Full-grow lo mid f h k.6)

  -- One frame is taken, or passed over for a reason.
  frame_cases :
      (f hi : ℕ) (rest : Option ℕ)
      → f < hi
      → Finds (f + 1) hi rest
      → Finds f hi (
          if f == 0
          then rest
          else if ltb f start || leb end f
          then rest
          else if bitmap_test b f == 0
          then some f
          else rest)
  frame_cases f hi rest l h =
      let skip = λ (k : Full f (f + 1)). Finds-grow f (f + 1) hi rest (omega arith) k h in
      elim (Bool-cases (f == 0)) [
        | inl e ↦ rw e (skip (λ g p q r s t. ground arith))
        | inr e ↦ rw e (elim (Bool-cases (ltb f start || leb end f)) [
          | inl d ↦ rw d (skip (λ g p q r s t. ground arith))
          | inr d ↦ rw d (elim (Bool-cases (bitmap_test b f == 0)) [
            | inl c ↦ rw c (
              omega arith,
              l,
              ground arith,
              ground arith,
              ground arith,
              eqb→eq _ _ c,
              λ g p q. absurd (omega arith),
            )
            | inr c ↦ rw c (
                skip (λ g p q r s t.
                  let e' : f ≡ g = omega arith in
                  ap (bitmap_test b) (sym e') ∙ ground (arith, test_cases b f)))
          ])
        ])
      ]

  scan_bits-Finds :
      (w bit left : ℕ)
      → Finds (w * 32 + bit) (w * 32 + bit + left) (scan_bits b start end w bit left)
  unfolding scan_bits
  scan_bits-Finds w bit zero = λ g p q. absurd (omega arith)
  scan_bits-Finds w bit (suc left) =
      frame_cases (w * 32 + bit) (w * 32 + bit + suc left) (scan_bits b start end w (bit + 1) left)
        (omega arith)
        (let at : w * 32 + bit + 1 ≡ w * 32 + (bit + 1) = omega arith in
          let to : w * 32 + bit + suc left ≡ w * 32 + (bit + 1) + left = omega arith in
          rw (at, to) (scan_bits-Finds w (bit + 1) left))

  Finds-widen :
      (lo mid hi : ℕ) (r : Option ℕ) → mid ≤ hi → r ≢ none → Finds lo mid r → Finds lo hi r
  Finds-widen lo mid hi none l n h = absurd (n refl)
  Finds-widen lo mid hi (some f) l n h = (h.0, omega arith, h.2, h.3, h.4, h.5, h.6)

  Full-word : (w : ℕ) → b w ≡ 2 ^ 32 - 1 → Full (w * 32) (w * 32 + 32)
  Full-word w e g p q r s t = let at : g / 32 ≡ w = omega arith in test-full_word b g (rw at e)

  word_cases :
      (w hi : ℕ) (rest : Option ℕ)
      → w * 32 + 32 ≤ hi
      → Finds (w * 32 + 32) hi rest
      → Finds (w * 32) hi (
          if b w == 2 ^ 32 - 1
          then rest
          else elim (scan_bits b start end w 0 32) [ none ↦ rest | some frame ↦ some frame ])
  word_cases w hi rest l h = elim (Bool-cases (b w == 2 ^ 32 - 1)) [
    | inl e ↦
        rw e
          (Finds-grow (w * 32) (w * 32 + 32) hi rest (omega arith) (Full-word w (eqb→eq _ _ e)) h)
    | inr e ↦ rw e (by_bits (scan_bits b start end w 0 32) (from_zero _ (scan_bits-Finds w 0 32)))
  ]
    where
      from_zero :
          (r : Option ℕ) → Finds (w * 32 + 0) (w * 32 + 0 + 32) r → Finds (w * 32) (w * 32 + 32) r
      from_zero r k = subst (λ (t : ℕ). Finds t (t + 32) r) (omega arith) k

      by_bits :
          (r : Option ℕ)
          → Finds (w * 32) (w * 32 + 32) r
          → Finds (w * 32) hi (elim r [ none ↦ rest | some frame ↦ some frame ])
      by_bits none k = Finds-grow (w * 32) (w * 32 + 32) hi rest (omega arith) k h
      by_bits (some f) k = Finds-widen (w * 32) (w * 32 + 32) hi (some f) l (λ e. cc) k

  scan_words-Finds : (w left : ℕ) → Finds (w * 32) ((w + left) * 32) (scan_words b start end w left)
  unfolding scan_words
  scan_words-Finds w zero = λ g p q. absurd (omega arith)
  scan_words-Finds w (suc left) =
      word_cases w ((w + suc left) * 32) (scan_words b start end (w + 1) left) (omega arith) (
        let at : w * 32 + 32 ≡ (w + 1) * 32 = omega arith in
        let to : w + suc left ≡ w + 1 + left = omega arith in
        rw (at, to) (scan_words-Finds (w + 1) left))

  restrict : (lo hi : ℕ) (r : Option ℕ) → lo ≤ start → end ≤ hi → Finds lo hi r → Finds start end r
  restrict lo hi none l k h = λ g p q. h g (omega arith) (omega arith)
  restrict lo hi (some f) l k h =
      (h.2, h.3, h.2, h.3, h.4, h.5, λ g p q. h.6 g (omega arith) (omega arith))

  -- A pass over a range finds its lowest free frame, if there is one.
  pub scan_pass-Finds : Finds start end (scan_pass b start end)
  unfolding scan_pass
  scan_pass-Finds =
      let w : ℕ = start / 32 in
      let left : ℕ = (end + 31) / 32 - start / 32 in
      elim (dec_lt start end) [
        | yes l ↦
            restrict (w * 32) ((w + left) * 32) (scan_words b start end w left) (omega arith)
              (omega arith) (scan_words-Finds w left)
        | no l ↦ empty (scan_words b start end w left) (omega arith) (scan_words-Finds w left)
      ]
    where
      -- In an empty range there is nothing to find.
      empty :
          (r : Option ℕ)
          → end ≤ start
          → Finds (start / 32 * 32) ((start / 32 + ((end + 31) / 32 - start / 32)) * 32) r
          → Finds start end r
      empty none l h = λ g p q. absurd (omega arith)
      empty (some f) l h = absurd (omega arith)

-- The outcomes of `pmm_alloc_frame`: nothing, if no memory was given or none is free; or the frame
-- that one of the two passes finds.
pub data Allocates (s : Pmm) : ℕ × Pmm → Type 0 where
  exhausted :
      (s.total_frames ≡ 0)
        ⊎ (Full s.bitmap s.alloc_search max_frames s.alloc_search max_frames
            × Full s.bitmap 1 s.alloc_search 1 s.alloc_search)
      → Allocates s (0, s)
  allocated :
      (f : ℕ)
      → ((f < max_frames) ⊎ (f < s.alloc_search))
        × (s.total_frames ≢ 0)
        × (f ≢ 0)
        × (bitmap_test s.bitmap f ≡ 0)
      → Allocates s (take_frame s f)

pub alloc_frame-Allocates : (s : Pmm) → Allocates s (alloc_frame s)
unfolding alloc_frame
alloc_frame-Allocates s = elim (Bool-cases (s.total_frames == 0)) [
  | inl e ↦ rw e (exhausted (inl (eqb→eq _ _ e)))
  | inr e ↦ rw e (
      first (eqb→ne _ _ e) (scan_pass s.bitmap s.alloc_search max_frames)
        (scan_pass-Finds s.bitmap s.alloc_search max_frames))
]
  where
    second :
        (r : Option ℕ)
        → s.total_frames ≢ 0
        → Full s.bitmap s.alloc_search max_frames s.alloc_search max_frames
        → Finds s.bitmap 1 s.alloc_search 1 s.alloc_search r
        → Allocates s (elim r [ some f ↦ take_frame s f | none ↦ (0, s) ])
    second none n h k = exhausted (inr (h, k))
    second (some f) n h k = allocated f (inr k.3, n, k.4, k.5)

    first :
        s.total_frames ≢ 0
        → (r : Option ℕ) → Finds s.bitmap s.alloc_search max_frames s.alloc_search max_frames r
        → Allocates s (elim r [
          | some f ↦ take_frame s f
          | none ↦ elim (scan_pass s.bitmap 1 s.alloc_search) [
            | some f ↦ take_frame s f
            | none ↦ (0, s)
          ]
        ])
    first n none h =
        second (scan_pass s.bitmap 1 s.alloc_search) n h (scan_pass-Finds s.bitmap 1 s.alloc_search)
    first n (some f) h = allocated f (inl h.3, n, h.4, h.5)
