-- ===== src/Bitmap/Laws.antt =====
-- What a set, a clear and a test of a bit have to do with one another, and how many bits are set.
use native.Mathlib.Nat.{pow-le-pow_right, pow-suc}
use orion_final.Base.{
  ℕ, zero, suc, ◌+◌, ◌-◌, ◌/◌, ◌%◌, ◌^◌, ◌≤◌, ◌<◌, ◌≡◌, refl, ap, ◌≢◌, ◌⊎◌, inl, inr, arith, ◌==◌,
  Bool-cases, eqb→eq, eqb→ne,
}
use orion_final.Base.Bits.{
  digit, digit-lt, bit_and-shift, digit-bit_or, digit-bit_and, digit-pow_self, digit-pow_ne,
  digit_complement, digit_zero,
}
use orion_final.Bitmap.{Bitmap, bitmap_set, bitmap_clear, bitmap_test}

pub test-digit : (b : Bitmap) (f : ℕ) → bitmap_test b f ≡ digit (b (f / 32)) (f % 32)
unfolding bitmap_test
test-digit b f = bit_and-shift (b (f / 32)) (f % 32)

pub test-lt : (b : Bitmap) (f : ℕ) → bitmap_test b f < 2
test-lt b f = rw (test-digit b f) (digit-lt (b (f / 32)) (f % 32))

pub test_cases : (b : Bitmap) (f : ℕ) → (bitmap_test b f ≡ 0) ⊎ (bitmap_test b f ≡ 1)
test_cases b f = omega (arith, test-lt b f)

-- Two frames of one word have different places in it.
place_ne : (f g : ℕ) → f ≢ g → f / 32 ≡ g / 32 → f % 32 ≢ g % 32
place_ne f g h e = omega arith

two_pow_pos : (k : ℕ) → 0 < 2 ^ k
two_pow_pos zero = omega arith
two_pow_pos (suc k) = omega (arith, pow-suc 2 k, two_pow_pos k)

mask_small : (f : ℕ) → 2 ^ (f % 32) < 2 ^ 32
mask_small f =
    let le : 2 ^ (f % 32) ≤ 2 ^ 31 = pow-le-pow_right (omega arith) {j = 31} (omega arith) in
    omega arith

module _ (b : Bitmap) (f : ℕ) where
  pub test-set_self : bitmap_test (bitmap_set b f) f ≡ 1
  unfolding bitmap_set
  test-set_self = ground (
    arith,
    test-digit (bitmap_set b f) f,
    digit-bit_or (b (f / 32)) (2 ^ (f % 32)) (f % 32),
    digit-pow_self (f % 32),
    digit-lt (b (f / 32)) (f % 32),
  )

  pub test-set_ne : (g : ℕ) → f ≢ g → bitmap_test (bitmap_set b f) g ≡ bitmap_test b g
  unfolding bitmap_set
  test-set_ne g h = ground (
    arith,
    test-digit (bitmap_set b f) g,
    test-digit b g,
    place_ne f g,
    digit-bit_or (b (f / 32)) (2 ^ (f % 32)) (g % 32),
    digit-pow_ne (f % 32) (g % 32),
  )

  pub test-clear_self : bitmap_test (bitmap_clear b f) f ≡ 0
  unfolding bitmap_clear
  test-clear_self = ground (
    arith,
    test-digit (bitmap_clear b f) f,
    digit-bit_and (b (f / 32)) (2 ^ 32 - 1 - 2 ^ (f % 32)) (f % 32),
    digit_complement 32 (2 ^ (f % 32)) (f % 32) (mask_small f),
    digit-pow_self (f % 32),
  )

  pub test-clear_ne : (g : ℕ) → f ≢ g → bitmap_test (bitmap_clear b f) g ≡ bitmap_test b g
  unfolding bitmap_clear
  test-clear_ne g h = ground (
    arith,
    test-digit (bitmap_clear b f) g,
    test-digit b g,
    place_ne f g,
    digit-bit_and (b (f / 32)) (2 ^ 32 - 1 - 2 ^ (f % 32)) (g % 32),
    digit_complement 32 (2 ^ (f % 32)) (g % 32) (mask_small f),
    digit-pow_ne (f % 32) (g % 32),
    digit-lt (b (g / 32)) (g % 32),
  )

-- A word of ones stands for 32 set bits.
pub test-full_word : (b : Bitmap) (f : ℕ) → b (f / 32) ≡ 2 ^ 32 - 1 → bitmap_test b f ≡ 1
test-full_word b f e = omega (
  arith,
  test-digit b f,
  ap (λ w. digit w (f % 32)) e,
  digit_complement 32 0 (f % 32) (omega arith) (omega arith),
  digit_zero (f % 32),
)

pub test-empty : (f : ℕ) → bitmap_test (λ w. 0) f ≡ 0
test-empty f = omega (arith, test-digit (λ w. 0) f, digit_zero (f % 32))

-- The number of set bits among the first `n`.
pub count_set : Bitmap → ℕ → ℕ
count_set b zero = 0
count_set b (suc n) = count_set b n + bitmap_test b n

pub count_set-le : (b : Bitmap) (n : ℕ) → count_set b n ≤ n
unfolding count_set
count_set-le b zero = omega arith
count_set-le b (suc n) = omega (arith, count_set-le b n, test-lt b n)

pub count_set-full : (n : ℕ) → count_set (λ w. 2 ^ 32 - 1) n ≡ n
unfolding count_set
count_set-full zero = refl
count_set-full (suc n) = omega (arith, count_set-full n, test-full_word (λ w. 2 ^ 32 - 1) n refl)

-- Two bitmaps that agree on the first `n` bits have as many set there.
pub count_set_ext :
    (b c : Bitmap) (n : ℕ)
    → ((g : ℕ) → g < n → bitmap_test b g ≡ bitmap_test c g)
    → count_set b n ≡ count_set c n
unfolding count_set
count_set_ext b c zero h = refl
count_set_ext b c (suc n) h =
    omega (arith, h n (omega arith), count_set_ext b c n (λ g l. h g (omega arith)))

-- Two bitmaps that agree on the first `n` bits but one.
pub count_set_at :
    (b c : Bitmap) (f n : ℕ)
    → f < n
    → ((g : ℕ) → f ≢ g → bitmap_test b g ≡ bitmap_test c g)
    → count_set b n + bitmap_test c f ≡ count_set c n + bitmap_test b f
unfolding count_set
count_set_at b c f zero l h = absurd (omega arith)
count_set_at b c f (suc n) l h = elim (Bool-cases (f == n)) [
  | inl e ↦
      rw (eqb→eq f n e)
        (omega (arith, count_set_ext b c n (λ g k. h g (λ q. omega (arith, eqb→eq f n e)))))
  | inr e ↦ omega (arith, count_set_at b c f n (omega (arith, eqb→ne f n e)) h, h n (eqb→ne f n e))
]

module _ (b : Bitmap) (f n : ℕ) (l : f < n) where
  pub count_set-set : bitmap_test b f ≡ 0 → count_set (bitmap_set b f) n ≡ count_set b n + 1
  count_set-set e =
      omega (arith, count_set_at (bitmap_set b f) b f n l (test-set_ne b f), test-set_self b f)

  pub count_set-clear : bitmap_test b f ≡ 1 → count_set (bitmap_clear b f) n + 1 ≡ count_set b n
  count_set-clear e =
      omega
        (arith, count_set_at (bitmap_clear b f) b f n l (test-clear_ne b f), test-clear_self b f)
