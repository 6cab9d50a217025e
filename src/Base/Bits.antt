-- ===== src/Base/Bits.antt =====
-- The bits of a 32-bit word, under C's `|`, `&`, `~` and `>>`.
-- The native `bit_or` and `bit_and` are taken apart digit by digit.
use Prim.Native.Nat.{ℕ, zero, suc, ◌+◌, ◌-◌, ◌*◌, ◌/◌, ◌%◌, ◌^◌, ◌≤◌, ◌<◌, min, max}
use Prim.Native.Nat.{bit_and, bit_or, digits, bitwise, bit_and-bitwise, bit_or-bitwise}
use mathlib.Core.Path.{◌≡◌, refl, ap, ◌∙◌}
use mathlib.Core.Logic.{◌≢◌}
use native.Mathlib.Nat.{le_refl, div-one, pow-suc, pow-succ', div-div-eq-div-mul}
use native.Mathlib.Omega.{arith}

-- The digit of a number at a place, from the lowest.
pub digit : ℕ → ℕ → ℕ
digit x zero = x % 2
digit x (suc k) = digit (x / 2) k

module _ (z : ℕ → ℕ) (f : ℕ → ℕ → ℕ) where
  -- More fuel than digits makes no difference.
  enough : (n m a b : ℕ) → a ≤ n → a ≤ m → digits z f n a b ≡ digits z f m a b
  enough zero zero a b p q = refl
  enough zero (suc m) zero b p q = refl
  enough zero (suc m) (suc a) b p q = absurd (omega arith)
  enough (suc n) zero zero b p q = refl
  enough (suc n) zero (suc a) b p q = absurd (omega arith)
  enough (suc n) (suc m) zero b p q = refl
  enough (suc n) (suc m) (suc a) b p q =
      rw (enough n m (suc a / 2) (b / 2) (omega arith) (omega arith))

  low_digit :
      (a b : ℕ)
      → bitwise z f (suc a) b ≡ bitwise z f (suc a / 2) (b / 2) * 2 + f (suc a % 2) (b % 2)
  low_digit a b = omega (arith, enough a (suc a / 2) (suc a / 2) (b / 2) (omega arith) (le_refl _))

pub bit_or_low : (a b : ℕ) → bit_or a b ≡ bit_or (a / 2) (b / 2) * 2 + max (a % 2) (b % 2)
bit_or_low zero b = simp bit_or-bitwise (omega arith)
bit_or_low (suc a) b = simp bit_or-bitwise (low_digit (λ y. y) max a b)

pub bit_and_low : (a b : ℕ) → bit_and a b ≡ bit_and (a / 2) (b / 2) * 2 + min (a % 2) (b % 2)
bit_and_low zero b = simp bit_and-bitwise (omega arith)
bit_and_low (suc a) b = simp bit_and-bitwise (low_digit (λ y. 0) min a b)

pub bit_and-zero_fuel : (n a : ℕ) → a ≤ n → bit_and a 0 ≡ 0
bit_and-zero_fuel n zero h = bit_and-bitwise 0 0
bit_and-zero_fuel zero (suc a) h = absurd (omega arith)
bit_and-zero_fuel (suc n) (suc a) h =
    omega (arith, bit_and_low (suc a) 0, bit_and-zero_fuel n (suc a / 2) (omega arith))

bit_and-one : (a : ℕ) → bit_and (a / 1) 1 ≡ a % 2
bit_and-one a =
    rw (div-one a) (omega (arith, bit_and_low a 1, bit_and-zero_fuel (a / 2) (a / 2) (le_refl _)))

pub digit-lt : (x k : ℕ) → digit x k < 2
unfolding digit
digit-lt x zero = omega arith
digit-lt x (suc k) = digit-lt (x / 2) k

-- `(x >> k) & 1` is the digit at `k`.
pub bit_and-shift : (x k : ℕ) → bit_and (x / 2 ^ k) 1 ≡ digit x k
unfolding digit
bit_and-shift x zero = bit_and-one x
bit_and-shift x (suc k) =
    rw (pow-succ' 2 k, ← div-div-eq-div-mul x 2 (2 ^ k)) (bit_and-shift (x / 2) k)

pub digit-bit_or : (a b k : ℕ) → digit (bit_or a b) k ≡ max (digit a k) (digit b k)
unfolding digit
digit-bit_or a b zero = omega (arith, bit_or_low a b)
digit-bit_or a b (suc k) =
    ap (λ t. digit t k) (omega (arith, bit_or_low a b)) ∙ digit-bit_or (a / 2) (b / 2) k

pub digit-bit_and : (a b k : ℕ) → digit (bit_and a b) k ≡ min (digit a k) (digit b k)
unfolding digit
digit-bit_and a b zero = omega (arith, bit_and_low a b)
digit-bit_and a b (suc k) =
    ap (λ t. digit t k) (omega (arith, bit_and_low a b)) ∙ digit-bit_and (a / 2) (b / 2) k

pub digit_zero : (k : ℕ) → digit 0 k ≡ 0
unfolding digit
digit_zero zero = refl
digit_zero (suc k) = digit_zero k

-- `1 << j` has one digit.
pub digit-pow_self : (j : ℕ) → digit (2 ^ j) j ≡ 1
unfolding digit
digit-pow_self zero = refl
digit-pow_self (suc j) = ap (λ t. digit t j) (omega (arith, pow-suc 2 j)) ∙ digit-pow_self j

pub digit-pow_ne : (j k : ℕ) → j ≢ k → digit (2 ^ j) k ≡ 0
unfolding digit
digit-pow_ne zero zero h = absurd (h refl)
digit-pow_ne zero (suc k) h = digit_zero k
digit-pow_ne (suc j) zero h = omega (arith, pow-suc 2 j)
digit-pow_ne (suc j) (suc k) h =
    ap (λ t. digit t k) (omega (arith, pow-suc 2 j)) ∙ digit-pow_ne j k (λ e. h (ap suc e))

-- `~x` in `n` bits is `2 ^ n - 1 - x`.
pub digit_complement : (n x k : ℕ) → x < 2 ^ n → k < n → digit (2 ^ n - 1 - x) k ≡ 1 - digit x k
unfolding digit
digit_complement zero x k h l = absurd (omega arith)
digit_complement (suc n) x zero h l = omega (arith, pow-suc 2 n)
digit_complement (suc n) x (suc k) h l =
    ap (λ t. digit t k) (omega (arith, pow-suc 2 n))
    ∙ digit_complement n (x / 2) k (omega (arith, pow-suc 2 n)) (omega arith)
