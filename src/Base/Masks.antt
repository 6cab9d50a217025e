-- ===== src/Base/Masks.antt =====
-- `|` and `&` between an address of a page, or a shifted field, and the bits below it.
use Prim.Native.Nat.{ℕ, zero, suc, ◌+◌, ◌*◌, ◌/◌, ◌%◌, ◌^◌, ◌≤◌, ◌<◌, bit_and, bit_or}
use mathlib.Core.Path.{◌≡◌, sym, ap, ◌∙◌, subst}
use native.Mathlib.Nat.{le_refl, pow-suc, mul_assoc}
use native.Mathlib.Omega.{arith}
use orion_final.Base.Bits.{bit_or_low, bit_and_low, bit_and-zero_fuel}

pub bit_and-zero : (a : ℕ) → bit_and a 0 ≡ 0
bit_and-zero a = bit_and-zero_fuel a a (le_refl a)

pub bit_and-flag_zero : (a : ℕ) → bit_and a 1 ≡ a % 2
bit_and-flag_zero a = omega (arith, bit_and_low a 1, bit_and-zero (a / 2))

pub bit_and-flag_two : (a : ℕ) → bit_and a 4 ≡ a / 4 % 2 * 4
bit_and-flag_two a =
    omega (arith, bit_and_low a 4, bit_and_low (a / 2) 2, bit_and-flag_zero (a / 2 / 2))

bit_or-zero_fuel : (n a : ℕ) → a ≤ n → bit_or a 0 ≡ a
bit_or-zero_fuel n zero h = omega (arith, bit_or_low 0 0)
bit_or-zero_fuel zero (suc a) h = absurd (omega arith)
bit_or-zero_fuel (suc n) (suc a) h =
    omega (arith, bit_or_low (suc a) 0, bit_or-zero_fuel n (suc a / 2) (omega arith))

pub bit_or-zero : (a : ℕ) → bit_or a 0 ≡ a
bit_or-zero a = bit_or-zero_fuel a a (le_refl a)

pub bit_or-one : (a : ℕ) → bit_or a 1 ≡ a / 2 * 2 + 1
bit_or-one a = omega (arith, bit_or_low a 1, bit_or-zero (a / 2))

pow_suc_mul : (a k : ℕ) → a * 2 ^ suc k ≡ a * 2 ^ k * 2
pow_suc_mul a k = ap (λ p. a * p) (pow-suc 2 k) ∙ sym (mul_assoc a (2 ^ k) 2)

-- A multiple of `2 ^ k` and a number of `k` bits have no bit in common.
pub bit_or-disjoint : (k a b : ℕ) → b < 2 ^ k → bit_or (a * 2 ^ k) b ≡ a * 2 ^ k + b
bit_or-disjoint zero a b h =
    let e : b ≡ 0 = omega arith in
    let f : a * 2 ^ 0 ≡ a = omega arith in rw (e, f, bit_or-zero a) (omega arith)
bit_or-disjoint (suc k) a b h =
    let e : a * 2 ^ suc k ≡ a * 2 ^ k * 2 = pow_suc_mul a k in
    let half : a * 2 ^ k * 2 / 2 ≡ a * 2 ^ k = omega arith in
    let low : bit_or (a * 2 ^ k * 2) b ≡ bit_or (a * 2 ^ k) (b / 2) * 2 + b % 2 =
      subst (λ h. bit_or (a * 2 ^ k * 2) b ≡ bit_or h (b / 2) * 2 + b % 2) half
        (omega (arith, bit_or_low (a * 2 ^ k * 2) b)) in
    rw e (omega (arith, low, bit_or-disjoint k a (b / 2) (omega (arith, pow-suc 2 k))))

-- Bits below the place where the other number begins are kept.
pub bit_or-shifted :
    (k a b r : ℕ) → r < 2 ^ k → bit_or (a * 2 ^ k + r) (b * 2 ^ k) ≡ bit_or a b * 2 ^ k + r
bit_or-shifted zero a b r h =
    let e : r ≡ 0 = omega arith in
    let f : a * 2 ^ 0 + 0 ≡ a = omega arith in
    let g : b * 2 ^ 0 ≡ b = omega arith in rw (e, f, g) (omega arith)
bit_or-shifted (suc k) a b r h =
    let e : a * 2 ^ suc k + r ≡ (a * 2 ^ k + r / 2) * 2 + r % 2 = omega (arith, pow_suc_mul a k) in
    let f : b * 2 ^ suc k ≡ b * 2 ^ k * 2 = pow_suc_mul b k in
    let half : ((a * 2 ^ k + r / 2) * 2 + r % 2) / 2 ≡ a * 2 ^ k + r / 2 = omega arith in
    let half' : b * 2 ^ k * 2 / 2 ≡ b * 2 ^ k = omega arith in
    let low = bit_or_low ((a * 2 ^ k + r / 2) * 2 + r % 2) (b * 2 ^ k * 2) in
    let low' : bit_or ((a * 2 ^ k + r / 2) * 2 + r % 2) (b * 2 ^ k * 2)
        ≡ bit_or (a * 2 ^ k + r / 2) (b * 2 ^ k) * 2 + r % 2 =
      subst
        (λ h.
          bit_or ((a * 2 ^ k + r / 2) * 2 + r % 2) (b * 2 ^ k * 2)
          ≡ bit_or (a * 2 ^ k + r / 2) h * 2 + r % 2)
        half'
        (subst
          (λ h.
            bit_or ((a * 2 ^ k + r / 2) * 2 + r % 2) (b * 2 ^ k * 2)
            ≡ bit_or h (b * 2 ^ k * 2 / 2) * 2 + r % 2)
          half (omega (arith, low))) in
    let fits : r / 2 < 2 ^ k = omega (arith, pow-suc 2 k) in
    rw (e, f) (omega (arith, low', bit_or-shifted k a b (r / 2) fits, pow_suc_mul (bit_or a b) k))
