-- ===== src/Base/Sequence.antt =====
-- The values of a function at successive numbers, as a list.
use Prim.Native.Nat.{ℕ, zero, suc, ◌+◌, ◌-◌, ◌≤◌, ◌<◌}
use mathlib.Core.Path.{◌≡◌, refl, ap, ◌∙◌}
use mathlib.Core.List.{List, [], ◌∷◌, ◌++◌}
use native.Mathlib.Omega.{arith}

-- `f i`, `f (i + 1)`, ... , `n` of them
unfoldable pub bytes : (ℕ → ℕ) → ℕ → ℕ → List ℕ
bytes f i zero = []
bytes f i (suc n) = f i ∷ bytes f (i + 1) n

pub plus_zero : (a : ℕ) → a + 0 ≡ a
plus_zero a = omega arith

pub zero_plus : (a : ℕ) → 0 + a ≡ a
zero_plus a = omega arith

pub plus_suc : (a b : ℕ) → a + suc b ≡ a + 1 + b
plus_suc a b = omega arith

pub suc_plus : (a b : ℕ) → suc a + b ≡ suc (a + b)
suc_plus a b = omega arith

pub bytes_ext :
    (f g : ℕ → ℕ) (i j n : ℕ)
    → ((m : ℕ) → m < n → f (i + m) ≡ g (j + m))
    → bytes f i n ≡ bytes g j n
unfolding bytes
bytes_ext f g i j zero h = refl
bytes_ext f g i j (suc n) h =
    let first : f i ≡ g j = rw (← plus_zero i, ← plus_zero j) (h 0 (omega arith)) in
    let rest : bytes f (i + 1) n ≡ bytes g (j + 1) n =
      bytes_ext f g (i + 1) (j + 1) n
        (λ m l. rw (← plus_suc i m, ← plus_suc j m) (h (suc m) (omega arith))) in
    cc

pub bytes-append : (f : ℕ → ℕ) (i m n : ℕ) → bytes f i (m + n) ≡ bytes f i m ++ bytes f (i + m) n
unfolding bytes
bytes-append f i zero n = rw (plus_zero i, zero_plus n) refl
bytes-append f i (suc m) n =
    rw (plus_suc i m, suc_plus m n) (ap (λ xs. f i ∷ xs) (bytes-append f (i + 1) m n))

pub bytes-split :
    (f : ℕ → ℕ) (l m n : ℕ)
    → l ≤ m
    → m ≤ n
    → bytes f l (n - l) ≡ bytes f l (m - l) ++ bytes f m (n - m)
bytes-split f l m n a b =
    let split : n - l ≡ (m - l) + (n - m) = omega arith in
    let up : l + (m - l) ≡ m = omega arith in
    ap (bytes f l) split
    ∙ bytes-append f l (m - l) (n - m)
    ∙ ap (λ i. bytes f l (m - l) ++ bytes f i (n - m)) up
