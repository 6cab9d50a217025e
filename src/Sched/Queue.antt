-- ===== src/Sched/Queue.antt =====
-- How often a process stands in the ready queue, under the operations of the queue,
-- and the room that is left in it.
use orion_final.Base.{
  ℕ, zero, suc, ◌+◌, ◌-◌, ◌≤◌, ◌<◌, ◌≡◌, refl, arith, ◌==◌, if◌then◌else◌, List, [], ◌∷◌, ◌++◌,
  length, ltb, dec_lt,
}
use orion_final.Sched.{last, before_last, swap_remove}

-- the number of times that `p` stands in a queue
abbrev pub occurs : ℕ → List ℕ → ℕ
occurs p [] = 0
occurs p (x ∷ xs) = (if x == p then 1 else 0) + occurs p xs

pub occurs-append : (p : ℕ) (xs ys : List ℕ) → occurs p (xs ++ ys) ≡ occurs p xs + occurs p ys
occurs-append p [] ys = omega arith
occurs-append p (x ∷ xs) ys = omega (arith, occurs-append p xs ys)

occurs-last :
    (p x : ℕ) (xs : List ℕ)
    → (if last x xs == p then 1 else 0) + occurs p (before_last x xs) ≡ occurs p (x ∷ xs)
unfolding last before_last
occurs-last p x [] = omega arith
occurs-last p x (y ∷ ys) = omega (arith, occurs-last p y ys)

-- A removal takes out one entry of the process, if there is one, and keeps the others.
pub occurs-swap_remove :
    (q : List ℕ) (p r : ℕ) → occurs r (swap_remove q p) ≡ occurs r q - (if p == r then 1 else 0)
unfolding swap_remove
occurs-swap_remove [] p r = omega arith
occurs-swap_remove (x ∷ []) p r = ground arith
occurs-swap_remove (x ∷ y ∷ ys) p r =
    ground (arith, occurs-last r y ys, occurs-swap_remove (y ∷ ys) p r)

-- the sum of the occurrences of the processes below `n`
sum_occurs : ℕ → List ℕ → ℕ
sum_occurs zero q = 0
sum_occurs (suc n) q = sum_occurs n q + occurs n q

sum_occurs-nil : (n : ℕ) → sum_occurs n [] ≡ 0
unfolding sum_occurs
sum_occurs-nil zero = refl
sum_occurs-nil (suc n) = omega (arith, sum_occurs-nil n)

sum_occurs-cons :
    (n x : ℕ) (q : List ℕ) → sum_occurs n (x ∷ q) ≡ sum_occurs n q + (if ltb x n then 1 else 0)
unfolding sum_occurs
sum_occurs-cons zero x q = ground arith
sum_occurs-cons (suc n) x q = ground (arith, sum_occurs-cons n x q)

length-sum_occurs :
    (n : ℕ) (q : List ℕ) → ((p : ℕ) → n ≤ p → occurs p q ≡ 0) → length q ≡ sum_occurs n q
length-sum_occurs n [] h = omega (arith, sum_occurs-nil n)
length-sum_occurs n (x ∷ q) h =
    ground (arith, sum_occurs-cons n x q, length-sum_occurs n q (λ p l. omega (arith, h p l)), h x)

sum_occurs-le : (n : ℕ) (q : List ℕ) → ((p : ℕ) → occurs p q ≤ 1) → sum_occurs n q ≤ n
unfolding sum_occurs
sum_occurs-le zero q h = omega arith
sum_occurs-le (suc n) q h = omega (arith, sum_occurs-le n q h, h n)

-- Where some process below `n` is missing, there is room.
sum_occurs-lt :
    (n m : ℕ) (q : List ℕ)
    → ((p : ℕ) → occurs p q ≤ 1)
    → m < n
    → occurs m q ≡ 0
    → sum_occurs n q < n
unfolding sum_occurs
sum_occurs-lt zero m q h l e = absurd (omega arith)
sum_occurs-lt (suc n) m q h l e = elim (dec_lt m n) [
  | yes k ↦ omega (arith, sum_occurs-lt n m q h k e, h n)
  | no k ↦ let at : m ≡ n = omega arith in omega (arith, sum_occurs-le n q h, rw at at e)
]

pub length_lt :
    (n m : ℕ) (q : List ℕ)
    → ((p : ℕ) → occurs p q ≤ 1)
    → ((p : ℕ) → n ≤ p → occurs p q ≡ 0)
    → m < n
    → occurs m q ≡ 0
    → length q < n
length_lt n m q h k l e = omega (arith, length-sum_occurs n q k, sum_occurs-lt n m q h l e)
