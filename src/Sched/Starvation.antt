-- ===== src/Sched/Starvation.antt =====
-- Two processes at the front of the ready queue of kernel/proc/sched.c, over any number of time
-- slices. The scan starts at index 0 on every switch: `current_idx` is written and never read.
use mathlib.Core.Path.{subst}
use mathlib.Core.Option.{some-injective}
use orion_final.Base.{
  ℕ, zero, suc, ◌≤◌, ◌<◌, ◌≡◌, refl, ◌≢◌, ◌⊎◌, inl, inr, arith, true, false, ◌==◌, List, ◌∷◌,
  Option, none, some, get_elem?, sym, ◌∙◌, eqb→ne,
}
use orion_final.Kernel.{Kernel, running, ready, state_of, modify}
use orion_final.Sched.{switch_from, switch_to}
use orion_final.Sched.Pick.{IsBest, is_candidate, Chooses, scan_ready-Chooses}

module _ {R : Type 0} where
  -- `c` runs and `o` is READY; they stand first in the queue, in either order, at the same priority,
  -- which no process behind them has a better number than.
  pub record IsPair (k : Kernel R) (c o : ℕ) (rest : List ℕ) : Type 0 where
    pub front : (k.ready_queue ≡ c ∷ o ∷ rest) ⊎ (k.ready_queue ≡ o ∷ c ∷ rest)
    pub differ : c ≢ o
    pub current : k.current_proc ≡ some c
    pub runs : state_of k c ≡ running
    pub waits : state_of k o ≡ ready
    pub same : (k.procs c).priority ≡ (k.procs o).priority
    pub sound : (k.procs o).priority < 255
    pub behind : (m p : ℕ) → get_elem? rest m ≡ some p → (k.procs o).priority ≤ (k.procs p).priority

  switch_to-IsPair :
      (k : Kernel R) (esp c o i : ℕ) (rest : List ℕ)
      → IsPair k c o rest
      → IsPair (switch_to k esp c o i).1 o c rest
  unfolding switch_to
  switch_to-IsPair k esp c o i rest v = record {
    front = ground (arith, v.front);
    differ = ground arith;
    current = refl;
    runs = ground arith;
    waits = ground (arith, v.runs);
    same = ground (arith, v.same);
    sound = ground (arith, v.sound, v.same);
    behind = λ m p e. ground (arith, v.behind m p, v.same);
  }

  picks_other :
      (k : Kernel R) (c o : ℕ) (rest : List ℕ) (n j : ℕ)
      → IsPair k c o rest
      → IsBest k.procs (λ p. p == c) k.ready_queue 255 n j
      → n ≡ o
  picks_other k c o rest n j v b = elim v.front [
    | inl e ↦ in_front j (subst (λ q. get_elem? q j ≡ some n) e b.at) (after e)
    | inr e ↦ behind_other j (subst (λ q. get_elem? q j ≡ some n) e b.at) (after e)
  ]
    where
      candidate : (n == c) ≡ false
      candidate = ground (arith, b.candidate)

      other : is_candidate k.procs (λ p. p == c) o ≡ true
      other = ground (arith, v.waits, v.differ)

      -- what stands behind `o` in the queue is not chosen
      after :
          {q : List ℕ}
          → k.ready_queue ≡ q
          → (m : ℕ) → m < j
          → get_elem? q m ≡ some o
          → (k.procs n).priority < (k.procs o).priority
      after e m l a = b.first m o l (subst (λ q. get_elem? q m ≡ some o) (sym e) a) other

      in_front :
          (i : ℕ)
          → get_elem? (c ∷ o ∷ rest) i ≡ some n
          → ((m : ℕ)
              → m < i
              → get_elem? (c ∷ o ∷ rest) m ≡ some o
              → (k.procs n).priority < (k.procs o).priority)
          → n ≡ o
      in_front zero a h = absurd (eqb→ne n c candidate (sym (some-injective c n a)))
      in_front (suc zero) a h = sym (some-injective o n a)
      in_front (suc (suc m)) a h = absurd (omega (arith, h 1 (omega arith) refl, v.behind m n a))

      behind_other :
          (i : ℕ)
          → get_elem? (o ∷ c ∷ rest) i ≡ some n
          → ((m : ℕ)
              → m < i
              → get_elem? (o ∷ c ∷ rest) m ≡ some o
              → (k.procs n).priority < (k.procs o).priority)
          → n ≡ o
      behind_other zero a h = sym (some-injective o n a)
      behind_other (suc zero) a h = absurd (eqb→ne n c candidate (sym (some-injective c n a)))
      behind_other (suc (suc m)) a h =
          absurd (omega (arith, h 0 (omega arith) refl, v.behind m n a))

  -- When the slice of the running one of the pair ends, the other one is chosen and the pair stays.
  pub switch_from-IsPair :
      (k : Kernel R) (esp c o : ℕ) (rest : List ℕ)
      → IsPair k c o rest
      → IsPair (switch_from k esp c).1 o c rest
  unfolding switch_from
  switch_from-IsPair k esp c o rest v =
      by_cases _ (scan_ready-Chooses k.procs (λ p. p == c) k.ready_queue)
    where
      other : is_candidate k.procs (λ p. p == c) o ≡ true
      other = ground (arith, v.waits, v.differ)

      found : (m : ℕ) × (get_elem? k.ready_queue m ≡ some o)
      found = elim v.front [ inl e ↦ (1, rw e) | inr e ↦ (0, rw e) ]

      by_cases :
          (r : Option (ℕ × ℕ))
          → Chooses k.procs (λ p. p == c) k.ready_queue r
          → IsPair
              (elim r as (λ _. ℕ × Kernel R) [
                | none ↦ (0, modify k c (λ b. record b { timeslice = b.timeslice_len }))
                | some (n, i) ↦ switch_to k esp c n i
              ]).1
              o
              c
              rest
      by_cases none h = absurd (omega (arith, h found.0 o found.1 other, v.sound))
      by_cases (some (n, i)) h =
          rw (picks_other k c o rest n i v h) (switch_to-IsPair k esp c o i rest v)

  -- Time slices run out, one after the other.
  pub slices : ℕ → Kernel R → ℕ → Kernel R
  slices zero k esp = k
  slices (suc n) k esp = elim k.current_proc [
    | none ↦ k
    | some c ↦ slices n (switch_from k esp c).1 esp
  ]

  -- However many time slices run out, a process behind the pair does not get the processor: the
  -- current process is always one of the pair.
  pub slices-IsPair :
      (n : ℕ) (k : Kernel R) (esp c o p : ℕ) (rest : List ℕ)
      → IsPair k c o rest
      → p ≢ c
      → p ≢ o
      → (slices n k esp).current_proc ≢ some p
  unfolding slices
  slices-IsPair zero k esp c o p rest v h g = λ e. h (some-injective p c (sym e ∙ v.current))
  slices-IsPair (suc n) k esp c o p rest v h g =
      rw (v.current, slices)
        (slices-IsPair n (switch_from k esp c).1 esp o c p rest
          (switch_from-IsPair k esp c o rest v) g h)
