-- ===== src/Sched/Pick.antt =====
-- Which process the scan of the ready queue in kernel/proc/sched.c chooses.
use mathlib.Core.Path.{subst}
use mathlib.Core.Option.{some-injective}
use orion_final.Base.{
  ℕ, zero, suc, ◌+◌, ◌≤◌, ◌<◌, ◌≡◌, refl, ◌⊎◌, inl, inr, arith, Bool, true, not, ◌&&◌, Bool-cases,
  ltb, List, [], ◌∷◌, Option, none, some, get_elem?,
}
use orion_final.Kernel.{Pcb, is_ready}
use orion_final.Sched.{scan_ready}

module _ (procs : ℕ → Pcb) (skip : ℕ → Bool) where
  abbrev pub prio : ℕ → ℕ
  prio p = (procs p).priority

  -- READY, and not passed over
  abbrev pub is_candidate : ℕ → Bool
  is_candidate p = not (skip p) && is_ready (procs p).state

  -- `n`, at index `j` of the queue, is the first candidate of the lowest priority number.
  pub record IsBest (queue : List ℕ) (best n j : ℕ) : Type 0 where
    pub at : get_elem? queue j ≡ some n
    pub candidate : is_candidate n ≡ true
    pub below : prio n < best
    pub lowest : (m p : ℕ) → get_elem? queue m ≡ some p → is_candidate p ≡ true → prio n ≤ prio p
    pub first :
        (m p : ℕ) → m < j → get_elem? queue m ≡ some p → is_candidate p ≡ true → prio n < prio p

  -- The outcome of the scan: what was found before, if no candidate lies below `best`; or the best.
  abbrev pub Scans : List ℕ → ℕ → ℕ → Option (ℕ × ℕ) → Option (ℕ × ℕ) → Type 0
  Scans queue i best found r =
      ((r ≡ found)
        × ((m p : ℕ) → get_elem? queue m ≡ some p → is_candidate p ≡ true → best ≤ prio p))
      ⊎ ((n : ℕ) × (j : ℕ) × (r ≡ some (n, i + j)) × IsBest queue best n j)

  module _ (x : ℕ) (queue : List ℕ) (i : ℕ) (r : Option (ℕ × ℕ)) where
    at_head :
        {p : ℕ}
        → get_elem? (x ∷ queue) 0 ≡ some p
        → is_candidate p ≡ true
        → (x ≡ p) × (is_candidate x ≡ true)
    at_head {p} a c = let e : x ≡ p = some-injective x p a in (e, rw e c)

    IsBest-later :
        {best n j : ℕ}
        → (is_candidate x ≡ true → best ≤ prio x)
        → IsBest queue best n j
        → IsBest (x ∷ queue) best n (suc j)
    IsBest-later {best} {n} {j} h b = record {
      at = b.at;
      candidate = b.candidate;
      below = b.below;
      lowest = λ m p. low m p;
      first = λ m p. early m p;
    }
      where
        head : (p : ℕ) → get_elem? (x ∷ queue) 0 ≡ some p → is_candidate p ≡ true → prio n < prio p
        head p a c =
            let (e, d) = at_head a c in subst (λ q. prio n < prio q) e (omega (arith, b.below, h d))

        low : (m p : ℕ) → get_elem? (x ∷ queue) m ≡ some p → is_candidate p ≡ true → prio n ≤ prio p
        low zero p a c = omega (arith, head p a c)
        low (suc m) p a c = b.lowest m p a c

        early :
            (m p : ℕ)
            → m < suc j
            → get_elem? (x ∷ queue) m ≡ some p
            → is_candidate p ≡ true
            → prio n < prio p
        early zero p l a c = head p a c
        early (suc m) p l a c = b.first m p (omega arith) a c

    keep :
        (best : ℕ) (found : Option (ℕ × ℕ))
        → (is_candidate x ≡ true → best ≤ prio x)
        → Scans queue (i + 1) best found r
        → Scans (x ∷ queue) i best found r
    keep best found h (inl (e, k)) = inl (e, λ m p. later m p)
      where
        later : (m p : ℕ) → get_elem? (x ∷ queue) m ≡ some p → is_candidate p ≡ true → best ≤ prio p
        later zero p a c = let (e, d) = at_head a c in subst (λ q. best ≤ prio q) e (h d)
        later (suc m) p a c = k m p a c
    keep best found h (inr (n, j, e, b)) = inr (n, suc j, ground arith, IsBest-later h b)

    improve :
        (best : ℕ) (found : Option (ℕ × ℕ))
        → is_candidate x ≡ true
        → prio x < best
        → Scans queue (i + 1) (prio x) (some (x, i)) r
        → Scans (x ∷ queue) i best found r
    improve best found c l (inl (e, k)) = inr (
      x,
      zero,
      ground arith,
      record {
        at = refl;
        candidate = c;
        below = l;
        lowest = λ m p. later m p;
        first = λ m p h. absurd (omega arith);
      },
    )
      where
        later :
            (m p : ℕ) → get_elem? (x ∷ queue) m ≡ some p → is_candidate p ≡ true → prio x ≤ prio p
        later zero p a d = let (e, _) = at_head a d in subst (λ q. prio x ≤ prio q) e (omega arith)
        later (suc m) p a d = k m p a d
    improve best found c l (inr (n, j, e, b)) =
        let w = IsBest-later (λ d. omega arith) b in
        inr (
          n,
          suc j,
          ground arith,
          record {
            at = w.at;
            candidate = w.candidate;
            below = omega (arith, b.below);
            lowest = w.lowest;
            first = w.first;
          },
        )

  scan_ready-Scans :
      (queue : List ℕ) (i best : ℕ) (found : Option (ℕ × ℕ))
      → Scans queue i best found (scan_ready procs skip queue i best found)
  unfolding scan_ready
  scan_ready-Scans [] i best found = inl (refl, λ m p a. cc)
  scan_ready-Scans (x ∷ queue) i best found =
      let better : Bool = not (skip x) && (is_ready (procs x).state && ltb (prio x) best) in
      elim (Bool-cases better) [
        | inl e ↦ rw e (
            improve x queue i _ best found (ground arith) (ground arith)
              (scan_ready-Scans queue (i + 1) (prio x) (some (x, i))))
        | inr e ↦ rw e (
            keep x queue i _ best found (λ c. ground arith)
              (scan_ready-Scans queue (i + 1) best found))
      ]

-- The scan from `best_prio = 255`: no candidate has a lower number, or the first of the lowest is
-- found, with its index.
abbrev pub Chooses : (ℕ → Pcb) → (ℕ → Bool) → List ℕ → Option (ℕ × ℕ) → Type 0
Chooses procs skip queue none =
    (m p : ℕ)
    → get_elem? queue m ≡ some p
    → is_candidate procs skip p ≡ true
    → 255 ≤ prio procs skip p
Chooses procs skip queue (some (n, j)) = IsBest procs skip queue 255 n j

pub scan_ready-Chooses :
    (procs : ℕ → Pcb) (skip : ℕ → Bool) (queue : List ℕ)
    → Chooses procs skip queue (scan_ready procs skip queue 0 255 none)
scan_ready-Chooses procs skip queue = by_cases _ (scan_ready-Scans procs skip queue 0 255 none)
  where
    by_cases :
        (r : Option (ℕ × ℕ)) → Scans procs skip queue 0 255 none r → Chooses procs skip queue r
    by_cases none (inl (e, k)) = k
    by_cases none (inr (n, j, e, b)) = cc
    by_cases (some s) (inl (e, k)) = cc
    by_cases (some (n', j')) (inr (n, j, e, b)) =
        let p : n' ≡ n = ground arith in let q : j' ≡ j = ground arith in rw (p, q) b
