-- ===== src/Proc/Pid.antt =====
-- What `pid_alloc` and `pid_free` of kernel/proc/proc.c do to the pids.
use orion_final.Base.{
  ℕ, zero, suc, ◌+◌, ◌-◌, ◌≤◌, ◌<◌, ◌≡◌, refl, ◌≢◌, ◌⊎◌, inl, inr, arith, ◌==◌, Bool-cases, eqb→eq,
  eqb→ne, if◌then◌else◌, Option, none, some, dec_lt,
}
use orion_final.Bitmap.{Bitmap, bitmap_test}
use orion_final.Bitmap.Laws.{test_cases, test-set_self, test-set_ne}
use orion_final.Kernel.{Kernel, max_procs, pid_init, pid_invalid}
use orion_final.Proc.{scan_pids, take_pid, pid_alloc}

-- What a pass over the pids from `lo` up to `hi` finds: the lowest free one, if there is one.
abbrev pub Finds : Bitmap → ℕ → ℕ → Option ℕ → Type 0
Finds b lo hi none = (p : ℕ) → lo ≤ p → p < hi → bitmap_test b p ≡ 1
Finds b lo hi (some f) =
    (lo ≤ f) × (f < hi) × (bitmap_test b f ≡ 0) × ((p : ℕ) → lo ≤ p → p < f → bitmap_test b p ≡ 1)

module _ (b : Bitmap) where
  next_pid :
      (lo hi : ℕ) (rest : Option ℕ)
      → lo < hi
      → Finds b (lo + 1) hi rest
      → Finds b lo hi (if bitmap_test b lo == 0 then some lo else rest)
  next_pid lo hi rest l h = elim (Bool-cases (bitmap_test b lo == 0)) [
    | inl e ↦ rw e (omega arith, l, eqb→eq (bitmap_test b lo) 0 e, λ p m n. absurd (omega arith))
    | inr e ↦ rw e (skip rest h (omega (arith, eqb→ne (bitmap_test b lo) 0 e, test_cases b lo)))
  ]
    where
      at_lo :
          bitmap_test b lo ≡ 1
          → (hi' p : ℕ) → ((q : ℕ) → lo + 1 ≤ q → q < hi' → bitmap_test b q ≡ 1)
          → lo ≤ p
          → p < hi'
          → bitmap_test b p ≡ 1
      at_lo t hi' p k m n = ground (arith, k p)

      skip : (r : Option ℕ) → Finds b (lo + 1) hi r → bitmap_test b lo ≡ 1 → Finds b lo hi r
      skip none k t = λ p m n. at_lo t hi p k m n
      skip (some f) k t = (omega arith, k.1, k.2, λ p m n. at_lo t f p k.3 m n)

  pub scan_pids-Finds : (lo left : ℕ) → Finds b lo (lo + left) (scan_pids b lo left)
  unfolding scan_pids
  scan_pids-Finds lo zero = λ p m n. absurd (omega arith)
  scan_pids-Finds lo (suc left) =
      let to : lo + suc left ≡ lo + 1 + left = omega arith in
      rw to (
        next_pid lo (lo + 1 + left) (scan_pids b (lo + 1) left) (omega arith)
          (scan_pids-Finds (lo + 1) left))

module _ {R : Type 0} where
  -- `k'` is `k` with the free pid taken, and no other touched.
  pub record TakesPid (k : Kernel R) (pid : ℕ) (k' : Kernel R) : Type 0 where
    pub in_range : (pid_init ≤ pid) × (pid < max_procs)
    pub was_free : bitmap_test k.pid_bitmap pid ≡ 0
    pub taken : bitmap_test k'.pid_bitmap pid ≡ 1
    pub others : (p : ℕ) → pid ≢ p → bitmap_test k'.pid_bitmap p ≡ bitmap_test k.pid_bitmap p
    pub hint : (pid_init ≤ k'.pid_search_hint) × (k'.pid_search_hint < max_procs)
    pub rest : k' ≡ record k { pid_bitmap = k'.pid_bitmap; pid_search_hint = k'.pid_search_hint }

  take_pid-TakesPid :
      (k : Kernel R) (pid : ℕ)
      → pid_init ≤ pid
      → pid < max_procs
      → bitmap_test k.pid_bitmap pid ≡ 0
      → TakesPid k pid (take_pid k pid).1
  unfolding take_pid
  take_pid-TakesPid k pid l m e = record {
    in_range = (l, m);
    was_free = e;
    taken = test-set_self k.pid_bitmap pid;
    others = λ p h. test-set_ne k.pid_bitmap pid p h;
    hint = ground arith;
    rest = refl;
  }

  -- Failure with every pid taken, or a pid taken.
  abbrev pub PidOutcome : Kernel R → ℕ × Kernel R → Type 0
  PidOutcome k r =
      ((r.0 ≡ pid_invalid)
        × (r.1 ≡ k)
        × ((p : ℕ) → pid_init ≤ p → p < max_procs → bitmap_test k.pid_bitmap p ≡ 1))
      ⊎ TakesPid k r.0 r.1

  -- `pid_alloc` takes a free pid between 1 and 255 and touches no other. It fails, and changes
  -- nothing, only if all of them are taken.
  pub pid_alloc_lem :
      (k : Kernel R)
      → pid_init ≤ k.pid_search_hint
      → k.pid_search_hint < max_procs
      → PidOutcome k (pid_alloc k)
  unfolding pid_alloc
  pid_alloc_lem k l m =
      first (scan_pids k.pid_bitmap k.pid_search_hint (max_procs - k.pid_search_hint))
        (scan_pids-Finds k.pid_bitmap k.pid_search_hint (max_procs - k.pid_search_hint))
    where
      hint : ℕ
      hint = k.pid_search_hint

      second :
          (r : Option ℕ)
          → ((p : ℕ) → hint ≤ p → p < max_procs → bitmap_test k.pid_bitmap p ≡ 1)
          → Finds k.pid_bitmap pid_init (pid_init + (hint - pid_init)) r
          → PidOutcome k (elim r as (λ _. ℕ × Kernel R) [
            | some pid ↦ take_pid k pid
            | none ↦ (pid_invalid, k)
          ])
      second none h g = inl (
        refl,
        refl,
        λ p a b. elim (dec_lt p hint) [ yes c ↦ g p a (omega arith) | no c ↦ h p (omega arith) b ],
      )
      second (some pid) h g = inr (take_pid-TakesPid k pid g.0 (omega (arith, g.1)) g.2)

      first :
          (r : Option ℕ)
          → Finds k.pid_bitmap hint (hint + (max_procs - hint)) r
          → PidOutcome k (elim r as (λ _. ℕ × Kernel R) [
            | some pid ↦ take_pid k pid
            | none ↦ elim (scan_pids k.pid_bitmap pid_init (hint - pid_init)) [
              | some pid ↦ take_pid k pid
              | none ↦ (pid_invalid, k)
            ]
          ])
      first none h =
          second (scan_pids k.pid_bitmap pid_init (hint - pid_init)) (λ p a b. h p a (omega arith))
            (scan_pids-Finds k.pid_bitmap pid_init (hint - pid_init))
      first (some pid) h =
          inr (take_pid-TakesPid k pid (omega (arith, h.0)) (omega (arith, h.1)) h.2)
