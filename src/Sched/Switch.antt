-- ===== src/Sched/Switch.antt =====
-- The branches of `sched_switch_esp` in kernel/proc/sched.c.
use orion_final.Base.{
  ℕ, ◌-◌, ◌≤◌, ◌<◌, ◌≡◌, refl, ◌⊎◌, inl, inr, arith, true, false, ◌==◌, Option, none, some,
  get_elem?,
}
use orion_final.Kernel.{Kernel, running, ready, state_of, modify}
use orion_final.Sched.{switch_from, switch_to, spend_slice, sched_switch_esp}
use orion_final.Sched.Pick.{IsBest, Chooses, is_candidate, scan_ready-Chooses}

module _ {R : Type 0} where
  -- The hand-over from `c` to `n`, with the stack pointer `esp` saved and `r.0` to be loaded.
  pub record HandsOver (k : Kernel R) (esp c n : ℕ) (r : ℕ × Kernel R) : Type 0 where
    pub loads : r.0 ≡ (k.procs n).esp_kernel
    pub current : r.1.current_proc ≡ some n
    pub runs : state_of r.1 n ≡ running
    pub full_slice : (r.1.procs n).timeslice ≡ (k.procs n).timeslice_len
    pub stack : r.1.tss_esp0 ≡ (k.procs n).esp0
    pub saved : (r.1.procs c).esp_kernel ≡ esp
    pub put_back : state_of k c ≡ running → state_of r.1 c ≡ ready
    pub same_queue : r.1.ready_queue ≡ k.ready_queue

  -- When the slice of the current process `c` has run out, the processor goes to the READY process of
  -- the lowest priority number, the first of those in the queue, whose saved stack pointer is loaded
  -- while that of `c` is saved. Only if no other READY process of a number below 255 is queued does
  -- `c` go on, with a full slice.
  pub switch_from_lem :
      (k : Kernel R) (esp c : ℕ)
      → let r = switch_from k esp c in
        (((m p : ℕ)
            → get_elem? k.ready_queue m ≡ some p
            → is_candidate k.procs (λ q. q == c) p ≡ true
            → 255 ≤ (k.procs p).priority)
          × (r.0 ≡ 0)
          × (r.1.current_proc ≡ k.current_proc)
          × ((r.1.procs c).timeslice ≡ (k.procs c).timeslice_len))
        ⊎ ((n : ℕ) × (i : ℕ) × IsBest k.procs (λ q. q == c) k.ready_queue 255 n i
            × HandsOver k esp c n r)
  unfolding switch_from switch_to
  switch_from_lem k esp c = by_cases _ (scan_ready-Chooses k.procs (λ p. p == c) k.ready_queue)
    where
      by_cases :
          (s : Option (ℕ × ℕ))
          → Chooses k.procs (λ p. p == c) k.ready_queue s
          → let r = elim s as (λ _. ℕ × Kernel R) [
            | none ↦ (0, modify k c (λ b. record b { timeslice = b.timeslice_len }))
            | some (n, i) ↦ switch_to k esp c n i
          ] in
            (((m p : ℕ)
                → get_elem? k.ready_queue m ≡ some p
                → is_candidate k.procs (λ q. q == c) p ≡ true
                → 255 ≤ (k.procs p).priority)
              × (r.0 ≡ 0)
              × (r.1.current_proc ≡ k.current_proc)
              × ((r.1.procs c).timeslice ≡ (k.procs c).timeslice_len))
            ⊎ ((n : ℕ) × (i : ℕ) × IsBest k.procs (λ q. q == c) k.ready_queue 255 n i
                × HandsOver k esp c n r)
      by_cases none h = inl (h, refl, refl, ground arith)
      by_cases (some (n, i)) h =
          let differ : (n == c) ≡ false = ground (arith, h.candidate) in
          inr (
            n,
            i,
            h,
            record {
              loads = ground arith;
              current = refl;
              runs = ground arith;
              full_slice = ground arith;
              stack = ground arith;
              saved = ground arith;
              put_back = λ e. ground arith;
              same_queue = refl;
            },
          )

  -- Without a timer tick, or before the scheduler has started, nothing changes and nothing is loaded:
  -- the interrupted process goes on.
  pub sched_switch_esp_idle :
      (k : Kernel R) (esp : ℕ)
      → (k.sched_enabled ≡ false) ⊎ (k.tick_flag ≡ false)
      → sched_switch_esp k esp ≡ (0, k)
  unfolding sched_switch_esp
  sched_switch_esp_idle k esp h = ground arith

  -- A tick costs the current process one tick of its slice; while some of it is left, no switch.
  pub sched_switch_esp_slice :
      (k : Kernel R) (esp c : ℕ)
      → k.sched_enabled ≡ true
      → k.tick_flag ≡ true
      → k.current_proc ≡ some c
      → 1 < (k.procs c).timeslice
      → let r = sched_switch_esp k esp in
        (r.0 ≡ 0)
        × (r.1.current_proc ≡ some c)
        × (r.1.tick_flag ≡ false)
        × ((r.1.procs c).timeslice ≡ (k.procs c).timeslice - 1)
  unfolding sched_switch_esp spend_slice
  sched_switch_esp_slice k esp c a b e l = ground arith
