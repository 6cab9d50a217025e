-- ===== src/Proc/Inv.antt =====
-- The invariant of the process table: the scheduler's, and a pid is taken exactly while its slot is
-- in use.
use orion_final.Base.{
  ℕ, ◌+◌, ◌≤◌, ◌<◌, ◌≡◌, refl, sym, ap, ◌∙◌, inl, inr, arith, true, false, Bool-cases,
  if◌then◌else◌, Option, none, some,
}
use orion_final.Base.Words.{u32}
use orion_final.Bitmap.{bitmap_test}
use orion_final.Bitmap.Laws.{test-empty, test-set_self, test-set_ne}
use orion_final.Kernel.{
  Kernel, Pcb, ProcState, unused, embryo, ready, running, is_unused, is_blocked, max_procs,
  pid_init, pid_kernel, state_of, modify,
}
use orion_final.Sched.{
  sched_add, sched_remove, proc_wake, sched_force_switch, sched_start, sched_init,
}
use orion_final.Sched.Pick.{Chooses, scan_ready-Chooses}
use orion_final.Sched.Inv.{
  runnable, sched_add-Inv, proc_wake-Inv, sched_remove-Inv, modify_outside-Inv, modify-Inv,
  sched_force_switch-Inv,
}
use orion_final.Sched
use orion_final.Proc.{proc_init}
use orion_final.Proc.Pid.{TakesPid}

-- the bit of a pid whose slot is in this state
abbrev pub in_use : ProcState → ℕ
in_use s = if is_unused s then 0 else 1

pub unused_of : (s : ProcState) → in_use s ≡ 0 → s ≡ unused
unused_of s e = ground arith

module _ {R : Type 0} where
  pub record Inv (k : Kernel R) : Type 0 where
    pub sched : Sched.Inv.Inv k
    pub pids :
        (p : ℕ) → pid_init ≤ p → p < max_procs → bitmap_test k.pid_bitmap p ≡ in_use (state_of k p)
    pub idle_slot : (in_use (state_of k 0) ≡ 0) × (bitmap_test k.pid_bitmap 0 ≡ 1)
    pub hint : (pid_init ≤ k.pid_search_hint) × (k.pid_search_hint < max_procs)

  -- Slot 0 is never in use.
  pub pid_of_in_use : (k : Kernel R) (p : ℕ) → Inv k → in_use (state_of k p) ≡ 1 → pid_init ≤ p
  pid_of_in_use k p v e = ground (arith, v.idle_slot)

  -- After `proc_init` and `sched_init`, with nothing in use beyond the table, the invariant holds.
  pub proc_init-Inv :
      (k : Kernel R)
      → ((p : ℕ) → max_procs ≤ p → state_of k p ≡ unused)
      → Inv (sched_init (proc_init k))
  unfolding sched_init proc_init
  proc_init-Inv k h = record {
    sched = record {
      queued = λ p. ground (arith, h p);
      in_table = λ p m. ground (arith, h p);
      one_running = λ p r. ground (arith, h p);
    };
    pids = λ p l m. ground (arith, test-set_ne (λ w. 0) pid_kernel p, test-empty p);
    idle_slot = (ground arith, test-set_self (λ w. 0) pid_kernel);
    hint = omega arith;
  }

  -- `k'` has the same slots in use as `k`, and the same pids.
  pub record KeepsUse (k k' : Kernel R) : Type 0 where
    pub use_of : (p : ℕ) → in_use (state_of k' p) ≡ in_use (state_of k p)
    pub same_bits : k'.pid_bitmap ≡ k.pid_bitmap
    pub same_hint : k'.pid_search_hint ≡ k.pid_search_hint

  pub KeepsUse-trans : {k l m : Kernel R} → KeepsUse k l → KeepsUse l m → KeepsUse k m
  KeepsUse-trans a b = record {
    use_of = λ p. b.use_of p ∙ a.use_of p;
    same_bits = b.same_bits ∙ a.same_bits;
    same_hint = b.same_hint ∙ a.same_hint;
  }

  pub KeepsUse-Inv : {k k' : Kernel R} → Inv k → KeepsUse k k' → Sched.Inv.Inv k' → Inv k'
  KeepsUse-Inv {k} {k'} v u s = record {
    sched = s;
    pids = λ p l m. rw (u.same_bits, u.use_of p) (v.pids p l m);
    idle_slot = (u.use_of 0 ∙ v.idle_slot.0, rw u.same_bits v.idle_slot.1);
    hint = rw u.same_hint v.hint;
  }

  pub modify-KeepsUse :
      (k : Kernel R) (p : ℕ) (f : Pcb → Pcb)
      → in_use (f (k.procs p)).state ≡ in_use (state_of k p)
      → KeepsUse k (modify k p f)
  modify-KeepsUse k p f e = record {
    use_of = λ q. ground arith;
    same_bits = refl;
    same_hint = refl;
  }

  pub sched_add-KeepsUse : (k : Kernel R) (p : ℕ) → KeepsUse k (sched_add k p)
  unfolding sched_add
  sched_add-KeepsUse k p = ground arith

  pub sched_remove-KeepsUse : (k : Kernel R) (p : ℕ) → KeepsUse k (sched_remove k p)
  unfolding sched_remove
  sched_remove-KeepsUse k p = record { use_of = λ q. refl; same_bits = refl; same_hint = refl }

  pub proc_wake-KeepsUse : (k : Kernel R) (p : ℕ) → KeepsUse k (proc_wake k p)
  unfolding proc_wake
  proc_wake-KeepsUse k p = elim (Bool-cases (is_blocked (state_of k p))) [
    | inl e ↦ rw e (
        KeepsUse-trans
          (modify-KeepsUse k p (λ b. record b { wakeup_tick = 0; state = ready }) (ground arith))
          (sched_add-KeepsUse _ p))
    | inr e ↦ rw e (record { use_of = λ q. refl; same_bits = refl; same_hint = refl })
  ]

  pub sched_force_switch-KeepsUse : (k : Kernel R) → KeepsUse k (sched_force_switch k)
  unfolding sched_force_switch
  sched_force_switch-KeepsUse k = ground arith

  -- `sched_start` moves a READY process to RUNNING.
  pub sched_start-KeepsUse :
      (k : Kernel R) (esp : ℕ) (k' : Kernel R) → sched_start k ≡ some (esp, k') → KeepsUse k k'
  unfolding sched_start
  sched_start-KeepsUse k esp k' = by_cases _ (scan_ready-Chooses k.procs (λ p. false) k.ready_queue)
    where
      second : Option (ℕ × Kernel R) → Kernel R
      second none = k
      second (some (a, b)) = b

      by_cases :
          (r : Option (ℕ × ℕ))
          → Chooses k.procs (λ p. false) k.ready_queue r
          → (elim r as (λ _. Option (ℕ × Kernel R)) [
            | none ↦ none
            | some (n, i) ↦
                let started = modify k n (λ b. record b {
                  state = running;
                  ticks_scheduled = u32 (b.ticks_scheduled + 1);
                }) in
                some (
                  (started.procs n).esp_kernel,
                  record started {
                    current_proc = some n;
                    current_idx = i;
                    sched_enabled = true;
                    tss_esp0 = (started.procs n).esp0;
                  },
                )
          ])
            ≡ some (esp, k')
          → KeepsUse k k'
      by_cases none h e = cc
      by_cases (some (n, i)) h e =
          rw (← ap second e) (record {
            use_of = λ p. ground (arith, h.candidate);
            same_bits = refl;
            same_hint = refl;
          })

  -- The slot of a free pid is filled in, outside the queue.
  pub fill_slot-Inv :
      (k k' : Kernel R) (pid : ℕ) (b : Pcb)
      → Inv k
      → TakesPid k pid k'
      → b.state ≡ embryo
      → Inv (modify k' pid (λ _. b))
  fill_slot-Inv k k' pid b v t e = record {
    sched =
        modify_outside-Inv k' pid (λ _. b)
          (rw t.rest (record {
            queued = v.sched.queued;
            in_table = v.sched.in_table;
            one_running = v.sched.one_running;
          }))
          t.in_range.1 (rw (unused_of (state_of k' pid) (same pid ∙ free)) refl) (rw e);
    pids = λ p l m. ground (arith, t.taken, t.others p, v.pids p l m, same p);
    idle_slot = ground (arith, v.idle_slot, t.in_range, t.others 0, same 0);
    hint = t.hint;
  }
    where
      same : (p : ℕ) → in_use (state_of k' p) ≡ in_use (state_of k p)
      same p = ap (λ x. in_use (state_of x p)) t.rest

      free : in_use (state_of k pid) ≡ 0
      free = sym (v.pids pid t.in_range.0 t.in_range.1) ∙ t.was_free
