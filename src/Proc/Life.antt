-- ===== src/Proc/Life.antt =====
-- `proc_sleep`, `proc_exit`, `proc_destroy` and the setters of kernel/proc/proc.c, and the invariant
-- of the process table.
use orion_final.Base.{
  ℕ, ◌+◌, ◌≤◌, ◌<◌, ◌≡◌, refl, ap, inl, inr, arith, false, ◌||◌, ◌==◌, Bool-cases, ltb,
  if◌then◌else◌, if_false, not, some, ◌∙◌,
}
use orion_final.Base.Words.{u32}
use orion_final.Bitmap.{bitmap_test}
use orion_final.Bitmap.Laws.{test-clear_self, test-clear_ne}
use orion_final.Kernel.{
  Kernel, Pcb, unused, zombie, is_unused, is_blocked, is_zombie, max_procs, pid_init, pid_kernel,
  pid_invalid, prio_idle, state_of, modify,
}
use orion_final.Sched.{sched_remove, proc_wake, sched_force_switch}
use orion_final.Sched.Inv.{
  runnable, sched_remove-Inv, modify-Inv, sched_force_switch-Inv, in_range, InvBut, modify-InvBut,
  proc_wake-InvBut, sched_remove-InvBut,
}
use orion_final.Proc.{
  Resources, cleared_pcb, pid_free, wake_pids, proc_sleep, proc_exit, proc_destroy, parent_waits,
  asleep, dead, proc_wait_resume, proc_set_priority, proc_set_timeslice,
}
use orion_final.Proc.Inv.{
  Inv, in_use, KeepsUse, KeepsUse-trans, KeepsUse-Inv, modify-KeepsUse, sched_remove-KeepsUse,
  proc_wake-KeepsUse, sched_force_switch-KeepsUse,
}
use orion_final.Proc.Wake.{wake_pids-Inv, wake_pids-state, resources-Inv}

module _ {R : Type 0} where
  -- The current process leaves the queue in a new state, and a switch is asked for.
  pub leave-Inv :
      (k : Kernel R) (p : ℕ) (f : Pcb → Pcb)
      → Inv k
      → is_unused (state_of k p) ≡ false
      → in_use (f (k.procs p)).state ≡ 1
      → runnable (f (k.procs p)).state ≡ 0
      → Inv (sched_force_switch (sched_remove (modify k p f) p))
  leave-Inv k p f v a b c =
      KeepsUse-Inv v
        (KeepsUse-trans (modify-KeepsUse k p f (ground arith)) (
          KeepsUse-trans (sched_remove-KeepsUse (modify k p f) p)
            (sched_force_switch-KeepsUse (sched_remove (modify k p f) p))))
        (sched_force_switch-Inv _
          (sched_remove-Inv k p f v.sched (in_range k p v.sched (λ u. ground arith)) c))

  -- `proc_sleep` of the current process keeps the invariant, for any number of ticks.
  pub proc_sleep-Inv :
      (k : Kernel R) (ticks p : ℕ)
      → Inv k
      → k.current_proc ≡ some p
      → is_unused (state_of k p) ≡ false
      → Inv (proc_sleep k ticks)
  unfolding proc_sleep
  proc_sleep-Inv k ticks p v c a = elim (Bool-cases (ticks == 0)) [
    | inl e ↦ rw (c, proc_sleep) (rw e v)
    | inr e ↦
        rw (c, proc_sleep)
          (rw e (leave-Inv k p (asleep (u32 (k.tick_count + ticks))) v a refl refl))
  ]

  -- `proc_exit` of the current process keeps the invariant, whether it wakes the parent or not.
  pub proc_exit-Inv :
      (k : Kernel R) (code p : ℕ)
      → Inv k
      → k.current_proc ≡ some p
      → is_unused (state_of k p) ≡ false
      → Inv (proc_exit k code)
  unfolding proc_exit
  proc_exit-Inv k code p v c a =
      rw (c, proc_exit)
        (KeepsUse-Inv v
          (KeepsUse-trans (modify-KeepsUse k p (dead code) (ground arith)) (
            KeepsUse-trans kept (
              KeepsUse-trans (sched_remove-KeepsUse woken p)
                (sched_force_switch-KeepsUse (sched_remove woken p)))))
          (sched_force_switch-Inv _ (sched_remove-InvBut p woken near)))
    where
      k1 : Kernel R
      k1 = modify k p (dead code)

      woken : Kernel R
      woken = if parent_waits k1 p then proc_wake k1 (k1.procs p).ppid else k1

      near1 : InvBut p k1
      near1 = modify-InvBut k p (dead code) v.sched (in_range k p v.sched (λ u. ground arith)) refl

      kept : KeepsUse k1 woken
      kept = elim (Bool-cases (parent_waits k1 p)) [
        | inl e ↦ rw e (proc_wake-KeepsUse k1 (k1.procs p).ppid)
        | inr e ↦ rw e (record { use_of = λ q. refl; same_bits = refl; same_hint = refl })
      ]

      near : InvBut p woken
      near = elim (Bool-cases (parent_waits k1 p)) [
        | inl e ↦ rw e (proc_wake-InvBut p k1 (k1.procs p).ppid near1 (ground arith))
        | inr e ↦ rw e near1
      ]

  -- `pid_free` of a slot that has just been cleared.
  pub clear_slot-Inv :
      (k : Kernel R) (p : ℕ)
      → Inv k
      → pid_init ≤ p
      → p < max_procs
      → state_of k p ≡ zombie
      → Inv (modify (pid_free k p) p (λ b. cleared_pcb))
  unfolding pid_free
  clear_slot-Inv k p v l m e =
      let bit : bitmap_test k.pid_bitmap p ≡ 1 = ground (arith, v.pids p l m) in
      let kernel : (p == pid_kernel || p == pid_invalid) ≡ false = ground arith in
      let taken : (bitmap_test k.pid_bitmap p == 0) ≡ false = ground arith in
      rw (kernel, taken)
        (record {
          sched = record {
            queued = λ q. ground (arith, v.sched.queued q);
            in_table = λ q n. ground (arith, v.sched.in_table q);
            one_running = λ q r. ground (arith, v.sched.one_running q);
          };
          pids = λ q a b.
              ground (
                arith,
                v.pids q a b,
                test-clear_self k.pid_bitmap p,
                test-clear_ne k.pid_bitmap p q,
              );
          idle_slot = ground (arith, v.idle_slot, test-clear_ne k.pid_bitmap p 0);
          hint = ground (arith, v.hint);
        })

  module _ (env : Resources R) where
    -- A ZOMBIE is destroyed: no panic, its slot is UNUSED, and the invariant is kept.
    pub proc_destroy-Inv :
        (k : Kernel R) (p : ℕ)
        → Inv k
        → pid_init ≤ p
        → p < max_procs
        → state_of k p ≡ zombie
        → (k' : Kernel R) × (proc_destroy env k p ≡ some k') × Inv k' × (state_of k' p ≡ unused)
    unfolding proc_destroy
    proc_destroy-Inv k p v l m e =
        let base = (k.procs p).kstack_base in
        let (res, woken) =
          env.fd_table_close_all
            (if base == 0 then k.resources else env.kfree_aligned k.resources base) p in
        let closed = wake_pids (record k { resources = res }) woken in
        let dead_still : state_of closed p ≡ zombie =
          wake_pids-state (record k { resources = res }) woken p (ap is_blocked e) ∙ e in
        (
          modify (pid_free closed p) p (λ b. cleared_pcb),
          if_false _ _ (ap (λ s. not (is_zombie s)) e),
          clear_slot-Inv closed p
              (wake_pids-Inv (record k { resources = res }) woken (resources-Inv k res v)) l m
              dead_still,
          ground arith,
        )

module _ {R : Type 0} where
  -- A write to a slot that leaves its state alone.
  rewrite_slot-Inv :
      (k : Kernel R) (p : ℕ) (f : Pcb → Pcb)
      → Inv k
      → (f (k.procs p)).state ≡ (k.procs p).state
      → Inv (modify k p f)
  rewrite_slot-Inv k p f v e =
      KeepsUse-Inv v (modify-KeepsUse k p f (ap in_use e)) (modify-Inv k p f v.sched e)

  -- The setters, and the write of `proc_wait` when its process runs again, keep the invariant.
  pub proc_set_priority-Inv : (k : Kernel R) (p n : ℕ) → Inv k → Inv (proc_set_priority k p n)
  unfolding proc_set_priority
  proc_set_priority-Inv k p n v =
      let priority = if ltb prio_idle n then prio_idle else n in
      rewrite_slot-Inv k p (λ b. record b { priority = priority; base_priority = priority }) v refl

  pub proc_set_timeslice-Inv : (k : Kernel R) (p n : ℕ) → Inv k → Inv (proc_set_timeslice k p n)
  unfolding proc_set_timeslice
  proc_set_timeslice-Inv k p n v = elim (Bool-cases (ltb n 2)) [
    | inl e ↦ rw e v
    | inr e ↦
        rw e (rewrite_slot-Inv k p (λ b. record b { timeslice_len = n; timeslice = n }) v refl)
  ]

  pub proc_wait_resume-Inv : (k : Kernel R) (p : ℕ) → Inv k → Inv (proc_wait_resume k p)
  unfolding proc_wait_resume
  proc_wait_resume-Inv k p v = rewrite_slot-Inv k p (λ b. record b { waiting = false }) v refl
