-- ===== src/Proc/Wake.antt =====
-- Waking the processes at the other ends of pipes, when descriptors are closed (kernel/fs/pipe.c,
-- kernel/proc/proc.c).
use orion_final.Base.{ℕ, ◌≡◌, refl, ap, ◌∙◌, arith, false, inl, inr, Option-cases, List, [], ◌∷◌}
use orion_final.Kernel.{Kernel, is_blocked, state_of}
use orion_final.Sched.{sched_add, proc_wake}
use orion_final.Sched.Inv.{proc_wake-Inv}
use orion_final.Proc.{proc_get, wake_pid, wake_pids}
use orion_final.Proc.Inv.{Inv, KeepsUse-Inv, proc_wake-KeepsUse}

module _ {R : Type 0} where
  wake_pid-Inv : (k : Kernel R) (p : ℕ) → Inv k → Inv (wake_pid k p)
  unfolding wake_pid
  wake_pid-Inv k p v = elim (Option-cases (proc_get k p)) [
    | inl e ↦ rw (e, wake_pid) v
    | inr (q, e) ↦
        rw (e, wake_pid) (KeepsUse-Inv v (proc_wake-KeepsUse k q) (proc_wake-Inv k q v.sched))
  ]

  proc_wake-state :
      (k : Kernel R) (p q : ℕ)
      → is_blocked (state_of k q) ≡ false
      → state_of (proc_wake k p) q ≡ state_of k q
  unfolding proc_wake sched_add
  proc_wake-state k p q e = ground arith

  wake_pid-state :
      (k : Kernel R) (p q : ℕ)
      → is_blocked (state_of k q) ≡ false
      → state_of (wake_pid k p) q ≡ state_of k q
  unfolding wake_pid
  wake_pid-state k p q e = elim (Option-cases (proc_get k p)) [
    | inl f ↦ rw (f, wake_pid) refl
    | inr (x, f) ↦ rw (f, wake_pid) (proc_wake-state k x q e)
  ]

  -- Waking the peers of pipes keeps the invariant, and the state of a process that is not BLOCKED.
  pub wake_pids-Inv : (k : Kernel R) (pids : List ℕ) → Inv k → Inv (wake_pids k pids)
  unfolding wake_pids
  wake_pids-Inv k [] v = v
  wake_pids-Inv k (p ∷ ps) v = wake_pids-Inv (wake_pid k p) ps (wake_pid-Inv k p v)

  pub wake_pids-state :
      (k : Kernel R) (pids : List ℕ) (q : ℕ)
      → is_blocked (state_of k q) ≡ false
      → state_of (wake_pids k pids) q ≡ state_of k q
  unfolding wake_pids
  wake_pids-state k [] q e = refl
  wake_pids-state k (p ∷ ps) q e =
      let same = wake_pid-state k p q e in
      wake_pids-state (wake_pid k p) ps q (ap is_blocked same ∙ e) ∙ same

  -- What the other components hold is not part of the invariant.
  pub resources-Inv : (k : Kernel R) (s : R) → Inv k → Inv (record k { resources = s })
  resources-Inv k s v = record {
    sched = record {
      queued = v.sched.queued;
      in_table = v.sched.in_table;
      one_running = v.sched.one_running;
    };
    pids = v.pids;
    idle_slot = v.idle_slot;
    hint = v.hint;
  }
