-- ===== src/Proc/Wait.antt =====
-- A round of the loop of `proc_wait` in kernel/proc/proc.c, and its outcomes.
use orion_final.Base.{ℕ, ◌<◌, ◌≡◌, refl, ap, ◌∙◌, inl, inr, ◌⊎◌, arith, true, false, some}
use orion_final.Kernel.{
  Kernel, Pcb, unused, zombie, blocked, is_unused, max_procs, pid_invalid, state_of, modify,
}
use orion_final.Sched.{sched_remove, sched_force_switch}
use orion_final.Proc.{
  Resources, proc_wait_round, awaiting, is_reapable, WaitRound, reaped, blocks, no_process, panics,
}
use orion_final.Proc.Inv.{Inv, in_use, pid_of_in_use}
use orion_final.Proc.Life.{proc_destroy-Inv, leave-Inv}
use orion_final.Proc.Exec.{find_child-reapable, is_reapable-zombie}

module _ {R : Type 0} where
  -- A child of `self` that is a ZOMBIE and has the pid that is waited for, or any.
  abbrev pub Reapable : Kernel R → ℕ → ℕ → ℕ → Type 0
  Reapable k self pid c =
      (state_of k c ≡ zombie) × ((k.procs c).ppid ≡ self) × ((pid ≡ pid_invalid) ⊎ (c ≡ pid))

  is_reapable-Reapable :
      (k : Kernel R) (self pid c : ℕ) → is_reapable k self pid c ≡ true → Reapable k self pid c
  unfolding is_reapable
  is_reapable-Reapable k self pid c e =
      (is_reapable-zombie k self pid c e, ground arith, ground arith)

  Reapable-is_reapable :
      (k : Kernel R) (self pid c : ℕ) → Reapable k self pid c → is_reapable k self pid c ≡ true
  unfolding is_reapable
  Reapable-is_reapable k self pid c r = ground (arith, r.0, r.1, r.2)

  -- What the loop of `proc_wait` in process `self`, waiting for `pid`, may do in a round.
  abbrev pub WaitOutcome : Kernel R → ℕ → ℕ → WaitRound R → Type 0
  WaitOutcome k self pid (reaped c code k') =
      Reapable k self pid c × (code ≡ (k.procs c).exit_code) × (state_of k' c ≡ unused) × Inv k'
  WaitOutcome k self pid (blocks k') =
      ((c : ℕ) → c < max_procs → ¬ Reapable k self pid c) × (state_of k' self ≡ blocked) × Inv k'
  WaitOutcome k self pid no_process = ⊥
  WaitOutcome k self pid panics = ⊥

  pub state_of-leave :
      (k : Kernel R) (p q : ℕ) (f : Pcb → Pcb)
      → state_of (sched_force_switch (sched_remove (modify k p f) p)) q ≡ state_of (modify k p f) q
  unfolding sched_force_switch sched_remove
  state_of-leave k p q f = ground arith

  -- A round of `proc_wait` reaps a ZOMBIE child that fits `pid`, returns its exit code and frees its
  -- slot; only if there is no such child does the process block. It never panics, and keeps the
  -- invariant.
  pub proc_wait_round_lem :
      (env : Resources R) (k : Kernel R) (self pid : ℕ)
      → Inv k
      → k.current_proc ≡ some self
      → is_unused (state_of k self) ≡ false
      → WaitOutcome k self pid (proc_wait_round env k pid)
  unfolding proc_wait_round
  proc_wait_round_lem env k self pid v c u = elim (find_child-reapable k self pid 0 max_procs) [
    | inl (child, f, a, b, t) ↦
        let z : state_of k child ≡ zombie = is_reapable-zombie k self pid child t in
        let d = proc_destroy-Inv env k child v (pid_of_in_use k child v (ap in_use z)) b z in
        rw (c, proc_wait_round)
          (rw f (rw d.1 (is_reapable-Reapable k self pid child t, refl, d.3, d.2)))
    | inr (f, none') ↦
        rw (c, proc_wait_round)
          (rw f (
            λ x l r. cc (none' x (omega arith) (omega arith), Reapable-is_reapable k self pid x r),
            state_of-leave k self self (awaiting pid) ∙ ground arith,
            leave-Inv k self (awaiting pid) v u refl refl,
          ))
  ]
