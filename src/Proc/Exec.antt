-- ===== src/Proc/Exec.antt =====
-- `proc_exec` of kernel/proc/exec.c, and the search of `proc_wait` in kernel/proc/proc.c.
use orion_final.Base.{
  ℕ, zero, suc, ◌+◌, ◌≤◌, ◌<◌, ◌≡◌, refl, ap, ◌∙◌, ◌≢◌, ◌⊎◌, inl, inr, arith, true, false, not,
  ◌&&◌, ◌||◌, ◌==◌, Bool-cases, eqb→eq, eqb→ne, none, some, length, [], ◌∷◌,
}
use orion_final.Kernel.{
  Kernel, ProcState, ready, running, zombie, is_unused, is_running, is_zombie, max_procs,
  pid_invalid, state_of, modify,
}
use orion_final.Sched.{sched_add, sched_remove, swap_remove}
use orion_final.Sched.Queue.{occurs, occurs-append, occurs-swap_remove, length_lt}
use orion_final.Proc.{proc_init_frame, proc_exec, restarted, is_reapable, find_child}
use orion_final.Proc.Inv.{Inv, in_use, KeepsUse-Inv, KeepsUse-trans, sched_add-KeepsUse}
use orion_final.Proc.Fork.{Agrees, proc_init_frame-Agrees, state_of-sched_add}

module _ {R : Type 0} where
  -- A process is taken out of the queue, made READY and put back at the end.
  requeue-Inv :
      (k k' : Kernel R) (p : ℕ)
      → Inv k
      → p < max_procs
      → in_use (state_of k p) ≡ 1
      → is_running (state_of k p) ≡ false
      → k'.ready_queue ≡ swap_remove k.ready_queue p
      → state_of k' p ≡ ready
      → ((q : ℕ) → p ≢ q → state_of k' q ≡ state_of k q)
      → k'.current_proc ≡ k.current_proc
      → k'.pid_bitmap ≡ k.pid_bitmap
      → k'.pid_search_hint ≡ k.pid_search_hint
      → Inv (sched_add k' p)
  unfolding sched_add
  requeue-Inv k k' p v l a n e r others c b h =
      let gone = λ (q : ℕ). ap (occurs q) e ∙ occurs-swap_remove k.ready_queue p q in
      let room : length k'.ready_queue < max_procs =
        length_lt max_procs p k'.ready_queue (λ q. ground (arith, gone q, v.sched.queued q))
          (λ q m. ground (arith, gone q, v.sched.queued q, v.sched.in_table q m)) l
          (ground (arith, gone p, v.sched.queued p)) in
      KeepsUse-Inv v
        (KeepsUse-trans
          (record { use_of = λ q. ground (arith, others q); same_bits = b; same_hint = h })
          (sched_add-KeepsUse k' p))
        (record {
          queued = λ q.
              ground (
                arith,
                gone q,
                v.sched.queued q,
                others q,
                occurs-append q k'.ready_queue (p ∷ []),
              );
          in_table = λ q m. ground (arith, others q, v.sched.in_table q);
          one_running = λ q s. ground (arith, others q, v.sched.one_running q);
        })

  -- `proc_exec` refuses a RUNNING process and changes nothing; any other process in use becomes
  -- READY, wherever it was before, a ZOMBIE too. The invariant is kept.
  pub proc_exec_lem :
      (k : Kernel R) (p entry : ℕ)
      → Inv k
      → p < max_procs
      → in_use (state_of k p) ≡ 1
      → let (done, k') = proc_exec k p entry in
        Inv k'
        × (((state_of k p ≡ running) × (done ≡ false) × (k' ≡ k))
            ⊎ ((state_of k p ≢ running) × (done ≡ true) × (state_of k' p ≡ ready)))
  unfolding proc_exec sched_remove
  proc_exec_lem k p entry v l a = elim (Bool-cases (is_running (state_of k p))) [
    | inl e ↦ rw e (v, inl (ground arith, refl, refl))
    | inr e ↦ rw e (
      requeue-Inv k restart p v l a e framed.queue (ground arith)
          (λ q n. ground (arith, framed.states q)) framed.current framed.bits framed.hint,
      inr (λ r. cc (ap is_running r), refl, state_of-sched_add restart p p ∙ ground arith),
    )
  ]
    where
      removed : Kernel R
      removed = sched_remove k p

      framed : Agrees removed (proc_init_frame removed p entry)
      framed = proc_init_frame-Agrees removed p entry

      restart : Kernel R
      restart = modify (proc_init_frame removed p entry) p restarted

  pub is_reapable-zombie :
      (k : Kernel R) (self pid c : ℕ) → is_reapable k self pid c ≡ true → state_of k c ≡ zombie
  unfolding is_reapable
  is_reapable-zombie k self pid c = by_state (state_of k c)
    where
      by_state :
          (s : ProcState)
          → (not (is_unused s)
              && ((k.procs c).ppid == self && ((pid == pid_invalid || c == pid) && is_zombie s)))
            ≡ true
          → s ≡ zombie
      by_state zombie h = refl
      by_state s h = ground arith

  -- What the search of `proc_wait` finds is a child to reap; and it is missed only if there is none.
  pub find_child-reapable :
      (k : Kernel R) (self pid i left : ℕ)
      → ((c : ℕ) × (find_child k self pid i left ≡ some c)
          × (i ≤ c)
          × (c < i + left)
          × (is_reapable k self pid c ≡ true))
        ⊎ ((find_child k self pid i left ≡ none)
            × ((c : ℕ) → i ≤ c → c < i + left → is_reapable k self pid c ≡ false))
  unfolding find_child
  find_child-reapable k self pid i zero = inr (refl, λ c a b. absurd (omega arith))
  find_child-reapable k self pid i (suc left) = elim (Bool-cases (is_reapable k self pid i)) [
    | inl e ↦ inl (i, rw e, omega arith, omega arith, e)
    | inr e ↦ elim (find_child-reapable k self pid (i + 1) left) [
      | inl (c, f, a, b, t) ↦ inl (c, rw e f, omega arith, omega arith, t)
      | inr (f, none') ↦ inr (
        rw e f,
        λ c a b. elim (Bool-cases (c == i)) [
          | inl q ↦ rw (eqb→eq c i q) e
          | inr q ↦ none' c (omega (arith, eqb→ne c i q)) (omega arith)
        ],
      )
    ]
  ]
