-- ===== src/Proc/Fork.antt =====
-- `proc_fork` of kernel/proc/fork.c and the invariant of the process table.
use mathlib.Core.Option
use mathlib.Core.Option.{some-injective}
use orion_final.Base.{
  ℕ, ◌≡◌, refl, sym, ap, ◌∙◌, ◌⊎◌, inl, inr, arith, not, ◌==◌, Bool-cases, Option, none, some,
}
use orion_final.Kernel.{
  Kernel, Pcb, unused, embryo, ready, is_embryo, is_blocked, pid_invalid, state_of, modify,
}
use orion_final.Sched.{sched_add}
use orion_final.Sched.Inv.{runnable, sched_add-Inv, in_range}
use orion_final.Proc.{
  Resources, proc_create, proc_init_frame, proc_set_ready, launch, adopt, inherited, proc_fork,
}
use orion_final.Proc.Inv.{
  Inv, in_use, KeepsUse-trans, KeepsUse-Inv, modify-KeepsUse, sched_add-KeepsUse,
}
use orion_final.Proc.Create.{
  CreateOutcome, creates, gives_null, panics, AllTaken, NoStack, HeapPanics, proc_create_lem,
}
use orion_final.Proc.Wake.{wake_pids-Inv, wake_pids-state, resources-Inv}
use mathlib.Core.Path.{subst}

module _ {R : Type 0} where
  -- `k'` agrees with `k` on what the invariant reads.
  pub record Agrees (k k' : Kernel R) : Type 0 where
    pub states : (p : ℕ) → state_of k' p ≡ state_of k p
    pub queue : k'.ready_queue ≡ k.ready_queue
    pub current : k'.current_proc ≡ k.current_proc
    pub bits : k'.pid_bitmap ≡ k.pid_bitmap
    pub hint : k'.pid_search_hint ≡ k.pid_search_hint

  Agrees-Inv : {k k' : Kernel R} → Agrees k k' → Inv k → Inv k'
  Agrees-Inv {k} {k'} a v =
      KeepsUse-Inv v
        (record { use_of = λ p. ap in_use (a.states p); same_bits = a.bits; same_hint = a.hint })
        (record {
          queued = λ p. rw (a.queue, a.states p) (v.sched.queued p);
          in_table = λ p m. a.states p ∙ v.sched.in_table p m;
          one_running = λ p r. a.current ∙ v.sched.one_running p (sym (a.states p) ∙ r);
        })

  pub proc_init_frame-Agrees : (k : Kernel R) (p entry : ℕ) → Agrees k (proc_init_frame k p entry)
  unfolding proc_init_frame
  proc_init_frame-Agrees k p entry = elim (Bool-cases ((k.procs p).kstack_top == 0)) [
    | inl e ↦
        rw e (record { states = λ q. refl; queue = refl; current = refl; bits = refl; hint = refl })
    | inr e ↦ rw e (record {
      states = λ q. ground arith;
      queue = refl;
      current = refl;
      bits = refl;
      hint = refl;
    })
  ]

  -- The child that is adopted stays an EMBRYO.
  adopt-Inv :
      (env : Resources R) (k : Kernel R) (o : Option ℕ) (child : ℕ)
      → Inv k
      → state_of k child ≡ embryo
      → Inv (adopt env k o child) × (state_of (adopt env k o child) child ≡ embryo)
  unfolding adopt
  adopt-Inv env k none child v e = (v, e)
  adopt-Inv env k (some parent) child v e =
      let owned = modify k child (λ b. record b { ppid = parent }) in
      let (res, woken) = env.fd_table_close_all k.resources child in
      let given : Kernel R = record owned { resources = env.fd_table_clone res parent child } in
      let still : state_of given child ≡ embryo = ground (arith, e) in
      let same : Agrees k owned = record {
        states = λ q. ground arith;
        queue = refl;
        current = refl;
        bits = refl;
        hint = refl;
      } in
      (
        wake_pids-Inv given woken (resources-Inv owned _ (Agrees-Inv same v)),
        wake_pids-state given woken child (ap is_blocked still) ∙ still,
      )

  -- A process outside the queue, in use, is made READY and added.
  enqueue-Inv :
      (k : Kernel R) (p : ℕ) (f : Pcb → Pcb)
      → Inv k
      → in_use (state_of k p) ≡ 1
      → runnable (state_of k p) ≡ 0
      → (f (k.procs p)).state ≡ ready
      → Inv (sched_add (modify k p f) p)
  enqueue-Inv k p f v a b c =
      KeepsUse-Inv v
        (KeepsUse-trans (modify-KeepsUse k p f (ap in_use c ∙ sym a))
          (sched_add-KeepsUse (modify k p f) p))
        (sched_add-Inv k p f v.sched (in_range k p v.sched (λ u. cc (ap in_use u))) b c)

  proc_set_ready-eq :
      (k : Kernel R) (p : ℕ)
      → state_of k p ≡ embryo
      → proc_set_ready k p ≡ some (modify k p (λ b. record b { state = ready }))
  unfolding proc_set_ready
  proc_set_ready-eq k p e = rw (ap (λ s. not (is_embryo s)) e)

  pub state_of-sched_add : (k : Kernel R) (p q : ℕ) → state_of (sched_add k p) q ≡ state_of k q
  unfolding sched_add
  state_of-sched_add k p q = ground arith

  -- An EMBRYO is launched: no panic, and it is READY.
  pub launch-Inv :
      (k : Kernel R) (p entry : ℕ)
      → Inv k
      → state_of k p ≡ embryo
      → (k' : Kernel R) × (launch k p entry ≡ some k') × Inv k' × (state_of k' p ≡ ready)
  unfolding launch
  launch-Inv k p entry v e =
      let framed = proc_init_frame k p entry in
      let a = proc_init_frame-Agrees k p entry in
      let e' = a.states p ∙ e in
      let set = modify framed p (λ b. record b { state = ready }) in
      (
        sched_add set p,
        ap (Option.map (λ k'. sched_add k' p)) (proc_set_ready-eq framed p e'),
        enqueue-Inv framed p (λ b. record b { state = ready }) (Agrees-Inv a v) (ap in_use e')
            (ap runnable e') refl,
        state_of-sched_add set p p ∙ ground arith,
      )

  -- What `proc_fork` does.
  pub data ForkOutcome (env : Resources R) (k : Kernel R) : Option (ℕ × Kernel R) → Type 0 where
    forks :
        (pid : ℕ) (k' : Kernel R)
        → Inv k'
        → state_of k pid ≡ unused
        → state_of k' pid ≡ ready
        → ForkOutcome env k (some (pid, k'))
    refuses :
        (k' : Kernel R)
        → Inv k'
        → AllTaken k ⊎ NoStack env k.resources
        → ForkOutcome env k (some (pid_invalid, k'))
    halts : HeapPanics env k.resources → ForkOutcome env k none

  module _ (env : Resources R) where
    -- `proc_fork` makes a process that is READY in a slot that was free; or it returns PID_INVALID, because
    -- every pid is in use or there is no memory for a kernel stack; and it panics only where the kernel heap does. Where it
    -- returns, the invariant is kept.
    pub proc_fork_lem :
        (k : Kernel R) (entry : ℕ) → Inv k → ForkOutcome env k (proc_fork env k entry)
    unfolding proc_fork
    proc_fork_lem k entry v =
        made (proc_create env k (inherited k k.current_proc))
          (proc_create_lem env k (inherited k k.current_proc) v)
      where
        made :
            (o : Option (Option ℕ × Kernel R))
            → CreateOutcome env k o
            → ForkOutcome env k (elim o as (λ _. Option (ℕ × Kernel R)) [
              | none ↦ none
              | some (none, k1) ↦ some (pid_invalid, k1)
              | some (some child, k1) ↦
                  Option.map
                    (λ k2. (child, k2))
                    (launch (adopt env k1 k.current_proc child) child entry)
            ])
        made o (panics h) = halts h
        made o (gives_null k1 w why) = refuses k1 w why
        made o (creates child k1 c) =
            let a = adopt-Inv env k1 k.current_proc child c.keeps c.is_new in
            let l = launch-Inv (adopt env k1 k.current_proc child) child entry a.0 a.1 in
            subst (ForkOutcome env k) (sym (ap (Option.map (λ k2. (child, k2))) l.1))
              (forks child l.0 l.2 c.was_unused l.3)
