-- ===== src/Proc/Create.antt =====
-- `proc_create` of kernel/proc/proc.c and the invariant of the process table.
use orion_final.Base.{
  ℕ, ◌≤◌, ◌<◌, ◌≡◌, refl, sym, ap, ◌∙◌, ◌≢◌, ◌⊎◌, inl, inr, arith, false, not, ◌||◌, ◌==◌, eq→eqb,
  Option, none, some,
}
use orion_final.Base.Update.{update_ne}
use orion_final.Bitmap.{bitmap_test}
use orion_final.Bitmap.Laws.{test-clear_self, test-clear_ne}
use orion_final.Kernel.{
  Kernel, unused, embryo, is_unused, max_procs, pid_init, pid_kernel, pid_invalid, state_of, modify,
}
use orion_final.Sched
use orion_final.Proc.{Resources, new_pcb, pid_alloc, pid_free, fill_slot, create_in, proc_create}
use orion_final.Proc.Wake.{resources-Inv}
use orion_final.Proc.Pid.{TakesPid, PidOutcome, pid_alloc_lem}
use orion_final.Proc.Inv.{Inv, in_use, fill_slot-Inv, unused_of}

module _ {R : Type 0} where
  -- Taking a pid and giving it back leaves the table as it was.
  pid_free-TakesPid :
      (k k' : Kernel R) (pid : ℕ) → Inv k → TakesPid k pid k' → Inv (pid_free k' pid)
  unfolding pid_free
  pid_free-TakesPid k k' pid v t =
      let kernel : (pid == pid_kernel || pid == pid_invalid) ≡ false = ground (arith, t.in_range) in
      let taken : (bitmap_test k'.pid_bitmap pid == 0) ≡ false = ground (arith, t.taken) in
      rw (kernel, taken)
        (record {
          sched = sched;
          pids = λ q a b. ground (
            arith,
            v.pids q a b,
            same q,
            t.others q,
            t.was_free,
            test-clear_self k'.pid_bitmap pid,
            test-clear_ne k'.pid_bitmap pid q,
          );
          idle_slot = ground (
            arith,
            v.idle_slot,
            same 0,
            t.in_range,
            t.others 0,
            test-clear_ne k'.pid_bitmap pid 0,
          );
          hint = ground (arith, t.hint, t.in_range);
        })
    where
      same : (p : ℕ) → in_use (state_of k' p) ≡ in_use (state_of k p)
      same p = ap (λ x. in_use (state_of x p)) t.rest

      sched :
          {b : ℕ → ℕ} {h : ℕ} → Sched.Inv.Inv (record k' { pid_bitmap = b; pid_search_hint = h })
      sched {b} {h} = rw t.rest (record {
        queued = v.sched.queued;
        in_table = v.sched.in_table;
        one_running = v.sched.one_running;
      })

  -- A new process in a slot that was free, and no other slot touched.
  pub record Creates (k : Kernel R) (pid : ℕ) (k' : Kernel R) : Type 0 where
    pub keeps : Inv k'
    pub in_range : (pid_init ≤ pid) × (pid < max_procs)
    pub was_unused : state_of k pid ≡ unused
    pub is_new : state_of k' pid ≡ embryo
    pub others : (p : ℕ) → pid ≢ p → k'.procs p ≡ k.procs p
    pub same_current : k'.current_proc ≡ k.current_proc
    pub same_queue : k'.ready_queue ≡ k.ready_queue

  -- There is no memory for a kernel stack.
  abbrev pub NoStack : Resources R → R → Type 0
  NoStack env s = (t : R) × (env.kmalloc_aligned s ≡ some (none, t))

  -- The kernel heap panics, for the kernel stack or for the descriptors of a new process.
  abbrev pub HeapPanics : Resources R → R → Type 0
  HeapPanics env s =
      (env.kmalloc_aligned s ≡ none)
      ⊎ ((kstack pid : ℕ) × (t : R) × (env.kmalloc_aligned s ≡ some (some kstack, t))
          × (env.fd_table_init t pid ≡ none))

  -- Every pid is in use.
  abbrev pub AllTaken : Kernel R → Type 0
  AllTaken k = (p : ℕ) → pid_init ≤ p → p < max_procs → in_use (state_of k p) ≡ 1

  -- The outcomes of `proc_create`: a new process, the null pointer, or a panic.
  pub data CreateOutcome (env : Resources R) (k : Kernel R)
      : Option (Option ℕ × Kernel R) → Type 0 where
    creates :
        (pid : ℕ) (k' : Kernel R) → Creates k pid k' → CreateOutcome env k (some (some pid, k'))
    gives_null :
        (k' : Kernel R)
        → Inv k'
        → AllTaken k ⊎ NoStack env k.resources
        → CreateOutcome env k (some (none, k'))
    panics : HeapPanics env k.resources → CreateOutcome env k none

  TakesPid-resources :
      (k k' : Kernel R) (pid : ℕ) (s : R)
      → TakesPid k pid k'
      → TakesPid (record k { resources = s }) pid (record k' { resources = s })
  TakesPid-resources k k' pid s t = record {
    in_range = t.in_range;
    was_free = t.was_free;
    taken = t.taken;
    others = t.others;
    hint = t.hint;
    rest = ap (λ (x : Kernel R). record x { resources = s }) t.rest;
  }

  module _ (env : Resources R) (k : Kernel R) (priority : ℕ) (v : Inv k) where
    filled :
        (k' : Kernel R) (pid kstack : ℕ) (t : R)
        → TakesPid k pid k'
        → env.kmalloc_aligned k.resources ≡ some (some kstack, t)
        → (o : Option R) → env.fd_table_init t pid ≡ o
        → CreateOutcome env k (elim o as (λ _. Option (Option ℕ × Kernel R)) [
          | none ↦ none
          | some res ↦ some (
            some pid,
            record (modify k' pid (λ b. new_pcb k'.tick_count kstack priority)) { resources = res },
          )
        ])
    filled k' pid kstack t takes e none f = panics (inr (kstack, pid, t, e, f))
    filled k' pid kstack t takes e (some res) f =
        let slot =
          fill_slot-Inv k k' pid (new_pcb k'.tick_count kstack priority) v takes
            (unfold new_pcb in refl) in
        creates pid _ (record {
          keeps = resources-Inv _ res slot;
          in_range = takes.in_range;
          was_unused =
              unused_of (state_of k pid)
                (sym (v.pids pid takes.in_range.0 takes.in_range.1) ∙ takes.was_free);
          is_new = unfold new_pcb in ground arith;
          others = λ p h. update_ne k'.procs pid p _ h ∙ ap (λ x. x.procs p) takes.rest;
          same_current = ap (λ x. x.current_proc) takes.rest;
          same_queue = ap (λ x. x.ready_queue) takes.rest;
        })

    with_stack :
        (k' : Kernel R) (pid : ℕ)
        → TakesPid k pid k'
        → (o : Option (Option ℕ × R)) → env.kmalloc_aligned k.resources ≡ o
        → CreateOutcome env k (elim o as (λ _. Option (Option ℕ × Kernel R)) [
          | none ↦ none
          | some (none, res) ↦ some (none, pid_free (record k' { resources = res }) pid)
          | some (some kstack, res) ↦ fill_slot env k' pid priority kstack res
        ])
    unfolding fill_slot
    with_stack k' pid t none e = panics (inl e)
    with_stack k' pid t (some (none, res)) e =
        gives_null _
          (pid_free-TakesPid (record k { resources = res }) (record k' { resources = res }) pid
            (resources-Inv k res v) (TakesPid-resources k k' pid res t))
          (inr (res, e))
    with_stack k' pid t (some (some kstack, res)) e =
        filled k' pid kstack res t e (env.fd_table_init res pid) refl

    create_in-outcome :
        (pid : ℕ) (k' : Kernel R)
        → PidOutcome k (pid, k')
        → CreateOutcome env k (create_in env k' pid priority)
    unfolding create_in
    create_in-outcome pid k' (inl (e, u, full)) =
        rw (eq→eqb pid pid_invalid e)
          (gives_null k' (rw u v) (inl (λ p a b. sym (v.pids p a b) ∙ full p a b)))
    create_in-outcome pid k' (inr t) =
        let valid : (pid == pid_invalid) ≡ false = ground (arith, t.in_range) in
        let free : state_of k pid ≡ unused =
          unused_of (state_of k pid) (sym (v.pids pid t.in_range.0 t.in_range.1) ∙ t.was_free) in
        let unused' : not (is_unused (state_of k' pid)) ≡ false =
          ap (λ x. not (is_unused (state_of x pid))) t.rest ∙ ap (λ s. not (is_unused s)) free in
        rw (valid, unused')
          (with_stack k' pid t (env.kmalloc_aligned k'.resources)
            (ap (λ x. env.kmalloc_aligned x.resources) (sym t.rest)))

    -- `proc_create` makes an EMBRYO in a free slot and touches no other slot; or it gives the null pointer, because
    -- every pid is in use or there is no memory for a kernel stack; or it panics, because the heap does. The slot of a free pid is always
    -- UNUSED, so the check for that never fails. Where it returns, the invariant is kept.
    pub proc_create_lem : CreateOutcome env k (proc_create env k priority)
    unfolding proc_create
    proc_create_lem =
        create_in-outcome (pid_alloc k).0 (pid_alloc k).1 (pid_alloc_lem k v.hint.0 v.hint.1)
