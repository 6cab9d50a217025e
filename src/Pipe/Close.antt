-- ===== src/Pipe/Close.antt =====
-- Closing the ends of a pipe of kernel/fs/pipe.c.
use orion_final.Base.{
  ℕ, ◌-◌, ◌<◌, ◌≡◌, ◌≢◌, refl, ap, ◌∙◌, arith, Bool, true, false, ◌==◌, ltb, ◌&&◌, if◌then◌else◌,
  Bool-cases, eqb→eq, eqb→ne, inl, inr, ◌⊎◌, List, [], ◌∷◌, none, some,
}
use orion_final.Kernel.{Kernel, blocked, ready, state_of, max_procs, modify, is_blocked}
use orion_final.Sched.{proc_wake}
use orion_final.Proc.{proc_get, wake_pid}
use orion_final.Proc.Fork.{state_of-sched_add}
use orion_final.Pipe.{Pipe, pipe_close_read, pipe_close_write, pipe_wake_peer, no_waiter}
use orion_final.Pipe.Ring.{contents, at}
use orion_final.Pipe.Peer.{Runs, pipe_wake_peer-SamePipe, pipe_wake_peer-Runs}
use orion_final.Pipe.Rounds.{SamePipe-contents}

module _ {R : Type 0} where
  pub proc_wake-ready :
      (k : Kernel R) (p : ℕ) → state_of k p ≡ blocked → state_of (proc_wake k p) p ≡ ready
  unfolding proc_wake
  proc_wake-ready k p e = rw (ap is_blocked e) (
      state_of-sched_add (modify k p (λ b. record b { wakeup_tick = 0; state = ready })) p p
      ∙ ground arith)

  pub proc_get-some :
      (k : Kernel R) (p : ℕ) → p < max_procs → state_of k p ≡ blocked → proc_get k p ≡ some p
  unfolding proc_get
  proc_get-some k p l e = ground arith

  wake_pid-ready :
      (k : Kernel R) (p : ℕ)
      → p < max_procs
      → state_of k p ≡ blocked
      → state_of (wake_pid k p) p ≡ ready
  unfolding wake_pid
  wake_pid-ready k p l e =
      let woken : wake_pid k p ≡ proc_wake k p =
        ap (λ o. elim o as (λ _. Kernel R) [ none ↦ k | some q ↦ proc_wake k q ])
          (proc_get-some k p l e) in
      ap (λ x. state_of x p) woken ∙ proc_wake-ready k p e

  -- What the close of an end leaves. `q` has the counts of ends that are left, `left` those
  -- of the kind that was closed, and `waiter` is the process that waits for such an end.
  pub record Closes (k : Kernel R) (p q : Pipe) (end pipe vnode : ℕ) (r : Kernel R × Pipe × List ℕ)
      (self left waiter : ℕ) : Type 0 where
    pub counts : (r.1.readers ≡ q.readers) × (r.1.writers ≡ q.writers)
    pub runs : Runs r.0 self
    pub same_contents : contents r.1 ≡ contents p
    pub frees :
        ((r.1.readers ≡ 0) × (r.1.writers ≡ 0) × (r.2 ≡ end ∷ pipe ∷ vnode ∷ []))
        ⊎ (((r.1.readers ≢ 0) ⊎ (r.1.writers ≢ 0)) × (r.2 ≡ end ∷ vnode ∷ []))
    pub wakes :
        left ≡ 0 → waiter < max_procs → state_of k waiter ≡ blocked → state_of r.0 waiter ≡ ready

  pipe_wake_peer-ready :
      (k : Kernel R) (p : Pipe) (b : Bool)
      → let peer = if b then p.blocked_reader else p.blocked_writer in
        peer < max_procs
        → state_of k peer ≡ blocked
        → state_of (pipe_wake_peer k p b).0 peer ≡ ready
  unfolding pipe_wake_peer
  pipe_wake_peer-ready k p b l e =
      let peer = if b then p.blocked_reader else p.blocked_writer in
      let waits : (peer == no_waiter) ≡ false = ground arith in rw waits (wake_pid-ready k peer l e)

  -- Either nothing but the count has changed, or the peer was woken as well.
  closes :
      (k : Kernel R) (p q : Pipe) (b : Bool) (end pipe vnode self left : ℕ)
      → Runs k self
      → contents q ≡ contents p
      → let waiter = if b then q.blocked_reader else q.blocked_writer in
        let (k', q') = if left == 0 then pipe_wake_peer k q b else (k, q) in
        Closes k p q end pipe vnode
          (
            k',
            q',
            if q'.readers == 0 && q'.writers == 0
                then end ∷ pipe ∷ vnode ∷ []
                else end ∷ vnode ∷ [],
          )
          self
          left
          waiter
  closes k p q b end pipe vnode self left v c = by_left (left == 0) refl
    where
      frees :
          (q' : Pipe)
          → let r =
              if q'.readers == 0 && q'.writers == 0
              then end ∷ pipe ∷ vnode ∷ []
              else end ∷ vnode ∷ [] in
            ((q'.readers ≡ 0) × (q'.writers ≡ 0) × (r ≡ end ∷ pipe ∷ vnode ∷ []))
            ⊎ (((q'.readers ≢ 0) ⊎ (q'.writers ≢ 0)) × (r ≡ end ∷ vnode ∷ []))
      frees q' = elim (Bool-cases (q'.readers == 0)) [
        | inr e ↦ inr (inl (eqb→ne _ _ e), rw e refl)
        | inl e ↦ elim (Bool-cases (q'.writers == 0)) [
          | inr f ↦ inr (inr (eqb→ne _ _ f), rw e (rw f refl))
          | inl f ↦ inl (eqb→eq _ _ e, eqb→eq _ _ f, rw e (rw f refl))
        ]
      ]

      by_left :
          (z : Bool)
          → (left == 0) ≡ z
          → let waiter = if b then q.blocked_reader else q.blocked_writer in
            let (k', q') = if z then pipe_wake_peer k q b else (k, q) in
            Closes k p q end pipe vnode
              (
                k',
                q',
                if q'.readers == 0 && q'.writers == 0
                    then end ∷ pipe ∷ vnode ∷ []
                    else end ∷ vnode ∷ [],
              )
              self
              left
              waiter
      by_left false e = record {
        runs = v;
        counts = (refl, refl);
        same_contents = c;
        frees = frees q;
        wakes = λ z. absurd (eqb→ne left 0 e z);
      }
      by_left true e = record {
        runs = pipe_wake_peer-Runs k q b self v;
        counts = ((pipe_wake_peer-SamePipe k q b).readers, (pipe_wake_peer-SamePipe k q b).writers);
        same_contents = SamePipe-contents (pipe_wake_peer-SamePipe k q b) ∙ c;
        frees = frees (pipe_wake_peer k q b).1;
        wakes = λ z l f. pipe_wake_peer-ready k q b l f;
      }

  -- Closing a read end takes one off the count of readers, and keeps the bytes and the invariants. The
  -- last one makes the BLOCKED process that waits to write READY; and the pipe is freed exactly when no
  -- end of either kind is left.
  pub pipe_close_read_lem :
      (k : Kernel R) (p : Pipe) (end pipe vnode self : ℕ)
      → Runs k self
      → Closes k p
          (record p { readers = p.readers - 1 })
          end
          pipe
          vnode
          (pipe_close_read k p end pipe vnode)
          self
          (p.readers - 1)
          p.blocked_writer
  unfolding pipe_close_read contents at
  pipe_close_read_lem k p end pipe vnode self v =
      let left : (if ltb 0 p.readers then p.readers - 1 else p.readers) ≡ p.readers - 1 =
        ground arith in
      rw left (
        closes k p (record p { readers = p.readers - 1 }) false end pipe vnode self (p.readers - 1)
          v refl)

  -- Closing a write end takes one off the count of writers, and keeps the bytes and the invariants. The
  -- last one makes the BLOCKED process that waits to read READY; and the pipe is freed exactly when no
  -- end of either kind is left.
  pub pipe_close_write_lem :
      (k : Kernel R) (p : Pipe) (end pipe vnode self : ℕ)
      → Runs k self
      → Closes k p
          (record p { writers = p.writers - 1 })
          end
          pipe
          vnode
          (pipe_close_write k p end pipe vnode)
          self
          (p.writers - 1)
          p.blocked_reader
  unfolding pipe_close_write contents at
  pipe_close_write_lem k p end pipe vnode self v =
      let left : (if ltb 0 p.writers then p.writers - 1 else p.writers) ≡ p.writers - 1 =
        ground arith in
      rw left (
        closes k p (record p { writers = p.writers - 1 }) true end pipe vnode self (p.writers - 1) v
          refl)
