-- ===== src/Pipe/Peer.antt =====
-- The processes at the two ends of a pipe of kernel/fs/pipe.c: waiting, and waking the peer.
use orion_final.Base.{
  ℕ, ◌≡◌, refl, ap, ◌∙◌, arith, Bool, false, Bool-cases, ◌==◌, none, some, inl, inr, if◌then◌else◌,
  Option-cases,
}
use orion_final.Kernel.{Kernel, ProcState, is_unused, blocked, state_of, modify}
use orion_final.Sched.{sched_add, proc_wake, sched_remove, sched_force_switch}
use orion_final.Sched.Inv.{proc_wake-Inv}
use orion_final.Proc.{proc_get, wake_pid}
use orion_final.Proc.Inv.{Inv, in_use, KeepsUse-Inv, proc_wake-KeepsUse}
use orion_final.Proc.Wait.{state_of-leave}
use orion_final.Proc.Life.{leave-Inv}
use orion_final.Pipe.{Pipe, Call, pipe_wake_peer, pipe_block, no_waiter}

-- What waking the peer leaves as it is.
pub record SamePipe (p q : Pipe) : Type 0 where
  pub buf : q.buf ≡ p.buf
  pub head : q.head ≡ p.head
  pub count : q.count ≡ p.count
  pub readers : q.readers ≡ p.readers
  pub writers : q.writers ≡ p.writers

used_of : (s : ProcState) → in_use s ≡ 1 → is_unused s ≡ false
used_of s e = ground arith

module _ {R : Type 0} where
  -- The state in which the code of process `self` runs.
  pub record Runs (k : Kernel R) (self : ℕ) : Type 0 where
    pub sound : Inv k
    pub current : k.current_proc ≡ some self
    pub used : in_use (state_of k self) ≡ 1

  proc_wake-current : (k : Kernel R) (p : ℕ) → (proc_wake k p).current_proc ≡ k.current_proc
  unfolding proc_wake sched_add
  proc_wake-current k p = ground arith

  proc_wake-Runs : (k : Kernel R) (self p : ℕ) → Runs k self → Runs (proc_wake k p) self
  proc_wake-Runs k self p v =
      let u = proc_wake-KeepsUse k p in
      record {
        sound = KeepsUse-Inv v.sound u (proc_wake-Inv k p v.sound.sched);
        current = proc_wake-current k p ∙ v.current;
        used = u.use_of self ∙ v.used;
      }

  wake_pid-Runs : (k : Kernel R) (self p : ℕ) → Runs k self → Runs (wake_pid k p) self
  unfolding wake_pid
  wake_pid-Runs k self p v = elim (Option-cases (proc_get k p)) [
    | inl e ↦ rw (e, wake_pid) v
    | inr (q, e) ↦ rw (e, wake_pid) (proc_wake-Runs k self q v)
  ]

  pub pipe_wake_peer-SamePipe :
      (k : Kernel R) (p : Pipe) (b : Bool) → SamePipe p (pipe_wake_peer k p b).1
  unfolding pipe_wake_peer
  pipe_wake_peer-SamePipe k p b = record {
    buf = ground arith;
    head = ground arith;
    count = ground arith;
    readers = ground arith;
    writers = ground arith;
  }

  pub pipe_wake_peer-Runs :
      (k : Kernel R) (p : Pipe) (b : Bool) (self : ℕ)
      → Runs k self
      → Runs (pipe_wake_peer k p b).0 self
  unfolding pipe_wake_peer
  pipe_wake_peer-Runs k p b self v =
      let peer = if b then p.blocked_reader else p.blocked_writer in
      elim (Bool-cases (peer == no_waiter)) [
        | inl e ↦ rw e v
        | inr e ↦ rw e (wake_pid-Runs k self peer v)
      ]

  -- What holds of a call that waits: its process is blocked, out of the ready queue.
  pub record Waits (s t : Call R) (self : ℕ) : Type 0 where
    pub sound : Inv t.kernel
    pub is_blocked : state_of t.kernel self ≡ blocked
    pub same_pipe : SamePipe s.pipe t.pipe
    pub same_user : t.user ≡ s.user
    pub same_done : t.done ≡ s.done

  blocks_self : Call R → Bool → ℕ → Call R
  blocks_self s is_write self = record s {
    pipe =
        if is_write
        then record s.pipe { blocked_writer = self }
        else record s.pipe { blocked_reader = self };
    kernel =
        sched_force_switch
          (sched_remove (modify s.kernel self (λ b. record b { state = blocked })) self);
  }

  pipe_block-eq :
      (s : Call R) (b : Bool) (self : ℕ)
      → s.kernel.current_proc ≡ some self
      → pipe_block s b ≡ blocks_self s b self
  unfolding pipe_block blocks_self
  pipe_block-eq s b self e =
      ap (λ o. elim o as (λ _. Call R) [ none ↦ s | some p ↦ blocks_self s b p ]) e

  pub pipe_block-Waits :
      (s : Call R) (b : Bool) (self : ℕ) → Runs s.kernel self → Waits s (pipe_block s b) self
  unfolding blocks_self
  pipe_block-Waits s b self v = rw (pipe_block-eq s b self v.current) (record {
    sound =
        leave-Inv s.kernel self (λ b. record b { state = blocked }) v.sound
          (used_of (state_of s.kernel self) v.used) refl refl;
    is_blocked =
        state_of-leave s.kernel self self (λ b. record b { state = blocked }) ∙ ground arith;
    same_pipe = record {
      buf = ground arith;
      head = ground arith;
      count = ground arith;
      readers = ground arith;
      writers = ground arith;
    };
    same_user = refl;
    same_done = refl;
  })
