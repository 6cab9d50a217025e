-- ===== src/Pipe.antt =====
-- kernel/fs/pipe.c without `pipe_create`: the ring of bytes between two processes. A read or a write
-- that has to wait gives up the processor: the call is `suspended` and goes on from there, by
-- `read_resume` or `write_resume`, when its process runs again. `PIPE_BUFSZ - 1` is a mask of 12
-- bits, so `& (PIPE_BUFSZ - 1)` is a remainder.
pub mod Ring
pub mod Flow
pub mod Peer
pub mod Rounds
pub mod Transfer
pub mod Close
mod Examples
use orion_final.Base.{
  ℕ, zero, suc, ◌+◌, ◌-◌, ◌%◌, Bool, true, false, not, ◌&&◌, ◌==◌, ltb, leb, if◌then◌else◌, List,
  [], ◌∷◌, Option, none, some,
}
use orion_final.Base.Update.{update}
use orion_final.Kernel.{Kernel, Pcb, blocked, modify}
use orion_final.Sched.{sched_remove, sched_force_switch, proc_wake}
use orion_final.Proc.{proc_get, wake_pid}

abbrev pub bufsz : ℕ
bufsz = 4096

abbrev pub no_waiter : ℕ
no_waiter = 0xffff

-- `pipe_t`
pub record Pipe : Type 0 where
  pub buf : ℕ → ℕ
  pub head : ℕ
  pub count : ℕ
  pub readers : ℕ
  pub writers : ℕ
  pub blocked_reader : ℕ
  pub blocked_writer : ℕ

-- The state of a read or a write: the processes, the pipe, the caller's buffer, and `read` or
-- `written`, the bytes done so far.
pub record Call (R : Type 0) : Type 0 where
  pub kernel : Kernel R
  pub pipe : Pipe
  pub user : ℕ → ℕ
  pub done : ℕ

-- How the call of a loop ends, for now: it returns `done`, it returns -1, or it waits for its peer.
pub data Outcome (R : Type 0) : Type 0 where
  returned broken suspended : Call R → Outcome R
  out_of_fuel : Outcome R

-- a round of a loop: the end of the call, or another round
pub data Round (R : Type 0) : Type 0 where
  ends : Outcome R → Round R
  goes_on : Call R → Round R

-- `pipe_block` up to `sched_yield`, which is `sched_force_switch` (see Sched)
module _ {R : Type 0} where
  pub pipe_block : Call R → Bool → Call R
  pipe_block s is_write = elim s.kernel.current_proc [
    | none ↦ s
    | some self ↦ record s {
      pipe =
          if is_write
          then record s.pipe { blocked_writer = self }
          else record s.pipe { blocked_reader = self };
      kernel =
          sched_force_switch
            (sched_remove (modify s.kernel self (λ b. record b { state = blocked })) self);
    }
  ]

  pub pipe_wake_peer : Kernel R → Pipe → Bool → Kernel R × Pipe
  pipe_wake_peer k p woke_by_write =
      let peer_pid = if woke_by_write then p.blocked_reader else p.blocked_writer in
      if peer_pid == no_waiter then (k, p) else (
        wake_pid k peer_pid,
        if woke_by_write
            then record p { blocked_reader = no_waiter }
            else record p { blocked_writer = no_waiter },
      )

  -- `for (i = 0; i < batch; i++)` of `pipe_read_op`, by the rounds left
  pub read_bytes : Call R → ℕ → Call R
  read_bytes s zero = s
  read_bytes s (suc left) =
      read_bytes
        (record s {
          user = update s.user s.done (s.pipe.buf s.pipe.head);
          done = s.done + 1;
          pipe = record s.pipe { head = (s.pipe.head + 1) % bufsz };
        })
        left

  -- the peer of a call is woken
  pub wake_peer : Call R → Bool → Call R
  unfolding pipe_wake_peer
  wake_peer s woke_by_write =
      let (k, p) = pipe_wake_peer s.kernel s.pipe woke_by_write in record s { kernel = k; pipe = p }

  -- a round of `pipe_read_op`, from the inner loop on
  pub read_wait : Call R → ℕ → Round R
  unfolding pipe_block read_bytes wake_peer
  read_wait s len =
      let batch = if ltb s.pipe.count (len - s.done) then s.pipe.count else len - s.done in
      let copied = read_bytes s batch in
      if s.pipe.count == 0
      then if s.pipe.writers == 0 then ends (returned s) else ends (suspended (pipe_block s false))
      else goes_on (
          wake_peer
            (record copied { pipe = record copied.pipe { count = copied.pipe.count - batch } })
            false)

  pub read_round : Call R → ℕ → Round R
  read_round s len = if ltb s.done len then read_wait s len else ends (returned s)

  pub read_loop : ℕ → Round R → ℕ → Outcome R
  unfolding read_round
  read_loop fuel (ends o) len = o
  read_loop zero (goes_on s) len = out_of_fuel
  read_loop (suc fuel) (goes_on s) len = read_loop fuel (read_round s len) len

  pub pipe_read_op : Kernel R → Pipe → (ℕ → ℕ) → ℕ → Outcome R
  unfolding read_loop
  pipe_read_op k p dst len =
      read_loop (len + 1) (goes_on (record { kernel = k; pipe = p; user = dst; done = 0 })) len

  -- after `pipe_block`
  pub read_resume : Call R → ℕ → Outcome R
  unfolding read_wait read_loop
  read_resume s len = read_loop (len + 1) (read_wait s len) len

  pub write_bytes : Call R → ℕ → ℕ → Call R
  write_bytes s tail zero = s
  write_bytes s tail (suc left) =
      write_bytes
        (record s {
          pipe = record s.pipe { buf = update s.pipe.buf tail (s.user s.done) };
          done = s.done + 1;
        })
        ((tail + 1) % bufsz) left

  -- a round of `pipe_write_op`, from the inner loop on
  pub write_wait : Call R → ℕ → Round R
  unfolding pipe_block write_bytes wake_peer
  write_wait s len =
      let space = bufsz - s.pipe.count in
      let batch = if ltb space (len - s.done) then space else len - s.done in
      let copied = write_bytes s ((s.pipe.head + s.pipe.count) % bufsz) batch in
      if s.pipe.count == bufsz
      then if s.pipe.readers == 0 then ends (broken s) else ends (suspended (pipe_block s true))
      else goes_on (
          wake_peer
            (record copied { pipe = record copied.pipe { count = copied.pipe.count + batch } })
            true)

  pub write_round : Call R → ℕ → Round R
  write_round s len =
      if ltb s.done len
      then if s.pipe.readers == 0 then ends (broken s) else write_wait s len
      else ends (returned s)

  pub write_loop : ℕ → Round R → ℕ → Outcome R
  unfolding write_round
  write_loop fuel (ends o) len = o
  write_loop zero (goes_on s) len = out_of_fuel
  write_loop (suc fuel) (goes_on s) len = write_loop fuel (write_round s len) len

  pub pipe_write_op : Kernel R → Pipe → (ℕ → ℕ) → ℕ → Outcome R
  unfolding write_loop
  pipe_write_op k p src len =
      write_loop (len + 1) (goes_on (record { kernel = k; pipe = p; user = src; done = 0 })) len

  -- after `pipe_block`
  pub write_resume : Call R → ℕ → Outcome R
  unfolding write_wait write_loop
  write_resume s len = write_loop (len + 1) (write_wait s len) len

  -- The last component lists what is passed to `kfree`, in order: the end, the pipe if no end of it
  -- is left, and the vnode; they are given by their addresses.
  pub pipe_close_read : Kernel R → Pipe → ℕ → ℕ → ℕ → Kernel R × Pipe × List ℕ
  pipe_close_read k p end pipe vnode =
      let less = record p { readers = if ltb 0 p.readers then p.readers - 1 else p.readers } in
      let (k', p') = if less.readers == 0 then pipe_wake_peer k less false else (k, less) in
      (
        k',
        p',
        if p'.readers == 0 && p'.writers == 0 then end ∷ pipe ∷ vnode ∷ [] else end ∷ vnode ∷ [],
      )

  pub pipe_close_write : Kernel R → Pipe → ℕ → ℕ → ℕ → Kernel R × Pipe × List ℕ
  pipe_close_write k p end pipe vnode =
      let less = record p { writers = if ltb 0 p.writers then p.writers - 1 else p.writers } in
      let (k', p') = if less.writers == 0 then pipe_wake_peer k less true else (k, less) in
      (
        k',
        p',
        if p'.readers == 0 && p'.writers == 0 then end ∷ pipe ∷ vnode ∷ [] else end ∷ vnode ∷ [],
      )
