-- ===== src/Syscall.antt =====
-- kernel/syscall/syscall.c: the dispatcher and its handlers, on the `Kernel` that the process functions
-- share. A handler returns with its result and the saved registers, or leaves the process waiting in
-- the call (a pipe, or `proc_wait` without a child to reap), or panics. What the handlers call in vmm.c,
-- fd.c, vfs.c, pipe.c and elf.c is the parameter `Services`: what allocates may panic, which is `none`, and
-- what closes a file also gives the pids for which `pipe_wake_peer` is called. `sys_dup2` is `dup2` of Files; here it is called. A string in
-- user memory is its address.
pub mod Keeps
pub mod Inv
pub mod Guards
pub mod Memory
mod Examples
use orion_final.Base.{
  ℕ, zero, suc, ◌+◌, ◌-◌, ◌^◌, ◌%◌, Bool, true, false, not, ◌&&◌, ◌||◌, ◌==◌, ltb, leb,
  if◌then◌else◌, Option, none, some, List, [], ◌∷◌, get_elem?,
}
use orion_final.Base.Words.{u16, minus_one}
use orion_final.Files.{fd_max}
use orion_final.Kernel.{Kernel, Pcb, pid_invalid, modify}
use orion_final.Proc.{
  Resources, proc_exit, proc_sleep, proc_fork, proc_get, proc_exec, proc_wait_round, WaitRound,
  wake_pids, reaped, blocks, no_process, panics,
}

-- the fields of `regs_t` that system calls use
pub record Regs : Type 0 where
  pub eax : ℕ
  pub ebx : ℕ
  pub ecx : ℕ
  pub edx : ℕ
  pub esi : ℕ
  pub edi : ℕ
  pub ebp : ℕ
  pub eip : ℕ
  pub eflags : ℕ

-- What a handler does.
pub data Call (R : Type 0) : Type 0 where
  returns : ℕ → Regs → Kernel R → Call R
  waits : Kernel R → Call R
  fails : Call R

-- What the handlers call elsewhere: a process is its pid.
pub record Services (R : Type 0) : Type 0 where
  pub proc : Resources R
  -- `vmm_range_mapped` of a page directory, without the user flag
  pub range_mapped : R → ℕ → ℕ → ℕ → Bool
  pub fd_write : Kernel R → Regs → ℕ → ℕ → ℕ → ℕ → Call R
  pub fd_read : Kernel R → Regs → ℕ → ℕ → ℕ → ℕ → Call R
  -- 0 is the null pointer.
  pub vfs_open : R → ℕ → ℕ → Option (ℕ × R)
  pub vfs_close : R → ℕ → R × List ℕ
  pub fd_install : R → ℕ → ℕ → Option ℕ × R
  -- whether the slot of the descriptor is taken
  pub fd_is_open : R → ℕ → ℕ → Bool
  pub fd_close : R → ℕ → ℕ → R × List ℕ
  pub pipe_create : R → ℕ → ℕ → Option (ℕ × R)
  pub dup2 : R → ℕ → ℕ → ℕ → Option ℕ × R × List ℕ
  -- the entry point, or 0
  pub elf_load : R → ℕ → Option (ℕ × R)
  -- a word written to user memory
  pub store : R → ℕ → ℕ → R

-- the registers with which the new image starts
pub entry_regs : Regs → ℕ → Regs
entry_regs r entry = record r {
  eip = entry;
  eax = 0;
  ebx = 0;
  ecx = 0;
  edx = 0;
  esi = 0;
  edi = 0;
  ebp = 0;
  eflags = 0x202;
}

abbrev pub fresh_accounting : Pcb → Pcb
fresh_accounting b = record b { timeslice = b.timeslice_len; ticks_total = 0; ticks_scheduled = 0 }

module _ {R : Type 0} where
  -- The result goes to the saved `eax`.
  pub finish : Call R → Call R
  finish (returns n r k) = returns n (record r { eax = n }) k
  finish (waits k) = waits k
  finish fails = fails

module _ {R : Type 0} (env : Services R) where
  pub syscall_validate_ptr : Kernel R → ℕ → ℕ → Bool
  syscall_validate_ptr k ptr len = if ptr == 0 || len == 0 then false else elim k.current_proc [
    | none ↦ false
    | some p ↦
        let pd = (k.procs p).page_directory in
        if pd == 0 then true else env.range_mapped k.resources pd ptr len
  ]

  -- a reply that changes what the other components hold and wakes the peers of pipes
  abbrev pub answer : Kernel R → Regs → ℕ × R × List ℕ → Call R
  answer k r (n, s, woken) = returns n r (wake_pids (record k { resources = s }) woken)

  abbrev pub Handler : Type 0
  Handler = Regs → Kernel R → Call R

  pub sys_yield : Handler
  sys_yield r k = returns 0 r k

  pub sys_exit : Handler
  sys_exit r k = returns 0 r (proc_exit k r.ebx)

  pub sys_getpid : Handler
  sys_getpid r k = elim k.current_proc [ none ↦ returns minus_one r k | some p ↦ returns p r k ]

  pub sys_sleep : Handler
  sys_sleep r k = returns 0 r (proc_sleep k r.ebx)

  pub sys_fork : Handler
  sys_fork r k = if r.ebx == 0 then returns minus_one r k else elim (proc_fork env.proc k r.ebx) [
    | none ↦ fails
    | some (child, k') ↦ returns (if child == pid_invalid then minus_one else child) r k'
  ]

  pub sys_exec : Handler
  sys_exec r k = elim (proc_get k (u16 r.ebx)) [
    | none ↦ returns minus_one r k
    | some p ↦
        if r.ecx == 0
        then returns minus_one r k
        else (let (done, k') = proc_exec k p r.ecx in returns (if done then 0 else minus_one) r k')
  ]

  pub sys_write : Handler
  sys_write r k =
      if not (syscall_validate_ptr k r.ecx r.edx)
      then returns minus_one r k
      else elim k.current_proc [
        | none ↦ returns minus_one r k
        | some p ↦ env.fd_write k r p r.ebx r.ecx r.edx
      ]

  pub sys_read : Handler
  sys_read r k =
      if not (syscall_validate_ptr k r.ecx r.edx)
      then returns minus_one r k
      else elim k.current_proc [
        | none ↦ returns minus_one r k
        | some p ↦ env.fd_read k r p r.ebx r.ecx r.edx
      ]

  -- the installation of the file `f`, which is closed where there is no slot
  pub install : R → ℕ → ℕ → ℕ × R × List ℕ
  install s p f =
      if f == 0
      then (minus_one, s, [])
      else (let (fd, s') = env.fd_install s p f in
          elim fd [
            | none ↦ (let (t, woken) = env.vfs_close s' f in (minus_one, t, woken))
            | some n ↦ (n, s', [])
          ])

  pub sys_open : Handler
  unfolding install wake_pids
  sys_open r k =
      if not (syscall_validate_ptr k r.ebx 1) then returns minus_one r k else elim k.current_proc [
        | none ↦ returns minus_one r k
        | some p ↦ elim (env.vfs_open k.resources r.ebx r.ecx) [
          | none ↦ fails
          | some (f, s) ↦ answer k r (install s p f)
        ]
      ]

  pub sys_close : Handler
  unfolding wake_pids
  sys_close r k = elim k.current_proc [
    | none ↦ returns minus_one r k
    | some p ↦
        if leb fd_max r.ebx || not (env.fd_is_open k.resources p r.ebx)
        then returns minus_one r k
        else (let (s, woken) = env.fd_close k.resources p r.ebx in answer k r (0, s, woken))
  ]

  pub sys_pipe : Handler
  unfolding wake_pids
  sys_pipe r k =
      if not (syscall_validate_ptr k r.ebx 8) then returns minus_one r k else elim k.current_proc [
        | none ↦ returns minus_one r k
        | some p ↦ elim (env.pipe_create k.resources p r.ebx) [
          | none ↦ fails
          | some (n, s) ↦ answer k r (n, s, [])
        ]
      ]

  pub sys_dup2 : Handler
  unfolding wake_pids
  sys_dup2 r k = elim k.current_proc [
    | none ↦ returns minus_one r k
    | some p ↦
        let (fd, s, woken) = env.dup2 k.resources p r.ebx r.ecx in
        answer k r (elim fd [ none ↦ minus_one | some n ↦ n ], s, woken)
  ]

  pub sys_execve : Handler
  unfolding entry_regs
  sys_execve r k =
      if not (syscall_validate_ptr k r.ebx 1)
      then returns minus_one r k
      else elim (env.elf_load k.resources r.ebx) [
        | none ↦ fails
        | some (entry, s) ↦
            let k' : Kernel R = record k { resources = s } in
            if entry == 0 then returns minus_one r k' else elim k.current_proc [
              | none ↦ returns minus_one r k'
              | some p ↦ returns 0 (entry_regs r entry) (modify k' p fresh_accounting)
            ]
      ]

  -- A round of the wait: a waiting process goes on with the next one when it runs again.
  pub waited : Regs → Kernel R → WaitRound R → Call R
  waited r k (reaped child code k') =
      returns child r
        (if r.ecx == 0 then k' else record k' { resources = env.store k'.resources r.ecx code })
  waited r k (blocks k') = waits k'
  waited r k no_process = returns minus_one r k
  waited r k panics = fails

  pub sys_wait : Handler
  unfolding waited
  sys_wait r k =
      if not (r.ecx == 0) && not (syscall_validate_ptr k r.ecx 4)
      then returns minus_one r k
      else waited r k (proc_wait_round env.proc k (u16 r.ebx))

  pub syscall_table : List Handler
  syscall_table =
      sys_yield ∷ sys_exit ∷ sys_getpid ∷ sys_sleep ∷ sys_fork ∷ sys_exec ∷ sys_write ∷ sys_read
      ∷ sys_open ∷ sys_close ∷ sys_pipe ∷ sys_dup2 ∷ sys_execve ∷ sys_wait ∷ []

  pub syscall_dispatch : Handler
  unfolding syscall_table finish
  syscall_dispatch r k = elim (get_elem? syscall_table r.eax) [
    | none ↦ returns minus_one (record r { eax = minus_one }) k
    | some handler ↦ finish (handler r k)
  ]
