-- ===== src/Proc.antt =====
-- kernel/proc/proc.c, kernel/proc/fork.c and kernel/proc/exec.c: the process table, the pids and the
-- life of a process. `none` is a `panic`. `sched_yield` at the end of a function is
-- `sched_force_switch`: the `int 0x80` that follows it leads to `sched_switch_esp` (see Sched).
pub mod Pid
pub mod Inv
pub mod Wake
pub mod Life
pub mod Create
pub mod Fork
pub mod Exec
pub mod Wait
pub mod Frame
pub mod Examples
use mathlib.Core.Option
use orion_final.Base.{
  ℕ, zero, suc, ◌+◌, ◌-◌, ◌/◌, ◌%◌, ◌^◌, Bool, true, false, not, ◌&&◌, ◌||◌, ◌==◌, ltb, leb,
  if◌then◌else◌, List, [], ◌∷◌, Option, none, some,
}
use orion_final.Base.Update.{update}
use orion_final.Base.Words.{u32, sub32}
use orion_final.Bitmap.{Bitmap, bitmap_set, bitmap_clear, bitmap_test}
use orion_final.Kernel.{
  Kernel, Pcb, unused, embryo, ready, running, blocked, zombie, is_unused, is_embryo, is_running,
  is_zombie, max_procs, pid_kernel, pid_init, pid_invalid, prio_normal, prio_idle, state_of, modify,
}
use orion_final.Sched.{sched_add, sched_remove, proc_wake, sched_force_switch}

-- What the process functions use of the kernel heap and of the file descriptors: a kernel stack,
-- and the descriptor table of a process, by its pid. The result `none` is a panic. Closing the end of a
-- pipe wakes the process at its other end: `fd_table_close_all` also gives the pids for which
-- `pipe_wake_peer` is called, in order.
pub record Resources (R : Type 0) : Type 0 where
  -- `none` in the pair is the null pointer.
  pub kmalloc_aligned : R → Option (Option ℕ × R)
  pub kfree_aligned : R → ℕ → R
  pub fd_table_init : R → ℕ → Option R
  pub fd_table_close_all : R → ℕ → R × List ℕ
  pub fd_table_clone : R → ℕ → ℕ → R

abbrev pub kstack_size : ℕ
kstack_size = 4096

abbrev pub timeslice_default : ℕ
timeslice_default = 10

-- The writes of `proc_sleep`, `proc_exit`, `proc_wait` and `proc_exec` to a slot.
abbrev pub asleep : ℕ → Pcb → Pcb
asleep wakeup_tick b = record b { wakeup_tick = wakeup_tick; state = blocked }

abbrev pub dead : ℕ → Pcb → Pcb
dead exit_code b = record b { exit_code = exit_code; state = zombie }

abbrev pub awaiting : ℕ → Pcb → Pcb
awaiting pid b = record b { wait_for_pid = pid; waiting = true; wakeup_tick = 0; state = blocked }

abbrev pub restarted : Pcb → Pcb
restarted b = record b {
  ticks_total = 0;
  ticks_scheduled = 0;
  timeslice = b.timeslice_len;
  wakeup_tick = 0;
  waiting = false;
  state = ready;
}

-- a pass of `pid_alloc`: the first free pid from `pid` on, over `left` pids
pub scan_pids : Bitmap → ℕ → ℕ → Option ℕ
scan_pids bitmap pid zero = none
scan_pids bitmap pid (suc left) =
    let rest = scan_pids bitmap (pid + 1) left in
    if bitmap_test bitmap pid == 0 then some pid else rest

-- the time slice that `proc_create` gives for a priority
pub timeslice_for : ℕ → ℕ
timeslice_for priority =
    let tslice : ℕ =
      if ltb priority prio_normal
      then timeslice_default + (prio_normal - priority) / 2
      else if ltb prio_normal priority
      then timeslice_default - (priority - prio_normal) / 5
      else timeslice_default in
    if ltb tslice 2 then 2 else tslice

-- a slot that `memset` has cleared
abbrev pub cleared_pcb : Pcb
cleared_pcb = record {
  ppid = 0;
  state = unused;
  exit_code = 0;
  esp_kernel = 0;
  esp0 = 0;
  kstack_base = 0;
  kstack_top = 0;
  page_directory = 0;
  priority = 0;
  base_priority = 0;
  timeslice_len = 0;
  timeslice = 0;
  ticks_total = 0;
  ticks_scheduled = 0;
  tick_last_run = 0;
  tick_created = 0;
  wakeup_tick = 0;
  wait_for_pid = 0;
  waiting = false;
}

-- the slot of a new process
pub new_pcb : ℕ → ℕ → ℕ → Pcb
unfolding timeslice_for
new_pcb now kstack asked =
    let priority = if ltb prio_idle asked then prio_idle else asked in
    record {
      ppid = pid_kernel;
      state = embryo;
      exit_code = 0;
      esp_kernel = 0;
      esp0 = u32 (kstack + kstack_size);
      kstack_base = kstack;
      kstack_top = u32 (kstack + kstack_size);
      page_directory = 0;
      priority = priority;
      base_priority = priority;
      timeslice_len = timeslice_for priority;
      timeslice = timeslice_for priority;
      ticks_total = 0;
      ticks_scheduled = 0;
      tick_last_run = 0;
      tick_created = now;
      wakeup_tick = 0;
      wait_for_pid = pid_invalid;
      waiting = false;
    }

-- the words that `proc_init_frame` pushes, the last one pushed first
pub frame_words : ℕ → List ℕ
frame_words entry_point =
    0x10 ∷ 0x10 ∷ 0x10 ∷ 0x10 ∷ 0 ∷ 0 ∷ 0 ∷ 0 ∷ 0 ∷ 0 ∷ 0 ∷ 0 ∷ 0 ∷ 0 ∷ entry_point ∷ 0x08 ∷ 0x202
    ∷ []

-- words stored one after the other, from an address on
pub store_words : (ℕ → ℕ) → ℕ → List ℕ → ℕ → ℕ
store_words memory at [] = memory
store_words memory at (w ∷ ws) = store_words (update memory at w) (u32 (at + 4)) ws

module _ {R : Type 0} where
  pub proc_init : Kernel R → Kernel R
  proc_init k = record k {
    procs = λ i. if ltb i max_procs then record (k.procs i) { state = unused } else k.procs i;
    pid_bitmap = bitmap_set (λ w. 0) pid_kernel;
    pid_search_hint = pid_init;
  }

  pub take_pid : Kernel R → ℕ → ℕ × Kernel R
  take_pid k pid = (
    pid,
    record k {
      pid_bitmap = bitmap_set k.pid_bitmap pid;
      pid_search_hint = if ltb (pid + 1) max_procs then pid + 1 else pid_init;
    },
  )

  pub pid_alloc : Kernel R → ℕ × Kernel R
  unfolding scan_pids take_pid
  pid_alloc k = elim (scan_pids k.pid_bitmap k.pid_search_hint (max_procs - k.pid_search_hint)) [
    | some pid ↦ take_pid k pid
    | none ↦ elim (scan_pids k.pid_bitmap pid_init (k.pid_search_hint - pid_init)) [
      | some pid ↦ take_pid k pid
      | none ↦ (pid_invalid, k)
    ]
  ]

  pub pid_free : Kernel R → ℕ → Kernel R
  pid_free k pid =
      if pid == pid_kernel || pid == pid_invalid
      then k
      else if bitmap_test k.pid_bitmap pid == 0
      then k
      else record k {
        pid_bitmap = bitmap_clear k.pid_bitmap pid;
        pid_search_hint = if ltb pid k.pid_search_hint then pid else k.pid_search_hint;
      }

  unfoldable pub proc_get : Kernel R → ℕ → Option ℕ
  proc_get k pid =
      if leb max_procs pid then none else if is_unused (state_of k pid) then none else some pid

  -- the end of `pipe_wake_peer` of kernel/fs/pipe.c
  unfoldable pub wake_pid : Kernel R → ℕ → Kernel R
  wake_pid k pid = elim (proc_get k pid) [ none ↦ k | some peer ↦ proc_wake k peer ]

  unfoldable pub wake_pids : Kernel R → List ℕ → Kernel R
  wake_pids k [] = k
  wake_pids k (pid ∷ pids) = wake_pids (wake_pid k pid) pids

  pub proc_set_priority : Kernel R → ℕ → ℕ → Kernel R
  proc_set_priority k p asked =
      let priority = if ltb prio_idle asked then prio_idle else asked in
      modify k p (λ b. record b { priority = priority; base_priority = priority })

  pub proc_set_timeslice : Kernel R → ℕ → ℕ → Kernel R
  proc_set_timeslice k p ticks =
      if ltb ticks 2
      then k
      else modify k p (λ b. record b { timeslice_len = ticks; timeslice = ticks })

  pub proc_set_ready : Kernel R → ℕ → Option (Kernel R)
  proc_set_ready k p =
      if not (is_embryo (state_of k p))
      then none
      else some (modify k p (λ b. record b { state = ready }))

  pub proc_init_frame : Kernel R → ℕ → ℕ → Kernel R
  unfolding frame_words store_words
  proc_init_frame k p entry_point =
      let top : ℕ = (k.procs p).kstack_top in
      let sp : ℕ = sub32 top 68 in
      if top == 0 then k else record (modify k p (λ b. record b { esp_kernel = sp })) {
        memory = store_words k.memory sp (frame_words entry_point);
      }

  -- the priority that a child inherits
  pub inherited : Kernel R → Option ℕ → ℕ
  inherited k none = prio_normal
  inherited k (some parent) = (k.procs parent).priority

  -- The end of `proc_fork`, and the start of the idle process in kernel/kernel.c: a frame for the
  -- first run, READY, and into the queue.
  pub launch : Kernel R → ℕ → ℕ → Option (Kernel R)
  launch k child entry =
      Option.map (λ k'. sched_add k' child) (proc_set_ready (proc_init_frame k child entry) child)

  pub proc_sleep : Kernel R → ℕ → Kernel R
  proc_sleep k ticks = elim k.current_proc [
    | none ↦ k
    | some p ↦
        if ticks == 0
        then k
        else sched_force_switch (sched_remove (modify k p (asleep (u32 (k.tick_count + ticks)))) p)
  ]

  -- whether the exit of `p` ends the wait of its parent
  pub parent_waits : Kernel R → ℕ → Bool
  unfolding proc_get
  parent_waits k p =
      let ppid = (k.procs p).ppid in
      not (ppid == pid_kernel)
      && (not (ppid == pid_invalid) && (elim (proc_get k ppid) [
        | none ↦ false
        | some q ↦
            let parent = k.procs q in
            parent.waiting && (parent.wait_for_pid == pid_invalid || parent.wait_for_pid == p)
      ]))

  pub proc_exit : Kernel R → ℕ → Kernel R
  unfolding parent_waits
  proc_exit k exit_code = elim k.current_proc [
    | none ↦ k
    | some p ↦
        let k1 = modify k p (dead exit_code) in
        let woken = if parent_waits k1 p then proc_wake k1 (k1.procs p).ppid else k1 in
        sched_force_switch (sched_remove woken p)
  ]

  module _ (env : Resources R) where
    open env use {kmalloc_aligned, kfree_aligned, fd_table_init, fd_table_close_all, fd_table_clone}

    -- the slot of the new process, with its descriptors
    pub fill_slot : Kernel R → ℕ → ℕ → ℕ → R → Option (Option ℕ × Kernel R)
    unfolding new_pcb
    fill_slot k pid priority kstack res = elim (fd_table_init res pid) [
      | none ↦ none
      | some res' ↦ some (
        some pid,
        record (modify k pid (λ b. new_pcb k.tick_count kstack priority)) { resources = res' },
      )
    ]

    -- `proc_create` after `pid_alloc` returned `pid`; `none` in the pair is the null pointer.
    pub create_in : Kernel R → ℕ → ℕ → Option (Option ℕ × Kernel R)
    unfolding fill_slot
    create_in k pid priority =
        if pid == pid_invalid
        then some (none, k)
        else if not (is_unused (state_of k pid))
        then some (none, pid_free k pid)
        else elim (kmalloc_aligned k.resources) [
          | none ↦ none
          | some (none, res) ↦ some (none, pid_free (record k { resources = res }) pid)
          | some (some kstack, res) ↦ fill_slot k pid priority kstack res
        ]

    pub proc_create : Kernel R → ℕ → Option (Option ℕ × Kernel R)
    unfolding create_in
    proc_create k priority = let (pid, k') = pid_alloc k in create_in k' pid priority

    pub proc_destroy : Kernel R → ℕ → Option (Kernel R)
    unfolding wake_pids
    proc_destroy k p =
        let base : ℕ = (k.procs p).kstack_base in
        let res = if base == 0 then k.resources else kfree_aligned k.resources base in
        let (res', woken) = fd_table_close_all res p in
        let closed = wake_pids (record k { resources = res' }) woken in
        if not (is_zombie (state_of k p))
        then none
        else some (modify (pid_free closed p) p (λ b. cleared_pcb))

    -- The child becomes the parent's and shares its descriptors.
    pub adopt : Kernel R → Option ℕ → ℕ → Kernel R
    unfolding wake_pids
    adopt k none child = k
    adopt k (some parent) child =
        let (res, woken) = fd_table_close_all k.resources child in
        wake_pids
          (record (modify k child (λ b. record b { ppid = parent })) {
            resources = fd_table_clone res parent child;
          })
          woken

    -- `PID_INVALID` is the result of a failure.
    pub proc_fork : Kernel R → ℕ → Option (ℕ × Kernel R)
    proc_fork k child_entry = elim (proc_create k (inherited k k.current_proc)) [
      | none ↦ none
      | some (none, k1) ↦ some (pid_invalid, k1)
      | some (some child, k1) ↦
          Option.map (λ k2. (child, k2)) (launch (adopt k1 k.current_proc child) child child_entry)
    ]

  -- `false` is the result -1.
  pub proc_exec : Kernel R → ℕ → ℕ → Bool × Kernel R
  proc_exec k p new_entry =
      if is_running (state_of k p)
      then (false, k)
      else (true, sched_add (modify (proc_init_frame (sched_remove k p) p new_entry) p restarted) p)

-- The search of `proc_wait` for a child to reap.
module _ {R : Type 0} where
  pub is_reapable : Kernel R → ℕ → ℕ → ℕ → Bool
  is_reapable k self pid i =
      let child = k.procs i in
      not (is_unused child.state)
      && (child.ppid == self && ((pid == pid_invalid || i == pid) && is_zombie child.state))

  pub find_child : Kernel R → ℕ → ℕ → ℕ → ℕ → Option ℕ
  unfolding is_reapable
  find_child k self pid i zero = none
  find_child k self pid i (suc left) =
      let rest = find_child k self pid (i + 1) left in
      if is_reapable k self pid i then some i else rest

-- What a round of the loop of `proc_wait` does: it reaps a child with its exit code, or blocks.
pub data WaitRound (R : Type 0) : Type 0 where
  reaped : ℕ → ℕ → Kernel R → WaitRound R
  blocks : Kernel R → WaitRound R
  no_process : WaitRound R
  panics : WaitRound R

pub proc_wait_round : {R : Type 0} → Resources R → Kernel R → ℕ → WaitRound R
unfolding find_child
proc_wait_round env k pid = elim k.current_proc [
  | none ↦ no_process
  | some self ↦ elim (find_child k self pid 0 max_procs) [
    | some child ↦ elim (proc_destroy env k child) [
      | none ↦ panics
      | some k' ↦ reaped child (k.procs child).exit_code k'
    ]
    | none ↦ blocks (sched_force_switch (sched_remove (modify k self (awaiting pid)) self))
  ]
]

-- What the loop does when the process runs again, before its next round.
pub proc_wait_resume : {R : Type 0} → Kernel R → ℕ → Kernel R
proc_wait_resume k self = modify k self (λ b. record b { waiting = false })
