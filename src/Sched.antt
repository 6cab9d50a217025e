-- ===== src/Sched.antt =====
-- kernel/proc/sched.c, with `proc_wake` of kernel/proc/proc.c, which it calls. System calls and
-- interrupts run with interrupts off (kernel/arch/x86/syscall.asm and irq.asm), so each function is
-- one step. The stubs call `sched_switch_esp` at their end; `sched_yield` is `sched_force_switch`
-- and an `int 0x80` into that stub.
pub mod Queue
pub mod Pick
pub mod Inv
pub mod Switch
pub mod Starvation
use orion_final.Base.{
  ℕ, zero, suc, ◌+◌, ◌-◌, Bool, true, false, not, ◌&&◌, ◌||◌, ◌==◌, ltb, leb, if◌then◌else◌, List,
  [], ◌∷◌, ◌++◌, Option, none, some, length,
}
use orion_final.Base.Words.{u32}
use orion_final.Kernel.{
  Kernel, Pcb, ready, running, is_ready, is_running, is_blocked, max_procs, state_of, modify,
}

-- the last entry of a queue that begins with `x`, and the entries before it
pub last : ℕ → List ℕ → ℕ
last x [] = x
last x (y ∷ ys) = last y ys

pub before_last : ℕ → List ℕ → List ℕ
before_last x [] = []
before_last x (y ∷ ys) = x ∷ before_last y ys

-- `ready_queue[i] = ready_queue[--queue_size]` at the first `i` that holds `p`
pub swap_remove : List ℕ → ℕ → List ℕ
unfolding last before_last
swap_remove [] p = []
swap_remove (x ∷ []) p = if x == p then [] else x ∷ []
swap_remove (x ∷ y ∷ ys) p =
    if x == p then last y ys ∷ before_last y ys else x ∷ swap_remove (y ∷ ys) p

-- The choice of the next process: the READY entry of the lowest priority number below `best`, the
-- first of those, with its index. `skip` says which entry is passed over.
pub scan_ready : (ℕ → Pcb) → (ℕ → Bool) → List ℕ → ℕ → ℕ → Option (ℕ × ℕ) → Option (ℕ × ℕ)
scan_ready procs skip [] i best found = found
scan_ready procs skip (p ∷ queue) i best found =
    let better = not (skip p) && (is_ready (procs p).state && ltb (procs p).priority best) in
    scan_ready procs skip queue (i + 1) (if better then (procs p).priority else best)
      (if better then some (p, i) else found)

module _ {R : Type 0} where
  unfoldable pub sched_init : Kernel R → Kernel R
  sched_init k = record k {
    ready_queue = [];
    current_idx = 0;
    current_proc = none;
    sched_enabled = false;
    tick_flag = false;
  }

  unfoldable pub sched_add : Kernel R → ℕ → Kernel R
  sched_add k p =
      if not (is_ready (state_of k p))
      then k
      else if leb max_procs (length k.ready_queue)
      then k
      else record k { ready_queue = k.ready_queue ++ p ∷ [] }

  unfoldable pub sched_remove : Kernel R → ℕ → Kernel R
  sched_remove k p = record k { ready_queue = swap_remove k.ready_queue p }

  unfoldable pub proc_wake : Kernel R → ℕ → Kernel R
  unfolding sched_add
  proc_wake k p =
      if not (is_blocked (state_of k p))
      then k
      else sched_add (modify k p (λ b. record b { wakeup_tick = 0; state = ready })) p

  -- one round of the loop of `sched_tick`
  pub wake_if_due : Kernel R → ℕ → Kernel R
  wake_if_due k i =
      let b = k.procs i in
      if is_blocked b.state && (not (b.wakeup_tick == 0) && leb b.wakeup_tick k.tick_count)
      then proc_wake k i
      else k

  pub wake_due : Kernel R → ℕ → ℕ → Kernel R
  wake_due k i zero = k
  wake_due k i (suc left) = wake_due (wake_if_due k i) (i + 1) left

  pub sched_tick : Kernel R → Kernel R
  sched_tick k = wake_due (record k { tick_flag = true }) 0 max_procs

  -- `timer_handler` of kernel/drivers/timer.c
  pub timer_handler : Kernel R → Kernel R
  timer_handler k = sched_tick (record k { tick_count = u32 (k.tick_count + 1) })

  -- The hand-over from process `c` to process `n`, which stands at index `i` of the queue.
  pub switch_to : Kernel R → ℕ → ℕ → ℕ → ℕ → ℕ × Kernel R
  switch_to k current_esp c n i =
      let saved = modify k c (λ b. record b {
        esp_kernel = current_esp;
        ticks_total = u32 (b.ticks_total + b.timeslice_len);
        tick_last_run = k.tick_count;
        state = if is_running b.state then ready else b.state;
      }) in
      let chosen = modify saved n (λ b. record b {
        state = running;
        timeslice = b.timeslice_len;
        ticks_scheduled = u32 (b.ticks_scheduled + 1);
      }) in
      (
        (chosen.procs n).esp_kernel,
        record chosen { current_idx = i; current_proc = some n; tss_esp0 = (chosen.procs n).esp0 },
      )

  -- the part of `sched_switch_esp` after the time slice of `c` has run out
  pub switch_from : Kernel R → ℕ → ℕ → ℕ × Kernel R
  unfolding scan_ready switch_to
  switch_from k current_esp c = elim (scan_ready k.procs (λ p. p == c) k.ready_queue 0 255 none) [
    | none ↦ (0, modify k c (λ b. record b { timeslice = b.timeslice_len }))
    | some (n, i) ↦ switch_to k current_esp c n i
  ]

  pub spend_slice : Kernel R → ℕ → Kernel R
  spend_slice k c =
      modify k c
        (λ b. record b { timeslice = if ltb 0 b.timeslice then b.timeslice - 1 else b.timeslice })

  -- 0: the interrupted process goes on.
  unfoldable pub sched_switch_esp : Kernel R → ℕ → ℕ × Kernel R
  unfolding switch_from spend_slice
  sched_switch_esp k current_esp =
      if not k.sched_enabled || not k.tick_flag then (0, k) else elim k.current_proc [
        | none ↦ (0, record k { tick_flag = false })
        | some c ↦
            let spent = spend_slice (record k { tick_flag = false }) c in
            if ltb 0 (spent.procs c).timeslice then (0, spent) else switch_from spent current_esp c
      ]

  -- The esp that `sched_start_first` loads, where there is a process to start.
  unfoldable pub sched_start : Kernel R → Option (ℕ × Kernel R)
  unfolding scan_ready
  sched_start k = elim (scan_ready k.procs (λ p. false) k.ready_queue 0 255 none) [
    | none ↦ none
    | some (n, i) ↦
        let started =
          modify k n
            (λ b. record b { state = running; ticks_scheduled = u32 (b.ticks_scheduled + 1) }) in
        some (
          (started.procs n).esp_kernel,
          record started {
            current_proc = some n;
            current_idx = i;
            sched_enabled = true;
            tss_esp0 = (started.procs n).esp0;
          },
        )
  ]

  unfoldable pub sched_force_switch : Kernel R → Kernel R
  sched_force_switch k = elim k.current_proc [
    | none ↦ record k { tick_flag = true }
    | some c ↦ modify (record k { tick_flag = true }) c (λ b. record b { timeslice = 0 })
  ]
