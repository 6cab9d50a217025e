-- ===== src/Kernel.antt =====
-- include/proc.h and the static variables of kernel/proc/proc.c, kernel/proc/sched.c and
-- kernel/drivers/timer.c: the state on which the process functions and the scheduler work.
-- A `pcb_t *` is the index of its slot in `proc_table`, which is also its `pid` field: `proc_init`
-- and `proc_create` set it so, and nothing else writes it. `name` and `context`, which are only
-- printed, are left out. What the other components hold for the processes (kernel stacks, file
-- descriptors) is the value `resources`, of a type that the client chooses.
use orion_final.Base.{ℕ, Bool, true, false, List, Option}
use orion_final.Base.Update.{update}
use orion_final.Bitmap.{Bitmap}

-- `proc_state_t`
pub data ProcState : Type 0 where
  unused embryo ready running blocked zombie : ProcState

abbrev pub is_unused : ProcState → Bool
is_unused unused = true
is_unused _ = false

abbrev pub is_embryo : ProcState → Bool
is_embryo embryo = true
is_embryo _ = false

abbrev pub is_ready : ProcState → Bool
is_ready ready = true
is_ready _ = false

abbrev pub is_running : ProcState → Bool
is_running running = true
is_running _ = false

abbrev pub is_blocked : ProcState → Bool
is_blocked blocked = true
is_blocked _ = false

abbrev pub is_zombie : ProcState → Bool
is_zombie zombie = true
is_zombie _ = false

-- `pcb_t`
pub record Pcb : Type 0 where
  pub ppid : ℕ
  pub state : ProcState
  pub exit_code : ℕ
  pub esp_kernel : ℕ
  pub esp0 : ℕ
  pub kstack_base : ℕ
  pub kstack_top : ℕ
  pub page_directory : ℕ
  pub priority : ℕ
  pub base_priority : ℕ
  pub timeslice_len : ℕ
  pub timeslice : ℕ
  pub ticks_total : ℕ
  pub ticks_scheduled : ℕ
  pub tick_last_run : ℕ
  pub tick_created : ℕ
  pub wakeup_tick : ℕ
  pub wait_for_pid : ℕ
  pub waiting : Bool

abbrev pub max_procs : ℕ
max_procs = 256

abbrev pub pid_kernel : ℕ
pid_kernel = 0

abbrev pub pid_init : ℕ
pid_init = 1

abbrev pub pid_invalid : ℕ
pid_invalid = 0xffff

abbrev pub prio_normal : ℕ
prio_normal = 16

abbrev pub prio_idle : ℕ
prio_idle = 31

-- The list is `ready_queue[0 .. queue_size)`. `memory` holds the 32-bit words of the kernel stacks,
-- and `tss_esp0` the stack that the processor loads when it enters the kernel.
pub record Kernel (R : Type 0) : Type 0 where
  pub procs : ℕ → Pcb
  pub pid_bitmap : Bitmap
  pub pid_search_hint : ℕ
  pub ready_queue : List ℕ
  pub current_idx : ℕ
  pub current_proc : Option ℕ
  pub sched_enabled : Bool
  pub tick_flag : Bool
  pub tick_count : ℕ
  pub tss_esp0 : ℕ
  pub memory : ℕ → ℕ
  pub resources : R

module _ {R : Type 0} where
  abbrev pub state_of : Kernel R → ℕ → ProcState
  state_of k p = (k.procs p).state

  -- a write through a `pcb_t *`
  abbrev pub modify : Kernel R → ℕ → (Pcb → Pcb) → Kernel R
  modify k p f = record k { procs = update k.procs p (f (k.procs p)) }
