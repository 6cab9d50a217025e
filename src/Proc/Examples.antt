-- ===== src/Proc/Examples.antt =====
-- The functions of proc.c, fork.c and sched.c at concrete states, and their theorems there: a boot
-- with an idle process and three processes of the same priority.
use orion_final.Base.{
  ℕ, ◌+◌, ◌*◌, ◌≤◌, ◌≡◌, refl, ◌≢◌, ◌⊎◌, inl, arith, true, false, ◌==◌, [], ◌∷◌, Option, none, some,
  get_elem?, if◌then◌else◌, ap,
}
use orion_final.Bitmap.{bitmap_test, bitmap_set}
use orion_final.Kernel.{Kernel, embryo, ready, running, is_unused, state_of}
use orion_final.Sched
use orion_final.Sched.{
  sched_init, sched_add, sched_start, sched_switch_esp, timer_handler, switch_from, scan_ready,
  switch_to,
}
use orion_final.Sched.Pick.{is_candidate, IsBest}
use orion_final.Sched.Switch.{HandsOver, switch_from_lem}
use orion_final.Sched.Inv.{sched_start-Inv, sched_switch_esp-Inv, timer_handler-Inv}
use orion_final.Sched.Starvation.{IsPair, slices, slices-IsPair}
use orion_final.Proc.{
  Resources, cleared_pcb, proc_init, proc_create, proc_fork, proc_exit, proc_wait_round,
  proc_init_frame, launch, proc_set_ready, pid_alloc,
}
use orion_final.Proc.Inv.{proc_init-Inv, Inv, KeepsUse-Inv, sched_start-KeepsUse}
use orion_final.Proc.Create.{CreateOutcome, creates, gives_null, panics, proc_create_lem}
use orion_final.Proc.Life.{proc_exit-Inv}
use orion_final.Proc.Fork.{launch-Inv, ForkOutcome, proc_fork_lem}
use orion_final.Proc.Wait.{WaitOutcome, proc_wait_round_lem}

-- Kernel stacks are handed out by a counter; nothing is kept of the descriptors.
abbrev pub stacks : Resources ℕ
stacks = record {
  kmalloc_aligned = λ next. some (some (next * 4096), next + 1);
  kfree_aligned = λ next base. next;
  fd_table_init = λ next p. some next;
  fd_table_close_all = λ next p. (next, []);
  fd_table_clone = λ next p c. next;
}

-- The state before `proc_init`.
abbrev blank : Kernel ℕ
blank = record {
  procs = λ p. cleared_pcb;
  pid_bitmap = λ w. 0;
  pid_search_hint = 1;
  ready_queue = [];
  current_idx = 0;
  current_proc = none;
  sched_enabled = false;
  tick_flag = false;
  tick_count = 5;
  tss_esp0 = 0;
  memory = λ a. 0;
  resources = 256;
}

abbrev fresh : Kernel ℕ
fresh = sched_init (proc_init blank)

fresh-Inv : Inv fresh
fresh-Inv = proc_init-Inv blank (λ p m. refl)

-- pid 1 is launched and runs.
abbrev value_of {ℓ} : {A : Type ℓ} → A → Option A → A
value_of d none = d
value_of d (some a) = a

abbrev with_process : Kernel ℕ
with_process = (value_of (none, fresh) (proc_create stacks fresh 16)).1

abbrev launched : Kernel ℕ
launched = value_of fresh (launch with_process 1 0x2000)

abbrev pub one : Kernel ℕ
one = (value_of (0, launched) (sched_start launched)).1

pub one_state :
    (one.ready_queue ≡ 1 ∷ [])
    × (one.current_proc ≡ some 1)
    × (state_of one 1 ≡ running)
    × ((one.procs 1).kstack_top ≡ 0x101000)
    × ((one.procs 1).timeslice ≡ 10)
unfolding sched_init proc_init proc_create pid_alloc launch proc_set_ready proc_init_frame
    sched_start sched_add bitmap_set bitmap_test
one_state = (refl, refl, refl, refl, refl)

outcome-Inv :
    (o : Option (Option ℕ × Kernel ℕ))
    → CreateOutcome stacks fresh o
    → Inv (value_of (none, fresh) o).1
outcome-Inv o (creates pid k c) = c.keeps
outcome-Inv o (gives_null k v why) = v
outcome-Inv o (panics h) = fresh-Inv

created-Inv : Inv with_process
created-Inv = outcome-Inv (proc_create stacks fresh 16) (proc_create_lem stacks fresh 16 fresh-Inv)

created_state : state_of with_process 1 ≡ embryo
unfolding sched_init proc_init proc_create pid_alloc launch proc_set_ready proc_init_frame
    sched_start sched_add bitmap_set bitmap_test
created_state = refl

launched-Inv : Inv launched
launched-Inv = let l = launch-Inv with_process 1 0x2000 created-Inv created_state in rw l.1 l.2

start_one : sched_start launched ≡ some ((value_of (0, launched) (sched_start launched)).0, one)
unfolding sched_init proc_init proc_create pid_alloc launch proc_set_ready proc_init_frame
    sched_start sched_add bitmap_set bitmap_test
start_one = refl

none_current : launched.current_proc ≡ none
unfolding sched_init proc_init proc_create pid_alloc launch proc_set_ready proc_init_frame
    sched_start sched_add bitmap_set bitmap_test
none_current = refl

pub one-Inv : Inv one
one-Inv =
    let esp = (value_of (0, launched) (sched_start launched)).0 in
    KeepsUse-Inv launched-Inv (sched_start-KeepsUse launched esp one start_one)
      (sched_start-Inv launched esp one launched-Inv.sched none_current start_one)

proc_create_lem_example : CreateOutcome stacks fresh (proc_create stacks fresh 16)
proc_create_lem_example = proc_create_lem stacks fresh 16 fresh-Inv

pub in_use_one : is_unused (state_of one 1) ≡ false
in_use_one = ap is_unused one_state.2

proc_exit-Inv_example : Inv (proc_exit one 7)
proc_exit-Inv_example = proc_exit-Inv one 7 1 one-Inv one_state.1 in_use_one

proc_wait_round_lem_example : WaitOutcome one 1 0xffff (proc_wait_round stacks one 0xffff)
proc_wait_round_lem_example = proc_wait_round_lem stacks one 1 0xffff one-Inv one_state.1 in_use_one

proc_fork_lem_example : ForkOutcome stacks one (proc_fork stacks one 0x3000)
proc_fork_lem_example = proc_fork_lem stacks one 0x3000 one-Inv

sched_switch_esp-Inv_example : Sched.Inv.Inv (sched_switch_esp one 0x100).1
sched_switch_esp-Inv_example = sched_switch_esp-Inv one 0x100 one-Inv.sched

abbrev ticked : Kernel ℕ
ticked = record one { tick_flag = true; sched_enabled = true }

-- Three processes of priority 16: 1 runs, 2 and 3 are READY.
abbrev trio : Kernel ℕ
trio = record blank {
  procs = λ p. record cleared_pcb {
    state = if p == 1 then running else ready;
    priority = 16;
    timeslice_len = 10;
  };
  ready_queue = 1 ∷ 2 ∷ 3 ∷ [];
  current_proc = some 1;
  sched_enabled = true;
}

trio-IsPair : IsPair trio 1 2 (3 ∷ [])
trio-IsPair = record {
  front = inl refl;
  differ = omega arith;
  current = refl;
  runs = refl;
  waits = refl;
  same = refl;
  sound = omega arith;
  behind = λ m p e. omega arith;
}

slices-IsPair_example : (slices 5 trio 0x100).current_proc ≢ some 3
slices-IsPair_example =
    slices-IsPair 5 trio 0x100 1 2 3 (3 ∷ []) trio-IsPair (omega arith) (omega arith)

switch_from_lem_example :
    let r = switch_from trio 0x100 1 in
    (((m p : ℕ)
        → get_elem? trio.ready_queue m ≡ some p
        → is_candidate trio.procs (λ q. q == 1) p ≡ true
        → 255 ≤ (trio.procs p).priority)
      × (r.0 ≡ 0)
      × (r.1.current_proc ≡ trio.current_proc)
      × ((r.1.procs 1).timeslice ≡ (trio.procs 1).timeslice_len))
    ⊎ ((n : ℕ) × (i : ℕ) × IsBest trio.procs (λ q. q == 1) trio.ready_queue 255 n i
        × HandsOver trio 0x100 1 n r)
switch_from_lem_example = switch_from_lem trio 0x100 1
