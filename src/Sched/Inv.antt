-- ===== src/Sched/Inv.antt =====
-- The invariant of the scheduler: a process is queued once if it is READY or RUNNING, and not at
-- all otherwise; and only the current process is RUNNING.
use orion_final.Base.{
  ℕ, zero, suc, ◌+◌, ◌-◌, ◌≤◌, ◌<◌, ◌≡◌, refl, ap, ◌∙◌, ◌≢◌, arith, Bool, true, false, not, ◌||◌,
  ◌==◌, Bool-cases, eqb→eq, eqb→ne, ltb, if◌then◌else◌, [], ◌∷◌, Option, none, some, length, inl,
  inr, dec_lt,
}
use orion_final.Base.Words.{u32}
use orion_final.Kernel.{
  Kernel, Pcb, ProcState, unused, ready, running, is_ready, is_blocked, max_procs, state_of, modify,
}
use orion_final.Sched.{
  sched_add, sched_remove, proc_wake, wake_if_due, wake_due, sched_tick, timer_handler, switch_to,
  switch_from, spend_slice, sched_switch_esp, sched_force_switch, sched_start,
}
use orion_final.Sched.Queue.{occurs, occurs-append, occurs-swap_remove, length_lt}
use orion_final.Sched.Pick.{Chooses, scan_ready-Chooses}

-- how often a process in this state is queued
abbrev pub runnable : ProcState → ℕ
runnable ready = 1
runnable running = 1
runnable _ = 0

module _ {R : Type 0} where
  pub record Inv (k : Kernel R) : Type 0 where
    pub queued : (p : ℕ) → occurs p k.ready_queue ≡ runnable (state_of k p)
    pub in_table : (p : ℕ) → max_procs ≤ p → state_of k p ≡ unused
    pub one_running : (p : ℕ) → state_of k p ≡ running → k.current_proc ≡ some p

  occurs-le-one : (k : Kernel R) → Inv k → (p : ℕ) → occurs p k.ready_queue ≤ 1
  occurs-le-one k v p = ground (arith, v.queued p)

  -- There is room in the queue for a process that is not in it.
  pub has_room :
      (k : Kernel R) (p : ℕ)
      → Inv k
      → p < max_procs
      → runnable (state_of k p) ≡ 0
      → length k.ready_queue < max_procs
  has_room k p v l e =
      length_lt max_procs p k.ready_queue (occurs-le-one k v)
        (λ q m. ground (arith, v.queued q, v.in_table q)) l (omega (arith, v.queued p))

  -- A process outside the queue is made READY and added.
  pub sched_add-Inv :
      (k : Kernel R) (p : ℕ) (f : Pcb → Pcb)
      → Inv k
      → p < max_procs
      → runnable (state_of k p) ≡ 0
      → (f (k.procs p)).state ≡ ready
      → Inv (sched_add (modify k p f) p)
  unfolding sched_add
  sched_add-Inv k p f v l e h =
      let room = has_room k p v l e in
      record {
        queued = λ q. ground (arith, v.queued q, room, occurs-append q k.ready_queue (p ∷ []));
        in_table = λ q m. ground (arith, v.in_table q);
        one_running = λ q r. ground (arith, v.one_running q);
      }

  pub in_range : (k : Kernel R) (p : ℕ) → Inv k → state_of k p ≢ unused → p < max_procs
  in_range k p v h = elim (dec_lt p max_procs) [
    | yes l ↦ l
    | no l ↦ absurd (h (v.in_table p (omega arith)))
  ]

  pub proc_wake-Inv : (k : Kernel R) (p : ℕ) → Inv k → Inv (proc_wake k p)
  unfolding proc_wake
  proc_wake-Inv k p v = elim (Bool-cases (is_blocked (state_of k p))) [
    | inl e ↦ rw e (
        sched_add-Inv k p (λ b. record b { wakeup_tick = 0; state = ready }) v
          (in_range k p v (λ u. ground arith)) (ground arith) refl)
    | inr e ↦ rw e v
  ]

  wake_if_due-Inv : (k : Kernel R) (i : ℕ) → Inv k → Inv (wake_if_due k i)
  unfolding wake_if_due
  wake_if_due-Inv k i v = ground (arith, proc_wake-Inv k i v)

  wake_due-Inv : (k : Kernel R) (i left : ℕ) → Inv k → Inv (wake_due k i left)
  unfolding wake_due
  wake_due-Inv k i zero v = v
  wake_due-Inv k i (suc left) v =
      wake_due-Inv (wake_if_due k i) (i + 1) left (wake_if_due-Inv k i v)

  -- A timer interrupt keeps the invariant, whichever sleepers it wakes.
  pub timer_handler-Inv : (k : Kernel R) → Inv k → Inv (timer_handler k)
  unfolding timer_handler sched_tick
  timer_handler-Inv k v =
      wake_due-Inv (record k { tick_count = u32 (k.tick_count + 1); tick_flag = true }) 0 max_procs
        (record { queued = v.queued; in_table = v.in_table; one_running = v.one_running })

  -- A write to the process table that leaves the states alone.
  pub modify-Inv :
      (k : Kernel R) (p : ℕ) (f : Pcb → Pcb)
      → Inv k
      → (f (k.procs p)).state ≡ (k.procs p).state
      → Inv (modify k p f)
  modify-Inv k p f v e = record {
    queued = λ q. ground (arith, v.queued q);
    in_table = λ q m. ground (arith, v.in_table q);
    one_running = λ q r. ground (arith, v.one_running q);
  }

  switch_to-Inv :
      (k : Kernel R) (esp c n i : ℕ)
      → Inv k
      → k.current_proc ≡ some c
      → (n == c) ≡ false
      → is_ready (state_of k n) ≡ true
      → Inv (switch_to k esp c n i).1
  unfolding switch_to
  switch_to-Inv k esp c n i v e h r = record {
    queued = λ q. ground (arith, v.queued q);
    in_table = λ q m. ground (arith, v.in_table q, v.in_table n);
    one_running = λ q s. ground (arith, v.one_running q);
  }

  switch_from-Inv :
      (k : Kernel R) (esp c : ℕ) → Inv k → k.current_proc ≡ some c → Inv (switch_from k esp c).1
  unfolding switch_from
  switch_from-Inv k esp c v e = by_cases _ (scan_ready-Chooses k.procs (λ p. p == c) k.ready_queue)
    where
      by_cases :
          (r : Option (ℕ × ℕ))
          → Chooses k.procs (λ p. p == c) k.ready_queue r
          → Inv
              (elim r as (λ _. ℕ × Kernel R) [
                | none ↦ (0, modify k c (λ b. record b { timeslice = b.timeslice_len }))
                | some (n, i) ↦ switch_to k esp c n i
              ]).1
      by_cases none h = modify-Inv k c (λ b. record b { timeslice = b.timeslice_len }) v refl
      by_cases (some (n, i)) h =
          switch_to-Inv k esp c n i v e (ground (arith, h.candidate)) (ground (arith, h.candidate))

  -- `sched_switch_esp` keeps the invariant, whether it switches or not.
  pub sched_switch_esp-Inv : (k : Kernel R) (esp : ℕ) → Inv k → Inv (sched_switch_esp k esp).1
  unfolding sched_switch_esp
  sched_switch_esp-Inv k esp v = elim (Bool-cases (not k.sched_enabled || not k.tick_flag)) [
    | inl e ↦ rw e v
    | inr e ↦ rw e (by_current k.current_proc refl)
  ]
    where
      seen : Kernel R
      seen = record k { tick_flag = false }

      seen-Inv : Inv seen
      seen-Inv = record { queued = v.queued; in_table = v.in_table; one_running = v.one_running }

      spent-Inv : (c : ℕ) → Inv (spend_slice seen c)
      spent-Inv c =
          unfold spend_slice in
          modify-Inv seen c
            (λ b. record b {
              timeslice = if ltb 0 b.timeslice then b.timeslice - 1 else b.timeslice;
            })
            seen-Inv refl

      by_slice :
          (c : ℕ)
          → k.current_proc ≡ some c
          → (b : Bool)
          → Inv (if b then (0, spend_slice seen c) else switch_from (spend_slice seen c) esp c).1
      by_slice c e true = spent-Inv c
      by_slice c e false =
          switch_from-Inv (spend_slice seen c) esp c (spent-Inv c) (unfold spend_slice in e)

      by_current :
          (o : Option ℕ)
          → k.current_proc ≡ o
          → Inv
              (elim o as (λ _. ℕ × Kernel R) [
                | none ↦ (0, seen)
                | some c ↦
                    if ltb 0 ((spend_slice seen c).procs c).timeslice
                    then (0, spend_slice seen c)
                    else switch_from (spend_slice seen c) esp c
              ]).1
      by_current none e = seen-Inv
      by_current (some c) e = by_slice c e (ltb 0 ((spend_slice seen c).procs c).timeslice)

  -- A process outside the queue that stays outside it.
  pub modify_outside-Inv :
      (k : Kernel R) (p : ℕ) (f : Pcb → Pcb)
      → Inv k
      → p < max_procs
      → runnable (state_of k p) ≡ 0
      → runnable (f (k.procs p)).state ≡ 0
      → Inv (modify k p f)
  modify_outside-Inv k p f v l a b = record {
    queued = λ q. ground (arith, v.queued q);
    in_table = λ q m. ground (arith, v.in_table q);
    one_running = λ q r. ground (arith, v.one_running q);
  }

  -- A process that is not READY or RUNNING afterwards leaves the queue.
  pub sched_remove-Inv :
      (k : Kernel R) (p : ℕ) (f : Pcb → Pcb)
      → Inv k
      → p < max_procs
      → runnable (f (k.procs p)).state ≡ 0
      → Inv (sched_remove (modify k p f) p)
  unfolding sched_remove
  sched_remove-Inv k p f v l e = record {
    queued = λ q. ground (arith, v.queued q, occurs-swap_remove k.ready_queue p q);
    in_table = λ q m. ground (arith, v.in_table q);
    one_running = λ q r. ground (arith, v.one_running q);
  }

  -- The invariant but for `p`, which has stopped and may still stand in the queue, once.
  pub record InvBut (p : ℕ) (k : Kernel R) : Type 0 where
    pub stopped : runnable (state_of k p) ≡ 0
    pub once : occurs p k.ready_queue ≤ 1
    pub queued : (q : ℕ) → q ≢ p → occurs q k.ready_queue ≡ runnable (state_of k q)
    pub in_table : (q : ℕ) → max_procs ≤ q → state_of k q ≡ unused
    pub below : p < max_procs
    pub one_running : (q : ℕ) → state_of k q ≡ running → k.current_proc ≡ some q

  pub modify-InvBut :
      (k : Kernel R) (p : ℕ) (f : Pcb → Pcb)
      → Inv k
      → p < max_procs
      → runnable (f (k.procs p)).state ≡ 0
      → InvBut p (modify k p f)
  modify-InvBut k p f v l e = record {
    stopped = ground arith;
    once = occurs-le-one k v p;
    queued = λ q h. ground (arith, v.queued q);
    in_table = λ q m. ground (arith, v.in_table q);
    below = l;
    one_running = λ q r. ground (arith, v.one_running q);
  }

  InvBut-le-one : (p : ℕ) (k : Kernel R) → InvBut p k → (q : ℕ) → occurs q k.ready_queue ≤ 1
  InvBut-le-one p k v q = elim (Bool-cases (q == p)) [
    | inl e ↦ rw (eqb→eq q p e) v.once
    | inr e ↦ ground (arith, v.queued q (eqb→ne q p e))
  ]

  pub proc_wake-InvBut :
      (p : ℕ) (k : Kernel R) (r : ℕ)
      → InvBut p k
      → is_blocked (state_of k p) ≡ false
      → InvBut p (proc_wake k r)
  unfolding proc_wake sched_add
  proc_wake-InvBut p k r v a = elim (Bool-cases (is_blocked (state_of k r))) [
    | inr e ↦ rw e v
    | inl e ↦
        let differ : r ≢ p = λ q. cc (ap (λ x. is_blocked (state_of k x)) q) in
        let absent : occurs r k.ready_queue ≡ 0 = v.queued r differ ∙ ground arith in
        let outside : (q : ℕ) → max_procs ≤ q → occurs q k.ready_queue ≡ 0 =
          λ q m. ground (arith, v.queued q, v.in_table q m, v.below) in
        let in_range : r < max_procs = ground (arith, v.in_table r) in
        let room : length k.ready_queue < max_procs =
          length_lt max_procs r k.ready_queue (InvBut-le-one p k v) outside in_range absent in
        rw e (record {
          stopped = ground (arith, v.stopped);
          once = ground (arith, v.once, occurs-append p k.ready_queue (r ∷ []));
          queued = λ q h. ground (arith, v.queued q h, occurs-append q k.ready_queue (r ∷ []));
          in_table = λ q m. ground (arith, v.in_table q);
          below = v.below;
          one_running = λ q s. ground (arith, v.one_running q);
        })
  ]

  pub sched_remove-InvBut : (p : ℕ) (k : Kernel R) → InvBut p k → Inv (sched_remove k p)
  unfolding sched_remove
  sched_remove-InvBut p k v = record {
    queued =
        λ q. ground (arith, v.queued q, v.once, v.stopped, occurs-swap_remove k.ready_queue p q);
    in_table = v.in_table;
    one_running = v.one_running;
  }

  pub sched_force_switch-Inv : (k : Kernel R) → Inv k → Inv (sched_force_switch k)
  unfolding sched_force_switch
  sched_force_switch-Inv k v = by_current k.current_proc
    where
      flagged : Kernel R
      flagged = record k { tick_flag = true }

      flagged-Inv : Inv flagged
      flagged-Inv = record { queued = v.queued; in_table = v.in_table; one_running = v.one_running }

      by_current :
          (o : Option ℕ)
          → Inv (elim o as (λ _. Kernel R) [
            | none ↦ flagged
            | some c ↦ modify flagged c (λ b. record b { timeslice = 0 })
          ])
      by_current none = flagged-Inv
      by_current (some c) = modify-Inv flagged c (λ b. record b { timeslice = 0 }) flagged-Inv refl

  -- Where no process is current and `sched_start` starts one, the invariant is kept.
  pub sched_start-Inv :
      (k : Kernel R) (esp : ℕ) (k' : Kernel R)
      → Inv k
      → k.current_proc ≡ none
      → sched_start k ≡ some (esp, k')
      → Inv k'
  unfolding sched_start
  sched_start-Inv k esp k' v c = by_cases _ (scan_ready-Chooses k.procs (λ p. false) k.ready_queue)
    where
      second : Option (ℕ × Kernel R) → Kernel R
      second none = k
      second (some (a, b)) = b

      by_cases :
          (r : Option (ℕ × ℕ))
          → Chooses k.procs (λ p. false) k.ready_queue r
          → (elim r as (λ _. Option (ℕ × Kernel R)) [
            | none ↦ none
            | some (n, i) ↦
                let started = modify k n (λ b. record b {
                  state = running;
                  ticks_scheduled = u32 (b.ticks_scheduled + 1);
                }) in
                some (
                  (started.procs n).esp_kernel,
                  record started {
                    current_proc = some n;
                    current_idx = i;
                    sched_enabled = true;
                    tss_esp0 = (started.procs n).esp0;
                  },
                )
          ])
            ≡ some (esp, k')
          → Inv k'
      by_cases none h e = cc
      by_cases (some (n, i)) h e = rw (← ap second e) (record {
        queued = λ p. ground (arith, v.queued p, h.candidate);
        in_table = λ p m. ground (arith, v.in_table p, v.in_table n, h.candidate);
        one_running = λ p r. ground (arith, v.one_running p, c);
      })
