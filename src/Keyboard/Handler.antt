-- ===== src/Keyboard/Handler.antt =====
-- `keyboard_handler` of kernel/drivers/keyboard.c.
use orion_final.Base.{
  ℕ, ◌%◌, ◌<◌, ◌≡◌, ◌≢◌, refl, ap, ◌∙◌, arith, ◌⊎◌, inl, inr, ◌==◌, if◌then◌else◌, Bool, true,
  false, not, ◌&&◌, ◌||◌, leb, Bool-cases, eqb→eq, Option, none, some,
}
use mathlib.Core.Path.{subst}
use orion_final.Kernel.{Kernel, state_of, max_procs, blocked, ready}
use orion_final.Sched.{proc_wake}
use orion_final.Sched.Inv.{proc_wake-Inv}
use orion_final.Proc.{proc_get}
use orion_final.Proc.Inv.{Inv, KeepsUse-Inv, proc_wake-KeepsUse}
use orion_final.Pipe.Close.{proc_wake-ready, proc_get-some}
use orion_final.Keyboard.{
  Keyboard, keyboard_handler, wake_waiter, buf_push, translate, apply_caps, entry, scancode_normal,
  scancode_shifted,
}

caps_never_upper : (c : ℕ) → (apply_caps true c < 65) ⊎ (90 < apply_caps true c)
unfolding apply_caps
caps_never_upper c = ground arith

-- While caps lock is on, no key gives a capital letter, with shift or without: the test for small
-- letters makes them capitals, and the test after it makes them small again.
pub translate-caps_lock :
    (kb : Keyboard) (key : ℕ)
    → kb.caps_lock ≡ true
    → (translate kb key < 65) ⊎ (90 < translate kb key)
unfolding translate
translate-caps_lock kb key e =
    rw e
      (caps_never_upper (entry (if kb.shift_held then scancode_shifted else scancode_normal) key))

buf_push-waiter : (kb : Keyboard) (c : ℕ) → (buf_push kb c).waiter_pid ≡ kb.waiter_pid
unfolding buf_push
buf_push-waiter kb c = ground arith

module _ {R : Type 0} where
  wake_waiter-Inv : (k : Kernel R) (kb : Keyboard) → Inv k → Inv (wake_waiter k kb).0
  unfolding wake_waiter
  wake_waiter-Inv k kb v = elim (Bool-cases (kb.waiter_pid == 0xffff)) [
    | inl e ↦ rw e v
    | inr e ↦ rw e (by_process (proc_get k kb.waiter_pid))
  ]
    where
      by_process :
          (o : Option ℕ) → Inv (elim o as (λ _. Kernel R) [ none ↦ k | some w ↦ proc_wake k w ])
      by_process none = v
      by_process (some w) = KeepsUse-Inv v (proc_wake-KeepsUse k w) (proc_wake-Inv k w v.sched)

  either : (b : Bool) (x y : Kernel R × Keyboard) → Inv x.0 → Inv y.0 → Inv (if b then x else y).0
  either true x y v w = v
  either false x y v w = w

  -- A keyboard interrupt keeps the invariant of the process table, whatever byte it reads.
  pub keyboard_handler-Inv :
      (k : Kernel R) (kb : Keyboard) (scancode : ℕ) → Inv k → Inv (keyboard_handler k kb scancode).0
  unfolding keyboard_handler
  keyboard_handler-Inv k kb scancode v =
      let key : ℕ = scancode % 128 in
      either (key == 0x2a || key == 0x36) _ _ v (
        either (key == 0x3a && not (leb 128 (scancode % 256))) _ _ v (
          either (leb 128 (scancode % 256)) _ _ v (
            either (leb 128 key) _ _ v (
              either (translate kb key == 0) _ _ v
                (wake_waiter-Inv k (buf_push kb (translate kb key)) v)))))

  press-eq :
      (k : Kernel R) (kb : Keyboard) (key : ℕ)
      → key < 128
      → key ≢ 0x2a
      → key ≢ 0x36
      → key ≢ 0x3a
      → translate kb key ≢ 0
      → keyboard_handler k kb key ≡ wake_waiter k (buf_push kb (translate kb key))
  unfolding keyboard_handler
  press-eq k kb key l a b c n =
      let low : key % 128 ≡ key = omega arith in
      let byte : key % 256 ≡ key = omega arith in rw (low, byte) (ground arith)

  -- What `wake_waiter` leaves.
  record Wakes (k : Kernel R) (kb : Keyboard) (r : Kernel R × Keyboard) : Type 0 where
    pub buf : r.1.kb_buf ≡ kb.kb_buf
    pub read : r.1.kb_read ≡ kb.kb_read
    pub write : r.1.kb_write ≡ kb.kb_write
    pub forgets : r.1.waiter_pid ≡ 0xffff
    pub wakes :
        kb.waiter_pid < max_procs
        → state_of k kb.waiter_pid ≡ blocked
        → state_of r.0 kb.waiter_pid ≡ ready

  wake_waiter-Wakes : (k : Kernel R) (kb : Keyboard) → Wakes k kb (wake_waiter k kb)
  unfolding wake_waiter
  wake_waiter-Wakes k kb = elim (Bool-cases (kb.waiter_pid == 0xffff)) [
    | inl e ↦ rw e (record {
      buf = refl;
      read = refl;
      write = refl;
      forgets = eqb→eq _ _ e;
      wakes = λ l b. absurd (omega (arith, eqb→eq _ _ e));
    })
    | inr e ↦ rw e (record {
      buf = refl;
      read = refl;
      write = refl;
      forgets = refl;
      wakes = λ l b.
          ap
            (λ o.
              state_of (elim o as (λ _. Kernel R) [ none ↦ k | some w ↦ proc_wake k w ])
                kb.waiter_pid)
            (proc_get-some k kb.waiter_pid l b)
          ∙ proc_wake-ready k kb.waiter_pid b;
    })
  ]

  -- The press of a key that is no modifier and gives a character does to the buffer what `buf_push`
  -- does with that character; the process that waits for the keyboard becomes READY if it is BLOCKED;
  -- and no process is noted as waiting any more.
  pub keyboard_handler_press :
      (k : Kernel R) (kb : Keyboard) (key : ℕ)
      → key < 128
      → key ≢ 0x2a
      → key ≢ 0x36
      → key ≢ 0x3a
      → translate kb key ≢ 0
      → let (k', t) = keyboard_handler k kb key in
        ((t.kb_buf ≡ (buf_push kb (translate kb key)).kb_buf)
          × (t.kb_read ≡ (buf_push kb (translate kb key)).kb_read)
          × (t.kb_write ≡ (buf_push kb (translate kb key)).kb_write))
        × (t.waiter_pid ≡ 0xffff)
        × (kb.waiter_pid < max_procs
            → state_of k kb.waiter_pid ≡ blocked
            → state_of k' kb.waiter_pid ≡ ready)
  keyboard_handler_press k kb key l a b c n =
      let pushed = buf_push kb (translate kb key) in
      let w = wake_waiter-Wakes k pushed in
      let same : pushed.waiter_pid ≡ kb.waiter_pid = buf_push-waiter kb (translate kb key) in
      rw (press-eq k kb key l a b c n) (
        (w.buf, w.read, w.write),
        w.forgets,
        subst
            (λ p.
              p < max_procs → state_of k p ≡ blocked → state_of (wake_waiter k pushed).0 p ≡ ready)
            same w.wakes,
      )
