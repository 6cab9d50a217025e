-- ===== src/Devfs.antt =====
-- `kbd_read` of kernel/fs/devfs.c, the read of the device /dev/stdin. A read that has to wait gives up
-- the processor: the call is `waits`, and when its process runs again it tests the keyboard as it did
-- at first, with no character read yet, so that it goes on as a new `kbd_read`.
pub mod Reading
mod Examples
use orion_final.Base.{ℕ, zero, suc, ◌+◌, ◌%◌, ◌^◌, Bool, true, false, none, some}
use orion_final.Base.Update.{update}
use orion_final.Kernel.{Kernel, blocked, modify}
use orion_final.Sched.{sched_remove, sched_force_switch}
use orion_final.Keyboard.{Keyboard, getchar, has_char, set_waiter}

-- the second loop, by the rounds left: `n` characters are in the buffer `out`
pub kbd_take : Keyboard → (ℕ → ℕ) → ℕ → ℕ → Keyboard × (ℕ → ℕ) × ℕ
kbd_take kb out n zero = (kb, out, n)
kbd_take kb out n (suc left) = elim (has_char kb) [
  | true ↦ let (c, t) = getchar kb in kbd_take t (update out n c) (n + 1) left
  | false ↦ (kb, out, n)
]

-- How a read ends, for now: with the buffer and the number of characters, or waiting.
pub data KbdRead (R : Type 0) : Type 0 where
  gives : Kernel R → Keyboard × (ℕ → ℕ) × ℕ → KbdRead R
  waits : Kernel R → Keyboard → KbdRead R

module _ {R : Type 0} where
  -- the body of the first loop, for the process `self`
  pub kbd_block : Kernel R → Keyboard → ℕ → Kernel R × Keyboard
  kbd_block k kb self = (
    sched_force_switch (sched_remove (modify k self (λ b. record b { state = blocked })) self),
    set_waiter kb (self % 2 ^ 16),
  )

  pub kbd_read : Kernel R → Keyboard → (ℕ → ℕ) → ℕ → KbdRead R
  unfolding kbd_take kbd_block
  kbd_read k kb out len = elim (has_char kb) [
    | true ↦ gives k (kbd_take kb out 0 len)
    | false ↦ elim k.current_proc [
      | none ↦ gives k (kb, out, 0)
      | some self ↦ let (k', kb') = kbd_block k kb self in waits k' kb'
    ]
  ]
