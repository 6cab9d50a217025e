-- ===== src/Keyboard.antt =====
-- kernel/drivers/keyboard.c: the scan codes, the state of the modifier keys, and the ring of characters
-- that have not been read. A character is its ASCII code; `KB_BUFFER_SIZE - 1` is a mask of 6 bits,
-- so `& (KB_BUFFER_SIZE - 1)` is a remainder. `serial_putchar` is output and left out.
pub mod Ring
pub mod Handler
pub mod Examples
use orion_final.Base.{
  ℕ, zero, suc, ◌+◌, ◌-◌, ◌/◌, ◌%◌, Bool, true, false, not, ◌&&◌, ◌||◌, ◌==◌, ltb, leb,
  if◌then◌else◌, List, [], ◌∷◌, Option, none, some, get_elem?,
}
use orion_final.Base.Update.{update}
use orion_final.Kernel.{Kernel}
use orion_final.Sched.{proc_wake}
use orion_final.Proc.{proc_get}

abbrev pub buffer_size : ℕ
buffer_size = 64

-- The static variables.
pub record Keyboard : Type 0 where
  pub kb_buf : ℕ → ℕ
  pub kb_read : ℕ
  pub kb_write : ℕ
  pub waiter_pid : ℕ
  pub shift_held : Bool
  pub caps_lock : Bool

-- The two maps up to key 0x3a; the other entries are 0.
abbrev pub scancode_normal : List ℕ
scancode_normal =
    0 ∷ 0 ∷ 49 ∷ 50 ∷ 51 ∷ 52 ∷ 53 ∷ 54 ∷ 55 ∷ 56 ∷ 57 ∷ 48 ∷ 45 ∷ 61 ∷ 8 ∷ 9 ∷ 113 ∷ 119 ∷ 101
    ∷ 114 ∷ 116 ∷ 121 ∷ 117 ∷ 105 ∷ 111 ∷ 112 ∷ 91 ∷ 93 ∷ 10 ∷ 0 ∷ 97 ∷ 115 ∷ 100 ∷ 102 ∷ 103 ∷ 104
    ∷ 106 ∷ 107 ∷ 108 ∷ 59 ∷ 39 ∷ 96 ∷ 0 ∷ 92 ∷ 122 ∷ 120 ∷ 99 ∷ 118 ∷ 98 ∷ 110 ∷ 109 ∷ 44 ∷ 46 ∷ 47
    ∷ 0 ∷ 42 ∷ 0 ∷ 32 ∷ 0 ∷ []

abbrev pub scancode_shifted : List ℕ
scancode_shifted =
    0 ∷ 0 ∷ 33 ∷ 64 ∷ 35 ∷ 36 ∷ 37 ∷ 94 ∷ 38 ∷ 42 ∷ 40 ∷ 41 ∷ 95 ∷ 43 ∷ 8 ∷ 9 ∷ 81 ∷ 87 ∷ 69 ∷ 82
    ∷ 84 ∷ 89 ∷ 85 ∷ 73 ∷ 79 ∷ 80 ∷ 123 ∷ 125 ∷ 10 ∷ 0 ∷ 65 ∷ 83 ∷ 68 ∷ 70 ∷ 71 ∷ 72 ∷ 74 ∷ 75 ∷ 76
    ∷ 58 ∷ 34 ∷ 126 ∷ 0 ∷ 124 ∷ 90 ∷ 88 ∷ 67 ∷ 86 ∷ 66 ∷ 78 ∷ 77 ∷ 60 ∷ 62 ∷ 63 ∷ 0 ∷ 42 ∷ 0 ∷ 32
    ∷ 0 ∷ []

pub entry : List ℕ → ℕ → ℕ
entry map key = elim (get_elem? map key) [ none ↦ 0 | some c ↦ c ]

pub set_waiter : Keyboard → ℕ → Keyboard
set_waiter kb pid = record kb { waiter_pid = pid }

pub buf_push : Keyboard → ℕ → Keyboard
buf_push kb c =
    let next = (kb.kb_write + 1) % buffer_size in
    if next == kb.kb_read
    then kb
    else record kb { kb_buf = update kb.kb_buf kb.kb_write c; kb_write = next }

-- 0 for an empty buffer
pub getchar : Keyboard → ℕ × Keyboard
getchar kb =
    if kb.kb_read == kb.kb_write
    then (0, kb)
    else (kb.kb_buf kb.kb_read, record kb { kb_read = (kb.kb_read + 1) % buffer_size })

pub has_char : Keyboard → Bool
has_char kb = not (kb.kb_read == kb.kb_write)

-- the two tests of `caps_lock`, one after the other
pub apply_caps : Bool → ℕ → ℕ
apply_caps caps c =
    let lowered = if caps && (leb 97 c && leb c 122) then c - 32 else c in
    if caps && (leb 65 lowered && leb lowered 90) then lowered + 32 else lowered

-- the character for a key
pub translate : Keyboard → ℕ → ℕ
unfolding entry apply_caps
translate kb key =
    apply_caps kb.caps_lock
      (entry (if kb.shift_held then scancode_shifted else scancode_normal) key)

module _ {R : Type 0} where
  -- the end of `keyboard_handler`: the waiting process is woken
  pub wake_waiter : Kernel R → Keyboard → Kernel R × Keyboard
  wake_waiter k kb = if kb.waiter_pid == 0xffff then (k, kb) else (
    elim (proc_get k kb.waiter_pid) [ none ↦ k | some w ↦ proc_wake k w ],
    record kb { waiter_pid = 0xffff },
  )

  -- `scancode` is the byte that `inb` reads. The test `key >= 128` never holds, since `key` has 7 bits.
  pub keyboard_handler : Kernel R → Keyboard → ℕ → Kernel R × Keyboard
  unfolding translate buf_push wake_waiter
  keyboard_handler k kb scancode =
      let released = leb 128 (scancode % 256) in
      let key : ℕ = scancode % 128 in
      let c : ℕ = translate kb key in
      if key == 0x2a || key == 0x36
      then (k, record kb { shift_held = not released })
      else if key == 0x3a && not released
      then (k, record kb { caps_lock = not kb.caps_lock })
      else if released
      then (k, kb)
      else if leb 128 key
      then (k, kb)
      else if c == 0
      then (k, kb)
      else wake_waiter k (buf_push kb c)
