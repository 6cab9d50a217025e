-- ===== src/Kprintf.antt =====
-- The printer of numbers of lib/libk/kprintf.c. What it sends to the serial port is a list of
-- characters; a write outside the buffer is `none`.
pub mod Digits
mod Examples
use orion_final.Base.{
  ℕ, zero, suc, ◌+◌, ◌-◌, ◌*◌, ◌/◌, ◌%◌, ◌==◌, ltb, if◌then◌else◌, List, [], ◌∷◌, ◌++◌, Option,
  none, some,
}
use orion_final.Base.Update.{update}

-- the characters from '0' on, and from 'a' on
abbrev pub digits : ℕ → ℕ
digits d = if ltb d 10 then 48 + d else 87 + d

-- `while (value > 0)`, on fuel. The text in `buf` starts at `start`, which is `i + 1`.
pub write_digits : ℕ → ℕ → ℕ → (ℕ → ℕ) → ℕ → Option (ℕ × (ℕ → ℕ))
write_digits value base start buf zero = none
write_digits value base start buf (suc fuel) =
    let rest =
      write_digits (value / base) base (start - 1) (update buf (start - 1) (digits (value % base)))
        fuel in
    if value == 0 then some (start, buf) else if start == 0 then none else rest

-- The string that is handed to `serial_write`: the characters up to the terminating zero.
pub c_string : (ℕ → ℕ) → ℕ → ℕ → List ℕ
c_string buf i zero = []
c_string buf i (suc left) =
    let rest = c_string buf (i + 1) left in if buf i == 0 then [] else buf i ∷ rest

-- `while (len < width)`
pub padding : ℕ → ℕ → List ℕ
padding pad zero = []
padding pad (suc left) = pad ∷ padding pad left

pub write_uint_base : (ℕ → ℕ) → ℕ → ℕ → ℕ → ℕ → Option (List ℕ)
write_uint_base garbage value base width pad =
    let buf = update garbage 31 0 in
    let written =
      if value == 0 then some (30, update buf 30 48) else write_digits value base 31 buf 32 in
    elim written [
      | none ↦ none
      | some (start, text) ↦
          some (padding pad (width - (31 - start)) ++ c_string text start (32 - start))
    ]
