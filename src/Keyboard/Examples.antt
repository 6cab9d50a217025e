-- ===== src/Keyboard/Examples.antt =====
-- The functions of kernel/drivers/keyboard.c at concrete states, and their theorems there.
use orion_final.Base.{◌≡◌, inl, inr, [], refl, arith, true, false}
use orion_final.Keyboard.{Keyboard, translate, has_char}
use orion_final.Keyboard.Ring.{Fits, contents, getchar_lem}

-- One character, `h`, waits round the corner of the ring; caps lock is on.
abbrev typed : Keyboard
typed = record {
  kb_buf = λ i. 104;
  kb_read = 63;
  kb_write = 0;
  waiter_pid = 1;
  shift_held = false;
  caps_lock = true;
}

typed-Fits : Fits typed
typed-Fits = record { read_in = omega arith; write_in = omega arith }

small_a : translate typed 0x1e ≡ 97
unfolding translate
small_a = refl

abbrev pub empty_ring : Keyboard
empty_ring = record {
  kb_buf = λ i. 0;
  kb_read = 63;
  kb_write = 63;
  waiter_pid = 0xffff;
  shift_held = false;
  caps_lock = false;
}

pub empty_ring-Fits : Fits empty_ring
empty_ring-Fits = record { read_in = omega arith; write_in = omega arith }

pub empty_ring-has_char : has_char empty_ring ≡ false
unfolding has_char
empty_ring-has_char = refl

pub empty_ring-contents : contents empty_ring ≡ []
unfolding has_char
empty_ring-contents = elim (getchar_lem empty_ring empty_ring-Fits).1 [
  | inl (e, h, z, s) ↦ e
  | inr (h, q) ↦ absurd cc
]

pub press_of_a : translate empty_ring 0x1e ≡ 97
unfolding translate
press_of_a = refl
