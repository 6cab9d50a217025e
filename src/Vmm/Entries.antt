-- ===== src/Vmm/Entries.antt =====
-- The values of the entries that kernel/mm/vmm.c writes: an address with flags below it.
use orion_final.Base.{ℕ, ◌+◌, ◌*◌, ◌/◌, ◌%◌, ◌<◌, ◌≡◌, arith, bit_or, bit_and}
use orion_final.Base.Masks.{bit_and-flag_two, bit_or-disjoint, bit_or-shifted, bit_or-one}
use orion_final.Vmm.{make_entry, vmm_present, vmm_writable, vmm_user}

writable_entry : (f : ℕ) → bit_or (bit_or (f * 4096) 1) 2 ≡ f * 4096 + 3
writable_entry f =
    let one : bit_or (f * 4096) 1 ≡ f * 2048 * 2 + 1 =
      omega (arith, bit_or-disjoint 12 f 1 (omega arith)) in
    rw one (
      omega (
        arith,
        bit_or-shifted 1 (f * 2048) 1 1 (omega arith),
        bit_or-disjoint 11 f 1 (omega arith),
      ))

or_user : (f c : ℕ) → c < 2 → bit_or (f * 4096 + 3) (c * 4) ≡ f * 4096 + 3 + c * 4
or_user f c l =
    let at : f * 4096 + 3 ≡ f * 1024 * 4 + 3 = omega arith in
    rw at (
      omega (
        arith,
        bit_or-shifted 2 (f * 1024) c 3 (omega arith),
        bit_or-disjoint 10 f c (omega arith),
      ))

pub directory_entry :
    (f flags : ℕ)
    → bit_or (bit_or (bit_or (f * 4096) vmm_present) vmm_writable) (bit_and flags vmm_user)
      ≡ f * 4096 + 3 + flags / 4 % 2 * 4
directory_entry f flags =
    rw (writable_entry f, bit_and-flag_two flags) (or_user f (flags / 4 % 2) (omega arith))

pub make_entry_lem :
    (phys flags : ℕ)
    → flags < 4096
    → make_entry phys flags ≡ phys / 4096 * 4096 + (flags / 2 * 2 + 1)
make_entry_lem phys flags l =
    rw (bit_or-one flags) (bit_or-disjoint 12 (phys / 4096) (flags / 2 * 2 + 1) (omega arith))
