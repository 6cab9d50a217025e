-- ===== src/Syscall/Examples.antt =====
-- System calls of the process that Proc/Examples starts.
use orion_final.Base.{ℕ, ◌≡◌, refl, arith, none, some, [], false}
use orion_final.Proc.Inv.{Inv}
use orion_final.Keyboard.Examples.{empty_ring}
use orion_final.Devfs.{gives, waits, kbd_read}
use orion_final.Base.Words.{minus_one}
use orion_final.Kernel.{Kernel, modify}
use orion_final.Proc.Examples.{one, one_state, stacks}
use orion_final.Syscall.{Regs, Call, returns, Services, syscall_dispatch}
use orion_final.Syscall.Keeps.{Keeps}
use orion_final.Syscall.Guards.{buffer}
use orion_final.Syscall.Memory.{with_tables, syscall_dispatch-inaccessible}

-- A read of a keyboard on which nothing is typed: it blocks the process.
quiet_read : Kernel ℕ → Regs → ℕ → Call ℕ
quiet_read k r len = elim (kbd_read k empty_ring (λ i. 0) len) [
  | gives k' (kb, out, n) ↦ returns n r k'
  | waits k' kb ↦ Call.waits k'
]

-- No memory is mapped, no file is there, and a read is that of the keyboard.
abbrev bare : Services ℕ
bare = record {
  proc = stacks;
  range_mapped = λ s pd ptr len. false;
  fd_write = λ k r p fd buf len. returns minus_one r k;
  fd_read = λ k r p fd buf len. quiet_read k r len;
  vfs_open = λ s path flags. some (0, s);
  vfs_close = λ s f. (s, []);
  fd_install = λ s p f. (none, s);
  fd_is_open = λ s p fd. false;
  fd_close = λ s p fd. (s, []);
  pipe_create = λ s p ptr. some (minus_one, s);
  dup2 = λ s p old new. (none, s, []);
  elf_load = λ s path. some (0, s);
  store = λ s ptr n. s;
}

abbrev call : ℕ → ℕ → Regs
call n b = record {
  eax = n;
  ebx = b;
  ecx = 0x5000;
  edx = 4;
  esi = 0;
  edi = 0;
  ebp = 0;
  eip = 0;
  eflags = 0;
}

-- the process with a page directory of its own
abbrev user : Kernel ℕ
user = modify one 1 (λ b. record b { page_directory = 0x9000 })

syscall_dispatch-inaccessible_example :
    syscall_dispatch (with_tables bare (λ s w. 0)) (call 6 1) user
    ≡ returns minus_one (record (call 6 1) { eax = minus_one }) user
syscall_dispatch-inaccessible_example =
    syscall_dispatch-inaccessible bare (λ s w. 0) (call 6 1) user 1 0x5000 4 0x5001 buffer
      one_state.1 (omega arith) refl refl (omega arith) (omega arith) (omega arith)
      (λ h. absurd (omega (arith, h.table)))
