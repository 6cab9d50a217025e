-- ===== src/Syscall/Inv.antt =====
-- The invariant of the process table under the system calls of kernel/syscall/syscall.c.
use orion_final.Base.{ℕ, ◌≡◌, false, some, Option}
use orion_final.Kernel.{Kernel, is_unused, state_of}
use orion_final.Proc.Inv.{Inv}
use orion_final.Syscall.{Regs, Call, Services}
use orion_final.Syscall.Keeps.{FilesKeep, Keeps, Panics}

module _ {R : Type 0} where
  module _ (env : Services R) (files : FilesKeep env) (r : Regs) (k : Kernel R) (p : ℕ) (v : Inv k)
      (current : k.current_proc ≡ some p) (used : is_unused (state_of k p) ≡ false) where
    -- the handlers keep the invariant, or panic as the theorem says
    Kept : Call R → Type 0
    Kept c = Keeps (Panics env r k p) c
