-- ===== src/Syscall/Keeps.antt =====
-- What it is for a handler of kernel/syscall/syscall.c to keep the invariant of the process table.
use mathlib.Core.Path.{subst}
use orion_final.Base.{
  ℕ, zero, suc, ◌<◌, ◌≡◌, refl, ap, arith, Bool, true, false, none, some, Option, List, [], ◌∷◌,
  get_elem?, if◌then◌else◌,
}
use orion_final.Kernel.{Kernel, Pcb, is_unused, state_of, modify, max_procs}
use orion_final.Sched.Inv.{modify-Inv}
use orion_final.Proc.{proc_get}
use orion_final.Proc.Inv.{Inv, in_use, KeepsUse-Inv, modify-KeepsUse}
use orion_final.Proc.Create.{HeapPanics}
use orion_final.Syscall.{Regs, Call, returns, waits, fails, Services, finish}

module _ {R : Type 0} where
  -- The state after a call satisfies the invariant, also where the process waits in it; and it panics only if `P`.
  abbrev pub Keeps : Type 0 → Call R → Type 0
  Keeps P (returns n r k) = Inv k
  Keeps P (waits k) = Inv k
  Keeps P fails = P

  pub modify_same-Inv :
      (k : Kernel R) (p : ℕ) (f : Pcb → Pcb)
      → Inv k
      → (f (k.procs p)).state ≡ state_of k p
      → Inv (modify k p f)
  modify_same-Inv k p f v e =
      KeepsUse-Inv v (modify-KeepsUse k p f (ap in_use e)) (modify-Inv k p f v.sched e)

  pub proc_get-in_use :
      (k : Kernel R) (pid q : ℕ)
      → proc_get k pid ≡ some q
      → (q < max_procs) × (in_use (state_of k q) ≡ 1)
  unfolding proc_get
  proc_get-in_use k pid q e = ground arith

  -- What `fd_read` and `fd_write` do in the process that runs keeps the invariant, unless they panic.
  pub record FilesKeep (env : Services R) : Type 0 where
    pub fd_write :
        (k : Kernel R) (r : Regs) (p fd buf len : ℕ)
        → Inv k
        → k.current_proc ≡ some p
        → is_unused (state_of k p) ≡ false
        → Keeps Unit (env.fd_write k r p fd buf len)
    pub fd_read :
        (k : Kernel R) (r : Regs) (p fd buf len : ℕ)
        → Inv k
        → k.current_proc ≡ some p
        → is_unused (state_of k p) ≡ false
        → Keeps Unit (env.fd_read k r p fd buf len)

  -- Where a system call of process `p` may panic: in the kernel heap, or in what it calls.
  pub data Panics (env : Services R) (r : Regs) (k : Kernel R) (p : ℕ) : Type 0 where
    in_heap : HeapPanics env.proc k.resources → Panics env r k p
    in_write : env.fd_write k r p r.ebx r.ecx r.edx ≡ fails → Panics env r k p
    in_read : env.fd_read k r p r.ebx r.ecx r.edx ≡ fails → Panics env r k p
    in_open : env.vfs_open k.resources r.ebx r.ecx ≡ none → Panics env r k p
    in_pipe : env.pipe_create k.resources p r.ebx ≡ none → Panics env r k p
    in_load : env.elf_load k.resources r.ebx ≡ none → Panics env r k p

  pub Keeps-fails : {P : Type 0} (c : Call R) → Keeps Unit c → (c ≡ fails → P) → Keeps P c
  Keeps-fails (returns n r k) h f = h
  Keeps-fails (waits k) h f = h
  Keeps-fails fails h f = f refl

  pub Inv-if : (b : Bool) (x y : Kernel R) → Inv x → Inv y → Inv (if b then x else y)
  Inv-if true x y a c = a
  Inv-if false x y a c = c

  -- Each of these handlers keeps the invariant.
  abbrev pub AllKeep : Type 0 → Regs → Kernel R → List (Regs → Kernel R → Call R) → Type 0
  AllKeep P r k [] = Unit
  AllKeep P r k (h ∷ hs) = Keeps P (h r k) × AllKeep P r k hs

  pub AllKeep-at :
      (P : Type 0) (r : Regs) (k : Kernel R) (hs : List (Regs → Kernel R → Call R)) (n : ℕ)
      (handler : Regs → Kernel R → Call R)
      → AllKeep P r k hs
      → get_elem? hs n ≡ some handler
      → Keeps P (handler r k)
  AllKeep-at P r k [] n handler a e = cc
  AllKeep-at P r k (h ∷ hs) zero handler a e =
      let same : h ≡ handler = cc in subst (λ f. Keeps P (f r k)) same a.0
  AllKeep-at P r k (h ∷ hs) (suc n) handler a e = AllKeep-at P r k hs n handler a.1 e

  pub Keeps-if :
      (P : Type 0) (b : Bool) (x y : Call R) → Keeps P x → Keeps P y → Keeps P (if b then x else y)
  Keeps-if _ true x y a c = a
  Keeps-if _ false x y a c = c

  -- a split on the current process, or on another pointer
  pub Keeps-elim :
      (P : Type 0) {A : Type 0} (o : Option A) (x : Call R) (f : A → Call R)
      → (o ≡ none → Keeps P x)
      → ((q : A) → o ≡ some q → Keeps P (f q))
      → Keeps P (elim o as (λ _. Call R) [ none ↦ x | some q ↦ f q ])
  Keeps-elim _ none x f a h = a refl
  Keeps-elim _ (some q) x f a h = h q refl

  pub finish-Keeps : (P : Type 0) (c : Call R) → Keeps P c → Keeps P (finish c)
  unfolding finish
  finish-Keeps _ (returns n r k) h = h
  finish-Keeps _ (waits k) h = h
  finish-Keeps _ fails h = h
