-- ===== src/Syscall/Memory.antt =====
-- The system calls of kernel/syscall/syscall.c with the check `vmm_range_mapped` of kernel/mm/vmm.c.
use orion_final.Base.{
  ℕ, ◌+◌, ◌/◌, ◌^◌, ◌≤◌, ◌<◌, ◌≡◌, ◌≢◌, ap, arith, inl, inr, false, not, ◌==◌, none, some,
  get_elem?, Bool,
}
use orion_final.Base.Words.{minus_one}
use orion_final.Kernel.{Kernel}
use orion_final.Vmm.{Memory, vmm_range_mapped}
use orion_final.Vmm.Range.{Accessible, vmm_range_mapped_lem}
use orion_final.Syscall.{Regs, returns, Services, syscall_dispatch}
use orion_final.Syscall.Guards.{Argument, arguments, syscall_dispatch-unmapped}

-- the answer of `vmm_range_mapped` as a test; with this fuel it has an answer (see Vmm/Range)
pub accepts : Memory → ℕ → ℕ → ℕ → Bool
accepts memory pd ptr len = elim (vmm_range_mapped memory pd ptr len false (len / 4096 + 3)) [
  | none ↦ false
  | some n ↦ not (n == 0)
]

-- Services whose check of a range reads the page tables in memory.
pub with_tables : {R : Type 0} → Services R → (R → Memory) → Services R
unfolding accepts
with_tables env memory_of = record env {
  range_mapped = λ s pd ptr len. accepts (memory_of s) pd ptr len;
}

accepts-inaccessible :
    (memory : Memory) (pd ptr len u : ℕ)
    → pd ≢ 0
    → ptr + len + 4095 < 2 ^ 32
    → ptr ≤ u
    → u < ptr + len
    → ¬ Accessible memory pd false u
    → accepts memory pd ptr len ≡ false
unfolding accepts
accepts-inaccessible memory pd ptr len u n room a b hidden =
    elim (vmm_range_mapped_lem memory pd ptr len false (len / 4096 + 3) n (omega arith) room
      (omega arith)) [
        | inl (e, all) ↦ absurd (hidden (all u a b))
        | inr (e, w) ↦ ap (λ o. elim o as (λ _. Bool) [ none ↦ false | some m ↦ not (m == 0) ]) e
      ]

-- A system call of a process with an address space of its own, which takes a range of memory that has a
-- byte without a translation in the page tables, and that ends at least a page below 4 GB, returns -1 and does nothing else: a read or
-- a write its buffer, `sys_pipe` the place of the two descriptors, `sys_wait` that of the exit code, and
-- `sys_open` and `sys_execve` the first byte of the path.
pub syscall_dispatch-inaccessible :
    {R : Type 0} (env : Services R) (memory_of : R → Memory) (r : Regs) (k : Kernel R)
    (p ptr len u : ℕ) (a : Argument)
    → k.current_proc ≡ some p
    → (k.procs p).page_directory ≢ 0
    → get_elem? arguments r.eax ≡ some a
    → a r ≡ some (ptr, len)
    → ptr + len + 4095 < 2 ^ 32
    → ptr ≤ u
    → u < ptr + len
    → ¬ Accessible (memory_of k.resources) (k.procs p).page_directory false u
    → syscall_dispatch (with_tables env memory_of) r k
      ≡ returns minus_one (record r { eax = minus_one }) k
unfolding with_tables
syscall_dispatch-inaccessible env memory_of r k p ptr len u a c d e f room l h hidden =
    syscall_dispatch-unmapped (with_tables env memory_of) r k p ptr len c d
      (accepts-inaccessible (memory_of k.resources) (k.procs p).page_directory ptr len u d room l h
        hidden)
      a e f
