-- ===== src/Descriptors/Examples.antt =====
-- The descriptor tables and the dispatch of interrupts at concrete values.
use orion_final.Base.{◌+◌, ◌≡◌, refl, none}
use orion_final.Descriptors.{
  GdtEntry, Gdt, gdt_set_gate, gdt_init, gdt_install_tss, Idt, gate, idt_set_gate,
  idt_set_trap_gate, clear_gates, set_irqs, idt_init, idt_install_syscall, Handlers,
}
use orion_final.Descriptors.Gates.{segment_base, segment_limit, gate_base}

abbrev blank : GdtEntry
blank = record {
  limit_low = 0;
  base_low = 0;
  base_mid = 0;
  access = 0;
  granularity = 0;
  base_high = 0;
}

abbrev no_segments : Gdt
no_segments = record { entries = λ i. blank; limit = 0 }

abbrev no_gates : Idt
no_gates = λ n. gate 0 0

-- the kernel's code and the user's data, with the whole memory, and a task state segment behind them
run_segments :
    let t = gdt_install_tss (gdt_init no_segments) 0x123456 103 in
    (segment_limit (t.entries 1) ≡ 0xFFFFF)
    × ((t.entries 4).access ≡ 0xF2)
    × (segment_base (t.entries 5) ≡ 0x123456)
    × (t.limit ≡ 47)
unfolding gdt_init gdt_install_tss gdt_set_gate
run_segments = (refl, refl, refl, refl)

run_gates :
    gate_base (idt_install_syscall (idt_init no_gates (λ n. n) (λ n. 100 + n)) 0x5678 128) ≡ 0x5678
unfolding idt_install_syscall idt_init idt_set_trap_gate idt_set_gate clear_gates set_irqs
run_gates = refl

abbrev no_handlers : Handlers
no_handlers = λ irq. none
