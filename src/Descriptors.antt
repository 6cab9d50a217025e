-- ===== src/Descriptors.antt =====
-- The tables of kernel/arch/x86/gdt.c and idt.c, and the dispatch of interrupts of irq.c. The processor's
-- instructions that load the tables, and the assembly stubs, are left out.
pub mod Gates
pub mod Dispatch
mod Examples
use orion_final.Base.{
  ℕ, zero, suc, ◌+◌, ◌-◌, ◌*◌, ◌/◌, ◌%◌, ◌^◌, bit_or, ◌==◌, ltb, leb, if◌then◌else◌, List, [], ◌∷◌,
  ◌++◌, Option, none, some,
}
use orion_final.Base.Update.{update}
use orion_final.Base.Words.{u8}

-- `struct gdt_entry`
pub record GdtEntry : Type 0 where
  pub limit_low : ℕ
  pub base_low : ℕ
  pub base_mid : ℕ
  pub access : ℕ
  pub granularity : ℕ
  pub base_high : ℕ

-- `gdt`, and the limit in `gdtp`
pub record Gdt : Type 0 where
  pub entries : ℕ → GdtEntry
  pub limit : ℕ

pub gdt_set_gate : Gdt → ℕ → ℕ → ℕ → ℕ → ℕ → Gdt
gdt_set_gate gdt num base limit access gran = record gdt {
  entries = update gdt.entries num (record {
    base_low = base % 2 ^ 16;
    base_mid = base / 2 ^ 16 % 2 ^ 8;
    base_high = base / 2 ^ 24 % 2 ^ 8;
    limit_low = limit % 2 ^ 16;
    granularity = bit_or (limit / 2 ^ 16 % 2 ^ 4) (gran / 2 ^ 4 % 2 ^ 4 * 2 ^ 4);
    access = access;
  });
}

-- A descriptor takes 8 bytes.
pub gdt_init : Gdt → Gdt
gdt_init gdt =
    let null = gdt_set_gate (record gdt { limit = 8 * 5 - 1 }) 0 0 0 0x00 0x00 in
    let kernel_code = gdt_set_gate null 1 0 0xFFFFFFFF 0x9A 0xCF in
    let kernel_data = gdt_set_gate kernel_code 2 0 0xFFFFFFFF 0x92 0xCF in
    let user_code = gdt_set_gate kernel_data 3 0 0xFFFFFFFF 0xFA 0xCF in
    gdt_set_gate user_code 4 0 0xFFFFFFFF 0xF2 0xCF

pub gdt_install_tss : Gdt → ℕ → ℕ → Gdt
gdt_install_tss gdt base limit =
    gdt_set_gate (record gdt { limit = 8 * 6 - 1 }) 5 base limit 0x89 0x00

-- `struct idt_entry`
pub record IdtEntry : Type 0 where
  pub base_low : ℕ
  pub selector : ℕ
  pub zero : ℕ
  pub flags : ℕ
  pub base_high : ℕ

abbrev pub Idt : Type 0
Idt = ℕ → IdtEntry

abbrev pub gate : ℕ → ℕ → IdtEntry
gate base flags = record {
  base_low = base % 2 ^ 16;
  selector = 0x08;
  zero = 0;
  flags = flags;
  base_high = base / 2 ^ 16 % 2 ^ 16;
}

pub idt_set_gate : Idt → ℕ → ℕ → Idt
idt_set_gate idt num base = update idt num (gate base 0x8E)

pub idt_set_trap_gate : Idt → ℕ → ℕ → Idt
idt_set_trap_gate idt num base = update idt num (gate base 0xEF)

-- `for (i = 0; i < 256; i++) idt_set_gate(i, 0);`
pub clear_gates : Idt → ℕ → ℕ → Idt
clear_gates idt i zero = idt
clear_gates idt i (suc left) = clear_gates (idt_set_gate idt i 0) (i + 1) left

-- The lines `idt_set_gate(32 + i, irqi)`, from `i` on, over the addresses of the stubs.
pub set_irqs : Idt → (ℕ → ℕ) → ℕ → ℕ → Idt
set_irqs idt irq i zero = idt
set_irqs idt irq i (suc left) = set_irqs (idt_set_gate idt (32 + i) (irq i)) irq (i + 1) left

pub idt_init : Idt → (ℕ → ℕ) → (ℕ → ℕ) → Idt
idt_init idt isr irq =
    let divide = idt_set_gate (clear_gates idt 0 256) 0 (isr 0) in
    let opcode = idt_set_gate divide 6 (isr 6) in
    let double = idt_set_gate opcode 8 (isr 8) in
    let protection = idt_set_gate double 13 (isr 13) in
    set_irqs (idt_set_gate protection 14 (isr 14)) irq 0 16

pub idt_install_syscall : Idt → ℕ → Idt
idt_install_syscall idt syscall_entry = idt_set_trap_gate idt 0x80 syscall_entry

-- `irq_handlers`, over the handlers
abbrev pub Handlers : Type 0
Handlers = ℕ → Option ℕ

-- A negative `irq` is a number from 2 ^ 31 on.
pub irq_install_handler : Handlers → ℕ → ℕ → Handlers
irq_install_handler handlers irq handler =
    if ltb 15 irq then handlers else update handlers irq (some handler)

pub irq_uninstall_handler : Handlers → ℕ → Handlers
irq_uninstall_handler handlers irq = if ltb 15 irq then handlers else update handlers irq none

-- What the dispatcher does: it calls a handler, or writes to a port.
pub data Action : Type 0 where
  call : ℕ → Action
  outb : ℕ → ℕ → Action

pub pic_eoi : ℕ → List Action
pic_eoi irq = if leb 8 irq then outb 0xA0 0x20 ∷ outb 0x20 0x20 ∷ [] else outb 0x20 0x20 ∷ []

pub irq_handler : Handlers → ℕ → List Action
irq_handler handlers int_no =
    let irq : ℕ = u8 (int_no + 2 ^ 32 - 32) in
    if ltb irq 16
    then elim (handlers irq) [ some handler ↦ call handler ∷ pic_eoi irq | none ↦ pic_eoi irq ]
    else []
