-- ===== src/Descriptors/Gates.antt =====
-- What the processor reads in the tables that kernel/arch/x86/gdt.c and idt.c fill.
use mathlib.Core.Path.{subst}
use orion_final.Base.{
  ℕ, zero, suc, ◌+◌, ◌-◌, ◌*◌, ◌/◌, ◌%◌, ◌^◌, ◌≤◌, ◌<◌, ◌≡◌, ◌≢◌, refl, sym, ap, ◌∙◌, arith, bit_or,
  ◌==◌, leb, ltb, ◌&&◌, ◌||◌, if◌then◌else◌, ◌⊎◌, ℕ_discrete, dec_lt,
}
use orion_final.Base.Masks.{bit_or-shifted, bit_or-disjoint}
use orion_final.Base.Update.{update_self, update_ne}
use orion_final.Descriptors.{
  GdtEntry, Gdt, gdt_set_gate, IdtEntry, Idt, gate, idt_set_gate, clear_gates, set_irqs, idt_init,
}

-- the fields of a descriptor, as the processor puts them together
abbrev pub segment_base : GdtEntry → ℕ
segment_base e = e.base_low + e.base_mid * 2 ^ 16 + e.base_high * 2 ^ 24

abbrev pub segment_limit : GdtEntry → ℕ
segment_limit e = e.limit_low + e.granularity % 2 ^ 4 * 2 ^ 16

abbrev pub segment_flags : GdtEntry → ℕ
segment_flags e = e.granularity / 2 ^ 4

packed : (a b : ℕ) → a < 16 → b < 16 → bit_or a (b * 16) ≡ b * 16 + a
packed a b l m =
    let none : bit_or 0 b ≡ b = omega (arith, bit_or-disjoint 4 0 b m) in
    let zero_plus' : 0 * 2 ^ 4 + a ≡ a = omega arith in
    subst (λ x. bit_or x (b * 16) ≡ bit_or 0 b * 16 + a) zero_plus' (bit_or-shifted 4 0 b a l)
    ∙ ap (λ x. x * 16 + a) none

-- A descriptor that `gdt_set_gate` writes has the base, the low 20 bits of the limit, the access byte and
-- the flags that it was given, and the other descriptors are as they were.
pub gdt_set_gate_lem :
    (gdt : Gdt) (num base limit access gran : ℕ)
    → base < 2 ^ 32
    → gran < 2 ^ 8
    → let t = gdt_set_gate gdt num base limit access gran in
      (segment_base (t.entries num) ≡ base)
      × (segment_limit (t.entries num) ≡ limit % 2 ^ 20)
      × (segment_flags (t.entries num) ≡ gran / 2 ^ 4)
      × ((t.entries num).access ≡ access)
      × ((i : ℕ) → num ≢ i → t.entries i ≡ gdt.entries i)
unfolding gdt_set_gate
gdt_set_gate_lem gdt num base limit access gran l m =
    let word = packed (limit / 2 ^ 16 % 2 ^ 4) (gran / 2 ^ 4 % 2 ^ 4) (omega arith) (omega arith) in
    rw (update_self gdt.entries num, word)
      (omega arith, omega arith, omega arith, refl, λ i n. update_ne gdt.entries num i _ n)

abbrev pub gate_base : IdtEntry → ℕ
gate_base e = e.base_low + e.base_high * 2 ^ 16

-- the interrupts that the kernel handles, and their stubs
abbrev pub stub : (ℕ → ℕ) → (ℕ → ℕ) → ℕ → ℕ
stub isr irq n =
    if n == 0 || n == 6 || n == 8 || n == 13 || n == 14
    then isr n
    else if leb 32 n && ltb n 48
    then irq (n - 32)
    else 0

clear_gates_out : (idt : Idt) (i left n : ℕ) → n < i → clear_gates idt i left n ≡ idt n
unfolding clear_gates idt_set_gate
clear_gates_out idt i zero n l = refl
clear_gates_out idt i (suc left) n l =
    clear_gates_out (idt_set_gate idt i 0) (i + 1) left n (omega arith)
    ∙ update_ne idt i n _ (omega arith)

clear_gates_in :
    (idt : Idt) (i left n : ℕ) → i ≤ n → n < i + left → clear_gates idt i left n ≡ gate 0 0x8E
unfolding clear_gates idt_set_gate
clear_gates_in idt i zero n l m = absurd (omega arith)
clear_gates_in idt i (suc left) n l m = elim (ℕ_discrete i n) [
  | yes e ↦
      clear_gates_out (idt_set_gate idt i 0) (i + 1) left n (omega arith)
      ∙ rw e (update_self idt n _)
  | no d ↦ clear_gates_in (idt_set_gate idt i 0) (i + 1) left n (omega arith) (omega arith)
]

set_irqs_out :
    (idt : Idt) (irq : ℕ → ℕ) (i left n : ℕ)
    → (n < 32 + i) ⊎ (32 + i + left ≤ n)
    → set_irqs idt irq i left n ≡ idt n
unfolding set_irqs idt_set_gate
set_irqs_out idt irq i zero n l = refl
set_irqs_out idt irq i (suc left) n l =
    set_irqs_out (idt_set_gate idt (32 + i) (irq i)) irq (i + 1) left n (omega arith)
    ∙ update_ne idt (32 + i) n _ (omega arith)

set_irqs_in :
    (idt : Idt) (irq : ℕ → ℕ) (i left n : ℕ)
    → i ≤ n
    → n < i + left
    → set_irqs idt irq i left (32 + n) ≡ gate (irq n) 0x8E
unfolding set_irqs idt_set_gate
set_irqs_in idt irq i zero n l m = absurd (omega arith)
set_irqs_in idt irq i (suc left) n l m = elim (ℕ_discrete i n) [
  | yes e ↦
      set_irqs_out (idt_set_gate idt (32 + i) (irq i)) irq (i + 1) left (32 + n) (omega arith)
      ∙ rw e (update_self idt (32 + n) _)
  | no d ↦
      set_irqs_in (idt_set_gate idt (32 + i) (irq i)) irq (i + 1) left n (omega arith) (omega arith)
]

-- the table before the hardware interrupts
abbrev exceptions : Idt → (ℕ → ℕ) → Idt
exceptions idt isr =
    idt_set_gate
      (idt_set_gate
        (idt_set_gate (idt_set_gate (idt_set_gate (clear_gates idt 0 256) 0 (isr 0)) 6 (isr 6)) 8
          (isr 8))
        13 (isr 13))
      14 (isr 14)

module _ (idt : Idt) (isr irq : ℕ → ℕ) where
  abbrev IsFilled : ℕ → Type 0
  IsFilled n = exceptions idt isr n ≡ gate (stub isr irq n) 0x8E

  other_gate :
      (n : ℕ) → n < 256 → (n < 32) ⊎ (48 ≤ n) → n ≢ 0 → n ≢ 6 → n ≢ 8 → n ≢ 13 → n ≢ 14 → IsFilled n
  unfolding idt_set_gate
  other_gate n l o a b c d e =
      let chain : exceptions idt isr n ≡ clear_gates idt 0 256 n = ground arith in
      let nowhere : stub isr irq n ≡ 0 = ground arith in
      chain
      ∙ clear_gates_in idt 0 256 n (omega arith) (omega arith)
      ∙ ap (λ x. gate x 0x8E) (sym nowhere)

  exceptions-IsFilled : (n : ℕ) → n < 256 → (n < 32) ⊎ (48 ≤ n) → IsFilled n
  unfolding idt_set_gate
  exceptions-IsFilled n l o = elim (ℕ_discrete 0 n) [
    | yes e ↦ subst IsFilled e refl
    | no a ↦ elim (ℕ_discrete 6 n) [
      | yes e ↦ subst IsFilled e refl
      | no b ↦ elim (ℕ_discrete 8 n) [
        | yes e ↦ subst IsFilled e refl
        | no c ↦ elim (ℕ_discrete 13 n) [
          | yes e ↦ subst IsFilled e refl
          | no d ↦ elim (ℕ_discrete 14 n) [
            | yes e ↦ subst IsFilled e refl
            | no f ↦
                other_gate n l o (λ e. a (sym e)) (λ e. b (sym e)) (λ e. c (sym e)) (λ e. d (sym e))
                  (λ e. f (sym e))
          ]
        ]
      ]
    ]
  ]

  idt_init-gate : (n : ℕ) → n < 256 → idt_init idt isr irq n ≡ gate (stub isr irq n) 0x8E
  unfolding idt_init
  idt_init-gate n l = elim (dec_lt n 32) [
    | yes a ↦ set_irqs_out _ irq 0 16 n (omega arith) ∙ exceptions-IsFilled n l (omega arith)
    | no a ↦ elim (dec_lt n 48) [
      | no b ↦ set_irqs_out _ irq 0 16 n (omega arith) ∙ exceptions-IsFilled n l (omega arith)
      | yes b ↦
          let at : 32 + (n - 32) ≡ n = omega arith in
          let vector : stub isr irq n ≡ irq (n - 32) = ground arith in
          ap (set_irqs (exceptions idt isr) irq 0 16) (sym at)
          ∙ set_irqs_in _ irq 0 16 (n - 32) (omega arith) (omega arith)
          ∙ ap (λ x. gate x 0x8E) (sym vector)
    ]
  ]

-- After `idt_init` each of the 256 gates is an interrupt gate for ring 0, in the kernel's code segment.
-- The gates of the five exceptions and of the sixteen hardware interrupts lead to their stubs, the others
-- to address 0.
pub idt_init_lem :
    (idt : Idt) (isr irq : ℕ → ℕ) (n : ℕ)
    → ((m : ℕ) → isr m < 2 ^ 32)
    → ((m : ℕ) → irq m < 2 ^ 32)
    → n < 256
    → let t = idt_init idt isr irq n in
      (gate_base t ≡ stub isr irq n) × (t.flags ≡ 0x8E) × (t.selector ≡ 0x08)
idt_init_lem idt isr irq n a b l =
    let fits : stub isr irq n < 2 ^ 32 = ground (arith, a n, b (n - 32)) in
    rw (idt_init-gate idt isr irq n l) (omega (arith, fits), refl, refl)
