-- ===== src/Descriptors/Dispatch.antt =====
-- The dispatch of hardware interrupts by kernel/arch/x86/irq.c.
use orion_final.Base.{
  ℕ, ◌+◌, ◌-◌, ◌^◌, ◌<◌, ◌≡◌, refl, sym, ap, Bool, ◌∙◌, arith, ◌==◌, ltb, true, false,
  if◌then◌else◌, List, [], ◌∷◌, Option, none, some,
}
use orion_final.Base.Words.{u8}
use orion_final.Descriptors.{
  Handlers, Action, call, outb, pic_eoi, irq_install_handler, irq_uninstall_handler, irq_handler,
}

-- what the dispatcher does for the handler of `irq`, if there is one
abbrev pub serve : Option ℕ → ℕ → List Action
serve handler irq = elim handler [ some h ↦ call h ∷ pic_eoi irq | none ↦ pic_eoi irq ]

irq_handler-serve :
    (handlers : Handlers) (irq : ℕ)
    → irq < 16
    → irq_handler handlers (32 + irq) ≡ serve (handlers irq) irq
unfolding irq_handler
irq_handler-serve handlers irq l =
    let number : u8 (32 + irq + 2 ^ 32 - 32) ≡ irq = omega arith in
    let below : ltb irq 16 ≡ true = ground arith in
    ap {A = ℕ} (λ i. if ltb i 16 then serve (handlers i) i else []) number ∙ rw below refl

serve-if :
    (b : Bool) (handler : Option ℕ) (handlers : Handlers) (k : ℕ)
    → serve (if b then handler else handlers k) k
      ≡ (if b then serve handler k else serve (handlers k) k)
serve-if true handler handlers k = refl
serve-if false handler handlers k = refl

-- The table `t` has `handler` for `irq`, and is otherwise `handlers`.
served :
    (handlers t : Handlers) (irq k : ℕ) (handler : Option ℕ)
    → k < 16
    → t k ≡ (if irq == k then handler else handlers k)
    → irq_handler t (32 + k) ≡ (if irq == k then serve handler k else irq_handler handlers (32 + k))
served handlers t irq k handler l e =
    irq_handler-serve t k l
    ∙ ap (λ o. serve o k) e
    ∙ serve-if (irq == k) handler handlers k
    ∙ ap (λ a. if irq == k then serve handler k else a) (sym (irq_handler-serve handlers k l))

-- After `irq_install_handler` a hardware interrupt of that number calls the handler and then
-- acknowledges the interrupt, to the second controller first if it came from there; after
-- `irq_uninstall_handler` it only acknowledges. Every other interrupt is served as before. A number
-- above 15 changes nothing.
pub irq_handler-irq_install_handler :
    (handlers : Handlers) (irq handler k : ℕ)
    → k < 16
    → (irq_handler (irq_install_handler handlers irq handler) (32 + k)
        ≡ (if irq == k then call handler ∷ pic_eoi k else irq_handler handlers (32 + k)))
      × (irq_handler (irq_uninstall_handler handlers irq) (32 + k)
          ≡ (if irq == k then pic_eoi k else irq_handler handlers (32 + k)))
      × (15 < irq
          → (irq_install_handler handlers irq handler ≡ handlers)
            × (irq_uninstall_handler handlers irq ≡ handlers))
      × (pic_eoi k
          ≡ (if ltb k 8 then outb 0x20 0x20 ∷ [] else outb 0xA0 0x20 ∷ outb 0x20 0x20 ∷ []))
unfolding irq_install_handler irq_uninstall_handler pic_eoi
irq_handler-irq_install_handler handlers irq handler k l = (
  served handlers (irq_install_handler handlers irq handler) irq k (some handler) l (ground arith),
  served handlers (irq_uninstall_handler handlers irq) irq k none l (ground arith),
  λ h. (ground arith, ground arith),
  ground arith,
)
