-- ===== src/Proc/Frame.antt =====
-- The stack frame of a process that has not run yet, and the bounds of its time slice.
use orion_final.Base.{
  ℕ, zero, suc, ◌+◌, ◌*◌, ◌^◌, ◌≤◌, ◌<◌, ◌≡◌, refl, ap, ◌∙◌, arith, List, [], ◌∷◌, some, length,
  get_elem?, get_elem?-replicate, replicate, ◌++◌,
}
use orion_final.Base.Update.{update}
use orion_final.Base.Words.{u32}
use orion_final.Kernel.{Kernel}
use orion_final.Proc.{frame_words, store_words, proc_init_frame, timeslice_for}

-- A word below the place where the stores begin is kept.
store_words_below :
    (m : ℕ → ℕ) (at a : ℕ) (ws : List ℕ)
    → a < at
    → at + 4 * length ws ≤ 2 ^ 32
    → store_words m at ws a ≡ m a
unfolding store_words
store_words_below m at a [] l h = refl
store_words_below m at a (w ∷ []) l h = ground arith
store_words_below m at a (w ∷ x ∷ ws) l h =
    let next : u32 (at + 4) ≡ at + 4 = omega arith in
    rw next (
      store_words_below (update m at w) (at + 4) a (x ∷ ws) (omega arith) (omega arith)
      ∙ ground arith)

store_words_at :
    (m : ℕ → ℕ) (at i w : ℕ) (ws : List ℕ)
    → get_elem? ws i ≡ some w
    → at + 4 * length ws ≤ 2 ^ 32
    → store_words m at ws (at + 4 * i) ≡ w
unfolding store_words
store_words_at m at i w [] e h = cc
store_words_at m at zero w (x ∷ []) e h = ground arith
store_words_at m at zero w (x ∷ y ∷ ws) e h =
    let next : u32 (at + 4) ≡ at + 4 = omega arith in
    let here : at + 4 * 0 ≡ at = omega arith in
    rw (next, here)
      (store_words_below (update m at x) (at + 4) at (y ∷ ws) (omega arith) (omega arith)
        ∙ ground arith)
store_words_at m at (suc i) w (x ∷ []) e h = cc
store_words_at m at (suc i) w (x ∷ y ∷ ws) e h =
    let next : u32 (at + 4) ≡ at + 4 = omega arith in
    let there : at + 4 * suc i ≡ at + 4 + 4 * i = omega arith in
    rw (next, there) (store_words_at (update m at x) (at + 4) i w (y ∷ ws) e (omega arith))

-- the places of a frame that the interrupt stubs of irq.asm restore, counted in words from esp
abbrev frame_eip : ℕ
frame_eip = 14

abbrev frame_cs : ℕ
frame_cs = 15

abbrev frame_eflags : ℕ
frame_eflags = 16

segments : (entry i : ℕ) → i < 4 → get_elem? (frame_words entry) i ≡ some 0x10
unfolding frame_words
segments entry i l = get_elem?-replicate 4 i 0x10 (replicate 10 0 ++ (entry ∷ 0x08 ∷ 0x202 ∷ [])) l

zeros : (entry i : ℕ) → 4 ≤ i → i < 14 → get_elem? (frame_words entry) i ≡ some 0
unfolding frame_words
zeros entry (suc (suc (suc (suc i)))) l h =
    get_elem?-replicate 10 i 0 (entry ∷ 0x08 ∷ 0x202 ∷ []) (omega arith)
zeros entry zero l h = absurd (omega arith)
zeros entry (suc zero) l h = absurd (omega arith)
zeros entry (suc (suc zero)) l h = absurd (omega arith)
zeros entry (suc (suc (suc zero))) l h = absurd (omega arith)

module _ {R : Type 0} (k : Kernel R) (p entry : ℕ) where
  frame_sp :
      68 ≤ (k.procs p).kstack_top
      → (k.procs p).kstack_top < 2 ^ 32
      → ((proc_init_frame k p entry).procs p).esp_kernel + 68 ≡ (k.procs p).kstack_top
  unfolding proc_init_frame
  frame_sp l h = ground arith

  frame_memory :
      68 ≤ (k.procs p).kstack_top
      → (k.procs p).kstack_top < 2 ^ 32
      → (proc_init_frame k p entry).memory
        ≡ store_words k.memory ((proc_init_frame k p entry).procs p).esp_kernel (frame_words entry)
  unfolding proc_init_frame
  frame_memory l h = ground arith

  frame_word :
      68 ≤ (k.procs p).kstack_top
      → (k.procs p).kstack_top < 2 ^ 32
      → (i w : ℕ) → get_elem? (frame_words entry) i ≡ some w
      → (proc_init_frame k p entry).memory
          (((proc_init_frame k p entry).procs p).esp_kernel + 4 * i)
        ≡ w
  frame_word l h i w e =
      let sp : ℕ = ((proc_init_frame k p entry).procs p).esp_kernel in
      ap (λ m. m (sp + 4 * i)) (frame_memory l h)
      ∙ store_words_at k.memory sp i w (frame_words entry) e
          (unfold frame_words in omega (arith, frame_sp l h))

-- `proc_init_frame` builds, just below the top of the kernel stack, the frame that the interrupt
-- stub pops: at `esp_kernel` the 4 segment registers (0x10), above them 8 general registers and 2
-- words to skip (0), then the entry point, the kernel's code segment, and the flags with interrupts
-- on.
pub proc_init_frame_lem :
    {R : Type 0} (k : Kernel R) (p entry : ℕ)
    → 68 ≤ (k.procs p).kstack_top
    → (k.procs p).kstack_top < 2 ^ 32
    → let k' = proc_init_frame k p entry in
      let sp = (k'.procs p).esp_kernel in
      (sp + 68 ≡ (k.procs p).kstack_top)
      × ((i : ℕ) → i < 4 → k'.memory (sp + 4 * i) ≡ 0x10)
      × ((i : ℕ) → 4 ≤ i → i < 14 → k'.memory (sp + 4 * i) ≡ 0)
      × (k'.memory (sp + 4 * frame_eip) ≡ entry)
      × (k'.memory (sp + 4 * frame_cs) ≡ 0x08)
      × (k'.memory (sp + 4 * frame_eflags) ≡ 0x202)
proc_init_frame_lem k p entry l h = (
  frame_sp k p entry l h,
  λ i a. frame_word k p entry l h i 0x10 (segments entry i a),
  λ i a b. frame_word k p entry l h i 0 (zeros entry i a b),
  frame_word k p entry l h frame_eip entry (unfold frame_words in refl),
  frame_word k p entry l h frame_cs 0x08 (unfold frame_words in refl),
  frame_word k p entry l h frame_eflags 0x202 (unfold frame_words in refl),
)

-- The time slice of a new process lies between 7 and 18 ticks, and a better priority never gets a
-- shorter one.
pub timeslice_bounds :
    (p q : ℕ)
    → p ≤ q
    → q ≤ 31
    → (7 ≤ timeslice_for q) × (timeslice_for q ≤ timeslice_for p) × (timeslice_for p ≤ 18)
unfolding timeslice_for
timeslice_bounds p q l m = ground arith
