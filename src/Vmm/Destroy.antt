-- ===== src/Vmm/Destroy.antt =====
-- `vmm_destroy_address_space` of kernel/mm/vmm.c: which frames it gives back.
use orion_final.Base.{
  ℕ, zero, suc, ◌+◌, ◌/◌, ◌%◌, ◌^◌, ◌≤◌, ◌<◌, ◌≡◌, refl, sym, ◌∙◌, ◌≢◌, ◌⊎◌, inl, inr, arith, ◌==◌,
  ◌||◌, if◌then◌else◌, ℕ_discrete, Bool, false,
}
use mathlib.Core.Path.{subst}
use orion_final.Bitmap.{bitmap_test}
use orion_final.Bitmap.Laws.{test-clear_self, test-clear_ne}
use orion_final.Pmm.{Pmm, free_frame}
use orion_final.Pmm.Inv.{Inv as PmmInv, free_frame-Inv}
use orion_final.Vmm.{
  Vmm, Memory, has_flag, vmm_present, entry, page_address, free_pages, free_tables,
  vmm_destroy_address_space,
}
use orion_final.Vmm.Tables.{Present, Present-cases, has_flag-Present, has_flag-absent}

-- `q` is `p` with the frames of `Owned` given back, frame 0 excepted, and no other.
pub record Frees (p q : Pmm) (Owned : ℕ → Type 0) : Type 0 where
  pub freed : (g : ℕ) → Owned g → g ≢ 0 → bitmap_test q.bitmap g ≡ 0
  pub kept : (g : ℕ) → ¬ Owned g → bitmap_test q.bitmap g ≡ bitmap_test p.bitmap g
  pub stays : (g : ℕ) → bitmap_test p.bitmap g ≡ 0 → bitmap_test q.bitmap g ≡ 0
  pub inv : PmmInv p → PmmInv q

Frees-none : (p : Pmm) (Owned : ℕ → Type 0) → ((g : ℕ) → ¬ Owned g) → Frees p p Owned
Frees-none p Owned n = record {
  freed = λ g o. absurd (n g o);
  kept = λ g o. refl;
  stays = λ g e. e;
  inv = λ v. v;
}

Frees-then :
    (p q r : Pmm) (A B C : ℕ → Type 0)
    → ((g : ℕ) → C g → A g ⊎ B g)
    → ((g : ℕ) → A g → C g)
    → ((g : ℕ) → B g → C g)
    → Frees p q A
    → Frees q r B
    → Frees p r C
Frees-then p q r A B C f a b h k = record {
  freed = λ g c n. elim (f g c) [ inl x ↦ k.stays g (h.freed g x n) | inr y ↦ k.freed g y n ];
  kept = λ g n. k.kept g (λ y. n (b g y)) ∙ h.kept g (λ x. n (a g x));
  stays = λ g e. k.stays g (h.stays g e);
  inv = λ v. k.inv (h.inv v);
}

Frees-iff :
    (p q : Pmm) (A B : ℕ → Type 0)
    → ((g : ℕ) → A g → B g)
    → ((g : ℕ) → B g → A g)
    → Frees p q A
    → Frees p q B
Frees-iff p q A B f b h = record {
  freed = λ g y n. h.freed g (b g y) n;
  kept = λ g n. h.kept g (λ x. n (f g x));
  stays = h.stays;
  inv = h.inv;
}

free_frame-Frees :
    (p : Pmm) (a : ℕ) → a < 2 ^ 32 → Frees p (free_frame p (page_address a)) (λ g. g ≡ a / 4096)
unfolding free_frame
free_frame-Frees p a l =
    let at : page_address a / 2 ^ 12 ≡ a / 4096 = omega arith in
    record {
      freed = λ g e n. rw at (ground (arith, e, n, test-clear_self p.bitmap (a / 4096)));
      kept = λ g n. rw at (ground (arith, n, test-clear_ne p.bitmap (a / 4096) g));
      stays = λ g e. rw at (
          ground
            (arith, e, test-clear_self p.bitmap (a / 4096), test-clear_ne p.bitmap (a / 4096) g));
      inv = λ v. free_frame-Inv p (page_address a) v (omega arith);
    }

-- One of the `left` numbers from `j` on is in `P`.
abbrev pub Among : ℕ → ℕ → (ℕ → Type 0) → Type 0
Among j left P = (k : ℕ) × (j ≤ k) × (k < j + left) × P k

among_first : (P : ℕ → Type 0) (j left : ℕ) → Among j (suc left) P → P j ⊎ Among (j + 1) left P
among_first P j left (k, a, b, c) = elim (ℕ_discrete j k) [
  | yes e ↦ inl (subst P (sym e) c)
  | no n ↦ inr (k, omega arith, omega arith, c)
]

first_among : (P : ℕ → Type 0) (j left : ℕ) → P j → Among j (suc left) P
first_among P j left c = (j, omega arith, omega arith, c)

rest_among : (P : ℕ → Type 0) (j left : ℕ) → Among (j + 1) left P → Among j (suc left) P
rest_among P j left (k, a, b, c) = (k, omega arith, omega arith, c)

-- The loop frees for `j`, and then for the rest.
Frees-loop :
    (p q r : Pmm) (j left : ℕ) (P : ℕ → ℕ → Type 0)
    → Frees p q (λ g. P g j)
    → Frees q r (λ g. Among (j + 1) left (P g))
    → Frees p r (λ g. Among j (suc left) (P g))
Frees-loop p q r j left P =
    Frees-then p q r (λ g. P g j) (λ g. Among (j + 1) left (P g)) (λ g. Among j (suc left) (P g))
      (λ g. among_first (P g) j left) (λ g. first_among (P g) j left) (λ g. rest_among (P g) j left)

-- Entry `k` of the page table is present and is that of the frame `g`.
abbrev pub IsPage : Memory → ℕ → ℕ → ℕ → Type 0
IsPage memory pt g k = Present (entry memory pt k) × (g ≡ entry memory pt k / 4096)

-- Entry `k` of the page directory has a page table, which occupies the frame `g` or has a page there.
abbrev pub IsTable : Memory → ℕ → ℕ → ℕ → Type 0
IsTable memory pd g k =
    Present (entry memory pd k)
    × ((g ≡ entry memory pd k / 4096)
        ⊎ Among 0 1024 (IsPage memory (page_address (entry memory pd k)) g))

module _ (memory : Memory) (words : (w : ℕ) → memory w < 2 ^ 32) where
  free_pages-Frees :
      (left : ℕ) (p : Pmm) (pt j : ℕ)
      → Frees p (free_pages memory p pt j left) (λ g. Among j left (IsPage memory pt g))
  unfolding free_pages
  free_pages-Frees zero p pt j = Frees-none p _ (λ g h. omega (arith, h.1, h.2))
  free_pages-Frees (suc left) p pt j =
      Frees-loop p _ _ j left (IsPage memory pt) (first (Present-cases (entry memory pt j)))
        (free_pages-Frees left _ pt (j + 1))
    where
      first :
          (entry memory pt j % 2 ≡ 0) ⊎ Present (entry memory pt j)
          → Frees p
              (if has_flag (entry memory pt j) vmm_present
                then free_frame p (page_address (entry memory pt j))
                else p)
              (λ g. IsPage memory pt g j)
      first (inl a) = rw (has_flag-absent _ a) (Frees-none p _ (λ g h. omega (arith, a, h.0)))
      first (inr b) =
          rw (has_flag-Present _ b)
            (Frees-iff p _ _ _ (λ g e. (b, e)) (λ g h. h.1) (free_frame-Frees p _ (words _)))

  free_tables-Frees :
      (left : ℕ) (p : Pmm) (pd i : ℕ)
      → Frees p (free_tables memory p pd i left) (λ g. Among i left (IsTable memory pd g))
  unfolding free_tables
  free_tables-Frees zero p pd i = Frees-none p _ (λ g h. omega (arith, h.1, h.2))
  free_tables-Frees (suc left) p pd i =
      Frees-loop p _ _ i left (IsTable memory pd) (first (Present-cases (entry memory pd i)))
        (free_tables-Frees left _ pd (i + 1))
    where
      pt : ℕ
      pt = page_address (entry memory pd i)

      first :
          (entry memory pd i % 2 ≡ 0) ⊎ Present (entry memory pd i)
          → Frees p
              (if has_flag (entry memory pd i) vmm_present
                then free_frame
                    (free_pages memory p (page_address (entry memory pd i)) 0 1024)
                    (page_address (entry memory pd i))
                else p)
              (λ g. IsTable memory pd g i)
      first (inl a) = rw (has_flag-absent _ a) (Frees-none p _ (λ g h. omega (arith, a, h.0)))
      first (inr b) = rw (has_flag-Present _ b) (
          Frees-then p _ _ _ _ _ (λ g h. elim (h.1) [ inl e ↦ inr e | inr k ↦ inl k ])
            (λ g k. (b, inr k)) (λ g e. (b, inl e)) (free_pages-Frees 1024 p _ 0)
            (free_frame-Frees _ _ (words _)))

if_false : (b : Bool) (s t : Vmm) → b ≡ false → (if b then s else t).pmm ≡ t.pmm
if_false b s t e = rw e refl

-- `vmm_destroy_address_space` of an address space that is not the kernel's gives back the page tables
-- of the page directory but the first, and the pages in them, and no other frame, and keeps the frame
-- allocator's invariant; so it does not give back the page directory itself, unless it stands in one
-- of its own tables.
pub vmm_destroy_address_space_lem :
    (s : Vmm) (pd : ℕ)
    → ((w : ℕ) → s.memory w < 2 ^ 32)
    → pd ≢ 0
    → pd ≢ s.kernel_pd_phys
    → Frees s.pmm (vmm_destroy_address_space s pd).pmm (λ g. Among 1 1023 (IsTable s.memory pd g))
unfolding vmm_destroy_address_space
vmm_destroy_address_space_lem s pd words n m =
    let guard : (pd == 0 || pd == s.kernel_pd_phys) ≡ false = ground arith in
    subst (λ q. Frees s.pmm q (λ g. Among 1 1023 (IsTable s.memory pd g)))
      (sym (if_false _ s (record s { pmm = free_tables s.memory s.pmm pd 1 1023 }) guard))
      (free_tables-Frees s.memory words 1023 s.pmm pd 1)
