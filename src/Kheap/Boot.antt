-- ===== src/Kheap/Boot.antt =====
-- `kheap_init` of kernel/mm/kheap.c.
use mathlib.Core.Bool.{true≢false}
use mathlib.Core.Path.{subst}
use orion_final.Base.{
  ℕ, ◌+◌, ◌*◌, ◌/◌, ◌%◌, ◌^◌, ◌≤◌, ◌≡◌, ◌≢◌, refl, ap, ◌∙◌, ◌⊎◌, inl, inr, arith, ◌==◌, Bool, true,
  false, ne→eqb, eq→eqb, if◌then◌else◌, List, [], ◌∷◌, ◌++◌, Option, some, none, ℕ_discrete,
}
use orion_final.Pmm.{alloc_frame}
use orion_final.Vmm.{Vmm, entry, pd_index, vmm_kernel_rw}
use orion_final.Vmm.Inv.{Inv as VmmInv, Exhausted, alloc_frame-VmmInv}
use orion_final.Vmm.Mapping.{Maps, vmm_map_page_lem}
use orion_final.Kheap.{Words, Kheap, heap_start, kheap_init, start_heap, lay_out, pack}
use orion_final.Kheap.Blocks.{Block, free_block, Seg}
use orion_final.Kheap.Tags.{payload, pack-used}
use orion_final.Kheap.Inv.{IsHeap}
use orion_final.Kheap.Neighbours.{Merges, neither, behind, before, both}
use orion_final.Kheap.Grow.{Extends, panicked, no_memory, extended, extend_heap_lem}

-- The heap before its first block.
abbrev empty_heap : Words → Vmm → Kheap
empty_heap m t = record {
  words = lay_out m;
  heap_listp = heap_start + 8;
  heap_brk = heap_start + 12;
  heap_virt_mapped = heap_start + 4096;
  vmm = t;
}

empty_heap-IsHeap :
    (m : Words) (v : Vmm) (phys : ℕ) (t : Vmm)
    → Maps v heap_start (phys / 4096 * 4096 + (3 / 2 * 2 + 1)) t
    → IsHeap (empty_heap m t) []
unfolding lay_out Seg
empty_heap-IsHeap m v phys t w =
    let nine : pack 8 1 ≡ 9 = pack-used 8 refl in
    let one : pack 0 1 ≡ 1 = pack-used 0 refl in
    record {
      listp = refl;
      word = refl;
      blocks = refl;
      ends = record {
        prologue_header = nine;
        prologue_footer = nine;
        epilogue = one;
        below = omega arith;
      };
      within = omega arith;
      backed = record {
        tables = w.inv;
        pages = omega arith;
        ceiling = omega arith;
        present = λ u p q. ground (arith, w.walks u (omega arith));
      };
    }

is_empty : List Block → Bool
is_empty [] = true
is_empty (x ∷ xs) = false

not_empty : (ws : List Block) (p : Block) (zs : List Block) → is_empty (ws ++ p ∷ zs) ≡ false
unfolding is_empty
not_empty [] p zs = refl
not_empty (w ∷ ws) p zs = refl

empty_ne : (ws : List Block) (p : Block) (zs : List Block) → [] ≢ ws ++ p ∷ zs
unfolding is_empty
empty_ne ws p zs e = true≢false (ap is_empty e ∙ not_empty ws p zs)

-- A block alone in the heap is not merged.
Merges-alone :
    (b : Block) (ws : List Block) (c : Block) (ys : List Block)
    → Merges [] b [] ws c ys
    → ws ++ c ∷ ys ≡ b ∷ []
Merges-alone b ws c ys (neither _ _ e f g) = rw (e, f, g) refl
Merges-alone b ws c ys (behind _ n e _ _ _) = absurd (empty_ne [] n ys e)
Merges-alone b ws c ys (before p e _ _ _ _) = absurd (empty_ne ws p [] e)
Merges-alone b ws c ys (both p n e _ _ _ _) = absurd (empty_ne ws p [] e)

-- A panic, or the heap with one free block of 64 KB.
abbrev pub Starts : Option (Option Kheap) → Type 0
Starts r = (r ≡ some none) ⊎ ((t : Kheap) × (r ≡ some (some t)) × IsHeap t (free_block 65536 ∷ []))

start_heap_lem :
    (m : Words) (t : Vmm) (fuel : ℕ)
    → IsHeap (empty_heap m t) []
    → 2 ^ 20 ≤ fuel
    → Starts (start_heap m t fuel)
unfolding start_heap
start_heap_lem m t fuel h f =
    by_end _ (extend_heap_lem (empty_heap m t) [] 65536 fuel h refl (omega arith) (omega arith) f)
  where
    by_end :
        (r : Option (Option (ℕ × Kheap)))
        → Extends (empty_heap m t) [] 65536 r
        → Starts (elim r [
          | none ↦ none
          | some none ↦ some none
          | some (some (bp, u)) ↦ if bp == 0 then some none else some (some u)
        ])
    by_end r (panicked _) = inl refl
    by_end r (no_memory u _ _) = inl refl
    by_end r (extended u ws c ys k i g j) =
        rw (ne→eqb (payload k) 0 (omega arith))
          (inr (u, refl, subst (λ xs. IsHeap u xs) (Merges-alone (free_block 65536) ws c ys i) g))

-- With the page tables well formed and fuel of 2 ^ 20, `kheap_init` ends: it panics, or it leaves a
-- well-formed heap that consists of one free block of 64 KB.
pub kheap_init_lem :
    (s : Kheap) (fuel : ℕ)
    → VmmInv s.vmm
    → 2 ^ 20 ≤ fuel
    → (kheap_init s fuel ≡ some none)
      ⊎ ((t : Kheap) × (kheap_init s fuel ≡ some (some t)) × IsHeap t (free_block 65536 ∷ []))
unfolding kheap_init
kheap_init_lem s fuel v f = elim (ℕ_discrete (alloc_frame s.vmm.pmm).0 0) [
  | yes e ↦ rw (eq→eqb _ 0 e) (inl refl)
  | no n ↦ rw (ne→eqb _ 0 n) (
      by_map _ (
        vmm_map_page_lem _ heap_start (alloc_frame s.vmm.pmm).0 vmm_kernel_rw
          (alloc_frame-VmmInv s.vmm v) (omega arith) (omega arith)))
]
  where
    by_map :
        (r : Option Vmm)
        → ((r ≡ none)
            × (entry s.vmm.memory s.vmm.page_directory (pd_index heap_start) % 2 ≡ 0)
            × Exhausted (alloc_frame s.vmm.pmm).1)
          ⊎ ((t : Vmm) × (r ≡ some t)
              × Maps
                  (record s.vmm { pmm = (alloc_frame s.vmm.pmm).1 })
                  heap_start
                  ((alloc_frame s.vmm.pmm).0 / 4096 * 4096 + (vmm_kernel_rw / 2 * 2 + 1))
                  t)
        → Starts (elim r [ none ↦ some none | some t ↦ start_heap s.words t fuel ])
    by_map r (inl (e, _, _)) = rw e (inl refl)
    by_map r (inr (t, e, w)) =
        rw e (start_heap_lem s.words t fuel (empty_heap-IsHeap s.words _ _ t w) f)
