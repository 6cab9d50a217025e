-- ===== src/Kheap/Inv.antt =====
-- The invariant of kernel/mm/kheap.c: the blocks fill the heap, and the heap lies in mapped pages.
use orion_final.Base.{ℕ, ◌+◌, ◌/◌, ◌%◌, ◌≤◌, ◌<◌, ◌≡◌, List}
use orion_final.Vmm.{Vmm}
use orion_final.Vmm.Tables.{Present, walk}
use orion_final.Vmm.Inv.{Inv as VmmInv}
use orion_final.Kheap.{Words, Kheap, heap_start, heap_max}
use orion_final.Kheap.Blocks.{Block, Seg}
use orion_final.Kheap.Focus.{Ends, first_header}

-- The pages of the heap are mapped, up to `heap_virt_mapped`.
pub record Backed (v : Vmm) (mapped : ℕ) : Type 0 where
  pub tables : VmmInv v
  pub pages : mapped % 4096 ≡ 0
  pub ceiling : mapped ≤ heap_max
  pub present : (u : ℕ) → heap_start ≤ u → u < mapped → Present (walk v.memory v.page_directory u)

-- The heap consists of the blocks `xs`, between the prologue and the epilogue.
pub record IsHeap (s : Kheap) (xs : List Block) : Type 0 where
  pub listp : s.heap_listp ≡ heap_start + 8
  pub word : s.heap_brk % 4 ≡ 0
  pub blocks : Seg s.words first_header xs (s.heap_brk / 4)
  pub ends : Ends s.words (s.heap_brk / 4)
  pub within : s.heap_brk + 4 ≤ s.heap_virt_mapped
  pub backed : Backed s.vmm s.heap_virt_mapped

-- The words of the heap change, and its blocks.
pub IsHeap-words :
    (s : Kheap) (xs ys : List Block) (m : Words)
    → IsHeap s xs
    → Seg m first_header ys (s.heap_brk / 4)
    → Ends m (s.heap_brk / 4)
    → IsHeap (record s { words = m }) ys
IsHeap-words s xs ys m h b e = record {
  listp = h.listp;
  word = h.word;
  blocks = b;
  ends = e;
  within = h.within;
  backed = h.backed;
}
