-- ===== src/Kheap/Grow.antt =====
-- `extend_heap` of kernel/mm/kheap.c on the list of blocks.
use mathlib.Core.Path.{subst}
use orion_final.Base.{
  ℕ, ◌+◌, ◌/◌, ◌%◌, ◌^◌, ◌≤◌, ◌≡◌, sym, ◌∙◌, arith, List, [], ◌∷◌, ◌++◌, Option, some, none,
}
use orion_final.Base.Words.{u32}
use orion_final.Kheap.{Kheap, Mapped, wsize, extend_heap, append_block, done, failed}
use orion_final.Kheap.Blocks.{Block, free_block, Seg-le}
use orion_final.Kheap.Tags.{payload}
use orion_final.Kheap.Focus.{first_header, Focus}
use orion_final.Kheap.Neighbours.{Merges}
use orion_final.Kheap.Inv.{IsHeap}
use orion_final.Kheap.Extend.{
  Grows, Full, Tableless, Ensures, panics, fails, maps, ensure_mapped_lem,
}
use orion_final.Kheap.Append.{append_block-Appended}

-- How `extend_heap` ends: with a panic, without memory, or with a free block of at least `size` bytes
-- at the end of the heap.
pub data Extends (s : Kheap) (xs : List Block) (size : ℕ)
    : Option (Option (ℕ × Kheap)) → Type 0 where
  panicked : Tableless s → Extends s xs size (some none)
  no_memory : (t : Kheap) → IsHeap t xs → Full t → Extends s xs size (some (some (0, t)))
  extended :
      (t : Kheap) (ws : List Block) (c : Block) (ys : List Block) (k : ℕ)
      → Merges xs (free_block size) [] ws c ys
      → IsHeap t (ws ++ c ∷ ys)
      → Focus t.words (t.heap_brk / 4) ws k c ys
      → Extends s xs size (some (some (payload k, t)))

Grows-IsHeap : (s t : Kheap) (xs : List Block) → IsHeap s xs → Grows s t → IsHeap t xs
Grows-IsHeap s t xs h g = record {
  listp = g.listp ∙ h.listp;
  word = omega (arith, g.brk, h.word);
  blocks = rw (g.words, g.brk) h.blocks;
  ends = rw (g.words, g.brk) h.ends;
  within = omega (arith, g.brk, g.more, h.within);
  backed = g.backed;
}

pub extend_heap_lem :
    (s : Kheap) (xs : List Block) (size fuel : ℕ)
    → IsHeap s xs
    → size % 8 ≡ 0
    → 16 ≤ size
    → size ≤ 2 ^ 31 + 16
    → 2 ^ 20 ≤ fuel
    → Extends s xs size (extend_heap s size fuel)
unfolding extend_heap
extend_heap_lem s xs size fuel h d l m f =
    let end : u32 (s.heap_brk + size + wsize) ≡ s.heap_brk + size + 4 =
      omega (arith, h.within, h.backed.ceiling) in
    let high : first_header ≤ s.heap_brk / 4 = Seg-le s.words first_header xs _ h.blocks in
    by_end _ (
      ensure_mapped_lem fuel s (u32 (s.heap_brk + size + wsize)) h.backed
        (omega (arith, h.within, high)) (omega (arith, h.within, h.backed.ceiling, end)))
  where
    by_end :
        (r : Option (Option (Mapped × Kheap)))
        → Ensures s (u32 (s.heap_brk + size + wsize)) r
        → Extends s xs size (elim r [
          | none ↦ none
          | some none ↦ some none
          | some (some (failed, t)) ↦ some (some (0, t))
          | some (some (done, t)) ↦ some (some (append_block t size))
        ])
    by_end r (panics n) = panicked n
    by_end r (fails t g q) = no_memory t (Grows-IsHeap s t xs h g) q
    by_end r (maps t g e) =
        let a =
          append_block-Appended t xs size (Grows-IsHeap s t xs h g) d l
            (omega (arith, e, g.brk, h.within, h.backed.ceiling)) in
        subst (λ p. Extends s xs size (some (some (p, (append_block t size).1)))) (sym a.result)
          (extended _ a.ws a.merged a.ys a.at a.merges a.heap a.focus)
