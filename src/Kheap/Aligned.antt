-- ===== src/Kheap/Aligned.antt =====
-- `kmalloc_aligned` and `kfree_aligned` of kernel/mm/kheap.c.
use mathlib.Core.Path.{subst}
use orion_final.Base.{
  ℕ, ◌+◌, ◌*◌, ◌/◌, ◌%◌, ◌^◌, ◌≤◌, ◌<◌, ◌≡◌, refl, ap, sym, List, ◌∷◌, ◌++◌, arith, Option, some,
  none, ne→eqb, if◌then◌else◌, ◌==◌,
}
use orion_final.Base.Words.{u32, sub32}
use orion_final.Base.Update.{update_self}
use orion_final.Kheap.{
  Kheap, page_size, wsize, put, get, aligned_in, kmalloc, kfree, kmalloc_aligned, kfree_aligned,
  block_size,
}
use orion_final.Kheap.Blocks.{Block, used_block, Seg-le}
use orion_final.Kheap.Tags.{payload}
use orion_final.Kheap.Focus.{first_header, Focus}
use orion_final.Kheap.Inv.{IsHeap}
use orion_final.Kheap.Alloc.{
  Allocated, Allocates, first, fresh, exhausted, failed_table, kmalloc_lem,
}

-- The heap with the pointer to the block in front of the aligned address.
abbrev noted : Kheap → ℕ → Kheap
noted t raw = record t { words = put t.words (sub32 (aligned_in raw) wsize) raw }

-- What `kmalloc_aligned` does: it returns an address at a page's boundary; the word before it and the
-- `size` bytes behind it are inside the payload of a block in use of the heap, which `kmalloc` gave; and
-- `kfree_aligned` of the address frees that block. Or `kmalloc` returns the null pointer, or panics.
pub data AlignedOutcome (s : Kheap) (size fuel : ℕ) : Option (Option (ℕ × Kheap)) → Type 0 where
  gives :
      (p n k : ℕ) (us rest : List Block) (t u : Kheap)
      → kmalloc s (size + 4100) fuel ≡ some (some (payload k, t))
      → IsHeap t (us ++ used_block n ∷ rest)
      → Focus t.words (t.heap_brk / 4) us k (used_block n) rest
      → p % 4096 ≡ 0
      → payload k + 4 ≤ p
      → p + size + 8 ≤ payload k + n
      → kfree_aligned u p ≡ kfree u (payload k)
      → AlignedOutcome s size fuel (some (some (p, u)))
  gives_null :
      (t : Kheap)
      → kmalloc s (size + 4100) fuel ≡ some (some (0, t))
      → AlignedOutcome s size fuel (some (some (0, t)))
  halts : kmalloc s (size + 4100) fuel ≡ some none → AlignedOutcome s size fuel (some none)

abbrev aligned_result : Option (Option (ℕ × Kheap)) → Option (Option (ℕ × Kheap))
aligned_result o = elim o [
  | none ↦ none
  | some none ↦ some none
  | some (some (r, u)) ↦ some (some (if r == 0 then (0, u) else (aligned_in r, noted u r)))
]

kmalloc_aligned-eq :
    (s : Kheap) (size fuel : ℕ)
    → size + 4100 < 2 ^ 32
    → kmalloc_aligned s size fuel ≡ aligned_result (kmalloc s (size + 4100) fuel)
unfolding kmalloc_aligned
kmalloc_aligned-eq s size fuel l =
    let whole : u32 (size + page_size + wsize) ≡ size + 4100 = omega arith in
    ap (λ n. aligned_result (kmalloc s n fuel)) whole

block_gives :
    (s : Kheap) (size fuel asize k : ℕ) (us : List Block) (b : Block) (zs : List Block) (t : Kheap)
    → size + 4108 ≤ asize
    → kmalloc s (size + 4100) fuel ≡ some (some (payload k, t))
    → Allocated us b zs asize k t
    → AlignedOutcome s size fuel (aligned_result (some (some (payload k, t))))
unfolding kfree_aligned
block_gives s size fuel asize k us b zs t large e a =
    let low = Seg-le t.words first_header us k a.focus.left in
    let high = Seg-le t.words (k + a.size / 4) a.rest (t.heap_brk / 4) a.focus.right in
    let raw : ℕ = payload k in
    let below : raw < 2 ^ 31 = omega (arith, low, high, a.heap.ends.below) in
    let at : aligned_in raw ≡ (raw + 4099) / 4096 * 4096 = omega arith in
    let back : get (noted t raw).words (sub32 (aligned_in raw) wsize) ≡ raw =
      update_self t.words (sub32 (aligned_in raw) wsize / 4) raw in
    rw (ne→eqb raw 0 (omega arith)) (
      gives (aligned_in raw) a.size k us a.rest t (noted t raw) e a.heap a.focus (omega (arith, at))
        (omega (arith, at)) (omega (arith, at, large, a.enough))
        (rw (ne→eqb (aligned_in raw) 0 (omega (arith, at))) (ap (kfree (noted t raw)) back)))

-- `kmalloc_aligned` of up to 2 ^ 31 - 4100 bytes on a well-formed heap returns the null pointer or panics only where
-- `kmalloc` of a page and a word more does; else the bytes lie at a page's boundary inside the block
-- that `kmalloc` gave, behind a word of it, and `kfree_aligned` frees that block.
pub kmalloc_aligned_lem :
    (s : Kheap) (xs : List Block) (size fuel : ℕ)
    → IsHeap s xs
    → size + 4100 ≤ 2 ^ 31
    → 2 ^ 22 ≤ fuel
    → AlignedOutcome s size fuel (kmalloc_aligned s size fuel)
kmalloc_aligned_lem s xs size fuel h l f =
    let a = kmalloc_lem s xs (size + 4100) fuel h (omega arith) l f in
    subst (AlignedOutcome s size fuel) (sym (kmalloc_aligned-eq s size fuel (omega arith)))
      (by_result (omega (arith, a.0)) (kmalloc s (size + 4100) fuel) refl a.1)
  where
    by_result :
        size + 4108 ≤ block_size (size + 4100)
        → (r : Option (Option (ℕ × Kheap))) → kmalloc s (size + 4100) fuel ≡ r
        → Allocates s xs (block_size (size + 4100)) r
        → AlignedOutcome s size fuel (aligned_result r)
    by_result large r e (first us b zs k t x y z w a) =
        block_gives s size fuel (block_size (size + 4100)) k us b zs t large e a
    by_result large r e (fresh n ws c ys k t x y z a) =
        block_gives s size fuel (block_size (size + 4100)) k ws c ys t large e a
    by_result large r e (exhausted t x y z) = gives_null t e
    by_result large r e (failed_table x y) = halts e
