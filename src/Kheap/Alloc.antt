-- ===== src/Kheap/Alloc.antt =====
-- `kmalloc` of kernel/mm/kheap.c.
use mathlib.Core.Path.{subst}
use orion_final.Base.{
  ℕ, ◌+◌, ◌-◌, ◌/◌, ◌%◌, ◌^◌, ◌≤◌, ◌<◌, ◌≡◌, refl, sym, ap, ◌⊎◌, inl, inr, arith, ◌==◌, ltb, false,
  ne→eqb, if◌then◌else◌, List, [], ◌∷◌, ◌++◌, Option, some, none,
}
use orion_final.Kheap.{
  Kheap, Search, page_size, align, block_size, allocate, kmalloc, expand, first_fit, next_blkp,
  place, found, at_end,
}
use orion_final.Kheap.Blocks.{Block, free_block, used_block}
use orion_final.Kheap.Tags.{IsTag, payload, next_blkp-payload}
use orion_final.Kheap.Focus.{first_header, Focus, Focus-Seg}
use orion_final.Kheap.Neighbours.{Merges, neither, behind, before, both}
use orion_final.Kheap.Place.{place-Placed}
use orion_final.Kheap.Inv.{IsHeap, IsHeap-words}
use orion_final.Kheap.FirstFit.{AllUnfit, Fits, first_fit_lem}
use orion_final.Kheap.Extend.{Full, Tableless}
use orion_final.Kheap.Grow.{Extends, panicked, no_memory, extended, extend_heap_lem}

-- `t` is `s` with a block in use, of at least `asize` bytes, whose header is in `k`. It stands at the
-- front of a free block `b` between `us` and `zs`; what is left of that, if it makes a block, is free.
pub record Allocated (us : List Block) (b : Block) (zs : List Block) (asize k : ℕ) (t : Kheap)
    : Type 0 where
  pub size : ℕ
  pub rest : List Block
  pub enough : asize ≤ size
  pub splits :
      ((asize + 16 ≤ b.size) × (size ≡ asize) × (rest ≡ free_block (b.size - asize) ∷ zs))
      ⊎ ((b.size < asize + 16) × (size ≡ b.size) × (rest ≡ zs))
  pub heap : IsHeap t (us ++ used_block size ∷ rest)
  pub focus : Focus t.words (t.heap_brk / 4) us k (used_block size) rest

place-Allocated :
    (s : Kheap) (us : List Block) (k : ℕ) (b : Block) (zs : List Block) (asize : ℕ)
    → IsHeap s (us ++ b ∷ zs)
    → Focus s.words (s.heap_brk / 4) us k b zs
    → asize % 8 ≡ 0
    → 16 ≤ asize
    → asize ≤ b.size
    → Allocated us b zs asize k (record s { words = place s.words (payload k) asize })
place-Allocated s us k b zs asize h f d l g =
    let p = place-Placed s.words (s.heap_brk / 4) us k b zs f h.ends asize d l g in
    record {
      size = p.size;
      rest = p.rest;
      enough = p.enough;
      splits = p.splits;
      heap = IsHeap-words s _ _ _ h (Focus-Seg _ _ us k (used_block p.size) p.rest p.focus) p.ends;
      focus = p.focus;
    }

-- How `kmalloc` ends: with the first block that fits, or, if none does, with a new block at the end of
-- the heap, without memory or with a panic.
pub data Allocates (s : Kheap) (xs : List Block) (asize : ℕ)
    : Option (Option (ℕ × Kheap)) → Type 0 where
  first :
      (us : List Block) (b : Block) (zs : List Block) (k : ℕ) (t : Kheap)
      → xs ≡ us ++ b ∷ zs
      → b.allocated ≡ false
      → asize ≤ b.size
      → AllUnfit asize us
      → Allocated us b zs asize k t
      → Allocates s xs asize (some (some (payload k, t)))
  fresh :
      (size : ℕ) (ws : List Block) (c : Block) (ys : List Block) (k : ℕ) (t : Kheap)
      → AllUnfit asize xs
      → asize ≤ size
      → Merges xs (free_block size) [] ws c ys
      → Allocated ws c ys asize k t
      → Allocates s xs asize (some (some (payload k, t)))
  exhausted :
      (t : Kheap)
      → AllUnfit asize xs
      → IsHeap t xs
      → Full t
      → Allocates s xs asize (some (some (0, t)))
  failed_table : AllUnfit asize xs → Tableless s → Allocates s xs asize (some none)

Merges-le :
    (us : List Block) (b : Block) (zs ws : List Block) (c : Block) (ys : List Block)
    → Merges us b zs ws c ys
    → b.size ≤ c.size
Merges-le us b zs ws c ys (neither _ _ _ e _) = omega (arith, ap (λ x. x.size) e)
Merges-le us b zs ws c ys (behind _ _ _ _ _ e) = omega (arith, ap (λ x. x.size) e)
Merges-le us b zs ws c ys (before _ _ _ _ e _) = omega (arith, ap (λ x. x.size) e)
Merges-le us b zs ws c ys (both _ _ _ _ _ _ e) = omega (arith, ap (λ x. x.size) e)

-- by how much `kmalloc` extends the heap
abbrev extension : ℕ → ℕ
extension asize = align (if ltb page_size asize then asize else page_size)

expand_lem :
    (s : Kheap) (xs : List Block) (asize fuel : ℕ)
    → IsHeap s xs
    → asize % 8 ≡ 0
    → 16 ≤ asize
    → asize ≤ 2 ^ 31 + 16
    → 2 ^ 22 ≤ fuel
    → AllUnfit asize xs
    → Allocates s xs asize (expand s asize fuel)
unfolding expand
expand_lem s xs asize fuel h d l m f u =
    by_end _
      (extend_heap_lem s xs _ fuel h (ground arith) (ground arith) (ground arith) (omega arith))
  where
    by_end :
        (r : Option (Option (ℕ × Kheap)))
        → Extends s xs (extension asize) r
        → Allocates s xs asize (elim r [
          | none ↦ none
          | some none ↦ some none
          | some (some (bp, t)) ↦
              some (
                some
                  (if bp == 0 then (0, t) else (bp, record t { words = place t.words bp asize })))
        ])
    by_end r (panicked n) = failed_table u n
    by_end r (no_memory t g q) = exhausted t u g q
    by_end r (extended t ws c ys k i g j) = rw (ne→eqb (payload k) 0 (omega arith)) (
        fresh (extension asize) ws c ys k _ u (ground arith) i (
          place-Allocated t ws k c ys asize g j d l
            (ground (arith, Merges-le xs (free_block (extension asize)) [] ws c ys i))))

-- the first block stands behind the prologue
first_block :
    (s : Kheap) (xs : List Block)
    → IsHeap s xs
    → next_blkp s.words s.heap_listp ≡ payload first_header
first_block s xs h =
    let prologue : IsTag s.words (first_header - 2) 8 1 = record {
      value = h.ends.prologue_header;
      multiple = refl;
      bit = omega arith;
    } in
    rw (h.listp)
      (next_blkp-payload s.words (first_header - 2) 8 1 prologue (omega arith) (omega arith))

allocate_lem :
    (s : Kheap) (xs : List Block) (asize fuel : ℕ)
    → IsHeap s xs
    → asize % 8 ≡ 0
    → 16 ≤ asize
    → asize ≤ 2 ^ 31 + 16
    → 2 ^ 22 ≤ fuel
    → Allocates s xs asize (allocate s asize fuel)
unfolding allocate
allocate_lem s xs asize fuel h d l g f = by_search _ (
    subst
      (λ p.
        ((first_fit s.words p asize fuel ≡ some at_end) × AllUnfit asize xs)
        ⊎ ((k : ℕ) × (first_fit s.words p asize fuel ≡ some (found (payload k)))
            × Fits s.words first_header (s.heap_brk / 4) asize xs k))
      (sym (first_block s xs h))
      (first_fit_lem s.words (s.heap_brk / 4) h.ends asize fuel first_header xs h.blocks
        (omega (arith, h.ends.below))))
  where
    by_search :
        (r : Option Search)
        → ((r ≡ some at_end) × AllUnfit asize xs)
          ⊎ ((k : ℕ) × (r ≡ some (found (payload k)))
              × Fits s.words first_header (s.heap_brk / 4) asize xs k)
        → Allocates s xs asize (elim r [
          | none ↦ none
          | some (found bp) ↦ some (some (bp, record s { words = place s.words bp asize }))
          | some at_end ↦ expand s asize fuel
        ])
    by_search r (inl (e, u)) = rw e (expand_lem s xs asize fuel h d l g f u)
    by_search r (inr (k, e, t)) = rw e (
        first t.us t.b t.zs k _ t.split t.unused t.large t.first (
          place-Allocated s t.us k t.b t.zs asize (subst (λ ys. IsHeap s ys) t.split h)
            (record { left = t.left; block = t.block; right = t.right }) d l t.large))

-- For a well-formed heap and at most 2 ^ 31 bytes, `kmalloc` takes a block of at least the bytes asked
-- for and its two tags: the front of the first free block that is large enough, or if there is none, of
-- a new block at the end of the heap, merged with a free one before it. It returns the null pointer
-- only if no block fits and the heap is at its ceiling or no frame is free, and panics only if no block
-- fits and a page of the rest of the heap has no page table; but for a panic the heap is well formed
-- with the list of blocks that the case says. Fuel of 2 ^ 22 is enough.
pub kmalloc_lem :
    (s : Kheap) (xs : List Block) (size fuel : ℕ)
    → IsHeap s xs
    → 0 < size
    → size ≤ 2 ^ 31
    → 2 ^ 22 ≤ fuel
    → (size + 8 ≤ block_size size) × Allocates s xs (block_size size) (kmalloc s size fuel)
unfolding kmalloc
kmalloc_lem s xs size fuel h n m f = (
  ground arith,
  rw (ne→eqb size 0 (omega arith))
      (allocate_lem s xs (block_size size) fuel h (ground arith) (ground arith) (ground arith) f),
)

-- For the largest sizes, from 2 ^ 32 - 15 on, the size of the block wraps round: `kmalloc` does what it
-- does for a single byte.
pub kmalloc_wraps :
    (s : Kheap) (size fuel : ℕ)
    → 2 ^ 32 - 15 ≤ size
    → size < 2 ^ 32
    → kmalloc s size fuel ≡ kmalloc s 1 fuel
unfolding kmalloc
kmalloc_wraps s size fuel l h =
    let wraps : block_size size ≡ block_size 1 = ground arith in
    rw (ne→eqb size 0 (omega arith)) (ap (λ a. allocate s a fuel) wraps)
