-- ===== src/Kheap/Free.antt =====
-- `kfree` of kernel/mm/kheap.c.
use orion_final.Base.{ℕ, ◌+◌, ◌/◌, ◌≤◌, ◌≡◌, refl, ◌∙◌, arith, false, ne→eqb, List, ◌∷◌, ◌++◌}
use orion_final.Kheap.{Kheap, kfree, get_size, hdrp}
use orion_final.Kheap.Blocks.{Block, free_block, Seg-le}
use orion_final.Kheap.Tags.{payload, get_size-payload, put_tags-write, pack-free}
use orion_final.Kheap.Focus.{Focus, Focus-Seg, IsBlock-header}
use orion_final.Kheap.Neighbours.{Merges}
use orion_final.Kheap.Merge.{coalesce-Merged}
use orion_final.Kheap.Place.{Focus-retag}
use orion_final.Kheap.Inv.{IsHeap, IsHeap-words}

-- `t` is `s` without the block `b` between `us` and `zs`: it is free, and merged with its neighbours.
pub record Frees (s : Kheap) (us : List Block) (b : Block) (zs : List Block) (t : Kheap)
    : Type 0 where
  pub ws : List Block
  pub merged : Block
  pub ys : List Block
  pub merges : Merges us (free_block b.size) zs ws merged ys
  pub heap : IsHeap t (ws ++ merged ∷ ys)

-- Where the heap consists of the blocks `us`, `b` and `zs`, `kfree` of the payload of `b` frees that
-- block, merges it with those of its two neighbours that are free, and keeps the heap well formed.
pub kfree_lem :
    (s : Kheap) (us : List Block) (k : ℕ) (b : Block) (zs : List Block)
    → IsHeap s (us ++ b ∷ zs)
    → Focus s.words (s.heap_brk / 4) us k b zs
    → Frees s us b zs (kfree s (payload k))
unfolding kfree
kfree_lem s us k b zs h f =
    let e : ℕ = s.heap_brk / 4 in
    let high : k + b.size / 4 ≤ e = Seg-le s.words _ zs e f.right in
    let size : get_size s.words (hdrp (payload k)) ≡ b.size =
      get_size-payload s.words k b.size _ (IsBlock-header s.words k b f.block)
        (omega (arith, high, h.ends.below)) in
    let tags =
      put_tags-write s.words k b.size 0 (pack-free b.size ∙ omega arith) f.block.multiple
        (omega (arith, f.block.least)) (omega arith) (omega (arith, high, h.ends.below)) in
    let retag = Focus-retag s.words e us k b zs f h.ends false in
    let merged = coalesce-Merged _ e us k (free_block b.size) zs retag.0 retag.1 refl in
    rw (ne→eqb (payload k) 0 (omega arith), size, tags)
      (record {
        ws = merged.ws;
        merged = merged.merged;
        ys = merged.ys;
        merges = merged.merges;
        heap =
            IsHeap-words s _ _ _ h
              (Focus-Seg _ e merged.ws merged.at merged.merged merged.ys merged.focus) merged.ends;
      })
