-- ===== src/Kheap/Append.antt =====
-- The end of `extend_heap` in kernel/mm/kheap.c: a new free block in place of the epilogue.
use mathlib.Core.Path.{subst}
use orion_final.Base.{
  ℕ, ◌+◌, ◌-◌, ◌/◌, ◌%◌, ◌≤◌, ◌≡◌, refl, sym, ap, ◌∙◌, arith, List, [], ◌∷◌, ◌++◌,
}
use orion_final.Base.Words.{u32}
use orion_final.Base.Update.{update, update_self}
use orion_final.Kheap.{
  Words, Kheap, append_block, wsize, put, ftrp, hdrp, next_blkp, pack, coalesce,
}
use orion_final.Kheap.Blocks.{Block, free_block, Seg, Seg-le, Seg-same}
use orion_final.Kheap.Tags.{
  IsTag, payload, write_tags, pack-free, pack-used, ftrp-payload, next_blkp-payload, hdrp-payload,
}
use orion_final.Kheap.Focus.{first_header, Ends, Focus, Focus-Seg}
use orion_final.Kheap.Neighbours.{Merges}
use orion_final.Kheap.Merge.{coalesce-Merged}
use orion_final.Kheap.Inv.{IsHeap}

module _ (s : Kheap) (xs : List Block) (size : ℕ) (h : IsHeap s xs) (d : size % 8 ≡ 0)
    (l : 16 ≤ size) (room : s.heap_brk + size + 4 ≤ s.heap_virt_mapped) where
  abbrev e : ℕ
  e = s.heap_brk / 4

  abbrev appended : Words
  appended = update (write_tags s.words e size size) (e + size / 4) 1

  below : (first_header ≤ e) × (e + size / 4 ≤ 0x1400000)
  below = (Seg-le s.words first_header xs e h.blocks, omega (arith, h.backed.ceiling, d))

  appended-Focus : Focus appended (e + size / 4) xs e (free_block size) []
  unfolding Seg
  appended-Focus = record {
    left = Seg-same s.words appended first_header xs e (λ w p q. ground (arith, d, l)) h.blocks;
    block = record {
      multiple = d;
      least = l;
      header = ground (arith, d, l);
      footer = ground (arith, d, l);
    };
    right = refl;
  }

  appended-Ends : Ends appended (e + size / 4)
  appended-Ends = record {
    prologue_header = ground (arith, h.ends.prologue_header, below, l);
    prologue_footer = ground (arith, h.ends.prologue_footer, below, l);
    epilogue = ground arith;
    below = below.1;
  }

  written :
      let bp = u32 (s.heap_brk + wsize) in
      let headed = put s.words s.heap_brk (pack size 0) in
      let tagged = put headed (ftrp headed bp) (pack size 0) in
      (bp ≡ payload e) × (put tagged (hdrp (next_blkp tagged bp)) (pack 0 1) ≡ appended)
  written =
      let headed = update s.words e size in
      let header : IsTag headed e size 0 = record {
        value = update_self s.words e size ∙ omega arith;
        multiple = d;
        bit = omega arith;
      } in
      let tagged = write_tags s.words e size size in
      let header' : IsTag tagged e size 0 = record {
        value = ground (arith, d, l);
        multiple = d;
        bit = omega arith;
      } in
      let bp : u32 (s.heap_brk + wsize) ≡ payload e = omega (arith, h.word, below) in
      let footer : ftrp headed (payload e) / 4 ≡ e + size / 4 - 1 =
        ap (λ q. q / 4)
          (ftrp-payload headed e size 0 header (omega (arith, below)) (omega arith)
            (omega (arith, below)))
        ∙ omega arith in
      let next : next_blkp tagged (payload e) ≡ payload (e + size / 4) =
        next_blkp-payload tagged e size 0 header' (omega (arith, below)) (omega (arith, below)) in
      let one : pack 0 1 ≡ 1 = pack-used 0 refl in
      (
        bp,
        rw
            (
              bp,
              pack-free size,
              footer,
              next,
              hdrp-payload (e + size / 4) (omega (arith, below)),
              one,
            )
            refl,
      )

  -- What `append_block` returns, as it stands in the list.
  pub record Appended (r : ℕ × Kheap) : Type 0 where
    pub ws : List Block
    pub merged : Block
    pub ys : List Block
    pub at : ℕ
    pub merges : Merges xs (free_block size) [] ws merged ys
    pub result : r.0 ≡ payload at
    pub focus : Focus r.1.words (r.1.heap_brk / 4) ws at merged ys
    pub heap : IsHeap r.1 (ws ++ merged ∷ ys)

  pub append_block-Appended : Appended (append_block s size)
  unfolding append_block
  append_block-Appended =
      let merged =
        coalesce-Merged appended (e + size / 4) xs e (free_block size) [] appended-Focus
          appended-Ends refl in
      let brk : u32 (s.heap_brk + size) / 4 ≡ e + size / 4 = omega (arith, h.word, d, below) in
      rw (written.1, written.0)
        (record {
          ws = merged.ws;
          merged = merged.merged;
          ys = merged.ys;
          at = merged.at;
          merges = merged.merges;
          result = merged.result;
          focus =
              subst
                (λ i.
                  Focus (coalesce appended (payload e)).1 i merged.ws merged.at merged.merged
                    merged.ys)
                (sym brk) merged.focus;
          heap = record {
            listp = h.listp;
            word = omega (arith, h.word, d, below);
            blocks =
                subst
                  (λ i.
                    Seg (coalesce appended (payload e)).1 first_header
                      (merged.ws ++ merged.merged ∷ merged.ys) i)
                  (sym brk)
                  (Focus-Seg _ _ merged.ws merged.at merged.merged merged.ys merged.focus);
            ends = subst (λ i. Ends (coalesce appended (payload e)).1 i) (sym brk) merged.ends;
            within = omega (arith, room, h.backed.ceiling);
            backed = h.backed;
          };
        })
