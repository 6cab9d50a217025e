-- ===== src/Kheap/Examples.antt =====
-- The theorems of kheap.c at concrete states.
use orion_final.Base.{ℕ, ◌+◌, ◌-◌, ◌/◌, ◌≤◌, ◌<◌, ◌≡◌, refl, arith, ◌==◌, if◌then◌else◌, [], ◌∷◌}
use orion_final.Pmm.Inv.{alloc_frame-Inv}
use orion_final.Pmm.Examples.{booted, booted-Inv}
use orion_final.Vmm.{Vmm, entry}
use orion_final.Vmm.Tables.{Present, walk}
use orion_final.Vmm.Inv.{Inv}
use orion_final.Vmm.Examples.{frames, run_frames}
use orion_final.Kheap.{Kheap, heap_start, kmalloc, kmalloc_aligned, kfree, block_size}
use orion_final.Kheap.Aligned.{AlignedOutcome, kmalloc_aligned_lem}
use orion_final.Kheap.Blocks.{free_block, used_block, Seg}
use orion_final.Kheap.Tags.{payload}
use orion_final.Kheap.Focus.{first_header, Focus}
use orion_final.Kheap.Inv.{Backed, IsHeap}
use orion_final.Kheap.Free.{Frees, kfree_lem}
use orion_final.Kheap.Alloc.{Allocates, kmalloc_lem, kmalloc_wraps}

-- the page directory in frame 0x101, the page table of the heap in frame 0x102, with one page
abbrev heap_space : Vmm
heap_space = record {
  memory =
      λ w. if w == 0x101000 / 4 + 4 then 0x102003 else if w == 0x102000 / 4 then 0x103003 else 0;
  page_directory = 0x101000;
  kernel_pd_phys = 0x101000;
  pmm = frames;
  cr3 = 0x101000;
  flushed = [];
}

fourth_only : (i : ℕ) → i < 1024 → Present (entry heap_space.memory 0x101000 i) → i ≡ 4
fourth_only i m h = ground arith

heap_space-Inv : Inv heap_space
heap_space-Inv = record {
  frames = alloc_frame-Inv _ (alloc_frame-Inv booted booted-Inv);
  tables = record {
    aligned = omega arith;
    directory = run_frames.0;
    tables = λ i m h. rw (fourth_only i m h) (omega arith, omega arith, run_frames.1);
    distinct = λ i j m n d h k. absurd (omega (arith, fourth_only i m h, fourth_only j n k));
  };
  kernel = refl;
}

heap_space-Backed : Backed heap_space (heap_start + 4096)
unfolding walk
heap_space-Backed = record {
  tables = heap_space-Inv;
  pages = omega arith;
  ceiling = omega arith;
  present = λ u a b. ground arith;
}

-- a heap with a block in use and a free one, of 32 bytes each
abbrev two_blocks : Kheap
two_blocks = record {
  words = λ w.
      if w == first_header - 2
      then 9
      else if w == first_header - 1
      then 9
      else if w == first_header
      then 33
      else if w == first_header + 7
      then 33
      else if w == first_header + 8
      then 32
      else if w == first_header + 15
      then 32
      else 1;
  heap_listp = heap_start + 8;
  heap_brk = heap_start + 12 + 64;
  heap_virt_mapped = heap_start + 4096;
  vmm = heap_space;
}

two_blocks-IsHeap : IsHeap two_blocks (used_block 32 ∷ free_block 32 ∷ [])
unfolding Seg
two_blocks-IsHeap = record {
  listp = refl;
  word = refl;
  blocks = (
    record { multiple = refl; least = omega arith; header = refl; footer = refl },
    (record { multiple = refl; least = omega arith; header = refl; footer = refl }, refl),
  );
  ends = record {
    prologue_header = refl;
    prologue_footer = refl;
    epilogue = refl;
    below = omega arith;
  };
  within = omega arith;
  backed = heap_space-Backed;
}

kmalloc_lem_example :
    (10 + 8 ≤ block_size 10)
    × Allocates two_blocks
        (used_block 32 ∷ free_block 32 ∷ [])
        (block_size 10)
        (kmalloc two_blocks 10 0x400000)
kmalloc_lem_example =
    kmalloc_lem two_blocks (used_block 32 ∷ free_block 32 ∷ []) 10 0x400000 two_blocks-IsHeap
      (omega arith) (omega arith) (omega arith)

kmalloc_wraps_example : kmalloc two_blocks 0xFFFFFFFF 9 ≡ kmalloc two_blocks 1 9
kmalloc_wraps_example = kmalloc_wraps two_blocks 0xFFFFFFFF 9 (omega arith) (omega arith)

first_Focus :
    Focus two_blocks.words
      (two_blocks.heap_brk / 4)
      []
      first_header
      (used_block 32)
      (free_block 32 ∷ [])
unfolding Seg
first_Focus = record {
  left = refl;
  block = two_blocks-IsHeap.blocks.0;
  right = two_blocks-IsHeap.blocks.1;
}

kfree_lem_example :
    Frees two_blocks []
      (used_block 32)
      (free_block 32 ∷ [])
      (kfree two_blocks (payload first_header))
kfree_lem_example =
    kfree_lem two_blocks [] first_header (used_block 32) (free_block 32 ∷ []) two_blocks-IsHeap
      first_Focus

kmalloc_aligned_lem_example :
    AlignedOutcome two_blocks 10 0x400000 (kmalloc_aligned two_blocks 10 0x400000)
kmalloc_aligned_lem_example =
    kmalloc_aligned_lem two_blocks (used_block 32 ∷ free_block 32 ∷ []) 10 0x400000
      two_blocks-IsHeap (omega arith) (omega arith)
