-- ===== src/Pmm/Init.antt =====
-- `pmm_init` of kernel/mm/pmm.c, over the memory map that the boot loader passes.
use mathlib.Core.List.{Mem, mem-cons_self, mem-cons_of_mem}
use orion_final.Base.{
  ℕ, ◌+◌, ◌-◌, ◌*◌, ◌^◌, ◌≤◌, ◌<◌, refl, arith, ltb, leb, Bool-cases, ltb→ge, leb→gt, ◌&&◌, List,
  [], ◌∷◌, inl, inr, sym,
}
use orion_final.Base.Words.{u64, sub32}
use orion_final.Bitmap.Laws.{count_set-full, test-full_word}
use orion_final.Pmm.{
  Pmm, max_frames, MmapEntry, MultibootInfo, mark_region_reserved, mark_region_available,
  all_reserved, add_entry, add_entries, add_memory, init, aligned_base, first_frame, frame_count,
}
use orion_final.Pmm.Inv.{Inv, reserve_frame-Inv, reserve_frames-Inv, release_frames-Inv}

all_reserved-Inv : Inv (all_reserved 1)
unfolding all_reserved
all_reserved-Inv = record {
  zero_reserved = test-full_word (λ w. 2 ^ 32 - 1) 0 refl;
  counted = sym (count_set-full max_frames);
  search_in = omega arith;
}

module _ (s : Pmm) (base len : ℕ) (v : Inv s) (fits : base + len ≤ 2 ^ 32) where
  mark_region_reserved-Inv : Inv (mark_region_reserved s base len)
  unfolding mark_region_reserved
  mark_region_reserved-Inv = elim (Bool-cases (ltb (u64 (base + len)) (aligned_base base))) [
    | inl e ↦ rw e v
    | inr e ↦ rw e (
        reserve_frames-Inv s (first_frame base) (frame_count base len) v
          (omega (arith, ltb→ge _ _ e)))
  ]

  mark_region_available-Inv : Inv (mark_region_available s base len)
  unfolding mark_region_available
  mark_region_available-Inv = elim (Bool-cases (leb (u64 (base + len)) (aligned_base base))) [
    | inl e ↦ rw e v
    | inr e ↦ rw e (
        release_frames-Inv s (first_frame base) (frame_count base len) v
          (omega (arith, leb→gt _ _ e)))
  ]

-- The map is sane: its entries do not wrap round the 64-bit addresses, and the memory that
-- `mem_upper` counts lies below 4 GB.
pub record IsSane (mbi : MultibootInfo) : Type 0 where
  pub entries : (e : MmapEntry) → Mem e mbi.mmap → e.addr + e.len < 2 ^ 64
  pub upper : 0x100000 + mbi.mem_upper * 1024 ≤ 2 ^ 32

add_entry-Inv : (s : Pmm) (e : MmapEntry) → Inv s → e.addr + e.len < 2 ^ 64 → Inv (add_entry s e)
unfolding add_entry
add_entry-Inv s e v l = elim (Bool-cases (e.available && ltb e.addr (2 ^ 32))) [
  | inl p ↦ rw p (mark_region_available-Inv s _ _ v (ground arith))
  | inr p ↦ rw p v
]

add_entries-Inv :
    (es : List MmapEntry) (s : Pmm)
    → Inv s
    → ((e : MmapEntry) → Mem e es → e.addr + e.len < 2 ^ 64)
    → Inv (add_entries s es)
unfolding add_entries
add_entries-Inv [] s v h = v
add_entries-Inv (e ∷ es) s v h =
    add_entries-Inv es (add_entry s e) (add_entry-Inv s e v (h e mem-cons_self))
      (λ d m. h d (mem-cons_of_mem e m))

-- After `pmm_init` frame 0 is reserved, `pmm_used_frames` is the number of reserved frames, and the
-- search starts at a frame that exists, if the map is sane and the kernel image lies in order.
pub init-Inv :
    (mbi : MultibootInfo) (kernel_start kernel_end : ℕ)
    → IsSane mbi
    → kernel_start ≤ kernel_end
    → kernel_end < 2 ^ 32
    → Inv (init mbi kernel_start kernel_end)
unfolding init add_memory
init-Inv mbi start end sane l k =
    reserve_frame-Inv _ 0 (mark_region_reserved-Inv _ start (sub32 end start) memory (omega arith))
      (omega arith)
  where
    memory : Inv (add_memory (all_reserved 1) mbi)
    memory = elim (Bool-cases mbi.has_mmap) [
      | inl e ↦ rw e (add_entries-Inv mbi.mmap _ all_reserved-Inv sane.entries)
      | inr e ↦ rw e (elim (Bool-cases mbi.has_mem) [
        | inl d ↦ rw d (
            mark_region_available-Inv (all_reserved 1) 0x100000 (mbi.mem_upper * 1024)
              all_reserved-Inv sane.upper)
        | inr d ↦ rw d all_reserved-Inv
      ])
    ]
