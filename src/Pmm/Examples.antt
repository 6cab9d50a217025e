-- ===== src/Pmm/Examples.antt =====
-- The theorems and the functions of pmm.c at concrete states.
use mathlib.Core.List.{not-mem-nil, mem-cons}
use mathlib.Core.Logic.Or
use native.Mathlib.Bridge.{le_prop}
use orion_final.Base.{ℕ, ◌*◌, ◌<◌, ◌≡◌, refl, ◌≢◌, ◌⊎◌, arith, [], ◌∷◌, true, false}
use orion_final.Bitmap.{bitmap_test, bitmap_clear, bitmap_set}
use orion_final.Pmm.{
  Pmm, max_frames, MultibootInfo, init, alloc_frame, free_frame, mark_region_reserved, add_memory,
  add_entries, add_entry, mark_region_available, release_frame, all_reserved, scan_pass,
}
use orion_final.Pmm.Inv.{Inv}
use orion_final.Pmm.Init.{IsSane, init-Inv}
use orion_final.Pmm.Alloc.{Reserves, alloc_frame_lem}

-- 4 pages from 1 MB on, and the kernel image in the first of them
abbrev pub small : MultibootInfo
small = record {
  has_mmap = true;
  has_mem = false;
  mem_upper = 0;
  mmap = record { addr = 0x100000; len = 0x4000; available = true } ∷ [];
}

abbrev pub booted : Pmm
booted = init small 0x100000 0x101000

run_booted :
    (booted.total_frames ≡ 4)
    × ((alloc_frame booted).0 ≡ 0x101000)
    × ((alloc_frame (free_frame (alloc_frame booted).1 0x101000)).0 ≡ 0x101000)
unfolding init alloc_frame free_frame bitmap_test mark_region_reserved add_memory add_entries
    add_entry mark_region_available release_frame all_reserved bitmap_clear bitmap_set scan_pass
run_booted = (refl, refl, refl)

small-IsSane : IsSane small
small-IsSane = record {
  entries =
      λ e m. Or.elim le_prop (mem-cons.0 m) (λ p. rw p (omega arith)) (λ k. absurd (not-mem-nil k));
  upper = omega arith;
}

init-Inv_example : Inv booted
init-Inv_example = init-Inv small 0x100000 0x101000 small-IsSane (omega arith) (omega arith)

pub booted-Inv : Inv booted
booted-Inv = init-Inv small 0x100000 0x101000 small-IsSane (omega arith) (omega arith)

alloc_frame_lem_example :
    let (addr, t) = alloc_frame booted in
    ((addr ≡ 0)
      × (t ≡ booted)
      × ((booted.total_frames ≡ 0)
          ⊎ ((g : ℕ) → g ≢ 0 → g < max_frames → bitmap_test booted.bitmap g ≡ 1)))
    ⊎ ((f : ℕ) × (addr ≡ f * 4096) × (addr ≢ 0) × Reserves booted f t)
alloc_frame_lem_example = alloc_frame_lem booted booted-Inv
