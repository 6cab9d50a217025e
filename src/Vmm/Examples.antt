-- ===== src/Vmm/Examples.antt =====
-- The theorems and the functions of vmm.c at concrete states.
use orion_final.Base.{
  Option, ℕ, ◌+◌, ◌*◌, ◌/◌, ◌%◌, ◌≤◌, ◌<◌, ◌≡◌, refl, ◌⊎◌, arith, ◌==◌, if◌then◌else◌, true, false,
  none, some, [],
}
use orion_final.Bitmap.{bitmap_test, bitmap_clear, bitmap_set}
use orion_final.Pmm.{
  Pmm, alloc_frame, free_frame, init, mark_region_reserved, add_memory, add_entries, add_entry,
  mark_region_available, release_frame, all_reserved, scan_pass,
}
use orion_final.Pmm.Inv.{alloc_frame-Inv}
use orion_final.Pmm.Examples.{booted, booted-Inv}
use orion_final.Vmm.{
  Vmm, entry, vmm_map_page, vmm_map_range, vmm_get_phys, vmm_destroy_address_space,
  vmm_range_mapped, create_table,
}
use orion_final.Vmm.Tables.{Present}
use orion_final.Vmm.Inv.{Inv, Exhausted}
use orion_final.Vmm.Mapping.{Maps, vmm_map_page_lem}
use orion_final.Vmm.MapRange.{MapsRange, NoTable, vmm_map_range_lem}
use orion_final.Vmm.Range.{Accessible, vmm_range_mapped_lem, vmm_range_mapped_wraps}
use orion_final.Vmm.Destroy.{Frees, Among, IsTable, vmm_destroy_address_space_lem}

abbrev pub frames : Pmm
frames = (alloc_frame (alloc_frame booted).1).1

-- the page directory in frame 0x101, and an empty page table for the first 4 MB in frame 0x102
abbrev kernel_space : Vmm
kernel_space = record {
  memory = λ w. if w == 0x101000 / 4 then 0x102003 else 0;
  page_directory = 0x101000;
  kernel_pd_phys = 0x101000;
  pmm = frames;
  cr3 = 0x101000;
  flushed = [];
}

-- before paging
abbrev before : Vmm
before = record {
  memory = λ w. 0xFFFFFFFF;
  page_directory = 0;
  kernel_pd_phys = 0;
  pmm = booted;
  cr3 = 0;
  flushed = [];
}

pub run_frames : (bitmap_test frames.bitmap 0x101 ≡ 1) × (bitmap_test frames.bitmap 0x102 ≡ 1)
unfolding init alloc_frame free_frame bitmap_test mark_region_reserved add_memory add_entries
    add_entry mark_region_available release_frame all_reserved bitmap_clear bitmap_set scan_pass
run_frames = (refl, refl)

first_only : (i : ℕ) → i < 1024 → Present (entry kernel_space.memory 0x101000 i) → i ≡ 0
first_only i m h = ground arith

kernel_space-Inv : Inv kernel_space
kernel_space-Inv = record {
  frames = alloc_frame-Inv _ (alloc_frame-Inv booted booted-Inv);
  tables = record {
    aligned = omega arith;
    directory = run_frames.0;
    tables = λ i m h. rw (first_only i m h) (omega arith, omega arith, run_frames.1);
    distinct = λ i j m n d h k. absurd (omega (arith, first_only i m h, first_only j n k));
  };
  kernel = refl;
}

vmm_map_page_lem_example :
    ((vmm_map_page kernel_space 0x400123 0xB8000 3 ≡ none)
      × (entry kernel_space.memory 0x101000 1 % 2 ≡ 0)
      × Exhausted frames)
    ⊎ ((t : Vmm) × (vmm_map_page kernel_space 0x400123 0xB8000 3 ≡ some t)
        × Maps kernel_space 0x400123 (0xB8000 / 4096 * 4096 + (3 / 2 * 2 + 1)) t)
vmm_map_page_lem_example =
    vmm_map_page_lem kernel_space 0x400123 0xB8000 3 kernel_space-Inv (omega arith) (omega arith)

vmm_map_range_lem_example :
    ((vmm_map_range kernel_space 0x3FF000 0x7000 0x2001 3 4 ≡ some none)
      × NoTable 0x3FF000 0x2001 kernel_space)
    ⊎ ((t : Vmm) × (vmm_map_range kernel_space 0x3FF000 0x7000 0x2001 3 4 ≡ some (some t))
        × MapsRange kernel_space 0x3FF000 0x7000 0x2001 3 0 t)
vmm_map_range_lem_example =
    vmm_map_range_lem 0x3FF000 0x7000 0x2001 3 (omega arith) (omega arith) (omega arith)
      (omega arith) kernel_space 4 kernel_space-Inv (omega arith)

vmm_range_mapped_lem_example :
    ((vmm_range_mapped kernel_space.memory 0x101000 0x5123 0x2000 false 5 ≡ some 1)
      × ((u : ℕ)
          → 0x5123 ≤ u
          → u < 0x5123 + 0x2000
          → Accessible kernel_space.memory 0x101000 false u))
    ⊎ ((vmm_range_mapped kernel_space.memory 0x101000 0x5123 0x2000 false 5 ≡ some 0)
        × ((u : ℕ) × (0x5123 ≤ u)
            × (u < 0x5123 + 0x2000)
            × ¬ Accessible kernel_space.memory 0x101000 false u))
vmm_range_mapped_lem_example =
    vmm_range_mapped_lem kernel_space.memory 0x101000 0x5123 0x2000 false 5 (omega arith)
      (omega arith) (omega arith) (omega arith)

vmm_range_mapped_wraps_example :
    vmm_range_mapped kernel_space.memory 0x101000 0xFFFFF000 1 true 1 ≡ some 1
vmm_range_mapped_wraps_example =
    vmm_range_mapped_wraps kernel_space.memory 0x101000 0xFFFFF000 1 true 0 (omega arith)
      (omega arith) (omega arith) (omega arith) (omega arith)

vmm_destroy_address_space_lem_example :
    Frees frames
      (vmm_destroy_address_space kernel_space 0x103000).pmm
      (λ g. Among 1 1023 (IsTable kernel_space.memory 0x103000 g))
vmm_destroy_address_space_lem_example =
    vmm_destroy_address_space_lem kernel_space 0x103000 (λ w. ground arith) (omega arith)
      (omega arith)

abbrev mapped_at : Option Vmm → ℕ → ℕ
mapped_at o u = elim o [ some t ↦ vmm_get_phys t u | none ↦ 0 ]

run_map : mapped_at (vmm_map_page kernel_space 0x5000 0xB8000 3) 0x5123 ≡ 0xB8123
unfolding vmm_map_page create_table vmm_get_phys
run_map = refl
