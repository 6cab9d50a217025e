-- ===== src/Pmm.antt =====
-- kernel/mm/pmm.c, the bitmap allocator of physical page frames. A function that changes the static
-- variables returns the new state; `kprintf` output is left out.
pub mod Scan
pub mod Inv
pub mod Alloc
pub mod Init
pub mod Examples
use orion_final.Base.{
  ℕ, zero, suc, ◌+◌, ◌-◌, ◌*◌, ◌/◌, ◌%◌, ◌^◌, Bool, ◌&&◌, ◌||◌, ◌==◌, ltb, leb, if◌then◌else◌, List,
  [], ◌∷◌, Option, none, some,
}
use orion_final.Base.Words.{u32, u64, sub32, sub64, clear_low}
use orion_final.Bitmap.{Bitmap, bitmap_set, bitmap_clear, bitmap_test}

abbrev pub max_frames : ℕ
max_frames = 2 ^ 20

-- `bitmap`, `pmm_total_frames`, `pmm_used_frames`, `pmm_alloc_search`
pub record Pmm : Type 0 where
  pub bitmap : Bitmap
  pub total_frames : ℕ
  pub used_frames : ℕ
  pub alloc_search : ℕ

abbrev pub addr_to_frame : ℕ → ℕ
addr_to_frame addr = addr / 2 ^ 12

abbrev pub frame_to_addr : ℕ → ℕ
frame_to_addr frame = u32 (frame * 2 ^ 12)

-- The whole pages of a byte region: the base goes up to a page, the length down.
abbrev pub aligned_base : ℕ → ℕ
aligned_base base = clear_low (u64 (base + 4095)) 12

abbrev pub first_frame : ℕ → ℕ
first_frame base = u32 (aligned_base base / 2 ^ 12)

abbrev pub frame_count : ℕ → ℕ → ℕ
frame_count base len = u32 (clear_low (sub64 len (sub64 (aligned_base base) base)) 12 / 2 ^ 12)

-- one round of the loop that marks frames reserved
pub reserve_frame : Pmm → ℕ → Pmm
reserve_frame s frame =
    if bitmap_test s.bitmap frame == 0
    then record s { bitmap = bitmap_set s.bitmap frame; used_frames = u32 (s.used_frames + 1) }
    else s

-- `for (i = 0; i < count; i++)`, by the rounds left
pub reserve_frames : Pmm → ℕ → ℕ → Pmm
reserve_frames s frame zero = s
reserve_frames s frame (suc left) = reserve_frames (reserve_frame s frame) (u32 (frame + 1)) left

unfoldable pub mark_region_reserved : Pmm → ℕ → ℕ → Pmm
unfolding reserve_frames
mark_region_reserved s base len =
    if ltb (u64 (base + len)) (aligned_base base)
    then s
    else reserve_frames s (first_frame base) (frame_count base len)

-- one round of the loop that marks frames available: frame 0 stays reserved
unfoldable pub release_frame : Pmm → ℕ → Pmm
release_frame s frame =
    if frame == 0 then s else if bitmap_test s.bitmap frame == 0 then s else record s {
      bitmap = bitmap_clear s.bitmap frame;
      used_frames = sub32 s.used_frames 1;
      total_frames = u32 (s.total_frames + 1);
    }

pub release_frames : Pmm → ℕ → ℕ → Pmm
release_frames s frame zero = s
release_frames s frame (suc left) = release_frames (release_frame s frame) (u32 (frame + 1)) left

unfoldable pub mark_region_available : Pmm → ℕ → ℕ → Pmm
unfolding release_frames
mark_region_available s base len =
    if leb (u64 (base + len)) (aligned_base base)
    then s
    else release_frames s (first_frame base) (frame_count base len)

-- An entry of GRUB's memory map; `available` is type 1.
pub record MmapEntry : Type 0 where
  pub addr : ℕ
  pub len : ℕ
  pub available : Bool

-- What `pmm_init` reads of `multiboot_info_t`: the two flags that it tests, `mem_upper`, and the
-- entries of the map in the order in which the walk by their sizes meets them.
pub record MultibootInfo : Type 0 where
  pub has_mmap : Bool
  pub has_mem : Bool
  pub mem_upper : ℕ
  pub mmap : List MmapEntry

-- an entry of the map: available memory below 4 GB, cut at 4 GB
unfoldable pub add_entry : Pmm → MmapEntry → Pmm
add_entry s entry =
    let top : ℕ = u64 (entry.addr + entry.len) in
    let clamped : ℕ = if ltb (2 ^ 32) top then 2 ^ 32 else top in
    if entry.available && ltb entry.addr (2 ^ 32)
    then mark_region_available s (u32 entry.addr) (u32 (sub64 clamped entry.addr))
    else s

unfoldable pub add_entries : Pmm → List MmapEntry → Pmm
add_entries s [] = s
add_entries s (entry ∷ entries) = add_entries (add_entry s entry) entries

-- the static variables before `pmm_init`, with all frames reserved
unfoldable pub all_reserved : ℕ → Pmm
all_reserved alloc_search = record {
  bitmap = λ w. 2 ^ 32 - 1;
  total_frames = 0;
  used_frames = max_frames;
  alloc_search = alloc_search;
}

unfoldable pub add_memory : Pmm → MultibootInfo → Pmm
add_memory s mbi =
    if mbi.has_mmap
    then add_entries s mbi.mmap
    else if mbi.has_mem
    then mark_region_available s 0x100000 (mbi.mem_upper * 1024)
    else s

unfoldable pub init : MultibootInfo → ℕ → ℕ → Pmm
unfolding reserve_frame
init mbi kernel_phys_start kernel_phys_end =
    let s = add_memory (all_reserved 1) mbi in
    let kernel_len = sub32 kernel_phys_end kernel_phys_start in
    reserve_frame (mark_region_reserved s kernel_phys_start kernel_len) 0

-- The body of the search for a free frame: the bits of word `w`, from `bit` on.
scan_bits : Bitmap → ℕ → ℕ → ℕ → ℕ → ℕ → Option ℕ
scan_bits bitmap start end w bit zero = none
scan_bits bitmap start end w bit (suc left) =
    let frame : ℕ = w * 32 + bit in
    let rest = scan_bits bitmap start end w (bit + 1) left in
    if frame == 0
    then rest
    else if ltb frame start || leb end frame
    then rest
    else if bitmap_test bitmap frame == 0
    then some frame
    else rest

scan_words : Bitmap → ℕ → ℕ → ℕ → ℕ → Option ℕ
unfolding scan_bits
scan_words bitmap start end w zero = none
scan_words bitmap start end w (suc left) =
    let rest = scan_words bitmap start end (w + 1) left in
    if bitmap w == 2 ^ 32 - 1
    then rest
    else elim (scan_bits bitmap start end w 0 32) [ none ↦ rest | some frame ↦ some frame ]

-- a pass of `pmm_alloc_frame`, over the words from `start / 32` to `(end + 31) / 32`
unfoldable pub scan_pass : Bitmap → ℕ → ℕ → Option ℕ
unfolding scan_words
scan_pass bitmap start end = scan_words bitmap start end (start / 32) ((end + 31) / 32 - start / 32)

pub take_frame : Pmm → ℕ → ℕ × Pmm
take_frame s frame = (
  frame_to_addr frame,
  record s {
    bitmap = bitmap_set s.bitmap frame;
    used_frames = u32 (s.used_frames + 1);
    alloc_search = if leb max_frames (frame + 1) then 1 else frame + 1;
  },
)

-- 0 is the null address: no memory.
unfoldable pub alloc_frame : Pmm → ℕ × Pmm
unfolding take_frame
alloc_frame s =
    if s.total_frames == 0 then (0, s) else elim (scan_pass s.bitmap s.alloc_search max_frames) [
      | some frame ↦ take_frame s frame
      | none ↦ elim (scan_pass s.bitmap 1 s.alloc_search) [
        | some frame ↦ take_frame s frame
        | none ↦ (0, s)
      ]
    ]

unfoldable pub free_frame : Pmm → ℕ → Pmm
free_frame s phys_addr =
    let frame : ℕ = addr_to_frame phys_addr in
    if frame == 0 then s else if bitmap_test s.bitmap frame == 0 then s else record s {
      bitmap = bitmap_clear s.bitmap frame;
      used_frames = sub32 s.used_frames 1;
      alloc_search = if ltb frame s.alloc_search then frame else s.alloc_search;
    }

pub get_free_frames : Pmm → ℕ
get_free_frames s = sub32 s.total_frames s.used_frames
