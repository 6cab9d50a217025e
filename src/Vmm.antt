-- ===== src/Vmm.antt =====
-- kernel/mm/vmm.c, the two-level page tables of the x86. `panic` is `none`, `kprintf` is left out.
-- Memory is the words of physical memory, which the code reads at their own addresses.
pub mod Tables
pub mod Grow
pub mod Entries
pub mod Inv
pub mod Mapping
pub mod Range
pub mod MapRange
pub mod Destroy
pub mod Spaces
pub mod Boot
pub mod Examples
use orion_final.Base.{
  ℕ, zero, suc, ◌+◌, ◌-◌, ◌*◌, ◌/◌, ◌%◌, ◌^◌, bit_and, bit_or, Bool, true, false, ◌&&◌, ◌||◌, ◌==◌,
  ltb, not, if◌then◌else◌, List, [], ◌∷◌, Option, none, some,
}
use orion_final.Base.Update.{update}
use orion_final.Base.Words.{u32, clear_low}
use orion_final.Pmm.{Pmm, alloc_frame, free_frame}

abbrev pub page_size : ℕ
page_size = 4096

abbrev pub vmm_present : ℕ
vmm_present = 1

abbrev pub vmm_writable : ℕ
vmm_writable = 2

abbrev pub vmm_user : ℕ
vmm_user = 4

abbrev pub vmm_kernel_rw : ℕ
vmm_kernel_rw = 3

-- The words of memory, by a quarter of their addresses.
abbrev pub Memory : Type 0
Memory = ℕ → ℕ

-- `page_directory`, `kernel_pd_phys`, the memory and the frames, and of the processor the register
-- CR3 and the addresses whose entries were flushed, the latest first.
pub record Vmm : Type 0 where
  pub memory : Memory
  pub page_directory : ℕ
  pub kernel_pd_phys : ℕ
  pub pmm : Pmm
  pub cr3 : ℕ
  pub flushed : List ℕ

-- `x & VMM_ADDR_MASK`
abbrev pub page_address : ℕ → ℕ
page_address x = clear_low x 12

abbrev pub pd_index : ℕ → ℕ
pd_index virt = virt / 2 ^ 22

abbrev pub pt_index : ℕ → ℕ
pt_index virt = virt / 2 ^ 12 % 1024

-- `pt[i]`
abbrev pub entry : Memory → ℕ → ℕ → ℕ
entry memory pt i = memory (pt / 4 + i)

abbrev pub set_entry : Memory → ℕ → ℕ → ℕ → Memory
set_entry memory pt i v = update memory (pt / 4 + i) v

-- `entry & flag`, as a test
abbrev pub has_flag : ℕ → ℕ → Bool
has_flag x flag = not (bit_and x flag == 0)

-- `for (i = 0; i < 1024; i++) pt[i] = 0;` by the rounds left
pub clear_entries : Memory → ℕ → ℕ → ℕ → Memory
clear_entries memory pt i zero = memory
clear_entries memory pt i (suc left) = clear_entries (set_entry memory pt i 0) pt (i + 1) left

-- 0 is the null pointer: no memory.
pub create_table : Vmm → ℕ → ℕ → ℕ × Vmm
create_table s virt flags =
    let pde : ℕ = entry s.memory s.page_directory (pd_index virt) in
    if has_flag pde vmm_present
    then (page_address pde, s)
    else (let (pt_phys, pmm) = alloc_frame s.pmm in
        let cleared = clear_entries s.memory pt_phys 0 1024 in
        let flagged : ℕ =
          bit_or (bit_or (bit_or pt_phys vmm_present) vmm_writable) (bit_and flags vmm_user) in
        if pt_phys == 0 then (0, record s { pmm = pmm }) else (
          pt_phys,
          record s {
            pmm = pmm;
            memory = set_entry cleared s.page_directory (pd_index virt) flagged;
          },
        ))

-- `(phys & VMM_ADDR_MASK) | (flags | VMM_PRESENT)`
abbrev pub make_entry : ℕ → ℕ → ℕ
make_entry phys flags = bit_or (page_address phys) (bit_or flags vmm_present)

unfoldable pub vmm_map_page : Vmm → ℕ → ℕ → ℕ → Option Vmm
vmm_map_page s virt phys flags =
    let (pt, t) = create_table s virt flags in
    if pt == 0
    then none
    else some (record t {
      memory = set_entry t.memory pt (pt_index virt) (make_entry phys flags);
      flushed = virt ∷ t.flushed;
    })

-- `while (offset < length)`, on fuel; the outer `none` is that the fuel ran out.
pub map_pages : Vmm → ℕ → ℕ → ℕ → ℕ → ℕ → ℕ → Option (Option Vmm)
map_pages s virt phys length flags offset zero = none
map_pages s virt phys length flags offset (suc fuel) =
    if not (ltb offset length)
    then some (some s)
    else elim (vmm_map_page s (u32 (virt + offset)) (u32 (phys + offset)) flags) [
      | none ↦ some none
      | some t ↦ map_pages t virt phys length flags (u32 (offset + page_size)) fuel
    ]

pub vmm_map_range : Vmm → ℕ → ℕ → ℕ → ℕ → ℕ → Option (Option Vmm)
vmm_map_range s virt phys length flags fuel = map_pages s virt phys length flags 0 fuel

pub vmm_unmap_page : Vmm → ℕ → Vmm
vmm_unmap_page s virt =
    let pde : ℕ = entry s.memory s.page_directory (pd_index virt) in
    if not (has_flag pde vmm_present) then s else record s {
      memory = set_entry s.memory (page_address pde) (pt_index virt) 0;
      flushed = virt ∷ s.flushed;
    }

pub vmm_get_phys : Vmm → ℕ → ℕ
vmm_get_phys s virt =
    let pde : ℕ = entry s.memory s.page_directory (pd_index virt) in
    let pte : ℕ = entry s.memory (page_address pde) (pt_index virt) in
    if not (has_flag pde vmm_present)
    then 0
    else if not (has_flag pte vmm_present)
    then 0
    else bit_or (page_address pte) (virt % 2 ^ 12)

pub vmm_is_mapped : Vmm → ℕ → ℕ
vmm_is_mapped s virt =
    let pde : ℕ = entry s.memory s.page_directory (pd_index virt) in
    if not (has_flag pde vmm_present)
    then 0
    else if has_flag (entry s.memory (page_address pde) (pt_index virt)) vmm_present
    then 1
    else 0

-- `for (i = 0; i < 1024; i++) pt0[i] = (i * PAGE_SIZE) | VMM_KERNEL_RW;`
pub identity_entries : Memory → ℕ → ℕ → ℕ → Memory
identity_entries memory pt i zero = memory
identity_entries memory pt i (suc left) =
    identity_entries (set_entry memory pt i (bit_or (u32 (i * page_size)) vmm_kernel_rw)) pt (i + 1)
      left

pub vmm_init : Vmm → Option Vmm
vmm_init s =
    let (pd_phys, pmm) = alloc_frame s.pmm in
    let cleared = clear_entries s.memory pd_phys 0 1024 in
    let (pt0_phys, pmm') = alloc_frame pmm in
    let filled = identity_entries cleared pt0_phys 0 1024 in
    if pd_phys == 0
    then none
    else if pt0_phys == 0
    then none
    else some (record s {
      page_directory = pd_phys;
      kernel_pd_phys = pd_phys;
      pmm = pmm';
      memory = set_entry filled pd_phys 0 (bit_or pt0_phys vmm_kernel_rw);
      cr3 = pd_phys;
    })

pub vmm_get_kernel_pd : Vmm → ℕ
vmm_get_kernel_pd s = s.kernel_pd_phys

pub vmm_create_address_space : Vmm → ℕ × Vmm
vmm_create_address_space s =
    let (pd_phys, pmm) = alloc_frame s.pmm in
    let cleared = clear_entries s.memory pd_phys 0 1024 in
    if pd_phys == 0 then (0, record s { pmm = pmm }) else (
      pd_phys,
      record s {
        pmm = pmm;
        memory = set_entry cleared pd_phys 0 (entry cleared s.kernel_pd_phys 0);
      },
    )

-- the loop over the entries of a page table, from `j` on
pub free_pages : Memory → Pmm → ℕ → ℕ → ℕ → Pmm
free_pages memory pmm pt j zero = pmm
free_pages memory pmm pt j (suc left) =
    let pte : ℕ = entry memory pt j in
    free_pages memory (if has_flag pte vmm_present then free_frame pmm (page_address pte) else pmm)
      pt (j + 1) left

-- the loop over the entries of the page directory, from `i` on
pub free_tables : Memory → Pmm → ℕ → ℕ → ℕ → Pmm
free_tables memory pmm pd i zero = pmm
free_tables memory pmm pd i (suc left) =
    let pde : ℕ = entry memory pd i in
    let pt_phys : ℕ = page_address pde in
    free_tables memory
      (if has_flag pde vmm_present
        then free_frame (free_pages memory pmm pt_phys 0 1024) pt_phys
        else pmm)
      pd (i + 1) left

pub vmm_destroy_address_space : Vmm → ℕ → Vmm
vmm_destroy_address_space s pd_phys =
    if pd_phys == 0 || pd_phys == s.kernel_pd_phys
    then s
    else record s { pmm = free_tables s.memory s.pmm pd_phys 1 1023 }

pub vmm_switch : Vmm → ℕ → Vmm
vmm_switch s pd_phys = if pd_phys == 0 then s else record s { cr3 = pd_phys }

-- a round of the walk: the page's entries are present, and for the user if that is asked
pub page_allowed : Memory → ℕ → ℕ → Bool → Bool
page_allowed memory pd addr user_only =
    let pde : ℕ = entry memory pd (pd_index addr) in
    let pte : ℕ = entry memory (page_address pde) (pt_index addr) in
    if not (has_flag pde vmm_present)
    then false
    else if user_only && not (has_flag pde vmm_user)
    then false
    else if not (has_flag pte vmm_present)
    then false
    else if user_only && not (has_flag pte vmm_user)
    then false
    else true

-- `while (addr < end)`, on fuel
pub walk_range : Memory → ℕ → ℕ → ℕ → Bool → ℕ → Option ℕ
walk_range memory pd addr end user_only zero = none
walk_range memory pd addr end user_only (suc fuel) =
    let rest = walk_range memory pd (u32 (addr + page_size)) end user_only fuel in
    if not (ltb addr end)
    then some 1
    else if page_allowed memory pd addr user_only
    then rest
    else some 0

pub vmm_range_mapped : Memory → ℕ → ℕ → ℕ → Bool → ℕ → Option ℕ
vmm_range_mapped memory pd virt len user_only fuel =
    if pd == 0 || len == 0
    then some 0
    else (walk_range memory pd (page_address virt) (page_address (u32 (virt + len + page_size - 1)))
        user_only fuel)
