-- ===== src/Elf.antt =====
-- kernel/proc/elf.c and the structures of include/elf.h. What the loader calls in vfs.c, vmm.c and pmm.c,
-- and the memory into which it copies, are the parameter `Loader`, over a state `S`; `memset` of a page is
-- `clear_page`. What allocates may panic: the result is `none`. A file is opened by its path, which is a list of bytes; a null path is not modelled.
pub mod Closing
mod Examples
use orion_final.Base.{
  ℕ, zero, suc, ◌+◌, ◌-◌, ◌*◌, ◌/◌, ◌^◌, Bool, true, false, not, ◌&&◌, ◌||◌, ◌==◌, ltb,
  if◌then◌else◌, Option, none, some, List, [], ◌∷◌,
}
use orion_final.Base.Words.{u32, clear_low}
use orion_final.Ramfs.{Name}

abbrev pub page_size : ℕ
page_size = 4096

-- the fields of `Elf32_Ehdr` that the loader reads
pub record Ehdr : Type 0 where
  pub magic0 : ℕ
  pub magic1 : ℕ
  pub magic2 : ℕ
  pub magic3 : ℕ
  pub file_class : ℕ
  pub encoding : ℕ
  pub e_type : ℕ
  pub e_machine : ℕ
  pub e_version : ℕ
  pub e_entry : ℕ
  pub e_phoff : ℕ
  pub e_phentsize : ℕ
  pub e_phnum : ℕ

-- the fields of `Elf32_Phdr` that the loader reads
pub record Phdr : Type 0 where
  pub p_type : ℕ
  pub p_offset : ℕ
  pub p_vaddr : ℕ
  pub p_filesz : ℕ
  pub p_memsz : ℕ

-- `bytes[i]` of a structure as it was read
abbrev pub byte : List ℕ → ℕ → ℕ
byte [] i = 0
byte (x ∷ xs) zero = x
byte (x ∷ xs) (suc i) = byte xs i

-- the little-endian numbers of 16 and 32 bits at `i`
abbrev pub half : List ℕ → ℕ → ℕ
half bs i = byte bs i + byte bs (i + 1) * 2 ^ 8

abbrev pub word : List ℕ → ℕ → ℕ
word bs i = half bs i + half bs (i + 2) * 2 ^ 16

pub read_ehdr : List ℕ → Ehdr
read_ehdr bs = record {
  magic0 = byte bs 0;
  magic1 = byte bs 1;
  magic2 = byte bs 2;
  magic3 = byte bs 3;
  file_class = byte bs 4;
  encoding = byte bs 5;
  e_type = half bs 16;
  e_machine = half bs 18;
  e_version = word bs 20;
  e_entry = word bs 24;
  e_phoff = word bs 28;
  e_phentsize = half bs 42;
  e_phnum = half bs 44;
}

pub read_phdr : List ℕ → Phdr
read_phdr bs = record {
  p_type = word bs 0;
  p_offset = word bs 4;
  p_vaddr = word bs 8;
  p_filesz = word bs 16;
  p_memsz = word bs 20;
}

pub record Loader (S : Type 0) : Type 0 where
  -- with `O_RDONLY`; 0 is the null pointer.
  pub vfs_open : S → Name → Option (ℕ × S)
  pub vfs_close : S → ℕ → S
  -- `f->offset = offset`
  pub seek : S → ℕ → ℕ → S
  -- `vfs_read` into a structure of the caller: the result, as a word, and the bytes
  pub read_struct : S → ℕ → ℕ → ℕ × List ℕ × S
  -- `vfs_read` to a virtual address
  pub read_to : S → ℕ → ℕ → ℕ → ℕ × S
  pub vmm_is_mapped : S → ℕ → Bool
  -- 0 where there is no frame
  pub pmm_alloc_frame : S → ℕ × S
  -- with `VMM_KERNEL_RW`
  pub vmm_map_page : S → ℕ → ℕ → Option S
  pub clear_page : S → ℕ → S

-- the first page of a segment, and the end of its last one
abbrev pub page_start : Phdr → ℕ
page_start ph = clear_low ph.p_vaddr 12

abbrev pub page_end : Phdr → ℕ
page_end ph = clear_low (u32 (ph.p_vaddr + ph.p_memsz + page_size - 1)) 12

-- the checks of `elf_load` on the header
pub is_loadable : Ehdr → Bool
is_loadable h =
    not (
      not (h.magic0 == 0x7f)
      || (not (h.magic1 == b'E') || (not (h.magic2 == b'L') || not (h.magic3 == b'F'))))
    && (h.file_class == 1
        && (h.encoding == 1
            && (h.e_type == 2 && (h.e_machine == 3 && (not (h.e_phnum == 0) && h.e_version == 1)))))

-- `n < 0 || (uint32_t)n < filesz`
pub short_read : ℕ → ℕ → Bool
short_read n filesz = not (ltb n (2 ^ 31)) || ltb n filesz

module _ {S : Type 0} (env : Loader S) where
  pub elf_read_at : S → ℕ → ℕ → ℕ → ℕ × List ℕ × S
  elf_read_at s f len offset = env.read_struct (env.seek s f offset) f len

  -- a page that is not mapped yet: `false` where there is no frame
  pub load_page : S → ℕ → Option (Bool × S)
  load_page s page =
      if env.vmm_is_mapped s page
      then some (true, s)
      else (let (frame, s') = env.pmm_alloc_frame s in
          if frame == 0 then some (false, s') else elim (env.vmm_map_page s' page frame) [
            | none ↦ none
            | some mapped ↦ some (true, env.clear_page mapped page)
          ])

  -- the loop over the pages from `page` on, `left` of them
  pub load_pages : S → ℕ → ℕ → Option (Bool × S)
  unfolding load_page
  load_pages s page zero = some (true, s)
  load_pages s page (suc left) = elim (load_page s page) [
    | none ↦ none
    | some (true, s') ↦ load_pages s' (page + page_size) left
    | some (false, s') ↦ some (false, s')
  ]

  -- the copy of the file's part of a segment
  pub copy_image : S → ℕ → Phdr → Bool × S
  copy_image s f ph =
      if ltb 0 ph.p_filesz
      then (let (n, s') = env.read_to (env.seek s f ph.p_offset) f ph.p_vaddr ph.p_filesz in
          if short_read n ph.p_filesz then (false, s') else (true, s'))
      else (true, s)

  -- `false` is -1. The loop runs while the page is below the end, in steps of a page from one
  -- multiple of the page size to another.
  unfoldable pub elf_load_segment : S → ℕ → Phdr → Option (Bool × S)
  unfolding load_pages copy_image
  elf_load_segment s f ph =
      if ltb ph.p_memsz ph.p_filesz
      then some (false, s)
      else if ph.p_memsz == 0
      then some (true, s)
      else elim (load_pages s (page_start ph) ((page_end ph - page_start ph) / page_size)) [
        | none ↦ none
        | some (true, s') ↦ some (copy_image s' f ph)
        | some (false, s') ↦ some (false, s')
      ]

  -- a segment, where it is to be loaded
  pub load_if : S → ℕ → Phdr → Option (Bool × S)
  unfolding elf_load_segment
  load_if s f ph = if ph.p_type == 1 then elf_load_segment s f ph else some (true, s)

  -- the loop over the program headers, from number `i` on, `left` of them
  pub load_segments : S → ℕ → Ehdr → ℕ → ℕ → Option (Bool × S)
  unfolding elf_read_at load_if
  load_segments s f h i zero = some (true, s)
  load_segments s f h i (suc left) =
      let (n, bytes, s1) = elf_read_at s f 32 (u32 (h.e_phoff + i * h.e_phentsize)) in
      if not (n == 32) then some (false, s1) else elim (load_if s1 f (read_phdr bytes)) [
        | none ↦ none
        | some (true, s2) ↦ load_segments s2 f h (i + 1) left
        | some (false, s2) ↦ some (false, s2)
      ]

  -- `elf_load` with the file open: `false` is the jump to `fail`.
  pub load_from : S → ℕ → Option (Bool × ℕ × S)
  unfolding load_segments
  load_from s f =
      let (n, bytes, s1) = elf_read_at s f 52 0 in
      let h = read_ehdr bytes in
      if not (n == 52)
      then some (false, 0, s1)
      else if not (is_loadable h)
      then some (false, 0, s1)
      else elim (load_segments s1 f h 0 h.e_phnum) [
        | none ↦ none
        | some (ok, s2) ↦ some (ok, h.e_entry, s2)
      ]

  -- the entry point, or 0
  pub elf_load : S → Name → Option (ℕ × S)
  unfolding load_from
  elf_load s path = elim (env.vfs_open s path) [
    | none ↦ none
    | some (f, s1) ↦ if f == 0 then some (0, s1) else elim (load_from s1 f) [
      | none ↦ none
      | some (ok, entry, s2) ↦ some (if ok then entry else 0, env.vfs_close s2 f)
    ]
  ]
