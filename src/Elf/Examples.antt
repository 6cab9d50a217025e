-- ===== src/Elf/Examples.antt =====
-- Runs of kernel/proc/elf.c with a small machine.
use orion_final.Base.{ℕ, ◌+◌, ◌-◌, ◌≡◌, refl, Bool, true, false, [], ◌∷◌, Option, none, some}
use orion_final.Base.Update.{update}
use orion_final.Elf.{Loader, Phdr, short_read, elf_load_segment, elf_load, load_pages}
use orion_final.Elf.Closing.{logged, Closes, elf_load-Closes}

record Machine : Type 0 where
  opened : ℕ
  mapped : ℕ → Bool

-- Frames never run out, every read is whole, and files are empty.
abbrev machine : Loader Machine
machine = record {
  vfs_open = λ s path. some (1, record s { opened = s.opened + 1 });
  vfs_close = λ s f. record s { opened = s.opened - 1 };
  seek = λ s f offset. s;
  read_struct = λ s f len. (0, [], s);
  read_to = λ s f dst len. (len, s);
  vmm_is_mapped = λ s page. s.mapped page;
  pmm_alloc_frame = λ s. (1, s);
  vmm_map_page = λ s page frame. some (record s { mapped = update s.mapped page true });
  clear_page = λ s page. s;
}

abbrev blank : Machine
blank = record { opened = 0; mapped = λ page. false }

abbrev value_of : Machine → Option (Bool × Machine) → Machine
value_of s none = s
value_of s (some (ok, t)) = t

abbrev segment : Phdr
segment = record { p_type = 1; p_offset = 0; p_vaddr = 0x8048010; p_filesz = 16; p_memsz = 5000 }

segment_loads :
    (elf_load_segment machine blank 1 segment)
    ≡ some (true, (value_of blank (elf_load_segment machine blank 1 segment)))
unfolding elf_load_segment short_read load_pages
segment_loads = refl

-- The file is too short for a header, and is closed.
elf_load-Closes_example : Closes machine (1 ∷ []) (elf_load (logged machine) (blank, []) [])
elf_load-Closes_example = elf_load-Closes machine blank (record blank { opened = 1 }) [] 1 refl
