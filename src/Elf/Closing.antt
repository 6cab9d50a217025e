-- ===== src/Elf/Closing.antt =====
-- The calls of `vfs_close` that `elf_load` of kernel/proc/elf.c makes.
use mathlib.Core.Path.{subst}
use orion_final.Base.{
  ℕ, zero, suc, ◌-◌, ◌/◌, ◌+◌, ◌*◌, ◌≡◌, refl, sym, ap, ◌∙◌, arith, Bool, true, false, not, ◌==◌,
  ltb, if◌then◌else◌, Option, none, some, List, [], ◌∷◌, if_true, if_false,
}
use orion_final.Base.Words.{u32}
use orion_final.Ramfs.{Name}
use orion_final.Elf.{
  Loader, Ehdr, Phdr, page_size, page_start, page_end, is_loadable, load_page, load_pages,
  copy_image, elf_load_segment, load_if, load_segments, elf_read_at, load_from, elf_load, read_ehdr,
  read_phdr,
}

-- The same loader, which also keeps the list of the files for which `vfs_close` is called, the last first.
pub logged : {S : Type 0} → Loader S → Loader (S × List ℕ)
logged env = record {
  vfs_open = λ (s, log) path. elim (env.vfs_open s path) [
    | none ↦ none
    | some (f, t) ↦ some (f, (t, log))
  ];
  vfs_close = λ (s, log) f. (env.vfs_close s f, f ∷ log);
  seek = λ (s, log) f offset. (env.seek s f offset, log);
  read_struct =
      λ (s, log) f len. let (n, bytes, t) = env.read_struct s f len in (n, bytes, (t, log));
  read_to = λ (s, log) f dst len. let (n, t) = env.read_to s f dst len in (n, (t, log));
  vmm_is_mapped = λ (s, log) page. env.vmm_is_mapped s page;
  pmm_alloc_frame = λ (s, log). let (frame, t) = env.pmm_alloc_frame s in (frame, (t, log));
  vmm_map_page = λ (s, log) page frame. elim (env.vmm_map_page s page frame) [
    | none ↦ none
    | some t ↦ some (t, log)
  ];
  clear_page = λ (s, log) page. (env.clear_page s page, log);
}

module _ {S : Type 0} (env : Loader S) where
  -- The log is as it was, unless there is a panic.
  Same : List ℕ → Option (Bool × (S × List ℕ)) → Type 0
  Same log none = Unit
  Same log (some (ok, (s, after))) = after ≡ log

  Same-if :
      (log : List ℕ) (b : Bool) (x y : Option (Bool × (S × List ℕ)))
      → Same log x
      → Same log y
      → Same log (if b then x else y)
  Same-if log true x y a c = a
  Same-if log false x y a c = c

  load_page-Same :
      (s : S) (log : List ℕ) (page : ℕ) → Same log (load_page (logged env) (s, log) page)
  unfolding load_page logged Same
  load_page-Same s log page =
      let (frame, t) = env.pmm_alloc_frame s in
      Same-if log (env.vmm_is_mapped s page) _ _ refl
        (Same-if log (frame == 0) _ _ refl (by_mapping (env.vmm_map_page t page frame)))
    where
      by_mapping :
          (o : Option S)
          → Same log
              (elim (elim o as (λ _. Option (S × List ℕ)) [ none ↦ none | some t ↦ some (t, log) ])
                as (λ _. Option (Bool × (S × List ℕ))) [
                  | none ↦ none
                  | some (t, l) ↦ some (true, (env.clear_page t page, l))
                ])
      by_mapping none = tt
      by_mapping (some t) = refl

  load_pages-Same :
      (s : S) (log : List ℕ) (page left : ℕ) → Same log (load_pages (logged env) (s, log) page left)
  unfolding load_pages Same
  load_pages-Same s log page zero = refl
  load_pages-Same s log page (suc left) =
      by_page (load_page (logged env) (s, log) page) (load_page-Same s log page)
        (λ t. load_pages-Same t log (page + page_size) left)
    where
      by_page :
          (o : Option (Bool × (S × List ℕ)))
          → Same log o
          → ((t : S) → Same log (load_pages (logged env) (t, log) (page + page_size) left))
          → Same log (elim o as (λ _. Option (Bool × (S × List ℕ))) [
            | none ↦ none
            | some (true, t) ↦ load_pages (logged env) t (page + page_size) left
            | some (false, t) ↦ some (false, t)
          ])
      by_page none e rest = tt
      by_page (some (true, (t, l))) e rest =
          subst (λ x. Same log (load_pages (logged env) (t, x) (page + page_size) left)) (sym e)
            (rest t)
      by_page (some (false, (t, l))) e rest = e

  copy-Same :
      (s : S) (log : List ℕ) (f : ℕ) (ph : Phdr)
      → Same log (some (copy_image (logged env) (s, log) f ph))
  unfolding copy_image logged Same
  copy-Same s log f ph = ground arith

  segment-Same :
      (s : S) (log : List ℕ) (f : ℕ) (ph : Phdr) → Same log (load_if (logged env) (s, log) f ph)
  unfolding load_if elf_load_segment Same
  segment-Same s log f ph =
      let left = (page_end ph - page_start ph) / page_size in
      Same-if log (ph.p_type == 1) _ _
        (Same-if log (ltb ph.p_memsz ph.p_filesz) _ _ refl (
          Same-if log (ph.p_memsz == 0) _ _ refl (
            by_pages (load_pages (logged env) (s, log) (page_start ph) left)
              (load_pages-Same s log (page_start ph) left))))
        refl
    where
      by_pages :
          (o : Option (Bool × (S × List ℕ)))
          → Same log o
          → Same log (elim o as (λ _. Option (Bool × (S × List ℕ))) [
            | none ↦ none
            | some (true, t) ↦ some (copy_image (logged env) t f ph)
            | some (false, t) ↦ some (false, t)
          ])
      by_pages none e = tt
      by_pages (some (true, (t, l))) e =
          subst (λ x. Same log (some (copy_image (logged env) (t, x) f ph))) (sym e)
            (copy-Same t log f ph)
      by_pages (some (false, (t, l))) e = e

  segments-Same :
      (s : S) (log : List ℕ) (f : ℕ) (h : Ehdr) (i left : ℕ)
      → Same log (load_segments (logged env) (s, log) f h i left)
  unfolding load_segments elf_read_at logged Same
  segments-Same s log f h i zero = refl
  segments-Same s log f h i (suc left) =
      let (n, bytes, t) =
        env.read_struct (env.seek s f (u32 (h.e_phoff + i * h.e_phentsize))) f 32 in
      Same-if log (not (n == 32)) _ _ refl (
        by_segment (load_if (logged env) (t, log) f (read_phdr bytes))
          (segment-Same t log f (read_phdr bytes)) (λ u. segments-Same u log f h (i + 1) left))
    where
      by_segment :
          (o : Option (Bool × (S × List ℕ)))
          → Same log o
          → ((t : S) → Same log (load_segments (logged env) (t, log) f h (i + 1) left))
          → Same log (elim o as (λ _. Option (Bool × (S × List ℕ))) [
            | none ↦ none
            | some (true, t) ↦ load_segments (logged env) t f h (i + 1) left
            | some (false, t) ↦ some (false, t)
          ])
      by_segment none e rest = tt
      by_segment (some (true, (t, l))) e rest =
          subst (λ x. Same log (load_segments (logged env) (t, x) f h (i + 1) left)) (sym e)
            (rest t)
      by_segment (some (false, (t, l))) e rest = e

  -- The files for which `vfs_close` has been called, where `elf_load` returns.
  pub Closes : List ℕ → Option (ℕ × (S × List ℕ)) → Type 0
  Closes files none = Unit
  Closes files (some (entry, (s, log))) = log ≡ files

  Closes-if :
      (b : Bool) (files : List ℕ) (x y : Option (ℕ × (S × List ℕ)))
      → (b ≡ true → Closes files x)
      → (b ≡ false → Closes files y)
      → Closes files (if b then x else y)
  Closes-if true files x y a c = a refl
  Closes-if false files x y a c = c refl

  -- after `load_from`, whose log is that before it
  LoadedSame : List ℕ → Option (Bool × ℕ × (S × List ℕ)) → Type 0
  LoadedSame log none = Unit
  LoadedSame log (some (ok, entry, (t, after))) = after ≡ log

  LoadedSame-if :
      (log : List ℕ) (b : Bool) (x y : Option (Bool × ℕ × (S × List ℕ)))
      → LoadedSame log x
      → LoadedSame log y
      → LoadedSame log (if b then x else y)
  LoadedSame-if log true x y a c = a
  LoadedSame-if log false x y a c = c

  load_from-LoadedSame :
      (s : S) (log : List ℕ) (f : ℕ) → LoadedSame log (load_from (logged env) (s, log) f)
  unfolding load_from elf_read_at logged LoadedSame Same
  load_from-LoadedSame s log f =
      let (n, bytes, t) = env.read_struct (env.seek s f 0) f 52 in
      let h = read_ehdr bytes in
      LoadedSame-if log (not (n == 52)) _ _ refl (
        LoadedSame-if log (not (is_loadable h)) _ _ refl (
          by_segments h.e_entry (load_segments (logged env) (t, log) f h 0 h.e_phnum)
            (segments-Same t log f h 0 h.e_phnum)))
    where
      by_segments :
          (entry : ℕ) (o : Option (Bool × (S × List ℕ)))
          → Same log o
          → LoadedSame log (elim o as (λ _. Option (Bool × ℕ × (S × List ℕ))) [
            | none ↦ none
            | some (ok, u) ↦ some (ok, entry, u)
          ])
      by_segments entry none e = tt
      by_segments entry (some (ok, (u, l))) e = e

  -- Where `vfs_open` returns a file and `elf_load` returns, whatever the file holds and whatever fails
  -- on the way, `elf_load` has called `vfs_close` once, for that file; and where `vfs_open` returns
  -- the null pointer, not at all.
  pub elf_load-Closes :
      (s t : S) (path : Name) (f : ℕ)
      → env.vfs_open s path ≡ some (f, t)
      → Closes (if f == 0 then [] else f ∷ []) (elf_load (logged env) (s, []) path)
  unfolding elf_load logged Closes LoadedSame
  elf_load-Closes s t path f e =
      subst
        (λ o.
          Closes (if f == 0 then [] else f ∷ [])
            (elim (elim o as (λ _. Option (ℕ × (S × List ℕ))) [
              | none ↦ none
              | some (g, u) ↦ some (g, (u, []))
            ])
              as (λ _. Option (ℕ × (S × List ℕ))) [ none ↦ none | some (g, u) ↦ after g u ]))
        (sym e)
        (Closes-if (f == 0) _ _ _ (λ z. sym (if_true _ _ z))
          (λ z. by_loading z (load_from (logged env) (t, []) f) (load_from-LoadedSame t [] f)))
    where
      after : ℕ → S × List ℕ → Option (ℕ × (S × List ℕ))
      after g u = if g == 0 then some (0, u) else elim (load_from (logged env) u g) [
        | none ↦ none
        | some (ok, entry, w) ↦ some (if ok then entry else 0, (env.vfs_close w.0 g, g ∷ w.1))
      ]

      by_loading :
          (f == 0) ≡ false
          → (o : Option (Bool × ℕ × (S × List ℕ))) → LoadedSame [] o
          → Closes (if f == 0 then [] else f ∷ []) (elim o as (λ _. Option (ℕ × (S × List ℕ))) [
            | none ↦ none
            | some (ok, entry, w) ↦ some (if ok then entry else 0, (env.vfs_close w.0 f, f ∷ w.1))
          ])
      by_loading z none h = tt
      by_loading z (some (ok, entry, (u, l))) h =
          ap (λ (xs : List ℕ). f ∷ xs) h ∙ sym (if_false _ _ z)
