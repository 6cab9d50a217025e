-- ===== src/Vmm/Inv.antt =====
-- The invariant of kernel/mm/vmm.c, and the functions that change a mapping.
use orion_final.Base.{
  ℕ, ◌+◌, ◌*◌, ◌/◌, ◌%◌, ◌^◌, ◌<◌, ◌≡◌, refl, sym, ap, ◌∙◌, ◌≢◌, ◌⊎◌, inl, inr, arith, ne→eqb,
  eq→eqb,
}
use mathlib.Core.Path.{subst}
use orion_final.Base.Update.{update_self}
use orion_final.Bitmap.{bitmap_test}
use orion_final.Pmm.{Pmm, max_frames, alloc_frame}
use orion_final.Pmm.Inv.{Inv as PmmInv, alloc_frame-Inv}
use orion_final.Pmm.Alloc.{Reserves, alloc_frame_lem}
use orion_final.Vmm.{Vmm, entry, page_address, pd_index, create_table, clear_entries}
use orion_final.Vmm.Tables.{Present, Tables, walk, has_flag-Present, has_flag-absent, Present-cases}
use orion_final.Vmm.Grow.{grown, grown-Tables, walk-grown, entry-grown_ne}
use orion_final.Vmm.Entries.{directory_entry}

-- The frame allocator is consistent, the page tables occupy reserved frames, all different, and the
-- page directory is the kernel's.
pub record Inv (s : Vmm) : Type 0 where
  pub frames : PmmInv s.pmm
  pub tables : Tables s.memory s.page_directory s.pmm.bitmap
  pub kernel : s.kernel_pd_phys ≡ s.page_directory

-- No frame is free.
unfoldable pub Exhausted : Pmm → Type 0
Exhausted p = (p.total_frames ≡ 0) ⊎ ((g : ℕ) → g ≢ 0 → g < max_frames → bitmap_test p.bitmap g ≡ 1)

-- `create_table` gave the page table `pt` of `virt`, and no address is translated otherwise.
pub record Table (s : Vmm) (virt pt : ℕ) (t : Vmm) : Type 0 where
  pub inv : Inv t
  pub same_directory : t.page_directory ≡ s.page_directory
  pub present : Present (entry t.memory t.page_directory (pd_index virt))
  pub at : pt ≡ page_address (entry t.memory t.page_directory (pd_index virt))
  pub not_zero : pt ≢ 0
  pub walks :
      (u : ℕ) → u < 2 ^ 32 → walk t.memory t.page_directory u ≡ walk s.memory s.page_directory u
  pub keeps :
      (i : ℕ)
      → i < 1024
      → Present (entry s.memory s.page_directory i)
      → entry t.memory t.page_directory i ≡ entry s.memory s.page_directory i

pub present-Table :
    (s : Vmm) (virt : ℕ)
    → Inv s
    → virt < 2 ^ 32
    → Present (entry s.memory s.page_directory (pd_index virt))
    → Table s virt (page_address (entry s.memory s.page_directory (pd_index virt))) s
present-Table s virt v l p = record {
  inv = v;
  same_directory = refl;
  present = p;
  at = refl;
  not_zero = λ e. (v.tables.tables (pd_index virt) (omega arith) p).0 (omega arith);
  walks = λ u m. refl;
  keeps = λ i m q. refl;
}

-- The page table that `create_table` takes from the free frames.
module _ (s : Vmm) (virt x f : ℕ) (pmm : Pmm) (v : Inv s) (l : virt < 2 ^ 32)
    (a : entry s.memory s.page_directory (pd_index virt) % 2 ≡ 0) (r : Reserves s.pmm f pmm)
    (w : PmmInv pmm) (address : x / 4096 ≡ f) (flag : Present x) where
  abbrev extended : Vmm
  extended = record s { pmm = pmm; memory = grown s.memory s.page_directory (pd_index virt) f x }

  extended-Table : Table s virt (f * 4096) extended
  extended-Table = record {
    inv = record {
      frames = w;
      kernel = v.kernel;
      tables =
          grown-Tables s.memory s.page_directory s.pmm.bitmap pmm.bitmap v.tables (pd_index virt) f
            x (omega arith) a r.was_free r.not_zero r.now_reserved r.others address flag;
    };
    same_directory = refl;
    present = rw self flag;
    at = rw self (omega (arith, address));
    not_zero = omega (arith, r.not_zero);
    walks =
        walk-grown s.memory s.page_directory s.pmm.bitmap pmm.bitmap v.tables (pd_index virt) f x
          (omega arith) a r.was_free r.not_zero r.now_reserved r.others address flag;
    keeps = λ i m q.
        entry-grown_ne s.memory s.page_directory s.pmm.bitmap pmm.bitmap v.tables (pd_index virt) f
          x (omega arith) a r.was_free r.not_zero r.now_reserved r.others address flag i m
          (λ e.
            absurd (
              omega
                (arith, a, subst (λ j. Present (entry s.memory s.page_directory j)) (sym e) q)));
  }
    where
      self : entry extended.memory s.page_directory (pd_index virt) ≡ x
      self =
          update_self (clear_entries s.memory (f * 4096) 0 1024)
            (s.page_directory / 4 + pd_index virt) x

pub create_table_lem :
    (s : Vmm) (virt flags : ℕ)
    → Inv s
    → virt < 2 ^ 32
    → let (pt, t) = create_table s virt flags in
      ((pt ≡ 0) × (entry s.memory s.page_directory (pd_index virt) % 2 ≡ 0) × Exhausted s.pmm)
      ⊎ Table s virt pt t
unfolding create_table Exhausted
create_table_lem s virt flags v l =
    elim (Present-cases (entry s.memory s.page_directory (pd_index virt))) [
      | inr p ↦ rw (has_flag-Present _ p) (inr (present-Table s virt v l p))
      | inl a ↦ rw (has_flag-absent _ a) (elim (alloc_frame_lem s.pmm v.frames) [
        | inl (e, _, x) ↦ rw (eq→eqb _ 0 e) (inl (refl, a, x))
        | inr (f, e, n, r) ↦ rw (ne→eqb _ 0 n) (
            rw (e, directory_entry f flags)
              (inr (
                extended-Table s virt (f * 4096 + 3 + flags / 4 % 2 * 4) f _ v l a r
                  (alloc_frame-Inv s.pmm v.frames) (omega arith) (omega arith))))
      ])
    ]

reserved_stays :
    (s : Vmm) (g : ℕ)
    → Inv s
    → bitmap_test s.pmm.bitmap g ≡ 1
    → bitmap_test (alloc_frame s.pmm).1.bitmap g ≡ 1
reserved_stays s g v b = elim (alloc_frame_lem s.pmm v.frames) [
  | inl (_, e, _) ↦ ap (λ p. bitmap_test p.bitmap g) e ∙ b
  | inr (f, _, _, r) ↦
      r.others g (λ e. absurd (omega (arith, sym r.was_free ∙ ap (bitmap_test s.pmm.bitmap) e ∙ b)))
      ∙ b
]

-- A frame that is taken for another use leaves the page tables as they are.
pub alloc_frame-VmmInv : (s : Vmm) → Inv s → Inv (record s { pmm = (alloc_frame s.pmm).1 })
alloc_frame-VmmInv s v = record {
  frames = alloc_frame-Inv s.pmm v.frames;
  tables = record {
    aligned = v.tables.aligned;
    directory = reserved_stays s _ v v.tables.directory;
    tables = λ i m p. let old = v.tables.tables i m p in (old.0, old.1, reserved_stays s _ v old.2);
    distinct = v.tables.distinct;
  };
  kernel = v.kernel;
}
