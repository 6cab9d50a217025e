-- ===== src/Vmm/Mapping.antt =====
-- What the functions of kernel/mm/vmm.c that change a page's mapping do to the translation of all
-- addresses.
use orion_final.Base.{
  ℕ, ◌+◌, ◌*◌, ◌/◌, ◌%◌, ◌^◌, ◌<◌, ◌≡◌, refl, ap, ◌∙◌, ◌⊎◌, inl, inr, arith, ◌==◌, if◌then◌else◌,
  none, some, ◌∷◌, ne→eqb, eq→eqb,
}
use orion_final.Base.Masks.{bit_and-flag_zero, bit_or-disjoint}
use orion_final.Vmm.{
  Vmm, entry, set_entry, page_address, pd_index, pt_index, vmm_map_page, vmm_unmap_page,
  vmm_get_phys, vmm_is_mapped,
}
use orion_final.Vmm.Tables.{
  Present, walk, has_flag-Present, has_flag-absent, Present-cases, written-Tables, walk-written,
  entry-written,
}
use orion_final.Vmm.Entries.{make_entry_lem}
use orion_final.Vmm.Inv.{Inv, Exhausted, Table, present-Table, create_table_lem}

-- `t` is `s` with the page of `virt` translated by the entry `x`, and no other.
pub record Maps (s : Vmm) (virt x : ℕ) (t : Vmm) : Type 0 where
  pub inv : Inv t
  pub same_directory : t.page_directory ≡ s.page_directory
  pub walks :
      (u : ℕ)
      → u < 2 ^ 32
      → walk t.memory t.page_directory u
        ≡ (if u / 4096 == virt / 4096 then x else walk s.memory s.page_directory u)
  pub keeps :
      (i : ℕ)
      → i < 1024
      → Present (entry s.memory s.page_directory i)
      → entry t.memory t.page_directory i ≡ entry s.memory s.page_directory i

set_entry-Maps :
    (s : Vmm) (virt x : ℕ) (t : Vmm) (pt : ℕ)
    → virt < 2 ^ 32
    → Table s virt pt t
    → Maps s virt x
        (record t { memory = set_entry t.memory pt (pt_index virt) x; flushed = virt ∷ t.flushed })
set_entry-Maps s virt x t pt l w = rw w.at (record {
  inv = record {
    frames = w.inv.frames;
    kernel = w.inv.kernel;
    tables = written-Tables t.memory t.page_directory t.pmm.bitmap w.inv.tables virt x l w.present;
  };
  same_directory = w.same_directory;
  walks = λ u m.
      walk-written t.memory t.page_directory t.pmm.bitmap w.inv.tables virt x l w.present u m
      ∙ ap (λ y. if u / 4096 == virt / 4096 then x else y) (w.walks u m);
  keeps = λ i m q.
      entry-written t.memory t.page_directory t.pmm.bitmap w.inv.tables virt x l w.present i m
      ∙ w.keeps i m q;
})

-- Where the invariant holds, `vmm_map_page` panics only if the page has no page table and no frame is
-- left for one. Otherwise the page is translated by the entry made of the physical page and the flags,
-- every other address as before, and the invariant holds again.
pub vmm_map_page_lem :
    (s : Vmm) (virt phys flags : ℕ)
    → Inv s
    → virt < 2 ^ 32
    → flags < 4096
    → ((vmm_map_page s virt phys flags ≡ none)
        × (entry s.memory s.page_directory (pd_index virt) % 2 ≡ 0)
        × Exhausted s.pmm)
      ⊎ ((t : Vmm) × (vmm_map_page s virt phys flags ≡ some t)
          × Maps s virt (phys / 4096 * 4096 + (flags / 2 * 2 + 1)) t)
unfolding vmm_map_page
vmm_map_page_lem s virt phys flags v l k = elim (create_table_lem s virt flags v l) [
  | inl (e, a, x) ↦ rw (eq→eqb _ 0 e) (inl (refl, a, x))
  | inr w ↦
      rw (ne→eqb _ 0 w.not_zero)
        (inr (_, refl, rw (← make_entry_lem phys flags k) (set_entry-Maps s virt _ _ _ l w)))
]

walk-absent :
    (s : Vmm) (virt u : ℕ)
    → entry s.memory s.page_directory (pd_index virt) % 2 ≡ 0
    → u < 2 ^ 32
    → u / 4096 ≡ virt / 4096
    → walk s.memory s.page_directory u ≡ 0
unfolding walk
walk-absent s virt u a m e =
    let same : pd_index u ≡ pd_index virt = omega arith in rw same (ground arith)

-- After `vmm_unmap_page` the page has no translation, every other address the one it had, and the
-- invariant holds.
pub vmm_unmap_page_lem :
    (s : Vmm) (virt : ℕ) → Inv s → virt < 2 ^ 32 → Maps s virt 0 (vmm_unmap_page s virt)
unfolding vmm_unmap_page
vmm_unmap_page_lem s virt v l =
    elim (Present-cases (entry s.memory s.page_directory (pd_index virt))) [
      | inr p ↦
          rw (has_flag-Present _ p) (set_entry-Maps s virt 0 s _ l (present-Table s virt v l p))
      | inl a ↦ rw (has_flag-absent _ a) (record {
        inv = v;
        same_directory = refl;
        walks = λ u m. ground (arith, walk-absent s virt u a m);
        keeps = λ i m q. refl;
      })
    ]

-- `vmm_get_phys` is the translation that the tables give the address, and 0 where they give none;
-- `vmm_is_mapped` says which of the two it is.
pub vmm_get_phys_lem :
    (s : Vmm) (virt : ℕ)
    → let pte = walk s.memory s.page_directory virt in
      (vmm_get_phys s virt ≡ (if pte % 2 == 0 then 0 else pte / 4096 * 4096 + virt % 4096))
      × (vmm_is_mapped s virt ≡ pte % 2)
unfolding vmm_get_phys vmm_is_mapped walk
vmm_get_phys_lem s virt =
    let pde = entry s.memory s.page_directory (pd_index virt) in
    let pte = entry s.memory (page_address pde) (pt_index virt) in
    rw
      (
        bit_and-flag_zero pde,
        bit_and-flag_zero pte,
        bit_or-disjoint 12 (pte / 4096) (virt % 4096) (omega arith),
      )
      (ground arith, ground arith)
