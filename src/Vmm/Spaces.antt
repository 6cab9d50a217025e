-- ===== src/Vmm/Spaces.antt =====
-- `vmm_create_address_space` of kernel/mm/vmm.c: a new page directory.
use orion_final.Base.{
  ℕ, ◌+◌, ◌*◌, ◌/◌, ◌%◌, ◌^◌, ◌≤◌, ◌<◌, ◌≡◌, refl, sym, ap, ◌∙◌, ◌≢◌, ◌⊎◌, inl, inr, arith, ltb,
  if◌then◌else◌, ne→eqb, eq→eqb,
}
use orion_final.Base.Update.{update_self, update_ne}
use orion_final.Bitmap.{bitmap_test}
use orion_final.Pmm.{Pmm}
use orion_final.Pmm.Inv.{Inv as PmmInv, alloc_frame-Inv}
use orion_final.Pmm.Alloc.{Reserves, alloc_frame_lem}
use orion_final.Vmm.{
  Vmm, Memory, entry, set_entry, page_address, pd_index, pt_index, clear_entries,
  vmm_create_address_space,
}
use orion_final.Vmm.Tables.{Present, Tables, walk, walk-same, clear_entries_in, clear_entries_out}
use orion_final.Vmm.Inv.{Inv, Exhausted}

-- `t` is `s` with an address space whose page directory is in the new frame `f`: it translates the
-- first 4 MB as the kernel's does, and nothing else; the kernel's own translation is as it was.
pub record Creates (s : Vmm) (f : ℕ) (t : Vmm) : Type 0 where
  pub inv : Inv t
  pub was_free : bitmap_test s.pmm.bitmap f ≡ 0
  pub now_reserved : bitmap_test t.pmm.bitmap f ≡ 1
  pub new_walks :
      (u : ℕ)
      → u < 2 ^ 32
      → walk t.memory (f * 4096) u
        ≡ (if ltb u (2 ^ 22) then walk s.memory s.kernel_pd_phys u else 0)
  pub kernel_walks :
      (u : ℕ) → u < 2 ^ 32 → walk t.memory t.page_directory u ≡ walk s.memory s.page_directory u

module _ (s : Vmm) (f : ℕ) (pmm : Pmm) (v : Inv s) (r : Reserves s.pmm f pmm) (w : PmmInv pmm)
    (x : ℕ) (e : x ≡ entry s.memory s.kernel_pd_phys 0) where
  abbrev after : Memory
  after = set_entry (clear_entries s.memory (f * 4096) 0 1024) (f * 4096) 0 x

  fresh : (g : ℕ) → bitmap_test s.pmm.bitmap g ≡ 1 → f ≢ g
  fresh g q d = absurd (omega (arith, sym r.was_free ∙ ap (bitmap_test s.pmm.bitmap) d ∙ q))

  after_reserved : (a : ℕ) → bitmap_test s.pmm.bitmap (a / 1024) ≡ 1 → after a ≡ s.memory a
  after_reserved a q =
      let n = fresh _ q in
      update_ne (clear_entries s.memory (f * 4096) 0 1024) _ a x (omega arith)
      ∙ clear_entries_out s.memory (f * 4096) 0 1024 a (omega arith)

  entry-after :
      (i : ℕ) → i < 1024 → entry after s.page_directory i ≡ entry s.memory s.page_directory i
  entry-after i m =
      let at : (s.page_directory / 4 + i) / 1024 ≡ s.page_directory / 4096 =
        omega (arith, v.tables.aligned) in
      after_reserved _ (rw at v.tables.directory)

  kept : (g : ℕ) → bitmap_test s.pmm.bitmap g ≡ 1 → bitmap_test pmm.bitmap g ≡ 1
  kept g q = r.others g (fresh g q) ∙ q

  after-Tables : Tables after s.page_directory pmm.bitmap
  after-Tables = record {
    aligned = v.tables.aligned;
    directory = kept _ v.tables.directory;
    tables = λ i m q.
        let old = v.tables.tables i m (sym (ap (λ y. y % 2) (entry-after i m)) ∙ q) in
        rw (entry-after i m) (old.0, old.1, kept _ old.2);
    distinct = λ i j m n d q p.
        rw (entry-after i m, entry-after j n)
          (v.tables.distinct i j m n d (sym (ap (λ y. y % 2) (entry-after i m)) ∙ q)
            (sym (ap (λ y. y % 2) (entry-after j n)) ∙ p));
  }

  after_page :
      (u : ℕ)
      → u < 2 ^ 32
      → Present (entry s.memory s.page_directory (pd_index u))
      → entry after (page_address (entry s.memory s.page_directory (pd_index u))) (pt_index u)
        ≡ entry s.memory (page_address (entry s.memory s.page_directory (pd_index u))) (pt_index u)
  after_page u m q =
      let table = v.tables.tables (pd_index u) (omega arith) q in
      let at : (page_address (entry s.memory s.page_directory (pd_index u)) / 4 + pt_index u) / 1024
          ≡ entry s.memory s.page_directory (pd_index u) / 4096 =
        omega arith in
      after_reserved _ (rw at table.2)

  walk-after :
      (u : ℕ) → u < 2 ^ 32 → walk after s.page_directory u ≡ walk s.memory s.page_directory u
  unfolding walk
  walk-after u m = rw (entry-after (pd_index u) (omega arith)) (ground (arith, after_page u m))

  entry-new_self : entry after (f * 4096) 0 ≡ x
  entry-new_self = update_self (clear_entries s.memory (f * 4096) 0 1024) (f * 4096 / 4 + 0) x

  entry-new_ne : (i : ℕ) → i < 1024 → i ≢ 0 → entry after (f * 4096) i ≡ 0
  entry-new_ne i m n =
      update_ne (clear_entries s.memory (f * 4096) 0 1024) _ (f * 4096 / 4 + i) x (omega arith)
      ∙ clear_entries_in s.memory (f * 4096) 0 1024 _ (omega arith) (omega arith)

  walk-new_low : (u : ℕ) → u < 2 ^ 22 → walk after (f * 4096) u ≡ walk s.memory s.kernel_pd_phys u
  walk-new_low u l =
      let at : pd_index u ≡ 0 = omega arith in
      rw v.kernel (
        walk-same after (f * 4096) s.page_directory u
          (rw (at, entry-new_self, entry-after 0 (omega arith), e, v.kernel) refl)
        ∙ walk-after u (omega arith))

  walk-new_high : (u : ℕ) → u < 2 ^ 32 → 2 ^ 22 ≤ u → walk after (f * 4096) u ≡ 0
  unfolding walk
  walk-new_high u m l = rw (entry-new_ne (pd_index u) (omega arith) (omega arith)) (ground arith)

  after-Creates : Creates s f (record s { pmm = pmm; memory = after })
  after-Creates = record {
    inv = record { frames = w; tables = after-Tables; kernel = v.kernel };
    was_free = r.was_free;
    now_reserved = r.now_reserved;
    new_walks = λ u m. ground (arith, walk-new_low u, walk-new_high u m);
    kernel_walks = walk-after;
  }

entry-cleared :
    (s : Vmm) (f : ℕ) (pmm : Pmm)
    → Inv s
    → Reserves s.pmm f pmm
    → entry (clear_entries s.memory (f * 4096) 0 1024) s.kernel_pd_phys 0
      ≡ entry s.memory s.kernel_pd_phys 0
entry-cleared s f pmm v r =
    let differs : f ≢ s.page_directory / 4096 = λ d.
      absurd
        (omega (arith, sym r.was_free ∙ ap (bitmap_test s.pmm.bitmap) d ∙ v.tables.directory)) in
    clear_entries_out s.memory (f * 4096) 0 1024 (s.kernel_pd_phys / 4 + 0)
      (omega (arith, v.kernel, v.tables.aligned))

-- Where the invariant holds, `vmm_create_address_space` returns 0 and changes no mapping only if no
-- frame is free. Otherwise it returns a page directory in a frame that was free, which translates the
-- first 4 MB as the kernel's does and nothing else, and leaves the kernel's translation as it was.
pub vmm_create_address_space_lem :
    (s : Vmm)
    → Inv s
    → ((vmm_create_address_space s ≡ (0, s)) × Exhausted s.pmm)
      ⊎ ((f : ℕ) × ((vmm_create_address_space s).0 ≡ f * 4096)
          × Creates s f (vmm_create_address_space s).1)
unfolding vmm_create_address_space Exhausted
vmm_create_address_space_lem s v = elim (alloc_frame_lem s.pmm v.frames) [
  | inl (e, g, x) ↦ inl (rw (eq→eqb _ 0 e, g) refl, x)
  | inr (f, e, n, r) ↦
      rw (ne→eqb _ 0 n, e)
        (inr (
          f,
          refl,
          after-Creates s f _ v r (alloc_frame-Inv s.pmm v.frames) _ (entry-cleared s f _ v r),
        ))
]
