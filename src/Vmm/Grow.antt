-- ===== src/Vmm/Grow.antt =====
-- `create_table` of kernel/mm/vmm.c: a page table is taken from the free frames, cleared, and put into
-- the page directory.
use orion_final.Base.{
  ℕ, ◌+◌, ◌*◌, ◌/◌, ◌%◌, ◌^◌, ◌≤◌, ◌<◌, ◌≡◌, sym, ap, ◌∙◌, ◌≢◌, ◌⊎◌, inl, inr, arith, ℕ_discrete,
}
use orion_final.Base.Update.{update_self, update_ne}
use orion_final.Bitmap.{Bitmap, bitmap_test}
use orion_final.Vmm.{Memory, entry, set_entry, page_address, pd_index, pt_index, clear_entries}
use orion_final.Vmm.Tables.{Present, Tables, walk, clear_entries_in, clear_entries_out}

-- The memory with a cleared page table in frame `f` and the entry `x` for it.
abbrev pub grown : Memory → ℕ → ℕ → ℕ → ℕ → Memory
grown memory pd i f x = set_entry (clear_entries memory (f * 4096) 0 1024) pd i x

module _ (memory : Memory) (pd : ℕ) (bitmap bitmap' : Bitmap) (t : Tables memory pd bitmap)
    (i f x : ℕ) (l : i < 1024) (absent : entry memory pd i % 2 ≡ 0)
    (free : bitmap_test bitmap f ≡ 0) (not_zero : f ≢ 0) (taken : bitmap_test bitmap' f ≡ 1)
    (others : (g : ℕ) → f ≢ g → bitmap_test bitmap' g ≡ bitmap_test bitmap g)
    (address : x / 4096 ≡ f) (flag : Present x) where
  abbrev after : Memory
  after = grown memory pd i f x

  fresh : (g : ℕ) → bitmap_test bitmap g ≡ 1 → f ≢ g
  fresh g r e = absurd (omega (arith, sym free ∙ ap (bitmap_test bitmap) e ∙ r))

  -- Reserved frames are left alone, but for the entry of the page directory.
  pub grown_reserved :
      (w : ℕ) → bitmap_test bitmap (w / 1024) ≡ 1 → pd / 4 + i ≢ w → after w ≡ memory w
  grown_reserved w r n =
      update_ne (clear_entries memory (f * 4096) 0 1024) (pd / 4 + i) w x n
      ∙ clear_entries_out memory (f * 4096) 0 1024 w (outside (fresh _ r))
    where
      outside : f ≢ w / 1024 → (w < f * 4096 / 4 + 0) ⊎ (f * 4096 / 4 + 0 + 1024 ≤ w)
      outside d = omega arith

  pub entry-grown_self : entry after pd i ≡ x
  entry-grown_self = update_self (clear_entries memory (f * 4096) 0 1024) (pd / 4 + i) x

  pub entry-grown_ne : (j : ℕ) → j < 1024 → i ≢ j → entry after pd j ≡ entry memory pd j
  entry-grown_ne j m n =
      let at : (pd / 4 + j) / 1024 ≡ pd / 4096 = omega (arith, t.aligned) in
      grown_reserved (pd / 4 + j) (rw at t.directory) (omega arith)

  kept : (g : ℕ) → bitmap_test bitmap g ≡ 1 → bitmap_test bitmap' g ≡ 1
  kept g r = others g (fresh g r) ∙ r

  -- an entry of the new page directory is the new one, or an old one
  old_entry :
      (j : ℕ)
      → j < 1024
      → Present (entry after pd j)
      → ((i ≡ j) × (entry after pd j ≡ x))
        ⊎ ((i ≢ j) × (entry after pd j ≡ entry memory pd j) × Present (entry memory pd j))
  old_entry j m q = elim (ℕ_discrete i j) [
    | yes e ↦ inl (e, ap (entry after pd) (sym e) ∙ entry-grown_self)
    | no n ↦
        let same : entry after pd j ≡ entry memory pd j = entry-grown_ne j m n in
        inr (n, same, sym (ap (λ y. y % 2) same) ∙ q)
  ]

  pub grown-Tables : Tables after pd bitmap'
  grown-Tables = record {
    aligned = t.aligned;
    directory = kept _ t.directory;
    tables = λ j m q. elim (old_entry j m q) [
      | inl (_, e) ↦ rw (e, address) (not_zero, fresh _ t.directory, taken)
      | inr (n, e, r) ↦ rw e ((t.tables j m r).0, (t.tables j m r).1, kept _ (t.tables j m r).2)
    ];
    distinct = λ j k m n d q r. elim (old_entry j m q) [
      | inl (a, e) ↦ elim (old_entry k n r) [
        | inl (b, _) ↦ absurd (d (sym a ∙ b))
        | inr (_, e', r') ↦ rw (e, e', address) (fresh _ (t.tables k n r').2)
      ]
      | inr (_, e, q') ↦ elim (old_entry k n r) [
        | inl (_, e') ↦ rw (e, e', address) (λ h. fresh _ (t.tables j m q').2 (sym h))
        | inr (_, e', r') ↦ rw (e, e') (t.distinct j k m n d q' r')
      ]
    ];
  }

  old_page :
      (u : ℕ)
      → u < 2 ^ 32
      → Present (entry memory pd (pd_index u))
      → entry after (page_address (entry memory pd (pd_index u))) (pt_index u)
        ≡ entry memory (page_address (entry memory pd (pd_index u))) (pt_index u)
  old_page u m q =
      let table = t.tables (pd_index u) (omega arith) q in
      let at : (page_address (entry memory pd (pd_index u)) / 4 + pt_index u) / 1024
          ≡ entry memory pd (pd_index u) / 4096 =
        omega arith in
      grown_reserved _ (rw at table.2) (λ h. table.1 (omega (arith, t.aligned)))

  pub walk-grown : (u : ℕ) → u < 2 ^ 32 → walk after pd u ≡ walk memory pd u
  unfolding walk
  walk-grown u m = elim (ℕ_discrete i (pd_index u)) [
    | yes e ↦
        let cleared : after (page_address x / 4 + pt_index u) ≡ 0 =
          update_ne (clear_entries memory (f * 4096) 0 1024) _ _ x
            (λ h. fresh _ t.directory (omega (arith, t.aligned, address)))
          ∙ clear_entries_in memory (f * 4096) 0 1024 _ (omega (arith, address))
              (omega (arith, address)) in
        rw (← e, entry-grown_self) (ground (arith, cleared, absent))
    | no n ↦ rw (entry-grown_ne (pd_index u) (omega arith) n) (ground (arith, old_page u m))
  ]
