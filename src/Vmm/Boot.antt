-- ===== src/Vmm/Boot.antt =====
-- `vmm_init` of kernel/mm/vmm.c: the kernel's page directory.
use orion_final.Base.{
  ℕ, zero, suc, ◌+◌, ◌*◌, ◌/◌, ◌^◌, ◌≤◌, ◌<◌, ◌≡◌, refl, sym, ap, ◌∙◌, ◌≢◌, ◌⊎◌, inl, inr, arith,
  ltb, if◌then◌else◌, ne→eqb, eq→eqb, ℕ_discrete, none, some, dec_lt, bit_or,
}
use mathlib.Core.Path.{subst}
use orion_final.Base.Update.{update_self, update_ne}
use orion_final.Base.Words.{u32}
use orion_final.Base.Masks.{bit_or-disjoint}
use orion_final.Bitmap.{bitmap_test}
use orion_final.Pmm.{Pmm, alloc_frame}
use orion_final.Pmm.Inv.{Inv as PmmInv, alloc_frame-Inv}
use orion_final.Pmm.Alloc.{Reserves, alloc_frame_lem}
use orion_final.Vmm.{
  Vmm, Memory, entry, set_entry, pd_index, pt_index, page_size, vmm_kernel_rw, clear_entries,
  identity_entries, vmm_init,
}
use orion_final.Vmm.Tables.{Present, Tables, walk, clear_entries_in}
use orion_final.Vmm.Inv.{Inv, Exhausted}

identity_entries_out :
    (memory : Memory) (pt i left w : ℕ)
    → (w < pt / 4 + i) ⊎ (pt / 4 + i + left ≤ w)
    → identity_entries memory pt i left w ≡ memory w
unfolding identity_entries
identity_entries_out memory pt i zero w h = refl
identity_entries_out memory pt i (suc left) w h =
    identity_entries_out (set_entry memory pt i (bit_or (u32 (i * page_size)) vmm_kernel_rw)) pt
      (i + 1) left w (omega arith)
    ∙ update_ne memory (pt / 4 + i) w _ (omega arith)

identity_entries_in :
    (memory : Memory) (pt i left j : ℕ)
    → i ≤ j
    → j < i + left
    → i + left ≤ 1024
    → identity_entries memory pt i left (pt / 4 + j) ≡ j * 4096 + 3
unfolding identity_entries
identity_entries_in memory pt i zero j a b c = absurd (omega arith)
identity_entries_in memory pt i (suc left) j a b c =
    let entered = set_entry memory pt i (bit_or (u32 (i * page_size)) vmm_kernel_rw) in
    elim (ℕ_discrete i j) [
      | yes e ↦
          let value : u32 (j * page_size) ≡ j * 2 ^ 12 = omega arith in
          identity_entries_out entered pt (i + 1) left (pt / 4 + j) (omega arith)
          ∙ rw (e, value) (update_self memory (pt / 4 + j) _ ∙ bit_or-disjoint 12 j 3 (omega arith))
      | no n ↦ identity_entries_in entered pt (i + 1) left j (omega arith) b' (omega arith)
    ]
  where
    b' : j < i + 1 + left
    b' = omega arith

-- The kernel's page directory in frame `f`, and its first page table in frame `g`.
module _ (s : Vmm) (f g : ℕ) (p q : Pmm) (r : Reserves s.pmm f p) (t : Reserves p g q)
    (v : PmmInv q) where
  abbrev filled : Memory
  filled = identity_entries (clear_entries s.memory (f * 4096) 0 1024) (g * 4096) 0 1024

  abbrev booted : Vmm
  booted = record s {
    page_directory = f * 4096;
    kernel_pd_phys = f * 4096;
    pmm = q;
    memory = set_entry filled (f * 4096) 0 (g * 4096 + 3);
    cr3 = f * 4096;
  }

  differ : g ≢ f
  differ e = absurd (omega (arith, sym t.was_free ∙ ap (bitmap_test p.bitmap) e ∙ r.now_reserved))

  first : entry booted.memory (f * 4096) 0 ≡ g * 4096 + 3
  first = update_self filled (f * 4096 / 4 + 0) (g * 4096 + 3)

  others : (i : ℕ) → i < 1024 → i ≢ 0 → entry booted.memory (f * 4096) i ≡ 0
  others i m n =
      update_ne filled (f * 4096 / 4 + 0) (f * 4096 / 4 + i) _ (omega arith)
      ∙ identity_entries_out _ (g * 4096) 0 1024 _ (omega (arith, differ))
      ∙ clear_entries_in s.memory (f * 4096) 0 1024 _ (omega arith) (omega arith)

  pages : (j : ℕ) → j < 1024 → booted.memory (g * 4096 / 4 + j) ≡ j * 4096 + 3
  pages j m =
      update_ne filled (f * 4096 / 4 + 0) (g * 4096 / 4 + j) _ (omega (arith, differ))
      ∙ identity_entries_in _ (g * 4096) 0 1024 j (omega arith) (omega arith) (omega arith)

  -- the only entry that is present
  only_first : (i : ℕ) → i < 1024 → Present (entry booted.memory (f * 4096) i) → i ≡ 0
  only_first i m h = elim (ℕ_discrete i 0) [
    | yes e ↦ e
    | no n ↦ absurd (omega (arith, h, others i m n))
  ]

  multiple : (n : ℕ) → n ≡ n * 4096 / 4096
  multiple n = omega arith

  quotient : (n : ℕ) → n ≡ (n * 4096 + 3) / 4096
  quotient n = omega arith

  booted-Tables : Tables booted.memory (f * 4096) q.bitmap
  booted-Tables = record {
    aligned = omega arith;
    directory =
        subst (λ n. bitmap_test q.bitmap n ≡ 1) (multiple f) (t.others f differ ∙ r.now_reserved);
    tables = λ i m h.
        rw (only_first i m h, first)
          (
            omega (arith, t.not_zero),
            λ k. differ (omega arith),
            subst (λ n. bitmap_test q.bitmap n ≡ 1) (quotient g) t.now_reserved,
          );
    distinct = λ i j m n d h k. absurd (d (only_first i m h ∙ sym (only_first j n k)));
  }

  booted-Inv : Inv booted
  booted-Inv = record { frames = v; tables = booted-Tables; kernel = refl }

  walk-booted :
      (u : ℕ)
      → u < 2 ^ 32
      → walk booted.memory (f * 4096) u ≡ (if ltb u (2 ^ 22) then u / 4096 * 4096 + 3 else 0)
  unfolding walk
  walk-booted u m = elim (dec_lt u (2 ^ 22)) [
    | yes l ↦
        let at : pd_index u ≡ 0 = omega arith in
        let table : (g * 4096 + 3) / 4096 * 4096 / 4 ≡ g * 4096 / 4 = omega arith in
        rw (at, first, table, pages (pt_index u) (omega arith)) (ground arith)
    | no l ↦ rw (others (pd_index u) (omega arith) (omega arith)) (ground arith)
  ]

-- `vmm_init` panics only if fewer than two frames are free. Otherwise it establishes the invariant of
-- the page tables, loads CR3 with the kernel's page directory, and maps the first 4 MB, and nothing
-- else, to themselves, present and writable.
pub vmm_init_lem :
    (s : Vmm)
    → PmmInv s.pmm
    → ((vmm_init s ≡ none) × (Exhausted s.pmm ⊎ Exhausted (alloc_frame s.pmm).1))
      ⊎ ((t : Vmm) × (vmm_init s ≡ some t)
          × Inv t
          × (t.cr3 ≡ t.kernel_pd_phys)
          × ((u : ℕ)
              → u < 2 ^ 32
              → walk t.memory t.page_directory u
                ≡ (if ltb u (2 ^ 22) then u / 4096 * 4096 + 3 else 0)))
unfolding vmm_init Exhausted
vmm_init_lem s v = elim (alloc_frame_lem s.pmm v) [
  | inl (e, _, x) ↦ rw (eq→eqb _ 0 e) (inl (refl, inl x))
  | inr (f, e, n, r) ↦ rw (ne→eqb _ 0 n) (elim (alloc_frame_lem _ (alloc_frame-Inv s.pmm v)) [
    | inl (d, _, x) ↦ rw (eq→eqb _ 0 d) (inl (refl, inr x))
    | inr (g, d, m, q) ↦
        let first_entry : bit_or (g * 4096) vmm_kernel_rw ≡ g * 4096 + 3 =
          bit_or-disjoint 12 g 3 (omega arith) in
        let w = alloc_frame-Inv _ (alloc_frame-Inv s.pmm v) in
        rw (ne→eqb _ 0 m, e, d, first_entry)
          (inr (_, refl, booted-Inv s f g _ _ r q w, refl, walk-booted s f g _ _ r q w))
  ])
]
