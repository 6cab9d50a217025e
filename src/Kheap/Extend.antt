-- ===== src/Kheap/Extend.antt =====
-- `ensure_mapped` and `extend_heap` of kernel/mm/kheap.c.
use mathlib.Core.Path.{subst}
use orion_final.Base.{
  ℕ, zero, suc, ◌+◌, ◌-◌, ◌*◌, ◌/◌, ◌%◌, ◌^◌, ◌≤◌, ◌<◌, ◌≡◌, ◌≢◌, refl, sym, ap, ◌∙◌, ◌⊎◌, inl, inr,
  arith, ltb, true, false, ne→eqb, Option, some, none, dec_lt, ℕ_discrete,
}
use orion_final.Base.Words.{u32}
use orion_final.Pmm.{alloc_frame}
use orion_final.Vmm.{Vmm, entry, pd_index, page_size, vmm_kernel_rw, vmm_map_page}
use orion_final.Vmm.Tables.{Present-cases}
use orion_final.Pmm.Alloc.{alloc_frame_lem}
use orion_final.Vmm.Inv.{Inv as VmmInv, Exhausted, alloc_frame-VmmInv}
use orion_final.Vmm.Mapping.{Maps, vmm_map_page_lem}
use orion_final.Kheap.{Kheap, Mapped, done, failed, heap_start, heap_max, ensure_mapped}
use orion_final.Kheap.Inv.{Backed}

-- `t` is `s` with more pages mapped.
pub record Grows (s t : Kheap) : Type 0 where
  pub words : t.words ≡ s.words
  pub listp : t.heap_listp ≡ s.heap_listp
  pub brk : t.heap_brk ≡ s.heap_brk
  pub more : s.heap_virt_mapped ≤ t.heap_virt_mapped
  pub backed : Backed t.vmm t.heap_virt_mapped

-- The heap is at its ceiling, or no frame is free.
abbrev pub Full : Kheap → Type 0
Full t = (heap_max < t.heap_virt_mapped + 4096) ⊎ Exhausted t.vmm.pmm

-- An address that the heap has not reached yet has no page table.
abbrev pub Tableless : Kheap → Type 0
Tableless s =
    (u : ℕ) × (s.heap_virt_mapped ≤ u)
    × (u < heap_max)
    × (entry s.vmm.memory s.vmm.page_directory (pd_index u) % 2 ≡ 0)

-- How `ensure_mapped` ends: with a panic for want of a page table, at the ceiling of the heap or for
-- want of a frame, or with the pages mapped.
pub data Ensures (s : Kheap) (end : ℕ) : Option (Option (Mapped × Kheap)) → Type 0 where
  panics : Tableless s → Ensures s end (some none)
  fails : (t : Kheap) → Grows s t → Full t → Ensures s end (some (some (failed, t)))
  maps : (t : Kheap) → Grows s t → end ≤ t.heap_virt_mapped → Ensures s end (some (some (done, t)))

-- a page more
Maps-Backed :
    (v : Vmm) (mapped phys : ℕ) (t : Vmm)
    → Backed v mapped
    → heap_start ≤ mapped
    → mapped + 4096 ≤ heap_max
    → Maps
        (record v { pmm = (alloc_frame v.pmm).1 })
        mapped
        (phys / 4096 * 4096 + (3 / 2 * 2 + 1))
        t
    → Backed t (mapped + 4096)
Maps-Backed v mapped phys t b l c m = record {
  tables = m.inv;
  pages = omega (arith, b.pages);
  ceiling = c;
  present = λ u p q. ground (arith, b.pages, b.present u p, m.walks u (omega arith));
}

Grows-self : (s : Kheap) → Backed s.vmm s.heap_virt_mapped → Grows s s
Grows-self s b = record { words = refl; listp = refl; brk = refl; more = omega arith; backed = b }

Grows-from :
    (s s' t : Kheap)
    → s'.words ≡ s.words
    → s'.heap_listp ≡ s.heap_listp
    → s'.heap_brk ≡ s.heap_brk
    → s.heap_virt_mapped ≤ s'.heap_virt_mapped
    → Grows s' t
    → Grows s t
Grows-from s s' t a b c d g = record {
  words = g.words ∙ a;
  listp = g.listp ∙ b;
  brk = g.brk ∙ c;
  more = omega (arith, g.more);
  backed = g.backed;
}

abbrev take : Kheap → Vmm
take s = record s.vmm { pmm = (alloc_frame s.vmm.pmm).1 }

ensure_mapped-done :
    (s : Kheap) (end fuel : ℕ)
    → end ≤ s.heap_virt_mapped
    → ensure_mapped s end (suc fuel) ≡ some (some (done, s))
unfolding ensure_mapped
ensure_mapped-done s end fuel l =
    let below : ltb s.heap_virt_mapped end ≡ false = ground arith in rw below refl

module _ (s : Kheap) (end : ℕ) (l : s.heap_virt_mapped < end) where
  ensure_mapped-ceiling :
      (fuel : ℕ)
      → heap_max < u32 (s.heap_virt_mapped + page_size)
      → ensure_mapped s end (suc fuel) ≡ some (some (failed, s))
  unfolding ensure_mapped
  ensure_mapped-ceiling fuel c =
      let below : ltb s.heap_virt_mapped end ≡ true = ground arith in
      let over : ltb heap_max (u32 (s.heap_virt_mapped + page_size)) ≡ true = ground arith in
      rw (below, over) refl

  module _ (c : u32 (s.heap_virt_mapped + page_size) ≤ heap_max) where
    ensure_mapped-no_frame :
        (fuel : ℕ)
        → (alloc_frame s.vmm.pmm).0 ≡ 0
        → ensure_mapped s end (suc fuel) ≡ some (some (failed, record s { vmm = take s }))
    unfolding ensure_mapped
    ensure_mapped-no_frame fuel z =
        let below : ltb s.heap_virt_mapped end ≡ true = ground arith in
        let over : ltb heap_max (u32 (s.heap_virt_mapped + page_size)) ≡ false = ground arith in
        rw (below, over, z) refl

    ensure_mapped-page :
        (fuel : ℕ)
        → (alloc_frame s.vmm.pmm).0 ≢ 0
        → s.heap_virt_mapped + page_size < 2 ^ 32
        → ensure_mapped s end (suc fuel)
          ≡ elim (vmm_map_page
              (take s)
              s.heap_virt_mapped
              (alloc_frame s.vmm.pmm).0
              vmm_kernel_rw) [
                | none ↦ some none
                | some t ↦
                    ensure_mapped
                      (record s { vmm = t; heap_virt_mapped = s.heap_virt_mapped + page_size })
                      end
                      fuel
              ]
    unfolding ensure_mapped
    ensure_mapped-page fuel n w =
        let below : ltb s.heap_virt_mapped end ≡ true = ground arith in
        let over : ltb heap_max (u32 (s.heap_virt_mapped + page_size)) ≡ false = ground arith in
        let next : u32 (s.heap_virt_mapped + page_size) ≡ s.heap_virt_mapped + page_size =
          omega arith in
        rw (below, over, ne→eqb _ 0 n)
          (ap
            (λ p.
              elim (vmm_map_page (take s) s.heap_virt_mapped (alloc_frame s.vmm.pmm).0
                vmm_kernel_rw) [
                  | none ↦ some none
                  | some t ↦ ensure_mapped (record s { vmm = t; heap_virt_mapped = p }) end fuel
                ])
            next)

Ensures-from :
    (s s' : Kheap) (end : ℕ) (r : Option (Option (Mapped × Kheap)))
    → s'.words ≡ s.words
    → s'.heap_listp ≡ s.heap_listp
    → s'.heap_brk ≡ s.heap_brk
    → s.heap_virt_mapped ≤ s'.heap_virt_mapped
    → (Tableless s' → Tableless s)
    → Ensures s' end r
    → Ensures s end r
Ensures-from s s' end r a b c d k (panics n) = panics (k n)
Ensures-from s s' end r a b c d k (fails t g f) = fails t (Grows-from s s' t a b c d g) f
Ensures-from s s' end r a b c d k (maps t g h) = maps t (Grows-from s s' t a b c d g) h

Tableless-before :
    (s : Kheap) (t : Vmm) (virt x mapped : ℕ)
    → Maps (take s) virt x t
    → s.heap_virt_mapped ≤ mapped
    → Tableless (record s { vmm = t; heap_virt_mapped = mapped })
    → Tableless s
Tableless-before s t virt x mapped m l (u, a, b, c) = (
  u,
  omega arith,
  b,
  elim (Present-cases (entry s.vmm.memory s.vmm.page_directory (pd_index u))) [
    | inl d ↦ d
    | inr p ↦ absurd (omega (arith, c, p, m.keeps (pd_index u) (omega arith) p))
  ],
)

no_frame_Exhausted :
    (s : Kheap) → VmmInv s.vmm → (alloc_frame s.vmm.pmm).0 ≡ 0 → Exhausted (alloc_frame s.vmm.pmm).1
unfolding Exhausted
no_frame_Exhausted s v z = elim (alloc_frame_lem s.vmm.pmm v.frames) [
  | inl (_, e, x) ↦ subst Exhausted (sym e) x
  | inr (_, _, n, _) ↦ absurd (n z)
]

-- With fuel for the pages that are missing, the loop ends.
pub ensure_mapped_lem :
    (fuel : ℕ) (s : Kheap) (end : ℕ)
    → Backed s.vmm s.heap_virt_mapped
    → heap_start ≤ s.heap_virt_mapped
    → end - s.heap_virt_mapped + 4095 < fuel * 4096
    → Ensures s end (ensure_mapped s end fuel)
ensure_mapped_lem zero s end b l f = absurd (omega arith)
ensure_mapped_lem (suc fuel) s end b l f = elim (dec_lt s.heap_virt_mapped end) [
  | no e ↦ rw (ensure_mapped-done s end fuel (omega arith)) (maps s (Grows-self s b) (omega arith))
  | yes e ↦ elim (dec_lt heap_max (u32 (s.heap_virt_mapped + page_size))) [
    | yes c ↦
        rw (ensure_mapped-ceiling s end e fuel c) (fails s (Grows-self s b) (inl (omega arith)))
    | no c ↦ elim (ℕ_discrete (alloc_frame s.vmm.pmm).0 0) [
      | yes z ↦ rw (ensure_mapped-no_frame s end e (omega arith) fuel z) (
          fails _
            (record {
              words = refl;
              listp = refl;
              brk = refl;
              more = omega arith;
              backed = record {
                tables = alloc_frame-VmmInv s.vmm b.tables;
                pages = b.pages;
                ceiling = b.ceiling;
                present = b.present;
              };
            })
            (inr (no_frame_Exhausted s b.tables z)))
      | no n ↦
          rw (ensure_mapped-page s end e (omega arith) fuel n (omega (arith, b.ceiling)))
            (elim (vmm_map_page_lem (take s) s.heap_virt_mapped (alloc_frame s.vmm.pmm).0
              vmm_kernel_rw (alloc_frame-VmmInv s.vmm b.tables) (omega (arith, b.ceiling))
              (omega arith)) [
                | inl (q, a, _) ↦
                    rw q (panics (s.heap_virt_mapped, omega arith, omega (arith, b.ceiling), a))
                | inr (t, q, m) ↦ rw q (
                    Ensures-from s _ end _ refl refl refl (omega arith)
                      (Tableless-before s t _ _ _ m (omega arith))
                      (ensure_mapped_lem fuel _ end
                        (Maps-Backed s.vmm s.heap_virt_mapped _ t b l (omega (arith, b.ceiling)) m)
                        (omega arith) (omega arith)))
              ])
    ]
  ]
]
