-- ===== src/Vmm/Range.antt =====
-- `vmm_range_mapped` of kernel/mm/vmm.c, by which the system calls check the pointers they are given.
use orion_final.Base.{
  ℕ, zero, suc, ◌+◌, ◌-◌, ◌*◌, ◌/◌, ◌%◌, ◌^◌, ◌≤◌, ◌<◌, ◌≡◌, refl, sym, ◌∙◌, ◌≢◌, ◌⊎◌, inl, inr,
  arith, ltb, Bool, true, false, some, ne→eqb, dec_lt, Bool-cases, ltb→lt, ltb→ge,
}
use mathlib.Core.Bool.{true≢false}
use orion_final.Base.Words.{u32}
use orion_final.Base.Masks.{bit_and-flag_zero, bit_and-flag_two}
use orion_final.Vmm.Tables.{Present-cases}
use orion_final.Vmm.{
  Memory, entry, page_address, pd_index, pt_index, page_size, page_allowed, walk_range,
  vmm_range_mapped,
}

-- The processor translates `u`, and if `user_only` holds it does so for a program.
pub record Accessible (memory : Memory) (pd : ℕ) (user_only : Bool) (u : ℕ) : Type 0 where
  pub table : entry memory pd (pd_index u) % 2 ≡ 1
  pub page : entry memory (page_address (entry memory pd (pd_index u))) (pt_index u) % 2 ≡ 1
  pub user :
      user_only ≡ true
      → (entry memory pd (pd_index u) / 4 % 2 ≡ 1)
        × (entry memory (page_address (entry memory pd (pd_index u))) (pt_index u) / 4 % 2 ≡ 1)

module _ (memory : Memory) (pd : ℕ) (user_only : Bool) where
  -- All addresses of a page are alike.
  Accessible-page :
      (u v : ℕ)
      → u / 4096 ≡ v / 4096
      → Accessible memory pd user_only u
      → Accessible memory pd user_only v
  Accessible-page u v e a =
      let table : pd_index v ≡ pd_index u = omega arith in
      let page : pt_index v ≡ pt_index u = omega arith in
      record {
        table = rw table a.table;
        page = rw (table, page) a.page;
        user = rw (table, page) a.user;
      }

  page_allowed_lem :
      (u : ℕ)
      → ((page_allowed memory pd u user_only ≡ true) × Accessible memory pd user_only u)
        ⊎ ((page_allowed memory pd u user_only ≡ false) × ¬ Accessible memory pd user_only u)
  unfolding page_allowed
  page_allowed_lem u =
      let pde = entry memory pd (pd_index u) in
      let pte = entry memory (page_address pde) (pt_index u) in
      rw (bit_and-flag_zero pde, bit_and-flag_two pde, bit_and-flag_zero pte, bit_and-flag_two pte)
        (elim (Present-cases pde) [
          | inl a ↦ inr (ground arith, λ h. omega (arith, h.table))
          | inr p ↦ elim (Present-cases pte) [
            | inl a ↦ inr (ground arith, λ h. omega (arith, h.page))
            | inr q ↦ elim (Bool-cases user_only) [
              | inr e ↦ inl (
                ground arith,
                record { table = p; page = q; user = λ t. absurd (true≢false (sym t ∙ e)) },
              )
              | inl e ↦ elim (Present-cases (pde / 4)) [
                | inl a ↦ inr (ground arith, λ h. omega (arith, (h.user e).0))
                | inr v ↦ elim (Present-cases (pte / 4)) [
                  | inl a ↦ inr (ground arith, λ h. omega (arith, (h.user e).1))
                  | inr w ↦ inl (ground arith, record { table = p; page = q; user = λ t. (v, w) })
                ]
              ]
            ]
          ]
        ])

  walk_range_lem :
      (fuel addr end : ℕ)
      → addr % 4096 ≡ 0
      → end % 4096 ≡ 0
      → end < 2 ^ 32
      → end - addr < fuel * 4096
      → ((walk_range memory pd addr end user_only fuel ≡ some 1)
          × ((u : ℕ) → addr ≤ u → u < end → Accessible memory pd user_only u))
        ⊎ ((walk_range memory pd addr end user_only fuel ≡ some 0)
            × ((u : ℕ) × (addr ≤ u)
                × (u < end)
                × (u % 4096 ≡ 0)
                × ¬ Accessible memory pd user_only u))
  unfolding walk_range
  walk_range_lem zero addr end a b c d = absurd (omega arith)
  walk_range_lem (suc fuel) addr end a b c d = elim (Bool-cases (ltb addr end)) [
    | inr e ↦ rw e (inl (refl, λ u m n. absurd (omega (arith, ltb→ge _ _ e))))
    | inl e ↦ rw e (elim (page_allowed_lem addr) [
      | inr (f, n) ↦ rw f (inr (refl, (addr, omega arith, ltb→lt _ _ e, a, n)))
      | inl (f, y) ↦
          let next : u32 (addr + page_size) ≡ addr + 4096 = omega (arith, ltb→lt _ _ e) in
          rw (f, next)
            (elim (walk_range_lem fuel (addr + 4096) end (omega arith) b c
              (omega (arith, ltb→lt _ _ e))) [
                | inl (r, h) ↦ inl (
                  r,
                  λ u m n. elim (dec_lt u (addr + 4096)) [
                    | yes l ↦ Accessible-page addr u (omega arith) y
                    | no l ↦ h u (omega arith) n
                  ],
                )
                | inr (r, (u, g, h, k, n)) ↦ inr (r, (u, omega arith, h, k, n))
              ])
    ])
  ]

-- Where the range does not come near 4 GB, and with fuel for its pages, `vmm_range_mapped` returns 1
-- exactly if every byte of the range is accessible, and otherwise 0, for a byte of it that is not.
pub vmm_range_mapped_lem :
    (memory : Memory) (pd virt len : ℕ) (user_only : Bool) (fuel : ℕ)
    → pd ≢ 0
    → 0 < len
    → virt + len + 4095 < 2 ^ 32
    → len / 4096 + 3 ≤ fuel
    → ((vmm_range_mapped memory pd virt len user_only fuel ≡ some 1)
        × ((u : ℕ) → virt ≤ u → u < virt + len → Accessible memory pd user_only u))
      ⊎ ((vmm_range_mapped memory pd virt len user_only fuel ≡ some 0)
          × ((u : ℕ) × (virt ≤ u) × (u < virt + len) × ¬ Accessible memory pd user_only u))
unfolding vmm_range_mapped
vmm_range_mapped_lem memory pd virt len user_only fuel n l k f =
    let end : page_address (u32 (virt + len + page_size - 1)) ≡ (virt + len + 4095) / 4096 * 4096 =
      omega arith in
    rw (ne→eqb pd 0 n, ne→eqb len 0 (omega arith), end)
      (elim (walk_range_lem memory pd user_only fuel (page_address virt)
        ((virt + len + 4095) / 4096 * 4096) (omega arith) (omega arith) (omega arith)
        (omega arith)) [
          | inl (r, h) ↦ inl (r, λ u a b. h u (omega arith) (omega arith))
          | inr (r, (u, a, b, c, d)) ↦ inr (
            r,
            elim (dec_lt u virt) [
              | yes m ↦ (
                virt,
                omega arith,
                omega arith,
                λ h. d (Accessible-page memory pd user_only virt u (omega arith) h),
              )
              | no m ↦ (u, omega arith, omega arith, d)
            ],
          )
        ])

-- A range that comes within a page of 4 GB wraps round, and `vmm_range_mapped` returns 1 for it
-- without reading an entry, whatever the tables hold: it accepts memory that is not mapped.
pub vmm_range_mapped_wraps :
    (memory : Memory) (pd virt len : ℕ) (user_only : Bool) (fuel : ℕ)
    → pd ≢ 0
    → 0 < len
    → virt < 2 ^ 32
    → len + 4095 ≤ 2 ^ 32
    → 2 ^ 32 ≤ virt + len + 4095
    → vmm_range_mapped memory pd virt len user_only (suc fuel) ≡ some 1
unfolding vmm_range_mapped walk_range
vmm_range_mapped_wraps memory pd virt len user_only fuel n l k m o = ground arith
