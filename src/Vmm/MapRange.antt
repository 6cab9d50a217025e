-- ===== src/Vmm/MapRange.antt =====
-- `vmm_map_range` of kernel/mm/vmm.c: the loop ends, and maps the pages of the range.
use orion_final.Base.{
  true, false, ℕ, zero, suc, ◌+◌, ◌-◌, ◌*◌, ◌/◌, ◌%◌, ◌^◌, ◌≤◌, ◌<◌, ◌≡◌, refl, ap, ◌∙◌, ◌⊎◌, inl,
  inr, arith, ltb, leb, ◌&&◌, if◌then◌else◌, none, some, Bool-cases, ltb→lt, ltb→ge,
}
use orion_final.Base.Words.{u32}
use orion_final.Vmm.{Vmm, entry, pd_index, page_size, vmm_map_page, map_pages, vmm_map_range}
use orion_final.Vmm.Tables.{walk, Present-cases}
use orion_final.Vmm.Inv.{Inv}
use orion_final.Vmm.Mapping.{Maps, vmm_map_page_lem}

-- `t` is `s` with the pages that begin `offset`, `offset + 4096`, ... , below `length`, bytes behind
-- `virt` translated to those behind `phys`, and no other.
pub record MapsRange (s : Vmm) (virt phys length flags offset : ℕ) (t : Vmm) : Type 0 where
  pub inv : Inv t
  pub same_directory : t.page_directory ≡ s.page_directory
  pub walks :
      (u : ℕ)
      → u < 2 ^ 32
      → walk t.memory t.page_directory u ≡ (
          if leb ((virt + offset) / 4096) (u / 4096)
            && ltb (u / 4096) (virt / 4096 + (length + 4095) / 4096)
          then (phys / 4096 + (u / 4096 - virt / 4096)) * 4096 + (flags / 2 * 2 + 1)
          else walk s.memory s.page_directory u)

-- An address of the range has no page table.
abbrev pub NoTable : ℕ → ℕ → Vmm → Type 0
NoTable virt length s =
    (u : ℕ) × (virt ≤ u)
    × (u < virt + length)
    × (entry s.memory s.page_directory (pd_index u) % 2 ≡ 0)

module _ (virt phys length flags : ℕ) (fits : virt + length ≤ 2 ^ 32)
    (fits' : phys + length ≤ 2 ^ 32) (l : flags < 4096) (small : length ≤ 2 ^ 32 - 4096) where
  absent_before :
      (s t : Vmm) (virt' x : ℕ) → Maps s virt' x t → NoTable virt length t → NoTable virt length s
  absent_before s t virt' x w (u, a, b, c) = (
    u,
    a,
    b,
    elim (Present-cases (entry s.memory s.page_directory (pd_index u))) [
      | inl d ↦ d
      | inr p ↦ absurd (omega (arith, c, p, w.keeps (pd_index u) (omega arith) p))
    ],
  )

  more_pages :
      (s t r : Vmm) (offset : ℕ)
      → offset % 4096 ≡ 0
      → offset < length
      → Maps s (virt + offset) ((phys + offset) / 4096 * 4096 + (flags / 2 * 2 + 1)) t
      → MapsRange t virt phys length flags (offset + 4096) r
      → MapsRange s virt phys length flags offset r
  more_pages s t r offset a b w k = record {
    inv = k.inv;
    same_directory = k.same_directory ∙ w.same_directory;
    walks = λ u m. ground (arith, k.walks u m, w.walks u m);
  }

  map_pages_step :
      (fuel : ℕ) (s : Vmm) (offset : ℕ)
      → offset < length
      → map_pages s virt phys length flags offset (suc fuel)
        ≡ elim (vmm_map_page s (virt + offset) (phys + offset) flags) [
          | none ↦ some none
          | some t ↦ map_pages t virt phys length flags (offset + page_size) fuel
        ]
  unfolding map_pages
  map_pages_step fuel s offset b =
      let e : ltb offset length ≡ true = ground arith in
      let here : u32 (virt + offset) ≡ virt + offset = omega arith in
      let behind : u32 (phys + offset) ≡ phys + offset = omega arith in
      let next : u32 (offset + page_size) ≡ offset + page_size = omega arith in
      rw (e, here, behind)
        (ap
          (λ o. elim (vmm_map_page s (virt + offset) (phys + offset) flags) [
            | none ↦ some none
            | some t ↦ map_pages t virt phys length flags o fuel
          ])
          next)

  map_pages_end :
      (fuel : ℕ) (s : Vmm) (offset : ℕ)
      → ltb offset length ≡ false
      → map_pages s virt phys length flags offset (suc fuel) ≡ some (some s)
  unfolding map_pages
  map_pages_end fuel s offset e = rw e refl

  map_pages_lem :
      (fuel : ℕ) (s : Vmm) (offset : ℕ)
      → Inv s
      → offset % 4096 ≡ 0
      → length + 4095 - offset < fuel * 4096
      → ((map_pages s virt phys length flags offset fuel ≡ some none) × NoTable virt length s)
        ⊎ ((t : Vmm) × (map_pages s virt phys length flags offset fuel ≡ some (some t))
            × MapsRange s virt phys length flags offset t)
  map_pages_lem zero s offset v a f = absurd (omega arith)
  map_pages_lem (suc fuel) s offset v a f = elim (Bool-cases (ltb offset length)) [
    | inr e ↦ rw (map_pages_end fuel s offset e) (
        inr (
          s,
          refl,
          record { inv = v; same_directory = refl; walks = λ u m. ground (arith, ltb→ge _ _ e) },
        ))
    | inl e ↦
        let b : offset < length = ltb→lt _ _ e in
        rw (map_pages_step fuel s offset b)
          (elim (vmm_map_page_lem s (virt + offset) (phys + offset) flags v (omega arith) l) [
            | inl (r, d, _) ↦ rw r (inl (refl, (virt + offset, omega arith, omega arith, d)))
            | inr (t, r, w) ↦
                rw r
                  (elim (map_pages_lem fuel t (offset + 4096) w.inv (omega arith) (omega arith)) [
                    | inl (q, n) ↦ inl (q, absent_before s t _ _ w n)
                    | inr (o, q, k) ↦ inr (o, q, more_pages s t o offset a b w k)
                  ])
          ])
  ]

  -- Where neither range wraps round and the length is at most 2 ^ 32 - 4096, with fuel for the pages,
  -- the loop of `vmm_map_range` ends: with a panic only if an address of the range has no page table
  -- yet, and otherwise with the pages of `virt`, as many as the length rounded up to pages, translated
  -- to those of `phys` with the flags, every other address translated as before, and the invariant.
  pub vmm_map_range_lem :
      (s : Vmm) (fuel : ℕ)
      → Inv s
      → length / 4096 + 2 ≤ fuel
      → ((vmm_map_range s virt phys length flags fuel ≡ some none) × NoTable virt length s)
        ⊎ ((t : Vmm) × (vmm_map_range s virt phys length flags fuel ≡ some (some t))
            × MapsRange s virt phys length flags 0 t)
  unfolding vmm_map_range
  vmm_map_range_lem s fuel v f = map_pages_lem fuel s 0 v (omega arith) (omega arith)
