-- ===== src/Vmm/Tables.antt =====
-- The page tables of kernel/mm/vmm.c in memory: which frames they occupy, and the entry that the
-- processor finds for an address.
use orion_final.Base.{
  ℕ, zero, suc, ◌+◌, ◌/◌, ◌%◌, ◌^◌, ◌≤◌, ◌<◌, ◌≡◌, refl, sym, ap, ◌∙◌, ◌≢◌, ◌⊎◌, arith, ◌==◌, true,
  false, if◌then◌else◌, ℕ_discrete,
}
use orion_final.Base.Update.{update_self, update_ne}
use orion_final.Base.Masks.{bit_and-flag_zero}
use orion_final.Bitmap.{Bitmap, bitmap_test}
use orion_final.Vmm.{
  Memory, entry, set_entry, page_address, pd_index, pt_index, has_flag, vmm_present, clear_entries,
}

abbrev pub Present : ℕ → Type 0
Present x = x % 2 ≡ 1

pub has_flag-Present : (x : ℕ) → Present x → has_flag x vmm_present ≡ true
has_flag-Present x p = rw (bit_and-flag_zero x) (ground arith)

pub has_flag-absent : (x : ℕ) → x % 2 ≡ 0 → has_flag x vmm_present ≡ false
has_flag-absent x p = rw (bit_and-flag_zero x) (ground arith)

pub Present-cases : (x : ℕ) → (x % 2 ≡ 0) ⊎ Present x
Present-cases x = omega arith

-- The page table entry that the processor finds for an address, 0 if there is no page table.
unfoldable pub walk : Memory → ℕ → ℕ → ℕ
walk memory pd virt =
    let pde : ℕ = entry memory pd (pd_index virt) in
    if pde % 2 == 0 then 0 else entry memory (page_address pde) (pt_index virt)

-- Page directories with the same entry for an address translate it alike.
pub walk-same :
    (memory : Memory) (pd pd' u : ℕ)
    → entry memory pd (pd_index u) ≡ entry memory pd' (pd_index u)
    → walk memory pd u ≡ walk memory pd' u
unfolding walk
walk-same memory pd pd' u e = rw e refl

-- The page directory and the page tables occupy reserved frames, all different.
pub record Tables (memory : Memory) (pd : ℕ) (bitmap : Bitmap) : Type 0 where
  pub aligned : pd % 4096 ≡ 0
  pub directory : bitmap_test bitmap (pd / 4096) ≡ 1
  pub tables :
      (i : ℕ)
      → i < 1024
      → Present (entry memory pd i)
      → (entry memory pd i / 4096 ≢ 0)
        × (entry memory pd i / 4096 ≢ pd / 4096)
        × (bitmap_test bitmap (entry memory pd i / 4096) ≡ 1)
  pub distinct :
      (i j : ℕ)
      → i < 1024
      → j < 1024
      → i ≢ j
      → Present (entry memory pd i)
      → Present (entry memory pd j)
      → entry memory pd i / 4096 ≢ entry memory pd j / 4096

pub clear_entries_out :
    (memory : Memory) (pt i left w : ℕ)
    → (w < pt / 4 + i) ⊎ (pt / 4 + i + left ≤ w)
    → clear_entries memory pt i left w ≡ memory w
unfolding clear_entries
clear_entries_out memory pt i zero w h = refl
clear_entries_out memory pt i (suc left) w h =
    clear_entries_out (set_entry memory pt i 0) pt (i + 1) left w (omega arith)
    ∙ update_ne memory (pt / 4 + i) w 0 (omega arith)

pub clear_entries_in :
    (memory : Memory) (pt i left w : ℕ)
    → pt / 4 + i ≤ w
    → w < pt / 4 + i + left
    → clear_entries memory pt i left w ≡ 0
unfolding clear_entries
clear_entries_in memory pt i zero w a b = absurd (omega arith)
clear_entries_in memory pt i (suc left) w a b = elim (ℕ_discrete (pt / 4 + i) w) [
  | yes e ↦
      clear_entries_out (set_entry memory pt i 0) pt (i + 1) left w (omega arith)
      ∙ rw (← e) (update_self memory (pt / 4 + i) 0)
  | no n ↦ clear_entries_in (set_entry memory pt i 0) pt (i + 1) left w (omega arith) (omega arith)
]

-- A write to an entry of a page table.
module _ (memory : Memory) (pd : ℕ) (bitmap : Bitmap) (t : Tables memory pd bitmap) (virt x : ℕ)
    (l : virt < 2 ^ 32) (p : Present (entry memory pd (pd_index virt))) where
  abbrev written : Memory
  written = set_entry memory (page_address (entry memory pd (pd_index virt))) (pt_index virt) x

  pub entry-written : (i : ℕ) → i < 1024 → entry written pd i ≡ entry memory pd i
  entry-written i m =
      update_ne memory _ (pd / 4 + i) x
        (λ e. (t.tables (pd_index virt) (omega arith) p).1 (omega (arith, t.aligned)))

  pub written-Tables : Tables written pd bitmap
  written-Tables = record {
    aligned = t.aligned;
    directory = t.directory;
    tables = λ i m q.
        rw (entry-written i m) (t.tables i m (sym (ap (λ e. e % 2) (entry-written i m)) ∙ q));
    distinct = λ i j m n d q r.
        rw (entry-written i m, entry-written j n)
          (t.distinct i j m n d (sym (ap (λ e. e % 2) (entry-written i m)) ∙ q)
            (sym (ap (λ e. e % 2) (entry-written j n)) ∙ r));
  }

  places_differ :
      (u : ℕ)
      → u < 2 ^ 32
      → u / 4096 ≢ virt / 4096
      → Present (entry memory pd (pd_index u))
      → page_address (entry memory pd (pd_index virt)) / 4 + pt_index virt
        ≢ page_address (entry memory pd (pd_index u)) / 4 + pt_index u
  places_differ u m n q = elim (ℕ_discrete (pd_index u) (pd_index virt)) [
    | yes e ↦ rw e (λ h. n (omega arith))
    | no d ↦
        λ h. t.distinct (pd_index u) (pd_index virt) (omega arith) (omega arith) d q p (omega arith)
  ]

  pub walk-written :
      (u : ℕ)
      → u < 2 ^ 32
      → walk written pd u ≡ (if u / 4096 == virt / 4096 then x else walk memory pd u)
  unfolding walk
  walk-written u m = elim (ℕ_discrete (u / 4096) (virt / 4096)) [
    | yes e ↦
        let same : pd_index u ≡ pd_index virt = omega arith in
        let place : pt_index u ≡ pt_index virt = omega arith in
        rw (entry-written (pd_index u) (omega arith), same, place) (ground arith)
    | no n ↦ rw (entry-written (pd_index u) (omega arith)) (ground (arith, places_differ u m n))
  ]
