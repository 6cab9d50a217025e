-- ===== src/Strings/Examples.antt =====
-- The theorems on lib/libk/string.c at a concrete memory.
use orion_final.Ramfs.{same_name}
use orion_final.Strings.Compare.{strcmp_lem}
use orion_final.Base.{
  some, [], ◌∷◌, ℕ, ◌+◌, ◌≤◌, ◌<◌, ◌≡◌, ◌⊎◌, inl, refl, arith, ◌==◌, if◌then◌else◌,
}
use orion_final.Strings.{strcmp, Memory, memmove, strncpy}
use orion_final.Strings.Copy.{Moves, memmove-Moves}
use orion_final.Strings.Bounded.{HasLength, strncpy_lem}

-- The string "ok" at address 10, and 1 at every other address.
abbrev stored : Memory
stored i = if i == 10 then 111 else if i == 11 then 107 else if i == 12 then 0 else 1

stored-HasLength : HasLength stored 10 2
stored-HasLength = record { full = λ i l e. ground arith; end = refl }

strncpy_lem_example :
    let t = strncpy stored 20 10 4 in
    ((i : ℕ) → i < 2 → t (20 + i) ≡ stored (10 + i))
    × ((i : ℕ) → 2 ≤ i → i < 4 → t (20 + i) ≡ 0)
    × (t 24 ≡ 0)
    × ((j : ℕ) → (j < 20) ⊎ (24 < j) → t j ≡ stored j)
strncpy_lem_example =
    strncpy_lem stored 20 10 4 2 stored-HasLength (omega arith) (inl (omega arith))

memmove-Moves_example : Moves stored 11 10 3 (memmove stored 11 10 3)
memmove-Moves_example = memmove-Moves stored 11 10 3

strcmp_lem_example :
    (p : ℕ) × (q : ℕ) × (strcmp 3 stored 10 11 ≡ some (p, q))
    × ((p == q) ≡ same_name (111 ∷ 107 ∷ []) (107 ∷ []))
strcmp_lem_example =
    strcmp_lem (111 ∷ 107 ∷ []) (107 ∷ []) stored 10 11 3
      (refl, λ e. absurd (omega arith), (refl, λ e. absurd (omega arith), refl))
      (refl, λ e. absurd (omega arith), refl) (omega arith)
