-- ===== src/Strings/Compare.antt =====
-- `memcmp`, `strcmp` and `strcpy` of lib/libk/string.c.
use orion_final.Base.Sequence.{bytes}
use orion_final.Base.{
  ℕ, zero, suc, ◌+◌, ◌<◌, ◌≡◌, ◌≢◌, refl, sym, ap, ◌∙◌, arith, ◌⊎◌, inl, inr, ◌↔◌, ◌==◌, Bool-cases,
  eqb→eq, eqb→ne, some, List, [], ◌∷◌, if_true, if_false, if◌then◌else◌, length,
}
use orion_final.Strings.{Memory, memcmp, strcmp}
use orion_final.Ramfs.{same_name}

-- The string at `s` is this list of bytes, none of them zero, with a zero byte after them.
abbrev pub IsText : Memory → ℕ → List ℕ → Type 0
IsText m s [] = m s ≡ 0
IsText m s (x ∷ xs) = (m s ≡ x) × (x ≢ 0) × IsText m (s + 1) xs

-- the first bytes at which two texts differ, or their ends
abbrev pub difference : List ℕ → List ℕ → ℕ × ℕ
difference [] [] = (0, 0)
difference [] (y ∷ ys) = (0, y)
difference (x ∷ xs) [] = (x, 0)
difference (x ∷ xs) (y ∷ ys) = if x == y then difference xs ys else (x, y)

strcmp_ends :
    (m : Memory) (a b fuel x y : ℕ)
    → m a ≡ x
    → m b ≡ y
    → (x ≡ 0) ⊎ (x ≢ y)
    → strcmp (suc fuel) m a b ≡ some (x, y)
unfolding strcmp
strcmp_ends m a b fuel x y e f o = ground arith

strcmp_goes_on :
    (m : Memory) (a b fuel x : ℕ)
    → m a ≡ x
    → m b ≡ x
    → x ≢ 0
    → strcmp (suc fuel) m a b ≡ strcmp fuel m (a + 1) (b + 1)
unfolding strcmp
strcmp_goes_on m a b fuel x e f n = ground arith

strcmp-difference :
    (xs ys : List ℕ) (m : Memory) (a b fuel : ℕ)
    → IsText m a xs
    → IsText m b ys
    → length xs < fuel
    → strcmp fuel m a b ≡ some (difference xs ys)
strcmp-difference xs ys m a b zero h k l = absurd (omega arith)
strcmp-difference [] [] m a b (suc fuel) h k l = strcmp_ends m a b fuel 0 0 h k (inl refl)
strcmp-difference [] (y ∷ ys) m a b (suc fuel) h k l = strcmp_ends m a b fuel 0 y h k.0 (inl refl)
strcmp-difference (x ∷ xs) [] m a b (suc fuel) h k l = strcmp_ends m a b fuel x 0 h.0 k (inr h.1)
strcmp-difference (x ∷ xs) (y ∷ ys) m a b (suc fuel) h k l = elim (Bool-cases (x == y)) [
  | inl e ↦
      strcmp_goes_on m a b fuel x h.0 (k.0 ∙ sym (eqb→eq x y e)) h.1
      ∙ strcmp-difference xs ys m (a + 1) (b + 1) fuel h.2 k.2 (omega arith)
      ∙ ap some (sym (if_true _ _ e))
  | inr e ↦ strcmp_ends m a b fuel x y h.0 k.0 (inr (eqb→ne x y e)) ∙ ap some (sym (if_false _ _ e))
]

same_name-difference :
    (xs ys : List ℕ) (m : Memory) (a b : ℕ)
    → IsText m a xs
    → IsText m b ys
    → ((difference xs ys).0 == (difference xs ys).1) ≡ same_name xs ys
unfolding same_name
same_name-difference [] [] m a b h k = refl
same_name-difference [] (y ∷ ys) m a b h k = ground arith
same_name-difference (x ∷ xs) [] m a b h k = ground arith
same_name-difference (x ∷ xs) (y ∷ ys) m a b h k = elim (Bool-cases (x == y)) [
  | inl e ↦ rw e (same_name-difference xs ys m (a + 1) (b + 1) h.2 k.2)
  | inr e ↦ rw e e
]

-- `strcmp` of two strings ends, within the length of the first, with two bytes whose difference it
-- returns; they are equal exactly when the strings are the same, as the directories of the file
-- system test it.
pub strcmp_lem :
    (xs ys : List ℕ) (m : Memory) (a b fuel : ℕ)
    → IsText m a xs
    → IsText m b ys
    → length xs < fuel
    → (p : ℕ) × (q : ℕ) × (strcmp fuel m a b ≡ some (p, q)) × ((p == q) ≡ same_name xs ys)
strcmp_lem xs ys m a b fuel h k l =
    let d = difference xs ys in
    (d.0, d.1, strcmp-difference xs ys m a b fuel h k l, same_name-difference xs ys m a b h k)

-- `memcmp` returns two equal bytes exactly when all bytes of the two ranges are equal.
pub memcmp_lem :
    (m : Memory) (p q n : ℕ)
    → ((memcmp m p q n).0 ≡ (memcmp m p q n).1) ↔ (bytes m p n ≡ bytes m q n)
unfolding memcmp bytes
memcmp_lem m p q zero = (λ e. refl, λ e. refl)
memcmp_lem m p q (suc n) =
    let ih = memcmp_lem m (p + 1) (q + 1) n in
    elim (Bool-cases (m p == m q)) [
      | inl e ↦
          let same = eqb→eq (m p) (m q) e in
          rw e (
            λ h. let rest = ih.0 h in cc,
            λ h. let tails : bytes m (p + 1) n ≡ bytes m (q + 1) n = cc in ih.1 tails,
          )
      | inr e ↦
          let differ = eqb→ne (m p) (m q) e in
          rw e (λ h. absurd (differ h), λ h. absurd (differ (cc)))
    ]
