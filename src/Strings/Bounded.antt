-- ===== src/Strings/Bounded.antt =====
-- `strncpy` of lib/libk/string.c.
use orion_final.Base.Sequence.{plus_zero, plus_suc}
use orion_final.Base.{
  ℕ, zero, suc, ◌+◌, ◌-◌, ◌≤◌, ◌<◌, ◌≡◌, ◌≢◌, refl, sym, ap, ◌∙◌, arith, ◌⊎◌, inl, inr, ◌==◌,
  Bool-cases, eq→eqb, ne→eqb, eqb→eq, eqb→ne, some,
}
use orion_final.Base.Update.{update, update_self, update_ne}
use orion_final.Strings.{Memory, strlen, strncpy_copy, strncpy}
use orion_final.Strings.Copy.{memset_lem}

-- The string at `s` has `l` bytes before its zero byte.
pub record HasLength (m : Memory) (s l : ℕ) : Type 0 where
  pub full : (i : ℕ) → i < l → m (s + i) ≢ 0
  pub end : m (s + l) ≡ 0

-- After the first loop, which stops at the zero byte, having written it.
record Stops (m : Memory) (d s n l : ℕ) (r : Memory × ℕ × ℕ) : Type 0 where
  pub at : r.1 ≡ d + l + 1
  pub left : r.2 ≡ n - l
  pub copied : (i : ℕ) → i ≤ l → r.0 (d + i) ≡ m (s + i)
  pub others : (j : ℕ) → (j < d) ⊎ (d + l < j) → r.0 j ≡ m j

HasLength-zero : (m : Memory) (s : ℕ) → HasLength m s 0 → m s ≡ 0
HasLength-zero m s h = ap m (sym (plus_zero s)) ∙ h.end

HasLength-suc :
    (m : Memory) (d s l : ℕ)
    → (s + suc l < d) ⊎ (d < s)
    → HasLength m s (suc l)
    → HasLength (update m d (m s)) (s + 1) l
HasLength-suc m d s l apart h = record {
  full = λ i o z.
      h.full (suc i) (omega arith)
        (ap m (plus_suc s i) ∙ sym (update_ne m d (s + 1 + i) (m s) (omega arith)) ∙ z);
  end = update_ne m d (s + 1 + l) (m s) (omega arith) ∙ ap m (sym (plus_suc s l)) ∙ h.end;
}

Stops-suc :
    (m : Memory) (d s n l : ℕ) (r : Memory × ℕ × ℕ)
    → (s + suc l < d) ⊎ (d < s)
    → Stops (update m d (m s)) (d + 1) (s + 1) n l r
    → Stops m d s (suc n) (suc l) r
Stops-suc m d s n l r apart rest = record {
  at = omega (arith, rest.at);
  left = omega (arith, rest.left);
  copied = copied;
  others = λ j o. rest.others j (omega arith) ∙ update_ne m d j (m s) (omega arith);
}
  where
    copied : (i : ℕ) → i ≤ suc l → r.0 (d + i) ≡ m (s + i)
    copied zero o =
        rw (plus_zero d, plus_zero s) (rest.others d (inl (omega arith)) ∙ update_self m d (m s))
    copied (suc i) o =
        rw (plus_suc d i, plus_suc s i)
          (rest.copied i (omega arith) ∙ update_ne m d (s + 1 + i) (m s) (omega arith))

strncpy_copy-Stops :
    (l : ℕ) (m : Memory) (d s n : ℕ)
    → HasLength m s l
    → l < n
    → (s + l < d) ⊎ (d + n ≤ s)
    → Stops m d s n l (strncpy_copy m d s n)
unfolding strncpy_copy
strncpy_copy-Stops l m d s zero h o apart = absurd (omega arith)
strncpy_copy-Stops zero m d s (suc n) h o apart =
    rw (eq→eqb (m s) 0 (HasLength-zero m s h)) (record {
      at = omega arith;
      left = omega arith;
      copied = λ i e.
          let here : i ≡ 0 = omega arith in
          rw (here, plus_zero d, plus_zero s) (update_self m d (m s));
      others = λ j e. update_ne m d j (m s) (omega arith);
    })
strncpy_copy-Stops (suc l) m d s (suc n) h o apart =
    rw (ne→eqb (m s) 0 (λ z. h.full 0 (omega arith) (ap m (plus_zero s) ∙ z))) (
      Stops-suc m d s n l _ (omega arith) (
        strncpy_copy-Stops l (update m d (m s)) (d + 1) (s + 1) n
          (HasLength-suc m d s l (omega arith) h) (omega arith) (omega arith)))

-- A string of `l` bytes, shorter than `n`, is copied by `strncpy` with its end, the rest of the `n`
-- bytes is filled with zero, and so is one byte too many, the one at `dst + n`; no other byte is
-- changed. The two ranges must not overlap.
pub strncpy_lem :
    (m : Memory) (d s n l : ℕ)
    → HasLength m s l
    → l < n
    → (s + l < d) ⊎ (d + n ≤ s)
    → let t = strncpy m d s n in
      ((i : ℕ) → i < l → t (d + i) ≡ m (s + i))
      × ((i : ℕ) → l ≤ i → i < n → t (d + i) ≡ 0)
      × (t (d + n) ≡ 0)
      × ((j : ℕ) → (j < d) ⊎ (d + n < j) → t j ≡ m j)
unfolding strncpy
strncpy_lem m d s n l h o apart =
    let r = strncpy_copy m d s n in
    let c = strncpy_copy-Stops l m d s n h o apart in
    let f = memset_lem r.0 r.1 0 r.2 in
    let zeroed : (j : ℕ) → d + l < j → j ≤ d + n → strncpy m d s n j ≡ 0 = λ j a b.
      ap (strncpy m d s n) (omega (arith, c.at)) ∙ f.0 (j - r.1) (omega (arith, c.at, c.left)) in
    (
      λ i e. f.1 (d + i) (inl (omega (arith, c.at))) ∙ c.copied i (omega arith),
      λ i a b. elim (Bool-cases (i == l)) [
        | inl e ↦
            let here : i ≡ l = eqb→eq i l e in
            rw here (f.1 (d + l) (inl (omega (arith, c.at))) ∙ c.copied l (omega arith) ∙ h.end)
        | inr e ↦ zeroed (d + i) (omega (arith, eqb→ne i l e)) (omega arith)
      ],
      zeroed (d + n) (omega arith) (omega arith),
      λ j e. f.1 j (omega (arith, c.at, c.left)) ∙ c.others j (omega arith),
    )

-- `strlen` counts the bytes before the zero byte.
pub strlen_lem :
    (l fuel : ℕ) (m : Memory) (s : ℕ) → HasLength m s l → l < fuel → strlen fuel m s ≡ some l
unfolding strlen
strlen_lem l zero m s h o = absurd (omega arith)
strlen_lem zero (suc fuel) m s h o = rw (eq→eqb (m s) 0 (HasLength-zero m s h)) refl
strlen_lem (suc l) (suc fuel) m s h o =
    rw (ne→eqb (m s) 0 (λ z. h.full 0 (omega arith) (ap m (plus_zero s) ∙ z))) (
      rw
        (strlen_lem l fuel m (s + 1)
          (record {
            full = λ i e z. h.full (suc i) (omega arith) (ap m (plus_suc s i) ∙ z);
            end = ap m (sym (plus_suc s l)) ∙ h.end;
          })
          (omega arith))
        (ap some (omega arith)))
