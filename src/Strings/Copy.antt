-- ===== src/Strings/Copy.antt =====
-- `memcpy`, `memmove` and `memset` of lib/libk/string.c.
use orion_final.Base.Sequence.{plus_zero, plus_suc}
use orion_final.Base.{
  ℕ, zero, suc, ◌+◌, ◌≤◌, ◌<◌, ◌≡◌, refl, ◌∙◌, arith, ◌⊎◌, inl, inr, ◌==◌, ltb, Bool-cases, ltb→lt,
  ltb→ge, eqb→eq, eqb→ne, ◌-◌,
}
use orion_final.Base.Update.{update, update_self, update_ne}
use orion_final.Base.Words.{u8}
use orion_final.Strings.{Memory, memcpy, copy_down, memmove, memset}

-- `t` is `m` with the `n` bytes at `d` replaced by those at `s` of `m`.
pub record Moves (m : Memory) (d s n : ℕ) (t : Memory) : Type 0 where
  pub moved : (i : ℕ) → i < n → t (d + i) ≡ m (s + i)
  pub others : (j : ℕ) → (j < d) ⊎ (d + n ≤ j) → t j ≡ m j

Moves-suc :
    (m : Memory) (d s n : ℕ) (t : Memory)
    → (d ≤ s) ⊎ (s + suc n ≤ d)
    → Moves (update m d (m s)) (d + 1) (s + 1) n t
    → Moves m d s (suc n) t
Moves-suc m d s n t apart rest = record {
  moved = moved;
  others = λ j o. rest.others j (omega arith) ∙ update_ne m d j (m s) (omega arith);
}
  where
    moved : (i : ℕ) → i < suc n → t (d + i) ≡ m (s + i)
    moved zero l =
        rw (plus_zero d, plus_zero s) (rest.others d (inl (omega arith)) ∙ update_self m d (m s))
    moved (suc i) l =
        rw (plus_suc d i, plus_suc s i)
          (rest.moved i (omega arith) ∙ update_ne m d (s + 1 + i) (m s) (omega arith))

-- `memcpy` copies `n` bytes and changes no others, if the ranges do not overlap or the destination
-- lies lower.
pub memcpy-Moves : (m : Memory) (d s n : ℕ) → (d ≤ s) ⊎ (s + n ≤ d) → Moves m d s n (memcpy m d s n)
unfolding memcpy
memcpy-Moves m d s zero apart = record { moved = λ i l. absurd (omega arith); others = λ j o. refl }
memcpy-Moves m d s (suc n) apart =
    Moves-suc m d s n _ apart (memcpy-Moves (update m d (m s)) (d + 1) (s + 1) n (omega arith))

-- What is outside of the destination stays, also where the source overlaps it.
pub memcpy_outside : (m : Memory) (d s n j : ℕ) → (j < d) ⊎ (d + n ≤ j) → memcpy m d s n j ≡ m j
unfolding memcpy
memcpy_outside m d s zero j o = refl
memcpy_outside m d s (suc n) j o =
    memcpy_outside (update m d (m s)) (d + 1) (s + 1) n j (omega (arith, o))
    ∙ update_ne m d j (m s) (omega (arith, o))

copy_down-Moves : (m : Memory) (d s n : ℕ) → s ≤ d → Moves m d s n (copy_down m d s n)
unfolding copy_down
copy_down-Moves m d s zero l = record { moved = λ i l. absurd (omega arith); others = λ j o. refl }
copy_down-Moves m d s (suc n) l =
    let first = update m (d + n) (m (s + n)) in
    let rest = copy_down-Moves first d s n l in
    record {
      moved = λ i o. elim (Bool-cases (ltb i n)) [
        | inl e ↦
            rest.moved i (ltb→lt _ _ e)
            ∙ update_ne m (d + n) (s + i) (m (s + n)) (omega (arith, ltb→lt _ _ e))
        | inr e ↦
            let last : i ≡ n = omega (arith, ltb→ge _ _ e) in
            rw last (rest.others (d + n) (inr (omega arith)) ∙ update_self m (d + n) (m (s + n)))
      ];
      others = λ j o. rest.others j (omega arith) ∙ update_ne m (d + n) j (m (s + n)) (omega arith);
    }

-- `memmove` copies `n` bytes and changes no others, however the ranges overlap.
pub memmove-Moves : (m : Memory) (d s n : ℕ) → Moves m d s n (memmove m d s n)
unfolding memmove
memmove-Moves m d s n = elim (Bool-cases (ltb d s)) [
  | inl e ↦ rw e (memcpy-Moves m d s n (inl (omega (arith, ltb→lt _ _ e))))
  | inr e ↦ rw e (copy_down-Moves m d s n (ltb→ge _ _ e))
]

-- `memset` sets `n` bytes to the low byte of `c` and changes no others.
pub memset_lem :
    (m : Memory) (d c n : ℕ)
    → let t = memset m d c n in
      ((i : ℕ) → i < n → t (d + i) ≡ u8 c) × ((j : ℕ) → (j < d) ⊎ (d + n ≤ j) → t j ≡ m j)
unfolding memset
memset_lem m d c zero = (λ i l. absurd (omega arith), λ j o. refl)
memset_lem m d c (suc n) =
    let rest = memset_lem (update m d (u8 c)) (d + 1) c n in
    (
      λ i l. elim (Bool-cases (i == 0)) [
        | inl e ↦
            let here : d + i ≡ d = omega (arith, eqb→eq i 0 e) in
            rw here (rest.1 d (inl (omega arith)) ∙ update_self m d (u8 c))
        | inr e ↦
            let here : d + i ≡ d + 1 + (i - 1) = omega (arith, eqb→ne i 0 e) in
            rw here (rest.0 (i - 1) (omega (arith, eqb→ne i 0 e)))
      ],
      λ j o. rest.1 j (omega arith) ∙ update_ne m d j (u8 c) (omega arith),
    )
