-- ===== src/Ramfs/Grow.antt =====
-- The loop of `ramfs_write` (kernel/fs/ramfs.c) that doubles the capacity.
use orion_final.Base.{
  ℕ, zero, suc, ◌*◌, ◌^◌, ◌≤◌, ◌<◌, ◌≡◌, refl, arith, ◌⊎◌, inl, inr, ltb, Bool-cases, ltb→lt,
  ltb→ge, none, some, lt→ltb, true, false, ap, ◌∙◌,
}
use orion_final.Base.Words.{u32}
use orion_final.Ramfs.{grown, grow_rounds}

double_pow : (c f : ℕ) → c * 2 ^ suc f ≡ c * 2 * 2 ^ f
double_pow c f = grind arith

pub le_mul_pow : (c j : ℕ) → c ≤ c * 2 ^ j
le_mul_pow c zero = omega arith
le_mul_pow c (suc j) = omega (arith, double_pow c j, le_mul_pow (c * 2) j)

u32_double : (c : ℕ) → c < 2 ^ 31 → u32 (c * 2) ≡ c * 2
u32_double c h = omega arith

grown_stops :
    (f new_cap end : ℕ) → ltb new_cap end ≡ false → grown (suc f) new_cap end ≡ some new_cap
unfolding grown
grown_stops f new_cap end e = rw e refl

grown_goes_on :
    (f new_cap end : ℕ)
    → ltb new_cap end ≡ true
    → grown (suc f) new_cap end ≡ grown f (u32 (new_cap * 2)) end
unfolding grown
grown_goes_on f new_cap end e = rw e refl

-- What the loop ends with.
pub record Grown (new_cap end c : ℕ) : Type 0 where
  pub enough : end ≤ c
  pub kept : new_cap ≤ c
  pub least : (c ≡ new_cap) ⊎ (c < end * 2)

Grown-double : (new_cap end c : ℕ) → new_cap < end → Grown (new_cap * 2) end c → Grown new_cap end c
Grown-double new_cap end c l g = record {
  enough = g.enough;
  kept = omega (arith, g.kept);
  least = inr (elim g.least [ inl e ↦ omega arith | inr b ↦ b ]);
}

-- The loop ends, from any capacity but 0, if at most 2 ^ 31 bytes are wanted: with the first
-- doubling that is large enough.
pub grown-Grown :
    (f new_cap end : ℕ)
    → 0 < new_cap
    → end ≤ 2 ^ 31
    → end ≤ new_cap * 2 ^ f
    → (c : ℕ) × (grown (suc f) new_cap end ≡ some c) × Grown new_cap end c
grown-Grown zero new_cap end pos small room = elim (Bool-cases (ltb new_cap end)) [
  | inr e ↦ (
    new_cap,
    grown_stops 0 new_cap end e,
    record { enough = ltb→ge _ _ e; kept = omega arith; least = inl refl },
  )
  | inl e ↦ absurd (omega (arith, ltb→lt _ _ e))
]
grown-Grown (suc f) new_cap end pos small room = elim (Bool-cases (ltb new_cap end)) [
  | inr e ↦ (
    new_cap,
    grown_stops (suc f) new_cap end e,
    record { enough = ltb→ge _ _ e; kept = omega arith; least = inl refl },
  )
  | inl e ↦
      let l = ltb→lt _ _ e in
      let d = u32_double new_cap (omega arith) in
      let (c, eq, g) =
        grown-Grown f (new_cap * 2) end (omega arith) small (omega (arith, double_pow new_cap f)) in
      (
        c,
        grown_goes_on (suc f) new_cap end e ∙ ap (λ n. grown (suc f) n end) d ∙ eq,
        Grown-double new_cap end c l g,
      )
]

-- From a capacity that is not 0 to an end of at most 2 ^ 31, the loop ends within the rounds of the model.
pub grown_total :
    (new_cap end : ℕ)
    → 0 < new_cap
    → end ≤ 2 ^ 31
    → (c : ℕ) × (grown grow_rounds new_cap end ≡ some c) × Grown new_cap end c
grown_total new_cap end pos small = grown-Grown 32 new_cap end pos small (omega arith)

grown_zero : (f end : ℕ) → 0 < end → grown f 0 end ≡ none
unfolding grown
grown_zero zero end h = refl
grown_zero (suc f) end h = grown_goes_on f 0 end (lt→ltb 0 end h) ∙ grown_zero f end h

-- From a power of two up to 2 ^ 31, the loop does not end if more than 2 ^ 31 bytes are wanted: the
-- capacity wraps around to 0, which doubling does not change.
pub grown_loops :
    (f new_cap j end : ℕ) → new_cap * 2 ^ j ≡ 2 ^ 31 → 2 ^ 31 < end → grown f new_cap end ≡ none
unfolding grown
grown_loops zero new_cap j end p h = refl
grown_loops (suc f) new_cap zero end p h =
    let top : new_cap ≡ 2 ^ 31 = omega arith in
    let wrap : u32 (new_cap * 2) ≡ 0 = omega arith in
    grown_goes_on f new_cap end (lt→ltb _ _ (omega arith))
    ∙ ap (λ n. grown f n end) wrap
    ∙ grown_zero f end (omega arith)
grown_loops (suc f) new_cap (suc j) end p h =
    let q : new_cap * 2 * 2 ^ j ≡ 2 ^ 31 = omega (arith, double_pow new_cap j) in
    let b : new_cap < 2 ^ 31 = omega (arith, double_pow new_cap j, le_mul_pow (new_cap * 2) j) in
    grown_goes_on f new_cap end (lt→ltb _ _ (omega arith))
    ∙ ap (λ n. grown f n end) (u32_double new_cap b)
    ∙ grown_loops f (new_cap * 2) j end q h

-- Where the loop ends, the capacity is enough, also when it has wrapped around.
pub grown_enough : (f new_cap end c : ℕ) → grown f new_cap end ≡ some c → end ≤ c
unfolding grown
grown_enough zero new_cap end c e = cc
grown_enough (suc f) new_cap end c e = ground (arith, grown_enough f (u32 (new_cap * 2)) end c)
