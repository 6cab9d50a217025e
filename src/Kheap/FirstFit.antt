-- ===== src/Kheap/FirstFit.antt =====
-- The search of `kmalloc` in kernel/mm/kheap.c for the first block that fits.
use mathlib.Core.Path.{subst}
use orion_final.Base.{
  ℕ, zero, suc, ◌+◌, ◌-◌, ◌*◌, ◌/◌, ◌≤◌, ◌<◌, ◌≡◌, refl, sym, ap, ◌∙◌, ◌⊎◌, inl, inr, arith, ◌==◌,
  ◌&&◌, leb, true, false, ne→eqb, List, [], ◌∷◌, ◌++◌, some, dec_lt, Bool-cases, Bool,
}
use orion_final.Kheap.{Words, first_fit, get_size, get_alloc, hdrp, next_blkp, found, at_end}
use orion_final.Kheap.Blocks.{Block, flag, IsBlock, Seg, Seg-le}
use orion_final.Kheap.Tags.{payload, get_size-payload, get_alloc-payload, next_blkp-payload}
use orion_final.Kheap.Focus.{Ends, IsBlock-header}

-- The block is in use, or too small.
abbrev pub Unfit : ℕ → Block → Type 0
Unfit asize b = (b.allocated ≡ true) ⊎ (b.size < asize)

pub data AllUnfit (asize : ℕ) : List Block → Type 0 where
  no_block : AllUnfit asize []
  one_more :
      (b : Block) (xs : List Block) → Unfit asize b → AllUnfit asize xs → AllUnfit asize (b ∷ xs)

-- The first block of `xs` that is free and large enough, with its header in `k`.
pub record Fits (m : Words) (h e asize : ℕ) (xs : List Block) (k : ℕ) : Type 0 where
  pub us : List Block
  pub b : Block
  pub zs : List Block
  pub split : xs ≡ us ++ b ∷ zs
  pub left : Seg m h us k
  pub block : IsBlock m k b
  pub right : Seg m (k + b.size / 4) zs e
  pub unused : b.allocated ≡ false
  pub large : asize ≤ b.size
  pub first : AllUnfit asize us

both_false : (a b : Bool) → b ≡ false → (a && b) ≡ false
both_false true b e = e
both_false false b e = refl

module _ (m : Words) (e : ℕ) (n : Ends m e) (asize : ℕ) where
  first_fit-end : (fuel : ℕ) → first_fit m (payload e) asize (suc fuel) ≡ some at_end
  unfolding first_fit
  first_fit-end fuel =
      let size : get_size m (hdrp (payload e)) ≡ 0 =
        get_size-payload m e 0 1 (record { value = n.epilogue; multiple = refl; bit = omega arith })
          (omega (arith, n.below)) in
      rw size refl

  module _ (h : ℕ) (b : Block) (k : IsBlock m h b) (l : h + b.size / 4 ≤ e) where
    size : get_size m (hdrp (payload h)) ≡ b.size
    size = get_size-payload m h b.size _ (IsBlock-header m h b k) (omega (arith, n.below))

    alloc : get_alloc m (hdrp (payload h)) ≡ flag b.allocated
    alloc = get_alloc-payload m h b.size _ (IsBlock-header m h b k) (omega (arith, n.below))

    first_fit-found :
        (fuel : ℕ)
        → b.allocated ≡ false
        → asize ≤ b.size
        → first_fit m (payload h) asize (suc fuel) ≡ some (found (payload h))
    unfolding first_fit
    first_fit-found fuel u g =
        let fits : leb asize b.size ≡ true = ground arith in
        rw (size, alloc, u, fits, ne→eqb b.size 0 (omega (arith, k.least))) refl

    first_fit-next :
        (fuel : ℕ)
        → Unfit asize b
        → first_fit m (payload h) asize (suc fuel)
          ≡ first_fit m (payload (h + b.size / 4)) asize fuel
    unfolding first_fit
    first_fit-next fuel u =
        let next : next_blkp m (payload h) ≡ payload (h + b.size / 4) =
          next_blkp-payload m h b.size _ (IsBlock-header m h b k) (omega (arith, n.below))
            (omega (arith, n.below)) in
        let misfit : (flag b.allocated == 0 && leb asize b.size) ≡ false = elim u [
          | inl t ↦ rw t refl
          | inr s ↦ both_false (flag b.allocated == 0) (leb asize b.size) (ground arith)
        ] in
        rw (next, size, alloc, misfit, ne→eqb b.size 0 (omega (arith, k.least))) refl

  -- a block that does not fit is passed over
  further :
      (fuel h : ℕ) (b : Block) (xs : List Block)
      → IsBlock m h b
      → Seg m (h + b.size / 4) xs e
      → h + b.size / 4 ≤ e
      → Unfit asize b
      → ((first_fit m (payload (h + b.size / 4)) asize fuel ≡ some at_end) × AllUnfit asize xs)
        ⊎ ((k : ℕ) × (first_fit m (payload (h + b.size / 4)) asize fuel ≡ some (found (payload k)))
            × Fits m (h + b.size / 4) e asize xs k)
      → ((first_fit m (payload h) asize (suc fuel) ≡ some at_end) × AllUnfit asize (b ∷ xs))
        ⊎ ((k : ℕ) × (first_fit m (payload h) asize (suc fuel) ≡ some (found (payload k)))
            × Fits m h e asize (b ∷ xs) k)
  unfolding Seg
  further fuel h b xs q s l u (inl (r, a)) =
      inl (first_fit-next h b q l fuel u ∙ r, one_more b xs u a)
  further fuel h b xs q s l u (inr (k, r, t)) = inr (
    k,
    first_fit-next h b q l fuel u ∙ r,
    record {
      us = b ∷ t.us;
      b = t.b;
      zs = t.zs;
      split = ap (λ ys. b ∷ ys) t.split;
      left = (q, t.left);
      block = t.block;
      right = t.right;
      unused = t.unused;
      large = t.large;
      first = one_more b t.us u t.first;
    },
  )

  -- Every block takes four words or more, so fuel for a quarter of the words is enough.
  pub first_fit_lem :
      (fuel h : ℕ) (xs : List Block)
      → Seg m h xs e
      → e - h < fuel * 4
      → ((first_fit m (payload h) asize fuel ≡ some at_end) × AllUnfit asize xs)
        ⊎ ((k : ℕ) × (first_fit m (payload h) asize fuel ≡ some (found (payload k)))
            × Fits m h e asize xs k)
  unfolding Seg
  first_fit_lem zero h xs s f = absurd (omega arith)
  first_fit_lem (suc fuel) h [] s f = inl (
    subst (λ i. first_fit m (payload i) asize (suc fuel) ≡ some at_end) (sym s)
        (first_fit-end fuel),
    no_block,
  )
  first_fit_lem (suc fuel) h (b ∷ xs) (k, s) f =
      let l = Seg-le m (h + b.size / 4) xs e s in
      elim (Bool-cases (b.allocated)) [
        | inl t ↦
            further fuel h b xs k s l (inl t)
              (first_fit_lem fuel (h + b.size / 4) xs s (omega (arith, k.least)))
        | inr u ↦ elim (dec_lt b.size asize) [
          | yes g ↦
              further fuel h b xs k s l (inr g)
                (first_fit_lem fuel (h + b.size / 4) xs s (omega (arith, k.least)))
          | no g ↦ inr (
            h,
            first_fit-found h b k l fuel u (omega arith),
            record {
              us = [];
              b = b;
              zs = xs;
              split = refl;
              left = refl;
              block = k;
              right = s;
              unused = u;
              large = omega arith;
              first = no_block;
            },
          )
        ]
      ]
