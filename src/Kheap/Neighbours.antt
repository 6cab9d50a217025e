-- ===== src/Kheap/Neighbours.antt =====
-- The neighbours that `coalesce` of kernel/mm/kheap.c looks at.
use mathlib.Core.Path.{subst}
use orion_final.Base.{
  ℕ, ◌+◌, ◌-◌, ◌/◌, ◌≤◌, ◌<◌, ◌≡◌, refl, sym, ap, ◌∙◌, ◌⊎◌, inl, inr, arith, Bool, true, false,
  Bool-cases, List, [], ◌∷◌, ◌++◌,
}
use orion_final.Kheap.{Words}
use orion_final.Kheap.Blocks.{free_block, Block, flag, IsBlock, Seg, Seg-le, Seg-split}
use orion_final.Kheap.Tags.{IsTag}
use orion_final.Kheap.Focus.{first_header, Ends, IsBlock-header, IsBlock-footer, snoc_cases}

pub LastUsed : List Block → Type 0
LastUsed xs =
    (xs ≡ []) ⊎ ((ws : List Block) × (p : Block) × (xs ≡ ws ++ p ∷ []) × (p.allocated ≡ true))

pub FirstUsed : List Block → Type 0
FirstUsed xs = (xs ≡ []) ⊎ ((n : Block) × (ys : List Block) × (xs ≡ n ∷ ys) × (n.allocated ≡ true))

-- The free block `b` between `us` and `zs` is merged with its free neighbours to `c`, between `ws` and
-- `ys`.
pub data Merges (us : List Block) (b : Block) (zs ws : List Block) (c : Block) (ys : List Block)
    : Type 0 where
  neither : LastUsed us → FirstUsed zs → ws ≡ us → c ≡ b → ys ≡ zs → Merges us b zs ws c ys
  behind :
      LastUsed us
      → (n : Block) → zs ≡ n ∷ ys
      → n.allocated ≡ false
      → ws ≡ us
      → c ≡ free_block (b.size + n.size)
      → Merges us b zs ws c ys
  before :
      (p : Block)
      → us ≡ ws ++ p ∷ []
      → p.allocated ≡ false
      → FirstUsed zs
      → c ≡ free_block (b.size + p.size)
      → ys ≡ zs
      → Merges us b zs ws c ys
  both :
      (p n : Block)
      → us ≡ ws ++ p ∷ []
      → p.allocated ≡ false
      → zs ≡ n ∷ ys
      → n.allocated ≡ false
      → c ≡ free_block (b.size + (p.size + n.size))
      → Merges us b zs ws c ys

-- What stands before the word `k`: the prologue or a block in use, or a free block.
pub data Before (m : Words) (us : List Block) (k : ℕ) : Type 0 where
  used :
      LastUsed us
      → (j prev : ℕ) → IsTag m (k - 1) prev 1
      → IsTag m j prev 1
      → k ≡ j + prev / 4
      → 0 < prev
      → Before m us k
  free :
      (ws : List Block) (p : Block) (j : ℕ)
      → us ≡ ws ++ p ∷ []
      → p.allocated ≡ false
      → Seg m first_header ws j
      → IsBlock m j p
      → k ≡ j + p.size / 4
      → Before m us k

-- What stands at the word `r`: the epilogue or a block in use, or a free block.
pub data Behind (m : Words) (zs : List Block) (r e : ℕ) : Type 0 where
  used : FirstUsed zs → (next : ℕ) → IsTag m r next 1 → r + next / 4 ≤ e → Behind m zs r e
  free :
      (n : Block) (ys : List Block)
      → zs ≡ n ∷ ys
      → n.allocated ≡ false
      → IsBlock m r n
      → Seg m (r + n.size / 4) ys e
      → Behind m zs r e

pub with_flag :
    (m : Words) (h : ℕ) (b : Block) (a : Bool)
    → b.allocated ≡ a
    → IsTag m h b.size (flag b.allocated)
    → IsTag m h b.size (flag a)
with_flag m h b a e t = subst (λ c. IsTag m h b.size (flag c)) e t

pub Before-cases :
    (m : Words) (us : List Block) (k e : ℕ) → Seg m first_header us k → Ends m e → Before m us k
unfolding Seg LastUsed
Before-cases m us k e s n = elim (snoc_cases us) [
  | inl h ↦
      let at : first_header ≡ k = subst (λ xs. Seg m first_header xs k) h s in
      Before.used (inl h) (first_header - 2) 8
        (record {
          value = ap (λ i. m (i - 1)) (sym at) ∙ n.prologue_footer;
          multiple = refl;
          bit = omega arith;
        })
        (record { value = n.prologue_header; multiple = refl; bit = omega arith })
        (omega (arith, at)) (omega arith)
  | inr (ws, p, h) ↦
      let (j, l, (b, q)) =
        Seg-split m first_header k ws (p ∷ []) (subst (λ xs. Seg m first_header xs k) h s) in
      elim (Bool-cases p.allocated) [
        | inr f ↦ Before.free ws p j h f l b (sym q)
        | inl t ↦
            Before.used (inr (ws, p, h, t)) j p.size
              (subst (λ i. IsTag m (i - 1) p.size 1) q
                (with_flag m _ p true t (IsBlock-footer m j p b)))
              (with_flag m j p true t (IsBlock-header m j p b)) (sym q) (omega (arith, b.least))
      ]
]

pub Behind-cases :
    (m : Words) (zs : List Block) (r e : ℕ) → Seg m r zs e → Ends m e → Behind m zs r e
unfolding Seg FirstUsed
Behind-cases m [] r e s n =
    Behind.used (inl refl) 0
      (record { value = ap m s ∙ n.epilogue; multiple = refl; bit = omega arith }) (omega arith)
Behind-cases m (z ∷ zs) r e s n = elim (Bool-cases z.allocated) [
  | inr f ↦ Behind.free z zs refl f s.0 s.1
  | inl t ↦
      Behind.used (inr (z, zs, refl, t)) z.size (with_flag m r z true t (IsBlock-header m r z s.0))
        (Seg-le m _ zs e s.1)
]
