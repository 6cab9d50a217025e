-- ===== src/Kheap/Focus.antt =====
-- A block of the heap of kernel/mm/kheap.c among the others, and what stands round the blocks.
use mathlib.Core.Path.{subst}
use orion_final.Base.{
  ℕ, ◌+◌, ◌-◌, ◌/◌, ◌≤◌, ◌<◌, ◌≡◌, refl, ap, ◌∙◌, ◌⊎◌, inl, inr, arith, Bool, true, false, List, [],
  ◌∷◌, ◌++◌,
}
use orion_final.Kheap.{Words, heap_start, heap_max}
use orion_final.Kheap.Blocks.{Block, flag, IsBlock, Seg, Seg-same, Seg-append, Seg-split}
use orion_final.Kheap.Tags.{IsTag}

-- the header of the first block
abbrev pub first_header : ℕ
first_header = heap_start / 4 + 3

-- the prologue, and the epilogue in the word `e`
pub record Ends (m : Words) (e : ℕ) : Type 0 where
  pub prologue_header : m (first_header - 2) ≡ 9
  pub prologue_footer : m (first_header - 1) ≡ 9
  pub epilogue : m e ≡ 1
  pub below : e ≤ heap_max / 4

-- The block `b` with its header in `k`, behind the blocks `ws` and before the blocks `zs`.
pub record Focus (m : Words) (e : ℕ) (ws : List Block) (k : ℕ) (b : Block) (zs : List Block)
    : Type 0 where
  pub left : Seg m first_header ws k
  pub block : IsBlock m k b
  pub right : Seg m (k + b.size / 4) zs e

-- `m'` is `m` but for the words from `j` up to `r`.
unfoldable pub Outside : Words → Words → ℕ → ℕ → Type 0
Outside m m' j r = (w : ℕ) → (w < j) ⊎ (r ≤ w) → m' w ≡ m w

pub Focus-fill :
    (m m' : Words) (e : ℕ) (ws : List Block) (j r : ℕ) (b : Block) (zs : List Block)
    → Seg m first_header ws j
    → IsBlock m' j b
    → r ≡ j + b.size / 4
    → Seg m r zs e
    → Outside m m' j r
    → Focus m' e ws j b zs
unfolding Outside
Focus-fill m m' e ws j r b zs s k d t f = record {
  left = Seg-same m m' first_header ws j (λ w p q. f w (inl q)) s;
  block = k;
  right = subst (λ i. Seg m' i zs e) d (Seg-same m m' r zs e (λ w p q. f w (inr p)) t);
}

pub Ends-kept :
    (m m' : Words) (e j r : ℕ) → Ends m e → first_header ≤ j → r ≤ e → Outside m m' j r → Ends m' e
unfolding Outside
Ends-kept m m' e j r n l k f = record {
  prologue_header = f _ (inl (omega arith)) ∙ n.prologue_header;
  prologue_footer = f _ (inl (omega arith)) ∙ n.prologue_footer;
  epilogue = f e (inr k) ∙ n.epilogue;
  below = n.below;
}

pub Focus-Seg :
    (m : Words) (e : ℕ) (ws : List Block) (k : ℕ) (b : Block) (zs : List Block)
    → Focus m e ws k b zs
    → Seg m first_header (ws ++ b ∷ zs) e
unfolding Seg
Focus-Seg m e ws k b zs f = Seg-append m first_header k e ws (b ∷ zs) f.left (f.block, f.right)

pub Seg-Focus :
    (m : Words) (e : ℕ) (ws : List Block) (b : Block) (zs : List Block)
    → Seg m first_header (ws ++ b ∷ zs) e
    → (k : ℕ) × Focus m e ws k b zs
unfolding Seg
Seg-Focus m e ws b zs s =
    let (k, l, r) = Seg-split m first_header e ws (b ∷ zs) s in
    (k, record { left = l; block = r.0; right = r.1 })

pub IsBlock-header :
    (m : Words) (k : ℕ) (b : Block) → IsBlock m k b → IsTag m k b.size (flag b.allocated)
IsBlock-header m k b h = record {
  value = h.header;
  multiple = h.multiple;
  bit = flag-lt b.allocated;
}
  where
    flag-lt : (a : Bool) → flag a < 2
    flag-lt true = omega arith
    flag-lt false = omega arith

pub IsBlock-footer :
    (m : Words) (k : ℕ) (b : Block)
    → IsBlock m k b
    → IsTag m (k + b.size / 4 - 1) b.size (flag b.allocated)
IsBlock-footer m k b h = record {
  value = h.footer;
  multiple = h.multiple;
  bit = (IsBlock-header m k b h).bit;
}

pub snoc_cases :
    (xs : List Block) → (xs ≡ []) ⊎ ((ys : List Block) × (y : Block) × (xs ≡ ys ++ y ∷ []))
snoc_cases [] = inl refl
snoc_cases (x ∷ xs) = elim (snoc_cases xs) [
  | inl e ↦ inr ([], x, ap (λ t. x ∷ t) e)
  | inr (ys, y, e) ↦ inr (x ∷ ys, y, ap (λ t. x ∷ t) e)
]
