-- ===== src/Kheap/Blocks.antt =====
-- The heap of kernel/mm/kheap.c as a list of blocks.
use mathlib.Core.Path.{subst}
use orion_final.Base.{
  ℕ, ◌+◌, ◌-◌, ◌/◌, ◌%◌, ◌≤◌, ◌<◌, ◌≡◌, refl, sym, ◌∙◌, arith, Bool, true, false, if◌then◌else◌,
  List, [], ◌∷◌, ◌++◌,
}
use orion_final.Kheap.{Words, min_block}

-- The size in bytes, tags included, and the allocated bit.
pub record Block : Type 0 where
  pub size : ℕ
  pub allocated : Bool

abbrev pub flag : Bool → ℕ
flag allocated = if allocated then 1 else 0

abbrev pub tag : Block → ℕ
tag b = b.size + flag b.allocated

abbrev pub free_block : ℕ → Block
free_block size = record { size = size; allocated = false }

abbrev pub used_block : ℕ → Block
used_block size = record { size = size; allocated = true }

-- The block `b` lies in memory with its header in the word `h`.
pub record IsBlock (m : Words) (h : ℕ) (b : Block) : Type 0 where
  pub multiple : b.size % 8 ≡ 0
  pub least : min_block ≤ b.size
  pub header : m h ≡ tag b
  pub footer : m (h + b.size / 4 - 1) ≡ tag b

-- The blocks `xs` fill the words from `h` up to `e`.
unfoldable pub Seg : Words → ℕ → List Block → ℕ → Type 0
Seg m h [] e = h ≡ e
Seg m h (b ∷ xs) e = IsBlock m h b × Seg m (h + b.size / 4) xs e

pub Seg-le : (m : Words) (h : ℕ) (xs : List Block) (e : ℕ) → Seg m h xs e → h ≤ e
unfolding Seg
Seg-le m h [] e s = omega arith
Seg-le m h (b ∷ xs) e s = omega (arith, Seg-le m (h + b.size / 4) xs e s.1)

-- Words outside do not matter.
pub IsBlock-same :
    (m m' : Words) (h : ℕ) (b : Block)
    → ((w : ℕ) → h ≤ w → w < h + b.size / 4 → m' w ≡ m w)
    → IsBlock m h b
    → IsBlock m' h b
IsBlock-same m m' h b f k = record {
  multiple = k.multiple;
  least = k.least;
  header = f h (omega arith) (omega (arith, k.least)) ∙ k.header;
  footer = f _ (omega (arith, k.least)) (omega (arith, k.least)) ∙ k.footer;
}

pub Seg-same :
    (m m' : Words) (h : ℕ) (xs : List Block) (e : ℕ)
    → ((w : ℕ) → h ≤ w → w < e → m' w ≡ m w)
    → Seg m h xs e
    → Seg m' h xs e
unfolding Seg
Seg-same m m' h [] e f s = s
Seg-same m m' h (b ∷ xs) e f s =
    let below = Seg-le m (h + b.size / 4) xs e s.1 in
    (
      IsBlock-same m m' h b (λ w k l. f w k (omega arith)) s.0,
      Seg-same m m' (h + b.size / 4) xs e (λ w k l. f w (omega arith) l) s.1,
    )

pub Seg-append :
    (m : Words) (h k e : ℕ) (xs ys : List Block)
    → Seg m h xs k
    → Seg m k ys e
    → Seg m h (xs ++ ys) e
unfolding Seg
Seg-append m h k e [] ys s t = subst (λ i. Seg m i ys e) (sym s) t
Seg-append m h k e (b ∷ xs) ys s t = (s.0, Seg-append m (h + b.size / 4) k e xs ys s.1 t)

pub Seg-split :
    (m : Words) (h e : ℕ) (xs ys : List Block)
    → Seg m h (xs ++ ys) e
    → (k : ℕ) × Seg m h xs k × Seg m k ys e
unfolding Seg
Seg-split m h e [] ys s = (h, refl, s)
Seg-split m h e (b ∷ xs) ys s =
    let (k, t, u) = Seg-split m (h + b.size / 4) e xs ys s.1 in (k, (s.0, t), u)
