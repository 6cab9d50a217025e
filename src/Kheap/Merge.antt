-- ===== src/Kheap/Merge.antt =====
-- `coalesce` of kernel/mm/kheap.c on the list of blocks.
use mathlib.Core.Path.{subst}
use orion_final.Base.{
  ℕ, ◌+◌, ◌-◌, ◌/◌, ◌%◌, ◌≤◌, ◌<◌, ◌≡◌, refl, sym, ◌⊎◌, inl, inr, arith, false, List, [], ◌∷◌, ◌++◌,
}
use orion_final.Base.Update.{update}
use orion_final.Kheap.{Words, min_block, coalesce}
use orion_final.Kheap.Blocks.{Block, flag, free_block, IsBlock, Seg, Seg-le}
use orion_final.Kheap.Tags.{IsTag, payload}
use orion_final.Kheap.Around.{
  Around, coalesce-neither, coalesce-behind, coalesce-before, coalesce-both,
}
use orion_final.Kheap.Focus.{
  first_header, Ends, Focus, Outside, Focus-fill, Ends-kept, IsBlock-header, IsBlock-footer,
}
use orion_final.Kheap.Neighbours.{
  Merges, neither, behind, before, both, LastUsed, FirstUsed, Before, Behind, Before-cases,
  Behind-cases, with_flag,
}

-- What `coalesce` returns, as it stands in the list.
pub record Merged (m : Words) (us : List Block) (b : Block) (zs : List Block) (e : ℕ)
    (r : ℕ × Words) : Type 0 where
  pub ws : List Block
  pub merged : Block
  pub ys : List Block
  pub at : ℕ
  pub merges : Merges us b zs ws merged ys
  pub result : r.0 ≡ payload at
  pub focus : Focus r.1 e ws at merged ys
  pub ends : Ends r.1 e

module _ (m : Words) (e : ℕ) (us : List Block) (k : ℕ) (b : Block) (zs : List Block)
    (f : Focus m e us k b zs) (n : Ends m e) where
  around :
      (j prev prev_bit next next_bit : ℕ)
      → IsTag m (k - 1) prev prev_bit
      → IsTag m j prev prev_bit
      → k ≡ j + prev / 4
      → 0 < prev
      → IsTag m (k + b.size / 4) next next_bit
      → k + b.size / 4 + next / 4 ≤ e
      → Around m j k prev prev_bit b.size (flag b.allocated) next next_bit
  around j prev prev_bit next next_bit t u d p v l = record {
    before = t;
    before_head = u;
    here = IsBlock-header m k b f.block;
    behind = v;
    first = d;
    positive = (p, omega (arith, f.block.least));
    fits = omega (arith, n.below);
  }

  -- The merged block, after its tags are written in the words `a` and `c`.
  filled :
      (ws : List Block) (j size a c : ℕ) (ys : List Block)
      → Seg m first_header ws j
      → Seg m (j + size / 4) ys e
      → size % 8 ≡ 0
      → min_block ≤ size
      → ((a ≡ j) × (c ≡ j + size / 4 - 1)) ⊎ ((a ≡ j + size / 4 - 1) × (c ≡ j))
      → let m' = update (update m a size) c size in Focus m' e ws j (free_block size) ys × Ends m' e
  unfolding Outside
  filled ws j size a c ys l r d g h =
      let m' = update (update m a size) c size in
      let o : Outside m m' j (j + size / 4) = λ w x. ground arith in
      (
        Focus-fill m m' e ws j (j + size / 4) (free_block size) ys l
            (record { multiple = d; least = g; header = ground arith; footer = ground arith }) refl
            r o,
        Ends-kept m m' e j (j + size / 4) n (Seg-le m first_header ws j l) (Seg-le m _ ys e r) o,
      )

  before_footer :
      (p : Block) (j : ℕ)
      → p.allocated ≡ false
      → IsBlock m j p
      → k ≡ j + p.size / 4
      → IsTag m (k - 1) p.size 0
  before_footer p j a q d =
      subst (λ i. IsTag m (i - 1) p.size 0) (sym d)
        (with_flag m _ p false a (IsBlock-footer m j p q))

  Merged-behind :
      (j prev : ℕ) (x : Block) (ys : List Block)
      → LastUsed us
      → IsTag m (k - 1) prev 1
      → IsTag m j prev 1
      → k ≡ j + prev / 4
      → 0 < prev
      → zs ≡ x ∷ ys
      → x.allocated ≡ false
      → IsBlock m (k + b.size / 4) x
      → Seg m (k + b.size / 4 + x.size / 4) ys e
      → Merged m us b zs e (coalesce m (payload k))
  Merged-behind j prev x ys lu t u d p h a w r =
      let size : ℕ = b.size + x.size in
      let r' : Seg m (k + size / 4) ys e =
        subst (λ i. Seg m i ys e) (omega (arith, f.block.multiple, w.multiple)) r in
      let (focus, ends) =
        filled us k size k (k + size / 4 - 1) ys f.left r'
          (omega (arith, f.block.multiple, w.multiple)) (omega (arith, w.least))
          (inl (refl, refl)) in
      rw
        (coalesce-behind m j k prev 1 b.size _ x.size 0
          (around j prev 1 x.size 0 t u d p (with_flag m _ x false a (IsBlock-header m _ x w))
            (Seg-le m _ ys e r))
          refl refl)
        (record {
          ws = us;
          merged = free_block size;
          ys = ys;
          at = k;
          merges = behind lu x h a refl refl;
          result = refl;
          focus = focus;
          ends = ends;
        })

  Merged-before :
      (ws : List Block) (p : Block) (j next : ℕ)
      → us ≡ ws ++ p ∷ []
      → p.allocated ≡ false
      → Seg m first_header ws j
      → IsBlock m j p
      → k ≡ j + p.size / 4
      → FirstUsed zs
      → IsTag m (k + b.size / 4) next 1
      → k + b.size / 4 + next / 4 ≤ e
      → Merged m us b zs e (coalesce m (payload k))
  Merged-before ws p j next h a l q d fu v g =
      let size : ℕ = b.size + p.size in
      let r' : Seg m (j + size / 4) zs e =
        subst (λ i. Seg m i zs e) (omega (arith, f.block.multiple, q.multiple, d)) f.right in
      let (focus, ends) =
        filled ws j size (k + b.size / 4 - 1) j zs l r'
          (omega (arith, f.block.multiple, q.multiple)) (omega (arith, q.least))
          (inr (omega (arith, f.block.multiple, q.multiple, d), refl)) in
      rw
        (coalesce-before m j k p.size 0 b.size _ next 1
          (around j p.size 0 next 1 (before_footer p j a q d)
            (with_flag m j p false a (IsBlock-header m j p q)) d (omega (arith, q.least)) v g)
          refl refl)
        (record {
          ws = ws;
          merged = free_block size;
          ys = zs;
          at = j;
          merges = before p h a fu refl refl;
          result = refl;
          focus = focus;
          ends = ends;
        })

  Merged-both :
      (ws : List Block) (p : Block) (j : ℕ) (x : Block) (ys : List Block)
      → us ≡ ws ++ p ∷ []
      → p.allocated ≡ false
      → Seg m first_header ws j
      → IsBlock m j p
      → k ≡ j + p.size / 4
      → zs ≡ x ∷ ys
      → x.allocated ≡ false
      → IsBlock m (k + b.size / 4) x
      → Seg m (k + b.size / 4 + x.size / 4) ys e
      → Merged m us b zs e (coalesce m (payload k))
  Merged-both ws p j x ys h a l q d i c w r =
      let size : ℕ = b.size + (p.size + x.size) in
      let r' : Seg m (j + size / 4) ys e =
        subst (λ i. Seg m i ys e) (omega (arith, f.block.multiple, q.multiple, w.multiple, d)) r in
      let (focus, ends) =
        filled ws j size j (k + b.size / 4 + x.size / 4 - 1) ys l r'
          (omega (arith, f.block.multiple, q.multiple, w.multiple)) (omega (arith, q.least))
          (inl (refl, omega (arith, f.block.multiple, q.multiple, w.multiple, d))) in
      rw
        (coalesce-both m j k p.size 0 b.size _ x.size 0
          (around j p.size 0 x.size 0 (before_footer p j a q d)
            (with_flag m j p false a (IsBlock-header m j p q)) d (omega (arith, q.least))
            (with_flag m _ x false c (IsBlock-header m _ x w)) (Seg-le m _ ys e r))
          refl refl (omega (arith, w.least)))
        (record {
          ws = ws;
          merged = free_block size;
          ys = ys;
          at = j;
          merges = both p x h a i c refl;
          result = refl;
          focus = focus;
          ends = ends;
        })

  pub coalesce-Merged : b.allocated ≡ false → Merged m us b zs e (coalesce m (payload k))
  coalesce-Merged unused = elim (Before-cases m us k e f.left n) [
    | Before.used lu j prev t u d p ↦ elim (Behind-cases m zs _ e f.right n) [
      | Behind.used fu next v l ↦
          rw
            (coalesce-neither m j k prev 1 b.size _ next 1 (around j prev 1 next 1 t u d p v l) refl
              refl)
            (record {
              ws = us;
              merged = b;
              ys = zs;
              at = k;
              merges = neither lu fu refl refl refl;
              result = refl;
              focus = f;
              ends = n;
            })
      | Behind.free x ys h a w r ↦ Merged-behind j prev x ys lu t u d p h a w r
    ]
    | Before.free ws p j h a l q d ↦ elim (Behind-cases m zs _ e f.right n) [
      | Behind.used fu next v g ↦ Merged-before ws p j next h a l q d fu v g
      | Behind.free x ys i c w r ↦ Merged-both ws p j x ys h a l q d i c w r
    ]
  ]
