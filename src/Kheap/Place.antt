-- ===== src/Kheap/Place.antt =====
-- `place` of kernel/mm/kheap.c: the block in use at the front of a free one, and the rest behind it.
use mathlib.Core.Bool.{Bool}
use mathlib.Core.Path.{subst}
use orion_final.Base.{
  ℕ, ◌+◌, ◌-◌, ◌/◌, ◌%◌, ◌≤◌, ◌<◌, ◌≡◌, refl, ◌⊎◌, inl, inr, arith, leb, true, false, List, ◌∷◌,
  dec_lt,
}
use orion_final.Base.Words.{sub32}
use orion_final.Kheap.{Words, min_block, place, get_size, hdrp, next_blkp}
use orion_final.Kheap.Blocks.{Block, flag, free_block, used_block, Seg, Seg-le, Seg-same}
use orion_final.Kheap.Tags.{
  IsTag, payload, write_tags, put_tags-used, put_tags-free, get_size-payload, next_blkp-payload,
}
use orion_final.Kheap.Focus.{
  first_header, Ends, Focus, Outside, Focus-fill, Ends-kept, IsBlock-header,
}

module _ (m : Words) (e : ℕ) (us : List Block) (k : ℕ) (b : Block) (zs : List Block)
    (f : Focus m e us k b zs) (n : Ends m e) where
  room : (first_header ≤ k) × (k + b.size / 4 ≤ e) × (e ≤ 0x1400000)
  room = (Seg-le m first_header us k f.left, Seg-le m (k + b.size / 4) zs e f.right, n.below)

  -- the block with another allocated bit
  pub Focus-retag :
      (a : Bool)
      → let m' = write_tags m k b.size (b.size + flag a) in
        Focus m' e us k (record { size = b.size; allocated = a }) zs × Ends m' e
  unfolding Outside
  Focus-retag a =
      let m' = write_tags m k b.size (b.size + flag a) in
      let o : Outside m m' k (k + b.size / 4) = λ w x. ground (arith, f.block.least) in
      (
        Focus-fill m m' e us k (k + b.size / 4) (record { size = b.size; allocated = a }) zs f.left
            (record {
              multiple = f.block.multiple;
              least = f.block.least;
              header = ground (arith, f.block.least);
              footer = ground arith;
            })
            refl f.right o,
        Ends-kept m m' e k (k + b.size / 4) n room.0 room.1 o,
      )

  module _ (asize : ℕ) (d : asize % 8 ≡ 0) (l : 16 ≤ asize) (g : asize + 16 ≤ b.size) where
    abbrev front : Words
    front = write_tags m k asize (asize + 1)

    abbrev divided : Words
    divided = write_tags front (k + asize / 4) (b.size - asize) (b.size - asize)

    divided_lem :
        Focus divided e us k (used_block asize) (free_block (b.size - asize) ∷ zs) × Ends divided e
    unfolding Outside Seg
    divided_lem =
        let o : Outside m divided k (k + b.size / 4) =
          λ w x. ground (arith, f.block.multiple, d, l, g) in
        (
          record {
            left = Seg-same m divided first_header us k (λ w p q. o w (inl q)) f.left;
            block = record {
              multiple = d;
              least = l;
              header = ground (arith, d, l, g);
              footer = ground (arith, d, l, g);
            };
            right = (
              record {
                multiple = omega (arith, f.block.multiple);
                least = omega arith;
                header = ground (arith, f.block.multiple, d, l, g);
                footer = ground arith;
              },
              subst (λ i. Seg divided i zs e) (omega (arith, f.block.multiple))
                  (Seg-same m divided (k + b.size / 4) zs e (λ w p q. o w (inr p)) f.right),
            );
          },
          Ends-kept m divided e k (k + b.size / 4) n room.0 room.1 o,
        )

    place-divided : place m (payload k) asize ≡ divided
    unfolding place
    place-divided =
        let size : get_size m (hdrp (payload k)) ≡ b.size =
          get_size-payload m k b.size _ (IsBlock-header m k b f.block) (omega (arith, room)) in
        let rest : sub32 b.size asize ≡ b.size - asize = omega (arith, room) in
        let large : leb min_block (b.size - asize) ≡ true = ground arith in
        let headed : IsTag front k asize 1 = record {
          value = ground (arith, d, l);
          multiple = d;
          bit = omega arith;
        } in
        let next : next_blkp front (payload k) ≡ payload (k + asize / 4) =
          next_blkp-payload front k asize 1 headed (omega (arith, room)) (omega (arith, room)) in
        rw (size, rest, large, put_tags-used m k asize d (omega arith) (omega (arith, room)), next)
          (put_tags-free front (k + asize / 4) (b.size - asize) (omega (arith, f.block.multiple))
            (omega arith) (omega (arith, room, f.block.multiple)))

  place-whole :
      (asize : ℕ)
      → asize ≤ b.size
      → b.size < asize + 16
      → place m (payload k) asize ≡ write_tags m k b.size (b.size + 1)
  unfolding place
  place-whole asize g l =
      let size : get_size m (hdrp (payload k)) ≡ b.size =
        get_size-payload m k b.size _ (IsBlock-header m k b f.block) (omega (arith, room)) in
      let small : leb min_block (sub32 b.size asize) ≡ false = ground (arith, room) in
      rw (size, small)
        (put_tags-used m k b.size f.block.multiple (omega (arith, f.block.least))
          (omega (arith, room)))

  -- What `place` leaves: the block in use, and behind it what follows.
  pub record Placed (asize : ℕ) (m' : Words) : Type 0 where
    pub size : ℕ
    pub rest : List Block
    pub enough : asize ≤ size
    pub splits :
        ((asize + 16 ≤ b.size) × (size ≡ asize) × (rest ≡ free_block (b.size - asize) ∷ zs))
        ⊎ ((b.size < asize + 16) × (size ≡ b.size) × (rest ≡ zs))
    pub focus : Focus m' e us k (used_block size) rest
    pub ends : Ends m' e

  pub place-Placed :
      (asize : ℕ)
      → asize % 8 ≡ 0
      → 16 ≤ asize
      → asize ≤ b.size
      → Placed asize (place m (payload k) asize)
  place-Placed asize d l g = elim (dec_lt b.size (asize + 16)) [
    | yes q ↦ rw (place-whole asize g q) (record {
      size = b.size;
      rest = zs;
      enough = g;
      splits = inr (q, refl, refl);
      focus = (Focus-retag true).0;
      ends = (Focus-retag true).1;
    })
    | no q ↦
        let p : asize + 16 ≤ b.size = omega arith in
        rw (place-divided asize d l p) (record {
          size = asize;
          rest = free_block (b.size - asize) ∷ zs;
          enough = omega arith;
          splits = inl (p, refl, refl);
          focus = (divided_lem asize d l p).0;
          ends = (divided_lem asize d l p).1;
        })
  ]
