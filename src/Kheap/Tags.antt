-- ===== src/Kheap/Tags.antt =====
-- The addresses that the macros of kernel/mm/kheap.c compute from the tags.
use orion_final.Base.{ℕ, ◌+◌, ◌-◌, ◌*◌, ◌/◌, ◌%◌, ◌^◌, ◌<◌, ◌≡◌, refl, sym, ap, ◌∙◌, arith}
use orion_final.Base.Update.{update, update_self}
use orion_final.Base.Words.{sub32}
use orion_final.Base.Masks.{bit_or-zero, bit_or-one}
use orion_final.Kheap.{
  Words, pack, put, get_size, get_alloc, hdrp, ftrp, next_blkp, prev_blkp, put_tags, dwsize,
}

-- The word `h` is a tag: a size, and the allocated bit.
pub record IsTag (m : Words) (h size alloc : ℕ) : Type 0 where
  pub value : m h ≡ size + alloc
  pub multiple : size % 8 ≡ 0
  pub bit : alloc < 2

-- the payload behind the header `h`
abbrev pub payload : ℕ → ℕ
payload h = 4 * (h + 1)

pub pack-free : (size : ℕ) → pack size 0 ≡ size
pack-free size = bit_or-zero size

pub pack-used : (size : ℕ) → size % 8 ≡ 0 → pack size 1 ≡ size + 1
pack-used size e = omega (arith, bit_or-one size)

pub hdrp-payload : (h : ℕ) → h < 2 ^ 29 → hdrp (payload h) / 4 ≡ h
hdrp-payload h l = omega arith

module _ (m : Words) (h size alloc : ℕ) (t : IsTag m h size alloc) (l : h < 2 ^ 29) where
  pub get_size-payload : get_size m (hdrp (payload h)) ≡ size
  get_size-payload = rw (hdrp-payload h l) (omega (arith, t.value, t.multiple, t.bit))

  pub get_alloc-payload : get_alloc m (hdrp (payload h)) ≡ alloc
  get_alloc-payload = rw (hdrp-payload h l) (omega (arith, t.value, t.multiple, t.bit))

  pub next_blkp-payload : h + size / 4 < 2 ^ 29 → next_blkp m (payload h) ≡ payload (h + size / 4)
  next_blkp-payload k = rw get_size-payload (omega (arith, t.multiple))

  pub ftrp-payload : 0 < size → h + size / 4 < 2 ^ 29 → ftrp m (payload h) ≡ 4 * (h + size / 4 - 1)
  ftrp-payload n k = rw get_size-payload (omega (arith, t.multiple))

-- the block before, found by its footer
pub prev_blkp-payload :
    (m : Words) (h j size alloc : ℕ)
    → IsTag m (h - 1) size alloc
    → h ≡ j + size / 4
    → 0 < h
    → h < 2 ^ 29
    → prev_blkp m (payload h) ≡ payload j
prev_blkp-payload m h j size alloc t e n l =
    let at : sub32 (payload h) dwsize / 4 ≡ h - 1 = omega arith in
    rw at (omega (arith, t.value, t.multiple, t.bit))

-- Both tags of a block, written as the number `v`.
abbrev pub write_tags : Words → ℕ → ℕ → ℕ → Words
write_tags m h size v = update (update m h v) (h + size / 4 - 1) v

pub put_tags-write :
    (m : Words) (h size alloc : ℕ)
    → pack size alloc ≡ size + alloc
    → size % 8 ≡ 0
    → 0 < size
    → alloc < 2
    → h + size / 4 < 2 ^ 29
    → put_tags m (payload h) size alloc ≡ write_tags m h size (size + alloc)
unfolding put_tags
put_tags-write m h size alloc p e n b l =
    let headed = put m (hdrp (payload h)) (pack size alloc) in
    let value : headed h ≡ size + alloc =
      rw (hdrp-payload h (omega arith)) (update_self m h (pack size alloc) ∙ p) in
    let t : IsTag headed h size alloc = record { value = value; multiple = e; bit = b } in
    let footer : ftrp headed (payload h) / 4 ≡ h + size / 4 - 1 =
      ap (λ q. q / 4) (ftrp-payload headed h size alloc t (omega arith) n l) ∙ omega arith in
    rw (footer, hdrp-payload h (omega arith), p) refl

-- The two tags of a free block, and of a block in use.
pub put_tags-free :
    (m : Words) (h size : ℕ)
    → size % 8 ≡ 0
    → 0 < size
    → h + size / 4 < 2 ^ 29
    → put_tags m (payload h) size 0 ≡ write_tags m h size size
put_tags-free m h size e n l =
    let none : size + 0 ≡ size = omega arith in
    put_tags-write m h size 0 (pack-free size ∙ sym none) e n (omega arith) l
    ∙ ap (λ v. write_tags m h size v) none

pub put_tags-used :
    (m : Words) (h size : ℕ)
    → size % 8 ≡ 0
    → 0 < size
    → h + size / 4 < 2 ^ 29
    → put_tags m (payload h) size 1 ≡ write_tags m h size (size + 1)
put_tags-used m h size e n l = put_tags-write m h size 1 (pack-used size e) e n (omega arith) l
