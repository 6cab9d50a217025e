-- ===== src/Kheap/Around.antt =====
-- `coalesce` of kernel/mm/kheap.c in each of its four cases, as writes to words.
use orion_final.Base.{ℕ, ◌+◌, ◌-◌, ◌/◌, ◌^◌, ◌<◌, ◌≡◌, refl, ap, ◌∙◌, arith}
use orion_final.Base.Update.{update, update_ne}
use orion_final.Base.Words.{u32}
use orion_final.Kheap.{Words, get_size, get_alloc, hdrp, ftrp, next_blkp, prev_blkp, coalesce}
use orion_final.Kheap.Tags.{
  IsTag, payload, write_tags, pack-free, hdrp-payload, get_size-payload, get_alloc-payload,
  next_blkp-payload, ftrp-payload, prev_blkp-payload, put_tags-free,
}

-- What `coalesce` finds: a block, and the tags of those before and behind it.
pub record Around (m : Words) (j h prev prev_bit size bit next next_bit : ℕ) : Type 0 where
  pub before : IsTag m (h - 1) prev prev_bit
  pub before_head : IsTag m j prev prev_bit
  pub here : IsTag m h size bit
  pub behind : IsTag m (h + size / 4) next next_bit
  pub first : h ≡ j + prev / 4
  pub positive : (0 < prev) × (0 < size)
  pub fits : h + size / 4 + next / 4 < 2 ^ 29

module _ (m : Words) (j h prev prev_bit size bit next next_bit : ℕ)
    (a : Around m j h prev prev_bit size bit next next_bit) where
  abbrev at : ℕ
  at = payload h

  before_at : prev_blkp m at ≡ payload j
  before_at =
      prev_blkp-payload m h j prev prev_bit a.before a.first (omega (arith, a.first, a.positive))
        (omega (arith, a.fits))

  behind_at : next_blkp m at ≡ payload (h + size / 4)
  behind_at = next_blkp-payload m h size bit a.here (omega (arith, a.fits)) (omega (arith, a.fits))

  prev_alloc : get_alloc m (ftrp m (payload j)) ≡ prev_bit
  prev_alloc =
      let footer : ftrp m (payload j) / 4 ≡ h - 1 =
        rw
          (ftrp-payload m j prev prev_bit a.before_head (omega (arith, a.fits, a.first))
            a.positive.0 (omega (arith, a.fits, a.first)))
          (omega (arith, a.first)) in
      rw footer (omega (arith, a.before.value, a.before.multiple, a.before.bit))

  next_alloc : get_alloc m (hdrp (payload (h + size / 4))) ≡ next_bit
  next_alloc = get_alloc-payload m _ next next_bit a.behind (omega (arith, a.fits))

  here_size : get_size m (hdrp at) ≡ size
  here_size = get_size-payload m h size bit a.here (omega (arith, a.fits))

  prev_size : get_size m (hdrp (payload j)) ≡ prev
  prev_size = get_size-payload m j prev prev_bit a.before_head (omega (arith, a.fits, a.first))

  next_size : get_size m (hdrp (payload (h + size / 4))) ≡ next
  next_size = get_size-payload m _ next next_bit a.behind (omega (arith, a.fits))

  pub coalesce-neither : prev_bit ≡ 1 → next_bit ≡ 1 → coalesce m at ≡ (at, m)
  unfolding coalesce
  coalesce-neither p n = rw (before_at, behind_at, prev_alloc, next_alloc, p, n) refl

  pub coalesce-behind :
      prev_bit ≡ 1 → next_bit ≡ 0 → coalesce m at ≡ (at, write_tags m h (size + next) (size + next))
  unfolding coalesce
  coalesce-behind p n =
      let sum : u32 (size + next) ≡ size + next = omega (arith, a.fits) in
      let tags =
        put_tags-free m h (size + next) (omega (arith, a.here.multiple, a.behind.multiple))
          (omega (arith, a.positive)) (omega (arith, a.fits, a.here.multiple, a.behind.multiple)) in
      rw (before_at, behind_at, prev_alloc, next_alloc, p, n, here_size, next_size, sum)
        (ap (λ x. (at, x)) tags)

  pub coalesce-before :
      prev_bit ≡ 0
      → next_bit ≡ 1
      → coalesce m at
        ≡ (payload j, update (update m (h + size / 4 - 1) (size + prev)) j (size + prev))
  unfolding coalesce
  coalesce-before p n =
      let sum : u32 (size + prev) ≡ size + prev = omega (arith, a.fits, a.first) in
      let footer : ftrp m at / 4 ≡ h + size / 4 - 1 =
        ap (λ q. q / 4)
          (ftrp-payload m h size bit a.here (omega (arith, a.fits)) a.positive.1
            (omega (arith, a.fits)))
        ∙ omega arith in
      rw
        (
          footer,
          before_at,
          behind_at,
          prev_alloc,
          next_alloc,
          p,
          n,
          here_size,
          prev_size,
          sum,
          pack-free (size + prev),
          hdrp-payload j (omega (arith, a.fits, a.first)),
        )
        refl

  pub coalesce-both :
      prev_bit ≡ 0
      → next_bit ≡ 0
      → 0 < next
      → let all = size + (prev + next) in
        coalesce m at ≡ (payload j, update (update m j all) (h + size / 4 + next / 4 - 1) all)
  unfolding coalesce
  coalesce-both p n least =
      let all = size + (prev + next) in
      let sum : u32 all ≡ all = omega (arith, a.fits, a.first) in
      let headed = update m j all in
      let value : headed (h + size / 4) ≡ next + next_bit =
        update_ne m j (h + size / 4) all (omega (arith, a.first, a.positive, a.before.multiple))
        ∙ a.behind.value in
      let t : IsTag headed (h + size / 4) next next_bit = record {
        value = value;
        multiple = a.behind.multiple;
        bit = a.behind.bit;
      } in
      let footer : ftrp headed (payload (h + size / 4)) / 4 ≡ h + size / 4 + next / 4 - 1 =
        ap (λ q. q / 4)
          (ftrp-payload headed _ next next_bit t (omega (arith, a.fits)) least
            (omega (arith, a.fits)))
        ∙ omega arith in
      rw
        (
          before_at,
          behind_at,
          prev_alloc,
          next_alloc,
          p,
          n,
          here_size,
          prev_size,
          next_size,
          sum,
          pack-free all,
          hdrp-payload j (omega (arith, a.fits, a.first)),
          footer,
        )
        refl
