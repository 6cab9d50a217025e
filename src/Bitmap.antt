-- ===== src/Bitmap.antt =====
-- kernel/mm/pmm.c and kernel/proc/proc.c keep the same kind of bitmap: an array of 32-bit words, a
-- bit to each frame or pid. The array is a function from the word's index.
pub mod Laws
use orion_final.Base.{ℕ, ◌-◌, ◌/◌, ◌%◌, ◌^◌, bit_and, bit_or}
use orion_final.Base.Update.{update}

abbrev pub Bitmap : Type 0
Bitmap = ℕ → ℕ

-- `1u << (frame % 32)`
abbrev bit_mask : ℕ → ℕ
bit_mask frame = 2 ^ (frame % 32)

-- `bitmap[frame / 32] |= (1u << (frame % 32))`
unfoldable pub bitmap_set : Bitmap → ℕ → Bitmap
bitmap_set bitmap frame = update bitmap (frame / 32) (bit_or (bitmap (frame / 32)) (bit_mask frame))

-- `bitmap[frame / 32] &= ~(1u << (frame % 32))`
unfoldable pub bitmap_clear : Bitmap → ℕ → Bitmap
bitmap_clear bitmap frame =
    update bitmap (frame / 32) (bit_and (bitmap (frame / 32)) (2 ^ 32 - 1 - bit_mask frame))

-- `(bitmap[frame / 32] >> (frame % 32)) & 1`
unfoldable pub bitmap_test : Bitmap → ℕ → ℕ
bitmap_test bitmap frame = bit_and (bitmap (frame / 32) / 2 ^ (frame % 32)) 1
