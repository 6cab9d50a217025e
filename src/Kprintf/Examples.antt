-- ===== src/Kprintf/Examples.antt =====
-- The number printer of kprintf.c at concrete numbers.
use orion_final.Base.{ℕ, ◌-◌, ◌≡◌, refl, arith, inl, List, [], ◌∷◌, ◌++◌, length, some}
use orion_final.Kprintf.{write_digits, c_string, padding, write_uint_base}
use orion_final.Kprintf.Digits.{value_of, write_uint_base_lem}

-- "  407", and "00ff"
run_decimal : write_uint_base (λ i. 1) 407 10 5 32 ≡ some (32 ∷ 32 ∷ 52 ∷ 48 ∷ 55 ∷ [])
unfolding write_uint_base write_digits c_string padding
run_decimal = refl

run_hexadecimal : write_uint_base (λ i. 1) 255 16 4 48 ≡ some (48 ∷ 48 ∷ 102 ∷ 102 ∷ [])
unfolding write_uint_base write_digits c_string padding
run_hexadecimal = refl

write_uint_base_lem_example :
    (text : List ℕ) × (write_uint_base (λ i. 1) 407 10 5 32
      ≡ some (padding 32 (5 - length text) ++ text))
    × (value_of 10 text 0 ≡ 407)
write_uint_base_lem_example = write_uint_base_lem (λ i. 1) 407 10 5 32 (inl refl) (omega arith)
