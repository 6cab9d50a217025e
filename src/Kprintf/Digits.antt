-- ===== src/Kprintf/Digits.antt =====
-- What the number printer of lib/libk/kprintf.c prints is the number.
use native.Mathlib.Nat.{div-add-mod', pow-suc}
use orion_final.Base.{
  ℕ, zero, suc, ◌+◌, ◌-◌, ◌*◌, ◌/◌, ◌%◌, ◌^◌, ◌≤◌, ◌<◌, ◌≡◌, ◌≢◌, refl, sym, ap, ◌∙◌, ◌⊎◌, inl, inr,
  arith, ◌==◌, ltb, if◌then◌else◌, List, [], ◌∷◌, ◌++◌, length, Option, none, some, ℕ_discrete,
  ne→eqb,
}
use orion_final.Base.Update.{update, update_self, update_ne}
use orion_final.Kprintf.{digits, write_digits, c_string, padding, write_uint_base}

-- the digit that a character stands for
abbrev pub digit_of : ℕ → ℕ
digit_of c = if ltb c 58 then c - 48 else c - 87

-- The number that a text stands for, behind a number that was read before.
unfoldable pub value_of : ℕ → List ℕ → ℕ → ℕ
value_of base [] read = read
value_of base (c ∷ text) read = value_of base text (read * base + digit_of c)

digit_of-digits : (d : ℕ) → d < 16 → digit_of (digits d) ≡ d
digit_of-digits d l = ground arith

-- The text in a buffer from `start` up to the zero in 31.
abbrev text : (ℕ → ℕ) → ℕ → List ℕ
text buf start = c_string buf start (32 - start)

c_string-same :
    (f g : ℕ → ℕ) (i left : ℕ)
    → ((j : ℕ) → i ≤ j → f j ≡ g j)
    → c_string f i left ≡ c_string g i left
unfolding c_string
c_string-same f g i zero h = refl
c_string-same f g i (suc left) h =
    rw (h i (omega arith), c_string-same f g (i + 1) left (λ j l. h j (omega arith))) refl

-- a character in front of the text
text-cons :
    (buf : ℕ → ℕ) (i c : ℕ) → c ≢ 0 → i < 31 → text (update buf i c) i ≡ c ∷ text buf (suc i)
unfolding c_string
text-cons buf i c n m =
    let left : 32 - i ≡ suc (31 - i) = omega arith in
    let left' : 32 - suc i ≡ 31 - i = omega arith in
    let next : i + 1 ≡ suc i = omega arith in
    rw (left, left', update_self buf i c, ne→eqb c 0 n, next)
      (ap (λ t. c ∷ t)
        (c_string-same (update buf i c) buf (suc i) (31 - i)
          (λ j l. update_ne buf i j c (omega arith))))

-- The text that was written in front of `before`, which stands for `value` in front of that.
record Writes (base value : ℕ) (before : List ℕ) (r : Option (ℕ × (ℕ → ℕ))) : Type 0 where
  pub start : ℕ
  pub buf : ℕ → ℕ
  result : r ≡ some (start, buf)
  counted : length (text buf start) + start ≡ 31
  read : value_of base (text buf start) 0 ≡ value_of base before value

module _ (base : ℕ) (h : (base ≡ 10) ⊎ (base ≡ 16)) where
  smaller : (value i : ℕ) → value < 10 ^ suc i → value / base < 10 ^ i
  smaller value i l = elim h [
    | inl e ↦ rw e (omega (arith, pow-suc 10 i))
    | inr e ↦ rw e (omega (arith, pow-suc 10 i))
  ]

  digit_below : (value : ℕ) → value % base < 16
  digit_below value = elim h [ inl e ↦ rw e (omega arith) | inr e ↦ rw e (omega arith) ]

  digits_ne : (d : ℕ) → d < 16 → digits d ≢ 0
  digits_ne d l = ground arith

  read-digit :
      (rest : List ℕ) (value : ℕ)
      → value_of base (digits (value % base) ∷ rest) (value / base) ≡ value_of base rest value
  unfolding value_of
  read-digit rest value =
      ap (λ v. value_of base rest v)
        (ap (λ x. value / base * base + x) (digit_of-digits (value % base) (digit_below value))
          ∙ div-add-mod' value base)

  write_digits-Writes :
      (start value : ℕ) (buf : ℕ → ℕ)
      → start ≤ 31
      → value < 10 ^ start
      → length (text buf start) + start ≡ 31
      → Writes base value (text buf start) (write_digits value base start buf (suc start))
  unfolding write_digits
  write_digits-Writes zero value buf m l c =
      let e : value ≡ 0 = omega arith in
      rw e (record { start = 0; buf = buf; result = refl; counted = c; read = refl })
  write_digits-Writes (suc i) value buf m l c = elim (ℕ_discrete value 0) [
    | yes e ↦ rw e (record { start = suc i; buf = buf; result = refl; counted = c; read = refl })
    | no n ↦
        let d : ℕ = value % base in
        let written = update buf i (digits d) in
        let front = text-cons buf i (digits d) (digits_ne d (digit_below value)) (omega arith) in
        let counted' : length (text written i) + i ≡ 31 = rw front (omega arith) in
        let w =
          write_digits-Writes i (value / base) written (omega arith) (smaller value i l) counted' in
        let before : suc i - 1 ≡ i = omega arith in
        rw (ne→eqb value 0 n, ne→eqb (suc i) 0 (omega arith), before)
          (record {
            start = w.start;
            buf = w.buf;
            result = w.result;
            counted = w.counted;
            read =
                w.read
                ∙ ap (λ t. value_of base t (value / base)) front
                ∙ read-digit (text buf (suc i)) value;
          })
  ]

no_text : (garbage : ℕ → ℕ) → text (update garbage 31 0) 31 ≡ []
unfolding c_string
no_text garbage = refl

read_none : (base value : ℕ) → value_of base [] value ≡ value
unfolding value_of
read_none base value = refl

zero_read : (base : ℕ) → value_of base (48 ∷ []) 0 ≡ 0
unfolding value_of
zero_read base = omega arith

zero_text :
    (garbage : ℕ → ℕ) (base width pad : ℕ)
    → write_uint_base garbage 0 base width pad ≡ some (padding pad (width - 1) ++ 48 ∷ [])
unfolding write_uint_base c_string
zero_text garbage base width pad = refl

write_uint_base-digits :
    (garbage : ℕ → ℕ) (value base width pad start : ℕ) (buf : ℕ → ℕ)
    → value ≢ 0
    → write_digits value base 31 (update garbage 31 0) 32 ≡ some (start, buf)
    → write_uint_base garbage value base width pad
      ≡ some (padding pad (width - (31 - start)) ++ text buf start)
unfolding write_uint_base
write_uint_base-digits garbage value base width pad start buf n r =
    let buf' = update garbage 31 0 in
    let written : (if value == 0
          then some (30, update buf' 30 48)
          else write_digits value base 31 buf' 32)
        ≡ some (start, buf) =
      rw (ne→eqb value 0 n) r in
    ap
      (λ o. elim o as (λ _. Option (List ℕ)) [
        | none ↦ none
        | some (i, b) ↦ some (padding pad (width - (31 - i)) ++ c_string b i (32 - i))
      ])
      written

-- In base 10 or 16 the buffer is large enough for every 32-bit number: `write_uint_base` prints digits
-- that read back as the number, in that base, behind as many pad characters as the digits fall short of
-- the width.
pub write_uint_base_lem :
    (garbage : ℕ → ℕ) (value base width pad : ℕ)
    → (base ≡ 10) ⊎ (base ≡ 16)
    → value < 2 ^ 32
    → (text : List ℕ) × (write_uint_base garbage value base width pad
        ≡ some (padding pad (width - length text) ++ text))
      × (value_of base text 0 ≡ value)
unfolding write_uint_base
write_uint_base_lem garbage value base width pad h l = elim (ℕ_discrete value 0) [
  | yes e ↦ (48 ∷ [], rw e (zero_text garbage base width pad), zero_read base ∙ sym e)
  | no n ↦
      let empty : length (text (update garbage 31 0) 31) + 31 ≡ 31 =
        ap (λ t. length t + 31) (no_text garbage) in
      let w : Writes base value (text (update garbage 31 0) 31)
          (write_digits value base 31 (update garbage 31 0) 32) =
        write_digits-Writes base h 31 value (update garbage 31 0) (omega arith) (omega arith)
          empty in
      let left : 31 - w.start ≡ length (text w.buf w.start) = omega (arith, w.counted) in
      (
        text w.buf w.start,
        write_uint_base-digits garbage value base width pad w.start w.buf n w.result
            ∙ ap (λ k. some (padding pad (width - k) ++ text w.buf w.start)) left,
        w.read ∙ ap (λ t. value_of base t value) (no_text garbage) ∙ read_none base value,
      )
]
