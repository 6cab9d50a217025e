-- ===== src/Keyboard/Ring.antt =====
-- The ring of characters of kernel/drivers/keyboard.c as a queue.
use orion_final.Base.{
  ℕ, zero, suc, ◌+◌, ◌-◌, ◌%◌, ◌<◌, ◌≡◌, refl, ap, ◌∙◌, arith, ◌⊎◌, inl, inr, ◌==◌, List, [], ◌∷◌,
  ◌++◌, true, false, Bool-cases, eqb→eq, eqb→ne,
}
use orion_final.Base.Sequence.{bytes, bytes_ext, bytes-append}
use orion_final.Base.Update.{update, update_self, update_ne}
use orion_final.Keyboard.{Keyboard, buffer_size, buf_push, getchar, has_char, set_waiter, translate}

pub record Fits (kb : Keyboard) : Type 0 where
  pub read_in : kb.kb_read < buffer_size
  pub write_in : kb.kb_write < buffer_size

-- how many characters wait
abbrev pub count : Keyboard → ℕ
count kb = (kb.kb_write + buffer_size - kb.kb_read) % buffer_size

abbrev pub at : Keyboard → ℕ → ℕ
at kb i = kb.kb_buf ((kb.kb_read + i) % buffer_size)

-- the characters that wait, the next one to read first
pub contents : Keyboard → List ℕ
contents kb = bytes (at kb) 0 (count kb)

-- A character that is pushed stands last; but if 63 are waiting, it is dropped.
pub buf_push_lem :
    (kb : Keyboard) (c : ℕ)
    → Fits kb
    → Fits (buf_push kb c)
      × (((count kb ≡ 63) × (buf_push kb c ≡ kb))
          ⊎ ((count kb < 63) × (contents (buf_push kb c) ≡ contents kb ++ c ∷ [])))
unfolding buf_push contents bytes
buf_push_lem kb c f = elim (Bool-cases ((kb.kb_write + 1) % buffer_size == kb.kb_read)) [
  | inl e ↦
      let full = eqb→eq _ _ e in rw e (f, inl (omega (arith, full, f.read_in, f.write_in), refl))
  | inr e ↦
      let room = eqb→ne _ _ e in
      let more = record kb {
        kb_buf = update kb.kb_buf kb.kb_write c;
        kb_write = (kb.kb_write + 1) % buffer_size;
      } in
      let n : count more ≡ count kb + 1 = omega (arith, room, f.read_in, f.write_in) in
      rw e (
        record { read_in = f.read_in; write_in = omega arith },
        inr (
          omega (arith, room, f.read_in, f.write_in),
          ap (bytes (at more) 0) n
              ∙ bytes-append (at more) 0 (count kb) 1
              ∙ ap (λ xs. xs ++ at more (0 + count kb) ∷ [])
                  (bytes_ext (at more) (at kb) 0 0 (count kb) (λ m l.
                    update_ne kb.kb_buf kb.kb_write _ c
                      (omega (arith, room, f.read_in, f.write_in))))
              ∙ ap (λ x. bytes (at kb) 0 (count kb) ++ x ∷ [])
                  (ap more.kb_buf (omega (arith, f.read_in, f.write_in))
                    ∙ update_self kb.kb_buf kb.kb_write c),
        ),
      )
]

-- `keyboard_getchar` takes the first character that waits; it returns 0 and changes nothing exactly
-- when none does.
pub getchar_lem :
    (kb : Keyboard)
    → Fits kb
    → let (c, t) = getchar kb in
      Fits t
      × (((contents kb ≡ []) × (has_char kb ≡ false) × (c ≡ 0) × (t ≡ kb))
          ⊎ ((has_char kb ≡ true) × (contents kb ≡ c ∷ contents t)))
unfolding getchar has_char contents bytes
getchar_lem kb f = elim (Bool-cases (kb.kb_read == kb.kb_write)) [
  | inl e ↦
      let same = eqb→eq _ _ e in
      let none_waits : count kb ≡ 0 = omega (arith, same, f.read_in) in
      rw e (f, inl (ap (bytes (at kb) 0) none_waits, refl, refl, refl))
  | inr e ↦
      let differ = eqb→ne _ _ e in
      let less = record kb { kb_read = (kb.kb_read + 1) % buffer_size } in
      let n : count kb ≡ suc (count less) = omega (arith, differ, f.read_in, f.write_in) in
      let first : at kb 0 ≡ kb.kb_buf kb.kb_read = ap kb.kb_buf (omega (arith, f.read_in)) in
      rw e (
        record { read_in = omega arith; write_in = f.write_in },
        inr (
          refl,
          ap (bytes (at kb) 0) n
              ∙ ap (λ x. x ∷ bytes (at kb) 1 (count less)) first
              ∙ ap (λ xs. kb.kb_buf kb.kb_read ∷ xs)
                  (bytes_ext (at kb) (at less) 1 0 (count less)
                    (λ m l. ap kb.kb_buf (omega arith))),
        ),
      )
]

-- Noting a process as waiting leaves the ring as it is.
pub set_waiter_lem :
    (kb : Keyboard) (pid : ℕ)
    → Fits kb
    → Fits (set_waiter kb pid)
      × (contents (set_waiter kb pid) ≡ contents kb)
      × ((set_waiter kb pid).waiter_pid ≡ pid)
unfolding set_waiter contents
set_waiter_lem kb pid f = (record { read_in = f.read_in; write_in = f.write_in }, refl, refl)

pub contents_same :
    (s t : Keyboard)
    → Fits t
    → s.kb_buf ≡ t.kb_buf
    → s.kb_read ≡ t.kb_read
    → s.kb_write ≡ t.kb_write
    → Fits s × (contents s ≡ contents t)
unfolding contents
contents_same s t f b r w =
    (record { read_in = rw r f.read_in; write_in = rw w f.write_in }, rw (b, r, w) refl)

pub translate-set_waiter :
    (kb : Keyboard) (pid key : ℕ) → translate (set_waiter kb pid) key ≡ translate kb key
unfolding translate set_waiter
translate-set_waiter kb pid key = refl

no_bytes : (f : ℕ → ℕ) (i n : ℕ) → bytes f i n ≡ [] → n ≡ 0
unfolding bytes
no_bytes f i zero e = refl
no_bytes f i (suc n) e = cc

-- A character that is pushed into an empty ring is the only one there.
pub buf_push-empty :
    (kb : Keyboard) (c : ℕ)
    → Fits kb
    → contents kb ≡ []
    → Fits (buf_push kb c) × (contents (buf_push kb c) ≡ c ∷ [])
unfolding contents
buf_push-empty kb c f e =
    let empty = no_bytes (at kb) 0 (count kb) e in
    let p = buf_push_lem kb c f in
    elim p.1 [
      | inl (full, s) ↦ absurd (omega (arith, full, empty))
      | inr (room, q) ↦ (p.0, q ∙ ap (λ xs. xs ++ c ∷ []) e)
    ]
