-- ===== src/Devfs/Reading.antt =====
-- `kbd_read` of kernel/fs/devfs.c and the characters that wait in the keyboard's ring.
use orion_final.Base.{
  ℕ, zero, suc, ◌+◌, ◌-◌, ◌≤◌, ◌<◌, ◌≡◌, ◌≢◌, refl, ap, sym, ◌∙◌, arith, ◌⊎◌, inl, inr, List, [],
  ◌∷◌, ◌++◌, ◌%◌, ◌^◌, true, false, Option, none, some,
}
use orion_final.Base.Sequence.{bytes}
use orion_final.Base.Update.{update, update_self, update_ne}
use orion_final.Kernel.{Kernel, is_unused, max_procs, state_of, ready, blocked}
use orion_final.Proc.Inv.{Inv}
use orion_final.Proc.Life.{leave-Inv}
use orion_final.Proc.Wait.{state_of-leave}
use orion_final.Keyboard.{
  Keyboard, getchar, has_char, set_waiter, translate, buf_push, keyboard_handler,
}
use orion_final.Keyboard.Ring.{
  Fits, contents, getchar_lem, buf_push-empty, set_waiter_lem, contents_same, translate-set_waiter,
}
use orion_final.Keyboard.Handler.{keyboard_handler_press}
use orion_final.Devfs.{KbdRead, gives, waits, kbd_take, kbd_block, kbd_read}

-- What the second loop leaves of the keyboard `kb` and the buffer `out`, from index `n` on, with
-- `left` rounds.
pub record Took (kb : Keyboard) (out : ℕ → ℕ) (n left : ℕ) (r : Keyboard × (ℕ → ℕ) × ℕ)
    : Type 0 where
  pub fits : Fits r.0
  pub from : n ≤ r.2
  pub to : r.2 ≤ n + left
  pub taken : contents kb ≡ bytes r.1 n (r.2 - n) ++ contents r.0
  pub stops : (contents r.0 ≡ []) ⊎ (r.2 ≡ n + left)
  pub below : (j : ℕ) → j < n → r.1 j ≡ out j
  pub above : (j : ℕ) → r.2 ≤ j → r.1 j ≡ out j

no_round :
    (kb : Keyboard) (out : ℕ → ℕ) (n left : ℕ)
    → Fits kb
    → (contents kb ≡ []) ⊎ (left ≡ 0)
    → Took kb out n left (kb, out, n)
unfolding bytes
no_round kb out n left f s =
    let same : n - n ≡ 0 = omega arith in
    record {
      fits = f;
      from = omega arith;
      to = omega arith;
      taken = rw same refl;
      stops = elim s [ inl e ↦ inl e | inr e ↦ inr (omega (arith, e)) ];
      below = λ j l. refl;
      above = λ j l. refl;
    }

one_round :
    (kb t : Keyboard) (c : ℕ) (out : ℕ → ℕ) (n left : ℕ) (r : Keyboard × (ℕ → ℕ) × ℕ)
    → contents kb ≡ c ∷ contents t
    → Took t (update out n c) (n + 1) left r
    → Took kb out n (suc left) r
unfolding bytes
one_round kb t c out n left r e w =
    let m : r.2 - n ≡ suc (r.2 - (n + 1)) = omega (arith, w.from) in
    let first : r.1 n ≡ c = w.below n (omega arith) ∙ update_self out n c in
    record {
      fits = w.fits;
      from = omega (arith, w.from);
      to = omega (arith, w.to);
      taken = rw (m, first) (e ∙ ap (λ xs. c ∷ xs) w.taken);
      stops = elim w.stops [ inl s ↦ inl s | inr s ↦ inr (omega (arith, s)) ];
      below = λ j l. w.below j (omega arith) ∙ update_ne out n j c (omega arith);
      above = λ j l. w.above j l ∙ update_ne out n j c (omega (arith, w.from));
    }

kbd_take_lem :
    (kb : Keyboard) (out : ℕ → ℕ) (n left : ℕ)
    → Fits kb
    → Took kb out n left (kbd_take kb out n left)
unfolding kbd_take
kbd_take_lem kb out n zero f = no_round kb out n 0 f (inr refl)
kbd_take_lem kb out n (suc left) f = elim (getchar_lem kb f).1 [
  | inl (e, h, z, s) ↦ rw (kbd_take, h) (no_round kb out n (suc left) f (inl e))
  | inr (h, e) ↦
      let (c, t) = getchar kb in
      rw (kbd_take, h)
        (one_round kb t c out n left _ e
          (kbd_take_lem t (update out n c) (n + 1) left (getchar_lem kb f).0))
]

single :
    (f : ℕ → ℕ) (n len c : ℕ) (xs : List ℕ)
    → c ∷ [] ≡ bytes f 0 n ++ xs
    → (xs ≡ []) ⊎ (n ≡ 0 + suc len)
    → (n ≡ 1) × (f 0 ≡ c) × (xs ≡ [])
unfolding bytes
single f zero len c xs e (inl s) = absurd cc
single f zero len c xs e (inr s) = absurd (omega (arith, s))
single f (suc zero) len c xs e s = (refl, cc, cc)
single f (suc (suc n)) len c xs e s = absurd cc

has_char-contents : (kb : Keyboard) (c : ℕ) → Fits kb → contents kb ≡ c ∷ [] → has_char kb ≡ true
has_char-contents kb c f e = elim (getchar_lem kb f).1 [
  | inl (empty, h, z, s) ↦ absurd cc
  | inr (h, q) ↦ h
]

module _ {R : Type 0} where
  when_none : Kernel R → Keyboard → (ℕ → ℕ) → Option ℕ → KbdRead R
  when_none k kb out o = elim o [
    | none ↦ gives k (kb, out, 0)
    | some self ↦ waits (kbd_block k kb self).0 (kbd_block k kb self).1
  ]

  kbd_read-some :
      (k : Kernel R) (kb : Keyboard) (out : ℕ → ℕ) (len : ℕ)
      → has_char kb ≡ true
      → kbd_read k kb out len ≡ gives k (kbd_take kb out 0 len)
  unfolding kbd_read when_none
  kbd_read-some k kb out len h =
      ap
        (λ b. elim b as (λ _. KbdRead R) [
          | true ↦ gives k (kbd_take kb out 0 len)
          | false ↦ when_none k kb out k.current_proc
        ])
        h

  -- A process that waits for the keyboard keeps the invariant of the process table.
  pub kbd_block-Inv :
      (k : Kernel R) (kb : Keyboard) (self : ℕ)
      → Inv k
      → is_unused (state_of k self) ≡ false
      → Inv (kbd_block k kb self).0
  unfolding kbd_block
  kbd_block-Inv k kb self v u = leave-Inv k self (λ b. record b { state = blocked }) v u refl refl

  pub kbd_read-none :
      (k : Kernel R) (kb : Keyboard) (out : ℕ → ℕ) (self len : ℕ)
      → has_char kb ≡ false
      → k.current_proc ≡ some self
      → kbd_read k kb out len ≡ waits (kbd_block k kb self).0 (kbd_block k kb self).1
  unfolding kbd_read when_none
  kbd_read-none k kb out self len h e =
      ap
        (λ b. elim b as (λ _. KbdRead R) [
          | true ↦ gives k (kbd_take kb out 0 len)
          | false ↦ when_none k kb out k.current_proc
        ])
        h
      ∙ ap (when_none k kb out) e

  -- A read of the keyboard while characters wait does not block: it moves the characters from the
  -- front of the ring to the buffer, in their order, until it has `len` of them or none waits, and
  -- changes nothing else in the buffer. While none waits, the process that runs is BLOCKED, noted as
  -- the one to wake, and the ring is as before.
  pub kbd_read_lem :
      (k : Kernel R) (kb : Keyboard) (out : ℕ → ℕ) (self len : ℕ)
      → Fits kb
      → k.current_proc ≡ some self
      → self < max_procs
      → ((contents kb ≢ [])
          × (kbd_read k kb out len ≡ gives k (kbd_take kb out 0 len))
          × Took kb out 0 len (kbd_take kb out 0 len))
        ⊎ ((contents kb ≡ [])
            × (kbd_read k kb out len ≡ waits (kbd_block k kb self).0 (kbd_block k kb self).1)
            × (state_of (kbd_block k kb self).0 self ≡ blocked)
            × ((kbd_block k kb self).1.waiter_pid ≡ self)
            × (contents (kbd_block k kb self).1 ≡ contents kb))
  unfolding kbd_block
  kbd_read_lem k kb out self len f e l = elim (getchar_lem kb f).1 [
    | inl (none_waits, h, z, s) ↦
        let pid : self % 2 ^ 16 ≡ self = omega (arith, l) in
        let noted = set_waiter_lem kb (self % 2 ^ 16) f in
        inr (
          none_waits,
          kbd_read-none k kb out self len h e,
          state_of-leave k self self (λ b. record b { state = blocked }) ∙ ground arith,
          noted.2 ∙ pid,
          noted.1,
        )
    | inr (h, some_wait) ↦
        inl (λ empty. cc, kbd_read-some k kb out len h, kbd_take_lem kb out 0 len f)
  ]

  -- a key press while the process `self` waits for the empty keyboard
  press_wakes :
      (k : Kernel R) (kb : Keyboard) (self key : ℕ)
      → Fits kb
      → contents kb ≡ []
      → kb.waiter_pid ≡ self
      → self < max_procs
      → state_of k self ≡ blocked
      → key < 128
      → key ≢ 0x2a
      → key ≢ 0x36
      → key ≢ 0x3a
      → translate kb key ≢ 0
      → (state_of (keyboard_handler k kb key).0 self ≡ ready)
        × Fits (keyboard_handler k kb key).1
        × (contents (keyboard_handler k kb key).1 ≡ translate kb key ∷ [])
  press_wakes k kb self key f empty w l is_blocked in_map a b c shown =
      let pressed = keyboard_handler_press k kb key in_map a b c shown in
      let pushed = buf_push-empty kb (translate kb key) f empty in
      let ring =
        contents_same (keyboard_handler k kb key).1 (buf_push kb (translate kb key)) pushed.0
          pressed.0.0 pressed.0.1 pressed.0.2 in
      (rw (← w) (pressed.2 (rw w l) (rw w is_blocked)), ring.0, ring.1 ∙ pushed.1)

  read_single :
      (k : Kernel R) (kb : Keyboard) (out : ℕ → ℕ) (len c : ℕ)
      → Fits kb
      → contents kb ≡ c ∷ []
      → let r = kbd_take kb out 0 (suc len) in
        (kbd_read k kb out (suc len) ≡ gives k r) × (r.2 ≡ 1) × (r.1 0 ≡ c) × (contents r.0 ≡ [])
  read_single k kb out len c f e =
      let r = kbd_take kb out 0 (suc len) in
      let w = kbd_take_lem kb out 0 (suc len) f in
      let whole : r.2 - 0 ≡ r.2 = omega arith in
      let (one_char, is_first, rest) =
        single r.1 r.2 len c (contents r.0)
          (sym e ∙ w.taken ∙ ap (λ n. bytes r.1 0 n ++ contents r.0) whole) w.stops in
      (kbd_read-some k kb out (suc len) (has_char-contents kb c f e), one_char, is_first, rest)

  -- While no character waits, a process that reads the keyboard blocks; the press of a key that is no
  -- modifier and gives a character makes it READY, and when the process then reads again, it gets
  -- that character, the only one, as the first of its buffer.
  pub kbd_read-keyboard_handler :
      (k : Kernel R) (kb : Keyboard) (out : ℕ → ℕ) (self len key : ℕ)
      → Fits kb
      → contents kb ≡ []
      → k.current_proc ≡ some self
      → self < max_procs
      → key < 128
      → key ≢ 0x2a
      → key ≢ 0x36
      → key ≢ 0x3a
      → translate kb key ≢ 0
      → let (k', kb') = kbd_block k kb self in
        let (k'', kb'') = keyboard_handler k' kb' key in
        (kbd_read k kb out (suc len) ≡ waits k' kb')
        × (state_of k'' self ≡ ready)
        × ((next : Kernel R)
            → let r = kbd_take kb'' out 0 (suc len) in
              (kbd_read next kb'' out (suc len) ≡ gives next r)
              × (r.2 ≡ 1)
              × (r.1 0 ≡ translate kb key)
              × (contents r.0 ≡ []))
  unfolding kbd_block
  kbd_read-keyboard_handler k kb out self len key f none_waits e l in_map a b c shown =
      let pid : self % 2 ^ 16 ≡ self = omega (arith, l) in
      let noted = set_waiter_lem kb (self % 2 ^ 16) f in
      let same = translate-set_waiter kb (self % 2 ^ 16) key in
      let k' = (kbd_block k kb self).0 in
      let kb' = set_waiter kb (self % 2 ^ 16) in
      let woken =
        press_wakes k' kb' self key noted.0 (noted.1 ∙ none_waits) (noted.2 ∙ pid) l
          (state_of-leave k self self (λ b. record b { state = blocked }) ∙ ground arith) in_map a b
          c (rw same shown) in
      (
        kbd_read-none k kb out self (suc len) has_none e,
        woken.0,
        λ next.
            read_single next (keyboard_handler k' kb' key).1 out len (translate kb key) woken.1
              (woken.2 ∙ ap (λ x. x ∷ []) same),
      )
    where
      has_none : has_char kb ≡ false
      has_none = elim (getchar_lem kb f).1 [ inl (empty, h, z, s) ↦ h | inr (h, q) ↦ absurd cc ]
