-- ===== src/Pipe/Flow.antt =====
-- A batch of a read or a write of kernel/fs/pipe.c as a step on the bytes that the pipe holds.
use orion_final.Base.{ℕ, ◌+◌, ◌-◌, ◌%◌, ◌≤◌, ◌<◌, ◌≡◌, refl, sym, ap, ◌∙◌, arith, ◌++◌}
use mathlib.Core.List.{append_assoc, append-nil}
use orion_final.Pipe.{Pipe, Call, bufsz}
use orion_final.Base.Sequence.{bytes, bytes_ext, bytes-append, bytes-split, zero_plus}
use orion_final.Pipe.Ring.{at, contents}

minus_self : (a : ℕ) → a - a ≡ 0
minus_self a = omega arith

pub contents-read :
    (p : Pipe) (n : ℕ)
    → n ≤ p.count
    → contents p
      ≡ bytes (at p) 0 n ++ contents (record p { head = (p.head + n) % bufsz; count = p.count - n })
unfolding contents at
contents-read p n l =
    let split : p.count ≡ n + (p.count - n) = omega arith in
    let moved = record p { head = (p.head + n) % bufsz; count = p.count - n } in
    ap (bytes (at p) 0) split
    ∙ bytes-append (at p) 0 n (p.count - n)
    ∙ ap (λ xs. bytes (at p) 0 n ++ xs)
        (bytes_ext (at p) (at moved) (0 + n) 0 (p.count - n) (λ m o. ap p.buf (omega arith)))

pub contents-write :
    (p : Pipe) (buf user : ℕ → ℕ) (done n : ℕ)
    → ((i : ℕ) → i < p.count → buf ((p.head + i) % bufsz) ≡ at p i)
    → ((i : ℕ) → i < n → buf ((p.head + (p.count + i)) % bufsz) ≡ user (done + i))
    → contents (record p { buf = buf; count = p.count + n }) ≡ contents p ++ bytes user done n
unfolding contents at
contents-write p buf user done n old new =
    let after = record p { buf = buf; count = p.count + n } in
    bytes-append (at after) 0 p.count n
    ∙ ap (λ xs. xs ++ bytes (at after) (0 + p.count) n)
        (bytes_ext (at after) (at p) 0 0 p.count (λ m l.
          ap (λ i. buf ((p.head + i) % bufsz)) (zero_plus m)
          ∙ old m l
          ∙ ap (at p) (sym (zero_plus m))))
    ∙ ap (λ xs. bytes (at p) 0 p.count ++ xs)
        (bytes_ext (at after) user (0 + p.count) done n (λ m l.
          ap (λ i. buf ((p.head + i) % bufsz)) (ap (λ c. c + m) (zero_plus p.count)) ∙ new m l))

module _ {R : Type 0} where
  -- From `s` to `t` a read took bytes off the front of the pipe, into the caller's buffer.
  pub record Reads (s t : Call R) : Type 0 where
    pub forward : s.done ≤ t.done
    pub flow : contents s.pipe ≡ bytes t.user s.done (t.done - s.done) ++ contents t.pipe
    pub kept : (j : ℕ) → j < s.done → t.user j ≡ s.user j

  -- From `s` to `t` a write put bytes of the caller's buffer at the end of the pipe.
  pub record Writes (s t : Call R) : Type 0 where
    pub forward : s.done ≤ t.done
    pub flow : contents t.pipe ≡ contents s.pipe ++ bytes s.user s.done (t.done - s.done)
    pub same_user : t.user ≡ s.user

  pub Reads-refl : (s : Call R) → Reads s s
  unfolding bytes
  Reads-refl s = record {
    forward = omega arith;
    flow = rw (minus_self s.done) refl;
    kept = λ j l. refl;
  }

  pub Reads-trans : {s t u : Call R} → Reads s t → Reads t u → Reads s u
  Reads-trans {s} {t} {u} a b =
      let first : bytes t.user s.done (t.done - s.done) ≡ bytes u.user s.done (t.done - s.done) =
        bytes_ext t.user u.user s.done s.done (t.done - s.done)
          (λ m l. sym (b.kept (s.done + m) (omega (arith, a.forward)))) in
      record {
        forward = omega (arith, a.forward, b.forward);
        flow =
            a.flow
            ∙ ap (λ xs. bytes t.user s.done (t.done - s.done) ++ xs) b.flow
            ∙ sym (
                append_assoc (bytes t.user s.done (t.done - s.done))
                  (bytes u.user t.done (u.done - t.done)) (contents u.pipe))
            ∙ ap (λ xs. xs ++ contents u.pipe)
                (ap (λ xs. xs ++ bytes u.user t.done (u.done - t.done)) first
                  ∙ sym (bytes-split u.user s.done t.done u.done a.forward b.forward));
        kept = λ j l. b.kept j (omega (arith, a.forward)) ∙ a.kept j l;
      }

  pub Writes-refl : (s : Call R) → Writes s s
  unfolding bytes
  Writes-refl s = record {
    forward = omega arith;
    flow = rw (minus_self s.done) (sym (append-nil (contents s.pipe)));
    same_user = refl;
  }

  pub Writes-trans : {s t u : Call R} → Writes s t → Writes t u → Writes s u
  Writes-trans {s} {t} {u} a b = record {
    forward = omega (arith, a.forward, b.forward);
    flow =
        b.flow
        ∙ ap (λ xs. xs ++ bytes t.user t.done (u.done - t.done)) a.flow
        ∙ append_assoc (contents s.pipe) (bytes s.user s.done (t.done - s.done))
            (bytes t.user t.done (u.done - t.done))
        ∙ ap (λ xs. contents s.pipe ++ xs)
            (ap (λ f. bytes s.user s.done (t.done - s.done) ++ bytes f t.done (u.done - t.done))
                a.same_user
              ∙ sym (bytes-split s.user s.done t.done u.done a.forward b.forward));
    same_user = b.same_user ∙ a.same_user;
  }
