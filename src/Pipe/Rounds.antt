-- ===== src/Pipe/Rounds.antt =====
-- The rounds of the loops of `pipe_read_op` and `pipe_write_op` in kernel/fs/pipe.c.
use orion_final.Base.Sequence.{bytes, bytes_ext, zero_plus}
use orion_final.Base.{
  ℕ, ◌+◌, ◌-◌, ◌%◌, ◌≤◌, ◌<◌, ◌≡◌, ◌≢◌, refl, sym, ap, ◌∙◌, arith, true, false, ◌==◌, ltb, ◌++◌,
  if◌then◌else◌, Bool-cases, eqb→eq, eqb→ne, inl, inr, ◌⊎◌,
}
use orion_final.Pipe.{
  Pipe, Call, Round, ends, goes_on, returned, suspended, broken, bufsz, read_bytes, write_bytes,
  wake_peer, read_wait, write_wait, pipe_block,
}
use orion_final.Pipe.Ring.{
  at, contents, Fits, Copied, Stored, read_bytes-Copied, write_bytes-Stored,
}
use orion_final.Pipe.Flow.{Reads, Writes, contents-read, contents-write}
use orion_final.Pipe.Peer.{Runs, SamePipe, pipe_wake_peer-SamePipe, pipe_wake_peer-Runs}

pub SamePipe-contents : {p q : Pipe} → SamePipe p q → contents q ≡ contents p
unfolding contents at
SamePipe-contents {p} {q} e = rw (e.buf, e.head, e.count) refl

SamePipe-Fits : {p q : Pipe} → SamePipe p q → Fits p → Fits q
SamePipe-Fits e f = record { head_in = rw e.head f.head_in; count_in = rw e.count f.count_in }

bytes-of : (f g : ℕ → ℕ) (i n : ℕ) → ((m : ℕ) → m < n → g (i + m) ≡ f m) → bytes f 0 n ≡ bytes g i n
bytes-of f g i n h = bytes_ext f g 0 i n (λ m l. ap f (zero_plus m) ∙ sym (h m l))

module _ {R : Type 0} where
  -- A call whose process runs, on a pipe whose indices fit.
  pub record Ready (s : Call R) (self : ℕ) : Type 0 where
    pub runs : Runs s.kernel self
    pub fits : Fits s.pipe

  -- A round that goes on has moved at least one byte.
  pub record Advances (s t : Call R) (self len : ℕ) : Type 0 where
    pub ready : Ready t self
    pub more : s.done < t.done
    pub within : t.done ≤ len
    pub same_readers : t.pipe.readers ≡ s.pipe.readers
    pub same_writers : t.pipe.writers ≡ s.pipe.writers

  read_batch :
      (s c : Call R) (self n len : ℕ)
      → Ready s self
      → Copied s n c
      → n ≤ s.pipe.count
      → 0 < n
      → s.done + n ≤ len
      → let t = wake_peer (record c { pipe = record c.pipe { count = c.pipe.count - n } }) false in
        Reads s t × Advances s t self len
  unfolding wake_peer
  read_batch s c self n len v copied l pos fit =
      let v' = record c { pipe = record c.pipe { count = c.pipe.count - n } } in
      let same = pipe_wake_peer-SamePipe v'.kernel v'.pipe false in
      let m = record s.pipe { head = (s.pipe.head + n) % bufsz; count = s.pipe.count - n } in
      let moved : v'.pipe ≡ m = ap (λ x. record x.pipe { count = x.pipe.count - n }) copied.shape in
      let done : c.done ≡ s.done + n = ap (λ x. x.done) copied.shape in
      let kernel : c.kernel ≡ s.kernel = ap (λ x. x.kernel) copied.shape in
      (
        record {
          forward = omega (arith, done);
          flow =
              contents-read s.pipe n l
              ∙ ap (λ xs. xs ++ contents m) (bytes-of (at s.pipe) c.user s.done n copied.copied)
              ∙ ap (λ k. bytes c.user s.done k ++ contents m) (omega (arith, done))
              ∙ ap (λ xs. bytes c.user s.done (c.done - s.done) ++ xs)
                  (sym (SamePipe-contents same ∙ ap contents moved));
          kept = copied.kept;
        },
        record {
          ready = record {
            runs = pipe_wake_peer-Runs v'.kernel v'.pipe false self (rw kernel v.runs);
            fits = SamePipe-Fits same (
                rw moved
                  (record { head_in = omega arith; count_in = omega (arith, v.fits.count_in) }));
          };
          more = omega (arith, done);
          within = omega (arith, done);
          same_readers = same.readers ∙ ap (λ p. p.readers) moved;
          same_writers = same.writers ∙ ap (λ p. p.writers) moved;
        },
      )

  write_batch :
      (s c : Call R) (self n len : ℕ)
      → Ready s self
      → Stored s ((s.pipe.head + s.pipe.count) % bufsz) n c
      → s.pipe.count + n ≤ bufsz
      → 0 < n
      → s.done + n ≤ len
      → let t = wake_peer (record c { pipe = record c.pipe { count = c.pipe.count + n } }) true in
        Writes s t × Advances s t self len
  unfolding wake_peer at
  write_batch s c self n len v stored l pos fit =
      let v' = record c { pipe = record c.pipe { count = c.pipe.count + n } } in
      let same = pipe_wake_peer-SamePipe v'.kernel v'.pipe true in
      let m = record s.pipe { buf = c.pipe.buf; count = s.pipe.count + n } in
      let moved : v'.pipe ≡ m = ap (λ x. record x.pipe { count = x.pipe.count + n }) stored.shape in
      let done : c.done ≡ s.done + n = ap (λ x. x.done) stored.shape in
      let kernel : c.kernel ≡ s.kernel = ap (λ x. x.kernel) stored.shape in
      (
        record {
          forward = omega (arith, done);
          flow =
              SamePipe-contents same
              ∙ ap contents moved
              ∙ contents-write s.pipe c.pipe.buf s.user s.done n
                  (λ i o. stored.others ((s.pipe.head + i) % bufsz) (λ j q. omega arith))
                  (λ i o. ap c.pipe.buf (omega arith) ∙ stored.stored i o)
              ∙ ap (λ k. contents s.pipe ++ bytes s.user s.done k) (omega (arith, done));
          same_user = ap (λ x. x.user) stored.shape;
        },
        record {
          ready = record {
            runs = pipe_wake_peer-Runs v'.kernel v'.pipe true self (rw kernel v.runs);
            fits =
                SamePipe-Fits same (rw moved (record { head_in = v.fits.head_in; count_in = l }));
          };
          more = omega (arith, done);
          within = omega (arith, done);
          same_readers = same.readers ∙ ap (λ p. p.readers) moved;
          same_writers = same.writers ∙ ap (λ p. p.writers) moved;
        },
      )

  -- What a round of `pipe_read_op` does, from the inner loop on.
  abbrev pub ReadRound : Call R → ℕ → ℕ → Round R → Type 0
  ReadRound s self len r =
      ((s.pipe.count ≡ 0) × (s.pipe.writers ≡ 0) × (r ≡ ends (returned s)))
      ⊎ (((s.pipe.count ≡ 0) × (s.pipe.writers ≢ 0) × (r ≡ ends (suspended (pipe_block s false))))
          ⊎ ((t : Call R) × (r ≡ goes_on t) × Reads s t × Advances s t self len))

  pub read_wait-ReadRound :
      (s : Call R) (self len : ℕ)
      → Ready s self
      → s.done < len
      → ReadRound s self len (read_wait s len)
  unfolding read_wait
  read_wait-ReadRound s self len v l = elim (Bool-cases (s.pipe.count == 0)) [
    | inl e ↦ elim (Bool-cases (s.pipe.writers == 0)) [
      | inl w ↦ inl (eqb→eq _ _ e, eqb→eq _ _ w, rw e (rw w refl))
      | inr w ↦ inr (inl (eqb→eq _ _ e, eqb→ne _ _ w, rw e (rw w refl)))
    ]
    | inr e ↦
        let batch = if ltb s.pipe.count (len - s.done) then s.pipe.count else len - s.done in
        let step =
          read_batch s (read_bytes s batch) self batch len v
            (read_bytes-Copied s batch v.fits.head_in) (ground arith)
            (ground (arith, eqb→ne s.pipe.count 0 e)) (ground arith) in
        inr (inr (_, rw e refl, step.0, step.1))
  ]

  -- What a round of `pipe_write_op` does, from the inner loop on.
  abbrev pub WriteRound : Call R → ℕ → ℕ → Round R → Type 0
  WriteRound s self len r =
      ((s.pipe.count ≡ bufsz) × (s.pipe.readers ≡ 0) × (r ≡ ends (broken s)))
      ⊎ (((s.pipe.count ≡ bufsz)
            × (s.pipe.readers ≢ 0)
            × (r ≡ ends (suspended (pipe_block s true))))
          ⊎ ((t : Call R) × (r ≡ goes_on t) × Writes s t × Advances s t self len))

  pub write_wait-WriteRound :
      (s : Call R) (self len : ℕ)
      → Ready s self
      → s.done < len
      → WriteRound s self len (write_wait s len)
  unfolding write_wait
  write_wait-WriteRound s self len v l = elim (Bool-cases (s.pipe.count == bufsz)) [
    | inl e ↦ elim (Bool-cases (s.pipe.readers == 0)) [
      | inl w ↦ inl (eqb→eq _ _ e, eqb→eq _ _ w, rw e (rw w refl))
      | inr w ↦ inr (inl (eqb→eq _ _ e, eqb→ne _ _ w, rw e (rw w refl)))
    ]
    | inr e ↦
        let space = bufsz - s.pipe.count in
        let batch = if ltb space (len - s.done) then space else len - s.done in
        let room : s.pipe.count ≢ bufsz = eqb→ne s.pipe.count bufsz e in
        let tail = (s.pipe.head + s.pipe.count) % bufsz in
        let step =
          write_batch s (write_bytes s tail batch) self batch len v
            (write_bytes-Stored s tail batch (omega arith) (ground (arith, v.fits.count_in)))
            (ground (arith, v.fits.count_in)) (ground (arith, room, v.fits.count_in))
            (ground arith) in
        inr (inr (_, rw e refl, step.0, step.1))
  ]
