-- ===== src/Pipe/Transfer.antt =====
-- Whole calls of `pipe_read_op` and `pipe_write_op` in kernel/fs/pipe.c.
use orion_final.Base.{
  ℕ, zero, suc, ◌+◌, ◌≤◌, ◌<◌, ◌≡◌, ◌≢◌, refl, sym, ◌∙◌, arith, true, false, ◌==◌, ltb, Bool-cases,
  eqb→eq, inl, inr, ltb→lt, ltb→ge, ◌⊎◌,
}
use mathlib.Core.Path.{subst}
use orion_final.Kernel.{Kernel, blocked, state_of}
use orion_final.Proc.Inv.{Inv}
use orion_final.Pipe.{
  Pipe, Call, Round, Outcome, ends, goes_on, returned, suspended, broken, out_of_fuel, bufsz,
  read_wait, read_round, read_loop, write_wait, write_round, write_loop, pipe_read_op, read_resume,
  write_resume,
}
use orion_final.Pipe.Ring.{Fits}
use orion_final.Pipe.Flow.{Reads, Writes, Reads-refl, Reads-trans, Writes-refl, Writes-trans}
use orion_final.Pipe.Peer.{Runs, Waits, pipe_block-Waits}
use orion_final.Pipe.Rounds.{
  Ready, ReadRound, WriteRound, read_wait-ReadRound, write_wait-WriteRound, SamePipe-contents,
}

module _ {R : Type 0} where
  -- A call waits: its process is blocked.
  pub record Sleeps (t : Call R) (self len : ℕ) : Type 0 where
    pub unfinished : t.done < len
    pub sound : Inv t.kernel
    pub is_blocked : state_of t.kernel self ≡ blocked

  -- How a read from state `s` may end.
  abbrev pub ReadOutcome : Call R → ℕ → ℕ → Outcome R → Type 0
  ReadOutcome s self len (returned t) =
      Reads s t × Ready t self × ((t.done ≡ len) ⊎ ((t.pipe.count ≡ 0) × (t.pipe.writers ≡ 0)))
  ReadOutcome s self len (suspended t) =
      Reads s t × Sleeps t self len × (t.pipe.count ≡ 0) × (t.pipe.writers ≢ 0)
  ReadOutcome s self len (broken t) = ⊥
  ReadOutcome s self len out_of_fuel = ⊥

  -- How a write from state `s` may end.
  abbrev pub WriteOutcome : Call R → ℕ → ℕ → Outcome R → Type 0
  WriteOutcome s self len (returned t) = Writes s t × Ready t self × (t.done ≡ len)
  WriteOutcome s self len (suspended t) =
      Writes s t × Sleeps t self len × (t.pipe.count ≡ bufsz) × (t.pipe.readers ≢ 0)
  WriteOutcome s self len (broken t) = Writes s t × Ready t self × (t.pipe.readers ≡ 0)
  WriteOutcome s self len out_of_fuel = ⊥

  sleep : (s t : Call R) (self len : ℕ) → s.done < len → Waits s t self → Sleeps t self len
  sleep s t self len l w = record {
    unfinished = omega (arith, w.same_done);
    sound = w.sound;
    is_blocked = w.is_blocked;
  }

  Waits-Reads : {s t u : Call R} {self : ℕ} → Reads s t → Waits t u self → Reads s u
  Waits-Reads {s} {t} {u} a w = record {
    forward = omega (arith, a.forward, w.same_done);
    flow = rw (w.same_done, w.same_user, SamePipe-contents w.same_pipe) a.flow;
    kept = rw w.same_user a.kept;
  }

  Waits-Writes : {s t u : Call R} {self : ℕ} → Writes s t → Waits t u self → Writes s u
  Waits-Writes {s} {t} {u} a w = record {
    forward = omega (arith, a.forward, w.same_done);
    flow = rw (w.same_done, SamePipe-contents w.same_pipe) a.flow;
    same_user = w.same_user ∙ a.same_user;
  }

  -- After the part of a round that follows the outer test.
  after-ReadRound :
      (fuel : ℕ) (s0 s : Call R) (self len : ℕ) (r : Round R)
      → Reads s0 s
      → Ready s self
      → s.done < len
      → ReadRound s self len r
      → ((t : Call R)
          → Reads s0 t
          → Ready t self
          → s.done < t.done
          → t.done ≤ len
          → ReadOutcome s0 self len (read_loop fuel (goes_on t) len))
      → ReadOutcome s0 self len (read_loop fuel r len)
  unfolding read_loop
  after-ReadRound fuel s0 s self len r a v l (inl (c, w, e)) next = rw e (a, v, inr (c, w))
  after-ReadRound fuel s0 s self len r a v l (inr (inl (c, w, e))) next =
      let b = pipe_block-Waits s false self v.runs in
      rw e (
        Waits-Reads a b,
        sleep s _ self len l b,
        b.same_pipe.count ∙ c,
        λ z. w (sym b.same_pipe.writers ∙ z),
      )
  after-ReadRound fuel s0 s self len r a v l (inr (inr (t, e, step, adv))) next =
      rw e (next t (Reads-trans a step) adv.ready adv.more adv.within)

  -- After the part of a round that follows the outer test.
  after-WriteRound :
      (fuel : ℕ) (s0 s : Call R) (self len : ℕ) (r : Round R)
      → Writes s0 s
      → Ready s self
      → s.done < len
      → WriteRound s self len r
      → ((t : Call R)
          → Writes s0 t
          → Ready t self
          → s.done < t.done
          → t.done ≤ len
          → WriteOutcome s0 self len (write_loop fuel (goes_on t) len))
      → WriteOutcome s0 self len (write_loop fuel r len)
  unfolding write_loop
  after-WriteRound fuel s0 s self len r a v l (inl (c, w, e)) next = rw e (a, v, w)
  after-WriteRound fuel s0 s self len r a v l (inr (inl (c, w, e))) next =
      let b = pipe_block-Waits s true self v.runs in
      rw e (
        Waits-Writes a b,
        sleep s _ self len l b,
        b.same_pipe.count ∙ c,
        λ z. w (sym b.same_pipe.readers ∙ z),
      )
  after-WriteRound fuel s0 s self len r a v l (inr (inr (t, e, step, adv))) next =
      rw e (next t (Writes-trans a step) adv.ready adv.more adv.within)

  -- With enough fuel, from the start of a round.
  read_loop-outcome :
      (fuel : ℕ) (s0 s : Call R) (self len : ℕ)
      → Reads s0 s
      → Ready s self
      → s.done ≤ len
      → len < fuel + s.done
      → ReadOutcome s0 self len (read_loop fuel (goes_on s) len)
  unfolding read_loop read_round
  read_loop-outcome zero s0 s self len a v l f = absurd (omega arith)
  read_loop-outcome (suc fuel) s0 s self len a v l f = elim (Bool-cases (ltb s.done len)) [
    | inr e ↦
        let same : read_round s len ≡ ends (returned s) = rw e refl in
        subst (λ r. ReadOutcome s0 self len (read_loop fuel r len)) (sym same)
          (a, v, inl (omega (arith, ltb→ge _ _ e)))
    | inl e ↦
        let l' = ltb→lt _ _ e in
        let same : read_round s len ≡ read_wait s len = rw e refl in
        subst (λ r. ReadOutcome s0 self len (read_loop fuel r len)) (sym same)
          (after-ReadRound fuel s0 s self len (read_wait s len) a v l'
            (read_wait-ReadRound s self len v l')
            (λ t b w more within. read_loop-outcome fuel s0 t self len b w within (omega arith)))
  ]

  write_loop-outcome :
      (fuel : ℕ) (s0 s : Call R) (self len : ℕ)
      → Writes s0 s
      → Ready s self
      → s.done ≤ len
      → len < fuel + s.done
      → WriteOutcome s0 self len (write_loop fuel (goes_on s) len)
  unfolding write_loop write_round
  write_loop-outcome zero s0 s self len a v l f = absurd (omega arith)
  write_loop-outcome (suc fuel) s0 s self len a v l f = elim (Bool-cases (ltb s.done len)) [
    | inr e ↦
        let same : write_round s len ≡ ends (returned s) = rw e refl in
        subst (λ r. WriteOutcome s0 self len (write_loop fuel r len)) (sym same)
          (a, v, omega (arith, ltb→ge _ _ e))
    | inl e ↦ elim (Bool-cases (s.pipe.readers == 0)) [
      | inl n ↦
          let same : write_round s len ≡ ends (broken s) = rw e (rw n refl) in
          subst (λ r. WriteOutcome s0 self len (write_loop fuel r len)) (sym same)
            (a, v, eqb→eq _ _ n)
      | inr n ↦
          let l' = ltb→lt _ _ e in
          let same : write_round s len ≡ write_wait s len = rw e (rw n refl) in
          subst (λ r. WriteOutcome s0 self len (write_loop fuel r len)) (sym same)
            (after-WriteRound fuel s0 s self len (write_wait s len) a v l'
              (write_wait-WriteRound s self len v l')
              (λ t b w more within. write_loop-outcome fuel s0 t self len b w within (omega arith)))
    ]
  ]

  -- A call before its first byte.
  abbrev pub start : Kernel R → Pipe → (ℕ → ℕ) → Call R
  start k p user = record { kernel = k; pipe = p; user = user; done = 0 }

  -- `pipe_read_op` moves bytes in order off the front of the pipe into the caller's buffer, from its
  -- start on, and no byte is lost. It returns when it has `len` bytes, or when the pipe is empty and
  -- has no writers; only on an empty pipe with writers does the process block. The invariants are
  -- kept.
  pub pipe_read_op_lem :
      (k : Kernel R) (p : Pipe) (dst : ℕ → ℕ) (self len : ℕ)
      → Runs k self
      → Fits p
      → ReadOutcome (start k p dst) self len (pipe_read_op k p dst len)
  unfolding pipe_read_op
  pipe_read_op_lem k p dst self len v f =
      let s = start k p dst in
      read_loop-outcome (len + 1) s s self len (Reads-refl s) (record { runs = v; fits = f })
        (omega arith) (omega arith)

  -- A call that waited goes on where it stopped.
  pub read_resume-outcome :
      (s : Call R) (self len : ℕ)
      → Ready s self
      → s.done < len
      → ReadOutcome s self len (read_resume s len)
  unfolding read_resume
  read_resume-outcome s self len v l =
      after-ReadRound (len + 1) s s self len (read_wait s len) (Reads-refl s) v l
        (read_wait-ReadRound s self len v l)
        (λ t b w more within. read_loop-outcome (len + 1) s t self len b w within (omega arith))

  pub write_resume-outcome :
      (s : Call R) (self len : ℕ)
      → Ready s self
      → s.done < len
      → WriteOutcome s self len (write_resume s len)
  unfolding write_resume
  write_resume-outcome s self len v l =
      after-WriteRound (len + 1) s s self len (write_wait s len) (Writes-refl s) v l
        (write_wait-WriteRound s self len v l)
        (λ t b w more within. write_loop-outcome (len + 1) s t self len b w within (omega arith))
