-- ===== src/Pipe/Ring.antt =====
-- The ring of bytes of kernel/fs/pipe.c, read as a sequence, and the two copy loops.
use orion_final.Base.{ℕ, zero, suc, ◌+◌, ◌%◌, ◌≤◌, ◌<◌, ◌≡◌, ◌≢◌, refl, ap, ◌∙◌, arith, List}
use orion_final.Base.Update.{update, update_self, update_ne}
use orion_final.Base.Sequence.{bytes, plus_zero, plus_suc}
use orion_final.Pipe.{Pipe, Call, bufsz, read_bytes, write_bytes}

wrap_zero : (h : ℕ) → h < bufsz → (h + 0) % bufsz ≡ h
wrap_zero h l = omega arith

wrap_suc : (h n : ℕ) → (h + suc n) % bufsz ≡ ((h + 1) % bufsz + n) % bufsz
wrap_suc h n = omega arith

-- the byte at a position of the ring, counted from its head
unfoldable pub at : Pipe → ℕ → ℕ
at p i = p.buf ((p.head + i) % bufsz)

at_zero : (p : Pipe) → p.head < bufsz → at p 0 ≡ p.buf p.head
unfolding at
at_zero p h = ap p.buf (wrap_zero p.head h)

at_suc : (p : Pipe) (i : ℕ) → at p (suc i) ≡ p.buf (((p.head + 1) % bufsz + i) % bufsz)
unfolding at
at_suc p i = ap p.buf (wrap_suc p.head i)

-- What the pipe holds, the next byte to read first.
unfoldable pub contents : Pipe → List ℕ
unfolding bytes at
contents p = bytes (at p) 0 p.count

pub record Fits (p : Pipe) : Type 0 where
  pub head_in : p.head < bufsz
  pub count_in : p.count ≤ bufsz

module _ {R : Type 0} where
  -- `n` bytes go from the ring to the caller.
  pub record Copied (s : Call R) (n : ℕ) (t : Call R) : Type 0 where
    pub shape : t ≡ record s {
      user = t.user;
      done = s.done + n;
      pipe = record s.pipe { head = (s.pipe.head + n) % bufsz };
    }
    pub copied : (i : ℕ) → i < n → t.user (s.done + i) ≡ at s.pipe i
    pub kept : (j : ℕ) → j < s.done → t.user j ≡ s.user j

  copy_one : Call R → Call R
  copy_one s = record s {
    user = update s.user s.done (s.pipe.buf s.pipe.head);
    done = s.done + 1;
    pipe = record s.pipe { head = (s.pipe.head + 1) % bufsz };
  }

  Copied-suc :
      (s : Call R) (n : ℕ) (t : Call R)
      → s.pipe.head < bufsz
      → Copied (copy_one s) n t
      → Copied s (suc n) t
  unfolding at copy_one
  Copied-suc s n t h rest = record {
    shape = rw (plus_suc s.done n, wrap_suc s.pipe.head n) rest.shape;
    copied = copied;
    kept = λ j l. ground (arith, rest.kept j);
  }
    where
      copied : (i : ℕ) → i < suc n → t.user (s.done + i) ≡ at s.pipe i
      copied zero l =
          rw (plus_zero s.done, at_zero s.pipe h)
            (rest.kept s.done (omega arith) ∙ update_self s.user s.done (s.pipe.buf s.pipe.head))
      copied (suc i) l = rw (plus_suc s.done i, at_suc s.pipe i) (rest.copied i (omega arith))

  pub read_bytes-Copied : (s : Call R) (n : ℕ) → s.pipe.head < bufsz → Copied s n (read_bytes s n)
  unfolding read_bytes at copy_one
  read_bytes-Copied s zero h = record {
    shape = rw (plus_zero s.done, wrap_zero s.pipe.head h) refl;
    copied = λ i l. absurd (omega arith);
    kept = λ j l. refl;
  }
  read_bytes-Copied s (suc n) h =
      Copied-suc s n _ h (read_bytes-Copied (copy_one s) n (omega arith))

  -- `n` bytes go from the caller to the ring, from `tail` on.
  pub record Stored (s : Call R) (tail n : ℕ) (t : Call R) : Type 0 where
    pub shape : t ≡ record s { done = s.done + n; pipe = record s.pipe { buf = t.pipe.buf } }
    pub stored : (i : ℕ) → i < n → t.pipe.buf ((tail + i) % bufsz) ≡ s.user (s.done + i)
    pub others : (j : ℕ) → ((i : ℕ) → i < n → (tail + i) % bufsz ≢ j) → t.pipe.buf j ≡ s.pipe.buf j

  store_one : Call R → ℕ → Call R
  store_one s tail = record s {
    pipe = record s.pipe { buf = update s.pipe.buf tail (s.user s.done) };
    done = s.done + 1;
  }

  Stored-suc :
      (s : Call R) (tail n : ℕ) (t : Call R)
      → tail < bufsz
      → suc n ≤ bufsz
      → Stored (store_one s tail) ((tail + 1) % bufsz) n t
      → Stored s tail (suc n) t
  unfolding store_one
  Stored-suc s tail n t h l rest = record {
    shape = rw (plus_suc s.done n) rest.shape;
    stored = stored;
    others = others;
  }
    where
      stored : (i : ℕ) → i < suc n → t.pipe.buf ((tail + i) % bufsz) ≡ s.user (s.done + i)
      stored zero m =
          rw (plus_zero s.done, wrap_zero tail h)
            (rest.others tail (λ i o. omega arith) ∙ update_self s.pipe.buf tail (s.user s.done))
      stored (suc i) m = rw (plus_suc s.done i, wrap_suc tail i) (rest.stored i (omega arith))

      others :
          (j : ℕ) → ((i : ℕ) → i < suc n → (tail + i) % bufsz ≢ j) → t.pipe.buf j ≡ s.pipe.buf j
      others j f =
          rest.others j (λ i o. rw (← wrap_suc tail i) (f (suc i) (omega arith)))
          ∙ update_ne s.pipe.buf tail j (s.user s.done)
              (rw (← wrap_zero tail h) (f 0 (omega arith)))

  pub write_bytes-Stored :
      (s : Call R) (tail n : ℕ) → tail < bufsz → n ≤ bufsz → Stored s tail n (write_bytes s tail n)
  unfolding write_bytes store_one
  write_bytes-Stored s tail zero h l = record {
    shape = rw (plus_zero s.done) refl;
    stored = λ i l. absurd (omega arith);
    others = λ j f. refl;
  }
  write_bytes-Stored s tail (suc n) h l =
      Stored-suc s tail n _ h l
        (write_bytes-Stored (store_one s tail) ((tail + 1) % bufsz) n (omega arith) (omega arith))
