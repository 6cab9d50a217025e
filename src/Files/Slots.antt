-- ===== src/Files/Slots.antt =====
-- The slots of a table of descriptors: `fd_install` of kernel/proc/fd.c, and `sys_dup2` of
-- kernel/syscall/syscall.c.
use mathlib.Core.Option.{some-ne-none}
use orion_final.Base.{
  ℕ, zero, suc, ◌+◌, ◌≤◌, ◌<◌, ◌^◌, ◌≡◌, ◌≢◌, refl, sym, ap, ◌∙◌, arith, ◌⊎◌, inl, inr, ◌==◌, leb,
  false, Bool-cases, eqb→eq, eqb→ne, ne→eqb, Option, none, some,
}
use orion_final.Base.Update.{update, update_self, update_ne}
use orion_final.Files.{
  Files, Backend, Table, fd_max, close_slot, fd_close, dup2, share, free_slot, fd_install,
}
use orion_final.Files.Refs.{holds, count, close_slot-count, share-count}

-- The outcomes of the search for a free slot among `n` slots from `i` on.
abbrev Finds : Table → ℕ → ℕ → Option ℕ → Type 0
Finds table i n none = (j : ℕ) → i ≤ j → j < i + n → table j ≢ none
Finds table i n (some k) =
    (i ≤ k) × (k < i + n) × (table k ≡ none) × ((j : ℕ) → i ≤ j → j < k → table j ≢ none)

free_slot-Finds : (table : Table) (i n : ℕ) → Finds table i n (free_slot table i n)
unfolding free_slot
free_slot-Finds table i zero = λ j a b. absurd (omega arith)
free_slot-Finds table i (suc n) =
    by_slot (table i) (free_slot table (i + 1) n) refl (free_slot-Finds table (i + 1) n)
  where
    taken : (f j : ℕ) → table i ≡ some f → j ≡ i → table j ≢ none
    taken f j e h z = some-ne-none f (sym e ∙ ap table (sym h) ∙ z)

    by_slot :
        (o r : Option ℕ)
        → table i ≡ o
        → Finds table (i + 1) n r
        → Finds table i (suc n) (elim o as (λ _. Option ℕ) [ none ↦ some i | some f ↦ r ])
    by_slot none r e h = (omega arith, omega arith, e, λ j a b. absurd (omega arith))
    by_slot (some f) none e h = λ j a b. elim (Bool-cases (j == i)) [
      | inl q ↦ taken f j e (eqb→eq j i q)
      | inr q ↦ h j (omega (arith, eqb→ne j i q)) (omega arith)
    ]
    by_slot (some f) (some k) e (a, b, c, d) = (
      omega arith,
      omega arith,
      c,
      λ j x y. elim (Bool-cases (j == i)) [
        | inl q ↦ taken f j e (eqb→eq j i q)
        | inr q ↦ d j (omega (arith, eqb→ne j i q)) y
      ],
    )

-- `fd_install` puts the file into the lowest free slot and touches no other; it fails, and changes
-- nothing, only if all 16 are taken.
pub fd_install_lem :
    (table : Table) (f : ℕ)
    → let (r, t) = fd_install table f in
      ((r ≡ none) × (t ≡ table) × ((j : ℕ) → j < fd_max → table j ≢ none))
      ⊎ ((k : ℕ) × (r ≡ some k)
          × (k < fd_max)
          × (table k ≡ none)
          × (t k ≡ some f)
          × ((j : ℕ) → j < k → table j ≢ none)
          × ((j : ℕ) → j ≢ k → t j ≡ table j))
unfolding fd_install
fd_install_lem table f = by_slot (free_slot table 0 fd_max) (free_slot-Finds table 0 fd_max)
  where
    by_slot :
        (o : Option ℕ)
        → Finds table 0 fd_max o
        → let r = elim o as (λ _. Option ℕ × Table) [
          | none ↦ (none, table)
          | some i ↦ (some i, update table i (some f))
        ] in
          ((r.0 ≡ none) × (r.1 ≡ table) × ((j : ℕ) → j < fd_max → table j ≢ none))
          ⊎ ((k : ℕ) × (r.0 ≡ some k)
              × (k < fd_max)
              × (table k ≡ none)
              × (r.1 k ≡ some f)
              × ((j : ℕ) → j < k → table j ≢ none)
              × ((j : ℕ) → j ≢ k → r.1 j ≡ table j))
    by_slot none h = inl (refl, refl, λ j l. h j (omega arith) (omega arith))
    by_slot (some k) (a, b, c, d) = inr (
      k,
      refl,
      omega arith,
      c,
      update_self table k (some f),
      λ j l. d j (omega arith) l,
      λ j n. update_ne table k j (some f) (λ x. n (sym x)),
    )

fd_close-in :
    {R : Type 0} (env : Backend R) (s : Files R) (table : Table) (fd : ℕ)
    → fd < fd_max
    → fd_close env s table fd ≡ close_slot env s table fd
unfolding fd_close
fd_close-in env s table fd l = let inside : leb fd_max fd ≡ false = ground arith in rw inside refl

dup2-eq :
    {R : Type 0} (env : Backend R) (s : Files R) (table : Table) (oldfd newfd f : ℕ)
    → oldfd < fd_max
    → newfd < fd_max
    → oldfd ≢ newfd
    → table oldfd ≡ some f
    → dup2 env s table oldfd newfd ≡ (
      some newfd,
      share (close_slot env s table newfd).0 f,
      update (close_slot env s table newfd).1 newfd (some f),
    )
unfolding dup2
dup2-eq env s table oldfd newfd f a b n e =
    let old : leb fd_max oldfd ≡ false = ground arith in
    let new : leb fd_max newfd ≡ false = ground arith in
    rw (old, new, e, ne→eqb oldfd newfd n, fd_close-in env s table newfd b) refl

-- `sys_dup2` onto another slot: that slot's file loses a reference, the file of `oldfd` gains one, and
-- afterwards both slots hold it; no other slot changes. The counts must cover the slot that is closed
-- and must not overflow.
pub dup2_lem :
    {R : Type 0} (env : Backend R) (s : Files R) (table : Table) (oldfd newfd f : ℕ)
    → oldfd < fd_max
    → newfd < fd_max
    → oldfd ≢ newfd
    → table oldfd ≡ some f
    → ((g : ℕ) → (holds (table newfd) g ≤ count s g) × (count s g + 1 < 2 ^ 32))
    → let (r, s', t) = dup2 env s table oldfd newfd in
      (r ≡ some newfd)
      × ((g : ℕ) → count s' g + holds (table newfd) g ≡ count s g + holds (some f) g)
      × (t newfd ≡ some f)
      × ((j : ℕ) → j ≢ newfd → t j ≡ table j)
dup2_lem env s table oldfd newfd f a b n e h =
    let closed = close_slot env s table newfd in
    let c = close_slot-count env s table newfd (λ g. omega (arith, h g)) in
    rw (dup2-eq env s table oldfd newfd f a b n e) (
      refl,
      λ g. omega (arith, c.0 g, share-count closed.0 f g (ground (arith, h g, c.0 g))),
      update_self closed.1 newfd (some f),
      λ j m. update_ne closed.1 newfd j (some f) (λ x. m (sym x)) ∙ c.2 j m,
    )
