-- ===== src/Files/Refs.antt =====
-- The reference counts of open files against the descriptors that hold them.
use orion_final.Base.{
  ℕ, zero, suc, ◌+◌, ◌≤◌, ◌<◌, ◌^◌, ◌≡◌, ◌≢◌, refl, sym, ap, ◌∙◌, arith, inl, inr, ◌==◌, ltb,
  if◌then◌else◌, Bool-cases, eqb→eq, eqb→ne, Option, none, some,
}
use orion_final.Base.Update.{update, update_self, update_ne}
use orion_final.Base.Words.{sub32}
use orion_final.Files.{
  Files, Backend, Table, fd_max, vnode_unref, release, vfs_close, close_slot, close_slots,
  fd_table_close_all, share, clone_slots, fd_table_clone, set_refcount,
}

-- 1 if a descriptor holds the file
abbrev pub holds : Option ℕ → ℕ → ℕ
holds none f = 0
holds (some g) f = if g == f then 1 else 0

-- how many of the slots from `i` on, `left` of them, hold the file
unfoldable pub refs : Table → ℕ → ℕ → ℕ → ℕ
refs table f i zero = 0
refs table f i (suc left) = holds (table i) f + refs table f (i + 1) left

refs_ext : (t u : Table) (f i n : ℕ) → ((j : ℕ) → i ≤ j → t j ≡ u j) → refs t f i n ≡ refs u f i n
unfolding refs
refs_ext t u f i zero h = refl
refs_ext t u f i (suc n) h =
    let rest : refs t f (i + 1) n ≡ refs u f (i + 1) n =
      refs_ext t u f (i + 1) n (λ j l. h j (omega arith)) in
    let first : holds (t i) f ≡ holds (u i) f = ap (λ o. holds o f) (h i (omega arith)) in
    omega (arith, rest, first)

module _ {R : Type 0} where
  abbrev pub count : Files R → ℕ → ℕ
  count s f = (s.files f).refcount

  module _ (env : Backend R) where
    release-count : (s : Files R) (f g : ℕ) → count (release env s f) g ≡ count s g
    unfolding release vnode_unref
    release-count s f g = ground arith

    vfs_close-count :
        (s : Files R) (f g : ℕ)
        → 1 ≤ count s f
        → count s f < 2 ^ 32
        → count (vfs_close env s f) g + holds (some f) g ≡ count s g
    unfolding vfs_close
    vfs_close-count s f g a b =
        let n = sub32 (count s f) 1 in
        let less : n + 1 ≡ count s f = omega arith in
        let set : count (set_refcount s f n) g + holds (some f) g ≡ count s g =
          ground (arith, less) in
        elim (Bool-cases (ltb 0 n)) [
          | inl e ↦ rw e set
          | inr e ↦
              rw e (ap (λ x. x + holds (some f) g) (release-count (set_refcount s f n) f g) ∙ set)
        ]

    pub close_slot-count :
        (s : Files R) (table : Table) (fd : ℕ)
        → ((f : ℕ) → (holds (table fd) f ≤ count s f) × (count s f < 2 ^ 32))
        → let (s', t) = close_slot env s table fd in
          ((f : ℕ) → count s' f + holds (table fd) f ≡ count s f)
          × (t fd ≡ none)
          × ((j : ℕ) → j ≢ fd → t j ≡ table j)
    unfolding close_slot
    close_slot-count s table fd = by_slot (table fd) refl
      where
        by_slot :
            (o : Option ℕ)
            → table fd ≡ o
            → ((f : ℕ) → (holds o f ≤ count s f) × (count s f < 2 ^ 32))
            → let r = elim o as (λ _. Files R × Table) [
              | none ↦ (s, table)
              | some f ↦ (vfs_close env s f, update table fd none)
            ] in
              ((f : ℕ) → count r.0 f + holds o f ≡ count s f)
              × (r.1 fd ≡ none)
              × ((j : ℕ) → j ≢ fd → r.1 j ≡ table j)
        by_slot none e h = (λ f. omega arith, e, λ j n. refl)
        by_slot (some f) e h = (
          λ g. vfs_close-count s f g (ground (arith, h f)) (h f).1,
          update_self table fd none,
          λ j n. update_ne table fd j none (λ x. n (sym x)),
        )

    close_slots-count :
        (left i : ℕ) (s : Files R) (table : Table)
        → ((f : ℕ) → (refs table f i left ≤ count s f) × (count s f < 2 ^ 32))
        → let (s', t) = close_slots env s table i left in
          ((f : ℕ) → count s' f + refs table f i left ≡ count s f)
          × ((j : ℕ) → i ≤ j → j < i + left → t j ≡ none)
          × ((j : ℕ) → j < i → t j ≡ table j)
    unfolding close_slots refs
    close_slots-count zero i s table h =
        (λ f. omega arith, λ j a b. absurd (omega arith), λ j l. refl)
    close_slots-count (suc left) i s table h =
        let one = close_slot-count s table i (λ f. omega (arith, h f)) in
        let s' = (close_slot env s table i).0 in
        let table' = (close_slot env s table i).1 in
        let same : (f : ℕ) → refs table' f (i + 1) left ≡ refs table f (i + 1) left =
          λ f. refs_ext table' table f (i + 1) left (λ j l. one.2 j (omega arith)) in
        let rest =
          close_slots-count left (i + 1) s' table' (λ f. omega (arith, h f, one.0 f, same f)) in
        (
          λ f. omega (arith, one.0 f, rest.0 f, same f),
          λ j a b. elim (Bool-cases (j == i)) [
            | inl e ↦ let here : j ≡ i = eqb→eq j i e in rw here (rest.2 i (omega arith) ∙ one.1)
            | inr e ↦ rest.1 j (omega (arith, eqb→ne j i e)) (omega arith)
          ],
          λ j l. rest.2 j (omega arith) ∙ one.2 j (omega arith),
        )

    -- `fd_table_close_all` empties the table, and each open file loses as many references as there were
    -- descriptors of it; the counts must cover the table.
    pub fd_table_close_all_lem :
        (s : Files R) (table : Table)
        → ((f : ℕ) → (refs table f 0 fd_max ≤ count s f) × (count s f < 2 ^ 32))
        → let (s', t) = fd_table_close_all env s table in
          ((f : ℕ) → count s' f + refs table f 0 fd_max ≡ count s f)
          × ((j : ℕ) → j < fd_max → t j ≡ none)
    unfolding fd_table_close_all
    fd_table_close_all_lem s table h =
        let all = close_slots-count fd_max 0 s table h in
        (all.0, λ j l. all.1 j (omega arith) (omega arith))

  pub share-count :
      (s : Files R) (f g : ℕ)
      → count s g + holds (some f) g < 2 ^ 32
      → count (share s f) g ≡ count s g + holds (some f) g
  unfolding share
  share-count s f g l = ground arith

  share_slot-count :
      (s : Files R) (o : Option ℕ) (g : ℕ)
      → count s g + holds o g < 2 ^ 32
      → count (elim o as (λ _. Files R) [ none ↦ s | some f ↦ share s f ]) g ≡ count s g + holds o g
  share_slot-count s none g l = omega arith
  share_slot-count s (some f) g l = share-count s f g l

  clone_slots-count :
      (left i : ℕ) (s : Files R) (src dst : Table)
      → ((f : ℕ) → count s f + refs src f i left < 2 ^ 32)
      → let (s', t) = clone_slots s src dst i left in
        ((f : ℕ) → count s' f ≡ count s f + refs src f i left)
        × ((j : ℕ) → i ≤ j → j < i + left → t j ≡ src j)
        × ((j : ℕ) → j < i → t j ≡ dst j)
  unfolding clone_slots refs
  clone_slots-count zero i s src dst h =
      (λ f. omega arith, λ j a b. absurd (omega arith), λ j l. refl)
  clone_slots-count (suc left) i s src dst h =
      let s' : Files R = elim (src i) [ none ↦ s | some f ↦ share s f ] in
      let one : (f : ℕ) → count s' f ≡ count s f + holds (src i) f =
        λ f. share_slot-count s (src i) f (omega (arith, h f)) in
      let rest =
        clone_slots-count left (i + 1) s' src (update dst i (src i))
          (λ f. omega (arith, h f, one f)) in
      (
        λ f. omega (arith, one f, rest.0 f),
        λ j a b. elim (Bool-cases (j == i)) [
          | inl e ↦
              let here : j ≡ i = eqb→eq j i e in
              rw here (rest.2 i (omega arith) ∙ update_self dst i (src i))
          | inr e ↦ rest.1 j (omega (arith, eqb→ne j i e)) (omega arith)
        ],
        λ j l. rest.2 j (omega arith) ∙ update_ne dst i j (src i) (omega arith),
      )

  -- `fd_table_clone` gives the child the parent's descriptors, and each open file gains as many
  -- references as the parent has descriptors of it, as long as no count overflows.
  pub fd_table_clone_lem :
      (s : Files R) (src dst : Table)
      → ((f : ℕ) → count s f + refs src f 0 fd_max < 2 ^ 32)
      → let (s', t) = fd_table_clone s src dst in
        ((f : ℕ) → count s' f ≡ count s f + refs src f 0 fd_max)
        × ((j : ℕ) → j < fd_max → t j ≡ src j)
  unfolding fd_table_clone
  fd_table_clone_lem s src dst h =
      let all = clone_slots-count fd_max 0 s src dst h in
      (all.0, λ j l. all.1 j (omega arith) (omega arith))

refs_ext_below :
    (t u : Table) (f i n : ℕ) → ((j : ℕ) → j < i + n → t j ≡ u j) → refs t f i n ≡ refs u f i n
unfolding refs
refs_ext_below t u f i zero h = refl
refs_ext_below t u f i (suc n) h =
    let rest : refs t f (i + 1) n ≡ refs u f (i + 1) n =
      refs_ext_below t u f (i + 1) n (λ j l. h j (omega arith)) in
    let first : holds (t i) f ≡ holds (u i) f = ap (λ o. holds o f) (h i (omega arith)) in
    omega (arith, rest, first)

-- When a child that got its parent's descriptors closes them all, every reference count is again what
-- it was before the fork.
pub close_all-clone :
    {R : Type 0} (env : Backend R) (s : Files R) (src dst : Table)
    → ((f : ℕ) → count s f + refs src f 0 fd_max < 2 ^ 32)
    → let (shared, child) = fd_table_clone s src dst in
      let (s', t) = fd_table_close_all env shared child in
      ((f : ℕ) → count s' f ≡ count s f) × ((j : ℕ) → j < fd_max → t j ≡ none)
close_all-clone env s src dst h =
    let c = fd_table_clone_lem s src dst h in
    let shared = (fd_table_clone s src dst).0 in
    let child = (fd_table_clone s src dst).1 in
    let same : (f : ℕ) → refs child f 0 fd_max ≡ refs src f 0 fd_max =
      λ f. refs_ext_below child src f 0 fd_max (λ j l. c.1 j (omega arith)) in
    let z = fd_table_close_all_lem env shared child (λ f. omega (arith, c.0 f, same f, h f)) in
    (λ f. omega (arith, c.0 f, same f, z.0 f), z.1)
