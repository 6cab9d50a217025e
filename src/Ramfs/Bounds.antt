-- ===== src/Ramfs/Bounds.antt =====
-- The size and the capacity of a file under `ramfs_write` and `ramfs_open`, and the overflow of the end of a
-- write, of kernel/fs/ramfs.c.
use mathlib.Core.Path.{subst}
use orion_final.Ramfs.File.{Apart, size, capacity, Bounded}
use orion_final.Ramfs.Move.{
  move_to_step, moved-Bounded, moved_capacity, moved_outside, grow-none, grow_loops, grow-some,
}
use orion_final.Ramfs.Write.{store-Bounded, store_memory, store_inode, write_step}
use orion_final.Ramfs.Grow.{grown_enough, grown_loops, le_mul_pow}
use orion_final.Base.{
  ℕ, ◌+◌, ◌*◌, ◌^◌, ◌≤◌, ◌<◌, ◌≡◌, refl, arith, ◌⊎◌, inl, inr, ltb, ◌==◌, Bool-cases, ltb→lt,
  ltb→ge, none, some, Option, Bool, true, false, ap, sym, ◌∙◌, if◌then◌else◌, not, eqb→eq, eqb→ne,
  if_true, if_false, Option-cases, ge→ltb, lt→ltb,
}
use orion_final.Base.Words.{u32}
use orion_final.Strings.Copy.{memcpy-Moves, memcpy_outside}
use orion_final.Ramfs.{
  Allocator, Ramfs, Inode, inode_of, vnode_file, ramfs_write, ramfs_open, grow, move_to, store,
  grown, grow_rounds, write_grown,
}

module _ {H : Type 0} (alloc : Allocator H) (s : Ramfs H) (v src len : ℕ) where
  -- Nothing but the file's buffer is changed in memory.
  abbrev pub Untouched : Ramfs H → Type 0
  Untouched t =
      (j : ℕ)
      → (j < (inode_of t v).buf) ⊎ ((inode_of t v).buf + capacity t v ≤ j)
      → t.memory j ≡ s.memory j

  -- After the growth of the buffer: where it has not failed, the buffer is large enough.
  abbrev Roomy : ℕ → Option (Bool × Ramfs H) → Type 0
  Roomy end none = Unit
  Roomy end (some (false, t)) = Bounded t v × Untouched t
  Roomy end (some (true, t)) = Bounded t v × (end ≤ capacity t v) × Untouched t

  abbrev StillBounded : Option (Option ℕ × Ramfs H) → Type 0
  StillBounded none = Unit
  StillBounded (some (r, t)) = Bounded t v × Untouched t

  move_to-Roomy :
      (end c : ℕ)
      → Bounded s v
      → capacity s v ≤ c
      → end ≤ c
      → Roomy end (some (move_to alloc s v c))
  move_to-Roomy end c b larger enough =
      let step = ap some (move_to_step alloc s v src len c) in
      elim (Bool-cases ((alloc.kmalloc s.heap c).0 == 0)) [
        | inl z ↦ subst (Roomy end) (sym (step ∙ ap some (if_true _ _ z))) (refused b, λ j o. refl)
        | inr z ↦ subst (Roomy end) (sym (step ∙ ap some (if_false _ _ z))) (
          moved-Bounded alloc s v src len c b (eqb→ne _ _ z) larger,
          omega (arith, moved_capacity alloc s v src len c),
          moved_outside alloc s v src len c b larger,
        )
      ]
    where
      refused : Bounded s v → Bounded (record s { heap = (alloc.kmalloc s.heap c).1 }) v
      refused b = record { within = b.within; buffered = b.buffered }

  grow-Roomy : (end : ℕ) → Bounded s v → Roomy end (grow alloc s v end)
  grow-Roomy end b = elim (Bool-cases (ltb (capacity s v) end)) [
    | inr e ↦
        subst (Roomy end) (sym (grow-none alloc s v src len end e)) (b, ltb→ge _ _ e, λ j o. refl)
    | inl e ↦
        let from = if capacity s v == 0 then 64 else capacity s v in
        elim (Option-cases (grown grow_rounds from end)) [
          | inl eq ↦ subst (Roomy end) (sym (grow_loops alloc s v src len end e eq)) tt
          | inr (c, eq) ↦
              let enough = grown_enough grow_rounds from end c eq in
              subst (Roomy end) (sym (grow-some alloc s v src len end c e eq))
                (move_to-Roomy end c b (omega (arith, ltb→lt _ _ e)) enough)
        ]
  ]

  not_file :
      (offset : ℕ)
      → ((s.vnodes v).kind == vnode_file) ≡ false
      → ramfs_write alloc s v src len offset ≡ some (none, s)
  unfolding ramfs_write
  not_file offset f = if_true _ _ (ap not f)

  write_grown-StillBounded :
      (offset end : ℕ) (r : Option (Bool × Ramfs H))
      → offset + len ≤ end
      → Roomy end r
      → StillBounded (write_grown v src len offset end r)
  unfolding write_grown
  write_grown-StillBounded offset end none inside h = tt
  write_grown-StillBounded offset end (some (false, t)) inside h = h
  write_grown-StillBounded offset end (some (true, t)) inside h =
      let same = store_inode t v src len offset end in
      let buf = ap (λ (i : Inode). i.buf) same in
      let cap = ap (λ (i : Inode). i.capacity) same in
      (
        store-Bounded t v src len offset end h.0 h.1,
        λ j o.
            ap (λ (f : ℕ → ℕ). f j) (store_memory t v src len offset end)
            ∙ memcpy_outside t.memory ((inode_of t v).buf + offset) src len j
                (omega (arith, buf, cap, h.1, inside, o))
            ∙ h.2 j (omega (arith, buf, cap, o)),
      )

  -- A write whose end does not wrap around 2 ^ 32, to a file whose size is within its buffer, and which
  -- returns, with success or not, leaves the size within the buffer, and has changed no byte of memory outside the
  -- buffer that the file then has.
  pub ramfs_write-Bounded :
      (offset : ℕ) (r : Option ℕ) (t : Ramfs H)
      → offset + len < 2 ^ 32
      → Bounded s v
      → ramfs_write alloc s v src len offset ≡ some (r, t)
      → Bounded t v × Untouched t
  ramfs_write-Bounded offset r t room b e = subst StillBounded e (any_kind (Bool-cases _))
    where
      any_kind :
          (((s.vnodes v).kind == vnode_file) ≡ true) ⊎ (((s.vnodes v).kind == vnode_file) ≡ false)
          → StillBounded (ramfs_write alloc s v src len offset)
      any_kind (inl f) =
          subst StillBounded (sym (write_step alloc s v src len offset (eqb→eq _ _ f)))
            (write_grown-StillBounded offset (u32 (offset + len)) _ (omega arith) (grow-Roomy _ b))
      any_kind (inr f) = subst StillBounded (sym (not_file offset f)) (b, λ j o. refl)

  -- Where the end of a write wraps around 2 ^ 32 to a number within the buffer, `len` is returned and
  -- all the bytes are written, to addresses beyond the buffer too: it is not made larger.
  pub ramfs_write_wraps :
      (offset : ℕ)
      → (s.vnodes v).kind ≡ vnode_file
      → Bounded s v
      → len < 2 ^ 32
      → offset < 2 ^ 32
      → 2 ^ 32 ≤ offset + len
      → offset + len ≤ 2 ^ 32 + capacity s v
      → Apart src len ((inode_of s v).buf + offset) len
      → (t : Ramfs H) × (ramfs_write alloc s v src len offset ≡ some (some len, t))
        × ((i : ℕ) → i < len → t.memory ((inode_of s v).buf + offset + i) ≡ s.memory (src + i))
        × (inode_of t v ≡ inode_of s v)
  unfolding write_grown
  ramfs_write_wraps offset file b small low wraps within apart =
      let end = u32 (offset + len) in
      let fits : end ≤ capacity s v = omega arith in
      let m = memcpy-Moves s.memory ((inode_of s v).buf + offset) src len (omega arith) in
      (
        store s v src len offset end,
        write_step alloc s v src len offset file
            ∙ ap (write_grown v src len offset end)
                (grow-none alloc s v src len end (ge→ltb _ _ fits)),
        λ i l.
            ap (λ (f : ℕ → ℕ). f ((inode_of s v).buf + offset + i))
              (store_memory s v src len offset end)
            ∙ m.moved i l,
        store_inode s v src len offset end,
      )

  -- A write whose end is more than 2 ^ 31, to a file whose capacity is a power of two times 64 or 0, does not return.
  pub ramfs_write_loops :
      (offset j : ℕ)
      → (s.vnodes v).kind ≡ vnode_file
      → (if capacity s v == 0 then 64 else capacity s v) * 2 ^ j ≡ 2 ^ 31
      → 2 ^ 31 < u32 (offset + len)
      → ramfs_write alloc s v src len offset ≡ none
  unfolding write_grown
  ramfs_write_loops offset j file power large =
      let end = u32 (offset + len) in
      let from = if capacity s v == 0 then 64 else capacity s v in
      let start : capacity s v ≤ from = ground arith in
      let less : capacity s v < end = omega (arith, le_mul_pow from j, power, start, large) in
      write_step alloc s v src len offset file
      ∙ ap (write_grown v src len offset end) (
          grow_loops alloc s v src len end (lt→ltb _ _ less)
            (grown_loops grow_rounds from j end power large))

  ramfs_open_truncates :
      (s.vnodes v).kind ≡ vnode_file
      → let t = ramfs_open alloc s v true in
        (size t v ≡ 0) × (capacity t v ≡ 0) × ((inode_of t v).buf ≡ 0)
  unfolding ramfs_open
  ramfs_open_truncates file = ground arith

  ramfs_open-Bounded : (trunc : Bool) → Bounded s v → Bounded (ramfs_open alloc s v trunc) v
  unfolding ramfs_open
  ramfs_open-Bounded trunc b = ground arith

module _ {H : Type 0} (alloc : Allocator H) where
  -- Without `O_TRUNC` nothing happens.
  pub ramfs_open_plain : (t : Ramfs H) (v : ℕ) (b : Bool) → b ≡ false → ramfs_open alloc t v b ≡ t
  unfolding ramfs_open
  ramfs_open_plain t v b e = rw e refl
