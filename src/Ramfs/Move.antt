-- ===== src/Ramfs/Move.antt =====
-- The growth of a file's buffer in `ramfs_write` of kernel/fs/ramfs.c.
use orion_final.Ramfs.File.{Apart, byte, size, capacity, Ready, Bounded, Fresh}
use orion_final.Ramfs.Grow.{grown_total}
use orion_final.Base.{
  ℕ, ◌+◌, ◌^◌, ◌≤◌, ◌<◌, ◌⊎◌, ◌≡◌, ◌≢◌, refl, arith, inl, inr, ltb, ◌==◌, Bool-cases, ltb→ge, none,
  some, Option, Bool, true, false, ap, sym, ◌∙◌, if◌then◌else◌, not, ◌&&◌, eqb→eq, if_true,
  if_false, eqb→ne,
}
use orion_final.Base.Update.{update, update_self}
use orion_final.Strings.{Memory, memcpy}
use orion_final.Strings.Copy.{Moves, memcpy-Moves, memcpy_outside, memcpy_outside}
use orion_final.Ramfs.{Allocator, Ramfs, Inode, inode_of, grow, move_to, grown, grow_rounds}

module _ {H : Type 0} where
  pub copied : Ramfs H → ℕ → ℕ → Memory
  copied s v p =
      if not ((inode_of s v).buf == 0) && not ((s.vnodes v).size == 0)
      then memcpy s.memory p (inode_of s v).buf (s.vnodes v).size
      else s.memory

  copied-Moves :
      (s : Ramfs H) (v p c : ℕ)
      → Bounded s v
      → size s v ≤ c
      → Apart p c (inode_of s v).buf (capacity s v)
      → Moves s.memory p (inode_of s v).buf (size s v) (copied s v p)
  unfolding copied
  copied-Moves s v p c b l apart = elim (Bool-cases ((inode_of s v).buf == 0)) [
    | inl e ↦
        let none_yet : size s v ≡ 0 = omega (arith, b.within, b.buffered (eqb→eq _ _ e)) in
        rw e (nothing none_yet)
    | inr e ↦ elim (Bool-cases (size s v == 0)) [
      | inl z ↦ rw (e, z) (nothing (eqb→eq _ _ z))
      | inr z ↦
          rw (e, z)
            (memcpy-Moves s.memory p (inode_of s v).buf (size s v) (omega (arith, b.within)))
    ]
  ]
    where
      nothing : size s v ≡ 0 → Moves s.memory p (inode_of s v).buf (size s v) s.memory
      nothing z = record { moved = λ i l. absurd (omega arith); others = λ j o. refl }

  copied_outside :
      (s : Ramfs H) (v p j : ℕ) → (j < p) ⊎ (p + size s v ≤ j) → copied s v p j ≡ s.memory j
  unfolding copied
  copied_outside s v p j o = either (not ((inode_of s v).buf == 0) && not (size s v == 0))
    where
      either :
          (b : Bool)
          → (if b then memcpy s.memory p (inode_of s v).buf (size s v) else s.memory) j ≡ s.memory j
      either true = memcpy_outside s.memory p (inode_of s v).buf (size s v) j o
      either false = refl

  module _ (alloc : Allocator H) (s : Ramfs H) (v src len : ℕ) where
    -- The state that `move_to` returns when `kmalloc` gives a buffer.
    pub moved_state : ℕ → Ramfs H
    moved_state c =
        let (p, heap) = alloc.kmalloc s.heap c in
        let ino = inode_of s v in
        record s {
          heap = if ino.buf == 0 then heap else alloc.kfree heap ino.buf;
          memory = copied s v p;
          inodes = update s.inodes (s.vnodes v).inode (record ino { buf = p; capacity = c });
        }

    pub move_to_step :
        (c : ℕ)
        → move_to alloc s v c ≡ (
            if (alloc.kmalloc s.heap c).0 == 0
            then (false, record s { heap = (alloc.kmalloc s.heap c).1 })
            else (true, moved_state c))
    unfolding move_to moved_state copied
    move_to_step c = refl

    moved_inode :
        (c : ℕ)
        → inode_of (moved_state c) v
          ≡ record (inode_of s v) { buf = (alloc.kmalloc s.heap c).0; capacity = c }
    unfolding moved_state
    moved_inode c = update_self s.inodes _ _

    moved_byte :
        (c i : ℕ)
        → byte (moved_state c) v i
          ≡ copied s v (alloc.kmalloc s.heap c).0 ((alloc.kmalloc s.heap c).0 + i)
    unfolding moved_state
    moved_byte c i =
        ap (λ (ino : Inode). copied s v (alloc.kmalloc s.heap c).0 (ino.buf + i)) (moved_inode c)

    moved_buf : (c : ℕ) → (inode_of (moved_state c) v).buf ≡ (alloc.kmalloc s.heap c).0
    moved_buf c = ap (λ (ino : Inode). ino.buf) (moved_inode c)

    pub moved_capacity : (c : ℕ) → capacity (moved_state c) v ≡ c
    moved_capacity c = ap (λ (ino : Inode). ino.capacity) (moved_inode c)

    pub moved-Bounded :
        (c : ℕ)
        → Bounded s v
        → (alloc.kmalloc s.heap c).0 ≢ 0
        → capacity s v ≤ c
        → Bounded (moved_state c) v
    unfolding moved_state
    moved-Bounded c b given larger = record {
      within = omega (arith, moved_capacity c, b.within);
      buffered = λ z. absurd (given (sym (moved_buf c) ∙ z));
    }

    pub moved_outside :
        (c : ℕ)
        → Bounded s v
        → capacity s v ≤ c
        → (j : ℕ)
        → (j < (inode_of (moved_state c) v).buf)
          ⊎ ((inode_of (moved_state c) v).buf + capacity (moved_state c) v ≤ j)
        → (moved_state c).memory j ≡ s.memory j
    unfolding moved_state
    moved_outside c b larger j o =
        copied_outside s v (alloc.kmalloc s.heap c).0 j
          (omega (arith, moved_buf c, moved_capacity c, b.within, o))

    moved-Ready :
        (end c : ℕ)
        → Bounded s v
        → Fresh alloc s v src len
        → (alloc.kmalloc s.heap c).0 ≢ 0
        → end ≤ c
        → capacity s v ≤ c
        → Ready s v src len end (moved_state c)
    unfolding moved_state
    moved-Ready end c b fresh given enough larger =
        let p = (alloc.kmalloc s.heap c).0 in
        let m = copied-Moves s v p c b (omega (arith, b.within)) (fresh c given).0 in
        record {
          same_vnodes = refl;
          same_bytes = λ i l. moved_byte c i ∙ m.moved i l;
          same_source = λ i l. m.others (src + i) (omega (arith, b.within, (fresh c given).1));
          room = omega (arith, moved_capacity c);
          apart = omega (arith, moved_capacity c, moved_buf c, (fresh c given).1);
        }

    pub grow-none : (end : ℕ) → ltb (capacity s v) end ≡ false → grow alloc s v end ≡ some (true, s)
    unfolding grow
    grow-none end e = rw e refl

    pub grow_loops :
        (end : ℕ)
        → ltb (capacity s v) end ≡ true
        → grown grow_rounds (if capacity s v == 0 then 64 else capacity s v) end ≡ none
        → grow alloc s v end ≡ none
    unfolding grow
    grow_loops end e eq = rw (e, eq) refl

    pub grow-some :
        (end c : ℕ)
        → ltb (capacity s v) end ≡ true
        → grown grow_rounds (if capacity s v == 0 then 64 else capacity s v) end ≡ some c
        → grow alloc s v end ≡ some (move_to alloc s v c)
    unfolding grow
    grow-some end c e eq = rw (e, eq) refl

    -- Either `kmalloc` fails, or the file is ready.
    pub data Outcome (end : ℕ) (r : Option (Bool × Ramfs H)) : Type 0 where
      refused :
          (c : ℕ)
          → (alloc.kmalloc s.heap c).0 ≡ 0
          → r ≡ some (false, record s { heap = (alloc.kmalloc s.heap c).1 })
          → Outcome end r
      ready :
          (t : Ramfs H) → r ≡ some (true, t) → Ready s v src len end t → Bounded t v → Outcome end r

    pub grow-Outcome :
        (end : ℕ)
        → Bounded s v
        → Apart src len (inode_of s v).buf (capacity s v)
        → Fresh alloc s v src len
        → end ≤ 2 ^ 31
        → Outcome end (grow alloc s v end)
    grow-Outcome end b apart fresh small = elim (Bool-cases (ltb (capacity s v) end)) [
      | inr e ↦
          ready s (grow-none end e)
            (record {
              same_vnodes = refl;
              same_bytes = λ i l. refl;
              same_source = λ i l. refl;
              room = ltb→ge _ _ e;
              apart = apart;
            })
            b
      | inl e ↦
          let from = if capacity s v == 0 then 64 else capacity s v in
          let larger : capacity s v ≤ from = ground arith in
          let (c, eq, g) = grown_total from end (ground arith) small in
          let step = grow-some end c e eq ∙ ap some (move_to_step c) in
          elim (Bool-cases ((alloc.kmalloc s.heap c).0 == 0)) [
            | inl z ↦ refused c (eqb→eq _ _ z) (step ∙ ap some (if_true _ _ z))
            | inr z ↦
                let given = eqb→ne _ _ z in
                ready (moved_state c) (step ∙ ap some (if_false _ _ z))
                  (moved-Ready end c b fresh given g.enough (omega (arith, larger, g.kept)))
                  (moved-Bounded c b given (omega (arith, larger, g.kept)))
          ]
    ]
