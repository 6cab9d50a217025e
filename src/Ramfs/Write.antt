-- ===== src/Ramfs/Write.antt =====
-- `ramfs_write` of kernel/fs/ramfs.c.
use orion_final.Ramfs.File.{Apart, byte, size, capacity, Ready, Written, Bounded, Fresh}
use orion_final.Ramfs.Move.{refused, ready, grow-Outcome}
use orion_final.Base.{
  ℕ, ◌+◌, ◌^◌, ◌≤◌, ◌≡◌, arith, ◌⊎◌, inl, inr, ltb, none, some, Option, Bool, ap, sym, ◌∙◌,
  if◌then◌else◌, not, if_false, eq→eqb,
}
use orion_final.Base.Words.{u32}
use orion_final.Strings.{memcpy}
use orion_final.Strings.Copy.{memcpy-Moves}
use orion_final.Ramfs.{
  Allocator, Ramfs, Vnode, Inode, inode_of, vnode_file, ramfs_write, write_grown, grow, store,
}

add_assoc : (a b c : ℕ) → a + (b + c) ≡ a + b + c
add_assoc a b c = omega arith

module _ {H : Type 0} where
  pub store_inode :
      (t : Ramfs H) (v src len offset end : ℕ)
      → inode_of (store t v src len offset end) v ≡ inode_of t v
  unfolding store
  store_inode t v src len offset end = ground arith

  pub store_memory :
      (t : Ramfs H) (v src len offset end : ℕ)
      → (store t v src len offset end).memory
        ≡ memcpy t.memory ((inode_of t v).buf + offset) src len
  unfolding store
  store_memory t v src len offset end = ground arith

  store_kind :
      (t : Ramfs H) (v src len offset end : ℕ)
      → ((store t v src len offset end).vnodes v).kind ≡ (t.vnodes v).kind
  unfolding store
  store_kind t v src len offset end = ground arith

  pub store_size :
      (t : Ramfs H) (v src len offset end : ℕ)
      → size (store t v src len offset end) v ≡ (if ltb (size t v) end then end else size t v)
  unfolding store
  store_size t v src len offset end = ground arith

  pub store-Bounded :
      (t : Ramfs H) (v src len offset end : ℕ)
      → Bounded t v
      → end ≤ capacity t v
      → Bounded (store t v src len offset end) v
  store-Bounded t v src len offset end b room =
      let same_capacity : capacity (store t v src len offset end) v ≡ capacity t v =
        ap (λ (ino : Inode). ino.capacity) (store_inode t v src len offset end) in
      record {
        within = ground (arith, store_size t v src len offset end, same_capacity, b.within);
        buffered = λ z.
            same_capacity
            ∙ b.buffered
                (sym (ap (λ (ino : Inode). ino.buf) (store_inode t v src len offset end)) ∙ z);
      }

  store-Written :
      (s t : Ramfs H) (v src len offset : ℕ)
      → Ready s v src len (offset + len) t
      → Written s v src len offset (store t v src len offset (offset + len))
  store-Written s t v src len offset r =
      let end = offset + len in
      let u = store t v src len offset end in
      let b = (inode_of t v).buf in
      let same_buf : (inode_of u v).buf ≡ b =
        ap (λ (ino : Inode). ino.buf) (store_inode t v src len offset end) in
      let same_capacity : capacity u v ≡ capacity t v =
        ap (λ (ino : Inode). ino.capacity) (store_inode t v src len offset end) in
      let m = memcpy-Moves t.memory (b + offset) src len (omega (arith, r.apart, r.room)) in
      let byte_at : (i : ℕ) → byte u v i ≡ memcpy t.memory (b + offset) src len (b + i) = λ i.
        ap (λ a. u.memory (a + i)) same_buf
        ∙ ap (λ (f : ℕ → ℕ). f (b + i)) (store_memory t v src len offset end) in
      record {
        same_kind =
            store_kind t v src len offset end ∙ ap (λ (f : ℕ → Vnode). (f v).kind) r.same_vnodes;
        written = λ i l.
            byte_at (offset + i)
            ∙ ap (memcpy t.memory (b + offset) src len) (add_assoc b offset i)
            ∙ m.moved i l
            ∙ r.same_source i l;
        kept = λ i l o. byte_at i ∙ m.others (b + i) (omega arith) ∙ r.same_bytes i l;
        new_size =
            store_size t v src len offset end
            ∙ ap (λ (n : ℕ). if ltb n end then end else n)
                (ap (λ (f : ℕ → Vnode). (f v).size) r.same_vnodes);
        room = omega (arith, same_capacity, r.room);
        apart = omega (arith, same_capacity, same_buf, r.apart);
      }

  module _ (alloc : Allocator H) (s : Ramfs H) (v src len : ℕ) where
    pub write_step :
        (offset : ℕ)
        → (s.vnodes v).kind ≡ vnode_file
        → ramfs_write alloc s v src len offset
          ≡ write_grown v src len offset (u32 (offset + len)) (grow alloc s v (u32 (offset + len)))
    unfolding ramfs_write
    write_step offset file = if_false _ _ (ap not (eq→eqb _ _ file))

    write_result :
        (offset : ℕ) (r : Option (Bool × Ramfs H))
        → (s.vnodes v).kind ≡ vnode_file
        → offset + len ≤ 2 ^ 31
        → grow alloc s v (offset + len) ≡ r
        → ramfs_write alloc s v src len offset ≡ write_grown v src len offset (offset + len) r
    write_result offset r file small e =
        let end : u32 (offset + len) ≡ offset + len = omega arith in
        write_step offset file
        ∙ ap (λ (n : ℕ). write_grown v src len offset n (grow alloc s v n)) end
        ∙ ap (write_grown v src len offset (offset + len)) e

    -- A write to a file of `len` bytes, from a buffer that is apart from the file's and from what
    -- `kmalloc` gives, to an end of at most 2 ^ 31, returns. Either `kmalloc` fails, and then -1 is
    -- returned and nothing but the heap changes; or `len` is returned, the bytes from `offset` on are those of the
    -- buffer, all other bytes up to the old size are kept, the size becomes the end of the write if it
    -- was less, and the buffer is large enough for that end. The size is within the buffer again.
    pub ramfs_write_lem :
        (offset : ℕ)
        → (s.vnodes v).kind ≡ vnode_file
        → offset + len ≤ 2 ^ 31
        → Bounded s v
        → Apart src len (inode_of s v).buf (capacity s v)
        → Fresh alloc s v src len
        → ((c : ℕ) × ((alloc.kmalloc s.heap c).0 ≡ 0)
            × (ramfs_write alloc s v src len offset
                ≡ some (none, record s { heap = (alloc.kmalloc s.heap c).1 })))
          ⊎ ((t : Ramfs H) × (ramfs_write alloc s v src len offset ≡ some (some len, t))
              × Written s v src len offset t
              × Bounded t v)
    unfolding write_grown
    ramfs_write_lem offset file small b apart fresh =
        elim (grow-Outcome alloc s v src len (offset + len) b apart fresh small) [
          | refused c z e ↦ inl (c, z, write_result offset _ file small e)
          | ready t e r bt ↦ inr (
            store t v src len offset (offset + len),
            write_result offset _ file small e,
            store-Written s t v src len offset r,
            store-Bounded t v src len offset (offset + len) bt r.room,
          )
        ]
