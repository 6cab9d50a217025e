-- ===== src/Ramfs/Contents.antt =====
-- `ramfs_read`, `ramfs_open` and the size and capacity of a file, of kernel/fs/ramfs.c.
use mathlib.Core.Path.{subst}
use orion_final.Ramfs.File.{Apart, byte, size, capacity, Bounded, Written, Fresh}
use orion_final.Ramfs.Write.{ramfs_write_lem}
use orion_final.Base.{
  ℕ, ◌+◌, ◌-◌, ◌^◌, ◌≤◌, ◌<◌, ◌≡◌, refl, arith, ◌⊎◌, inl, inr, ltb, Bool-cases, ltb→lt, ltb→ge,
  lt→ltb, ge→ltb, some, ap, ◌∙◌, if◌then◌else◌, not, eq→eqb, if_true, if_false,
}
use orion_final.Base.Words.{sub32}
use orion_final.Strings.{memcpy}
use orion_final.Strings.Copy.{memcpy-Moves}
use orion_final.Ramfs.{Allocator, Ramfs, inode_of, vnode_file, ramfs_write, ramfs_read}

-- how many of the `len` bytes at `offset` are before the end of a file of `n` bytes
abbrev pub readable : ℕ → ℕ → ℕ → ℕ
readable n len offset = if ltb len (n - offset) then len else n - offset

module _ {H : Type 0} where
  read_end :
      (s : Ramfs H) (v dst len offset : ℕ)
      → (s.vnodes v).kind ≡ vnode_file
      → size s v ≤ offset
      → ramfs_read s v dst len offset ≡ (some 0, s)
  unfolding ramfs_read
  read_end s v dst len offset file l =
      if_false _ _ (ap not (eq→eqb _ _ file)) ∙ if_false _ _ (ge→ltb _ _ l)

  read_step :
      (s : Ramfs H) (v dst len offset : ℕ)
      → (s.vnodes v).kind ≡ vnode_file
      → size s v < 2 ^ 32
      → offset < size s v
      → ramfs_read s v dst len offset ≡ (
        some (readable (size s v) len offset),
        record s {
          memory =
              memcpy s.memory dst ((inode_of s v).buf + offset) (readable (size s v) len offset);
        },
      )
  unfolding ramfs_read
  read_step s v dst len offset file small l =
      let avail : sub32 (size s v) offset ≡ size s v - offset = omega arith in
      if_false _ _ (ap not (eq→eqb _ _ file))
      ∙ if_true _ _ (lt→ltb _ _ l)
      ∙ ap
          (λ (a : ℕ). (
            some (if ltb len a then len else a),
            record s {
              memory =
                  memcpy s.memory dst ((inode_of s v).buf + offset) (if ltb len a then len else a);
            },
          ))
          avail

  -- A read of a file returns the number of bytes from `offset` to its end, at most `len` and 0 at
  -- the end, and copies them to a buffer that is apart from the file's; nothing else in memory changes, and
  -- neither do the vnodes and inodes.
  pub ramfs_read_lem :
      (s : Ramfs H) (v dst len offset : ℕ)
      → (s.vnodes v).kind ≡ vnode_file
      → Bounded s v
      → size s v < 2 ^ 32
      → Apart dst len (inode_of s v).buf (capacity s v)
      → let n = readable (size s v) len offset in
        let r = ramfs_read s v dst len offset in
        (r.0 ≡ some n)
        × ((i : ℕ) → i < n → r.1.memory (dst + i) ≡ byte s v (offset + i))
        × ((j : ℕ) → (j < dst) ⊎ (dst + n ≤ j) → r.1.memory j ≡ s.memory j)
        × (r.1.vnodes ≡ s.vnodes)
        × (r.1.inodes ≡ s.inodes)
  ramfs_read_lem s v dst len offset file b small apart = elim (Bool-cases (ltb offset (size s v))) [
    | inr e ↦
        let none_left : readable (size s v) len offset ≡ 0 = ground (arith, ltb→ge _ _ e) in
        rw (read_end s v dst len offset file (ltb→ge _ _ e), none_left)
          (refl, λ i l. absurd (omega arith), λ j o. refl, refl, refl)
    | inl e ↦
        let n = readable (size s v) len offset in
        let bound : n ≤ len = ground arith in
        let inside : offset + n ≤ size s v = ground (arith, ltb→lt _ _ e) in
        let m =
          memcpy-Moves s.memory dst ((inode_of s v).buf + offset) n (omega (arith, b.within)) in
        rw (read_step s v dst len offset file small (ltb→lt _ _ e))
          (refl, λ i l. m.moved i l ∙ ap s.memory (omega arith), λ j o. m.others j o, refl, refl)
  ]

module _ {H : Type 0} (alloc : Allocator H) (s t : Ramfs H) (v src len offset : ℕ) where
  write_was :
      (s.vnodes v).kind ≡ vnode_file
      → offset + len ≤ 2 ^ 31
      → Bounded s v
      → Apart src len (inode_of s v).buf (capacity s v)
      → Fresh alloc s v src len
      → ramfs_write alloc s v src len offset ≡ some (some len, t)
      → Written s v src len offset t × Bounded t v
  write_was file small b apart fresh e =
      elim (ramfs_write_lem alloc s v src len offset file small b apart fresh) [
        | inl (c, z, f) ↦ cc
        | inr (u, f, w, bu) ↦
            let same : u ≡ t = ground arith in
            subst (λ x. Written s v src len offset x × Bounded x v) same (w, bu)
      ]

  -- What a write that has returned `len` put into a file, a read at the same offset copies out again, all of it,
  -- to any buffer that is apart from the file's: for a regular file whose size is within its buffer and below 2 ^ 32, a
  -- write that ends at 2 ^ 31 at most, a source apart from the file's buffer, and blocks of the heap that are
  -- apart from both.
  pub ramfs_read-ramfs_write :
      (dst : ℕ)
      → (s.vnodes v).kind ≡ vnode_file
      → offset + len ≤ 2 ^ 31
      → size s v < 2 ^ 32
      → Bounded s v
      → Apart src len (inode_of s v).buf (capacity s v)
      → Fresh alloc s v src len
      → ramfs_write alloc s v src len offset ≡ some (some len, t)
      → Apart dst len (inode_of t v).buf (capacity t v)
      → let r = ramfs_read t v dst len offset in
        (r.0 ≡ some len) × ((i : ℕ) → i < len → r.1.memory (dst + i) ≡ s.memory (src + i))
  ramfs_read-ramfs_write dst file small old b apart fresh e clear =
      let (w, bt) = write_was file small b apart fresh e in
      let large : (size t v < 2 ^ 32) × (offset + len ≤ size t v) = ground (arith, w.new_size) in
      let all : readable (size t v) len offset ≡ len = ground arith in
      let r = ramfs_read_lem t v dst len offset (w.same_kind ∙ file) bt large.0 clear in
      (r.0 ∙ ap some all, λ i l. r.1 i (omega arith) ∙ w.written i l)
