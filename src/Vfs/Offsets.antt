-- ===== src/Vfs/Offsets.antt =====
-- `vfs_read` and `vfs_write` of kernel/fs/vfs.c on the files of kernel/fs/ramfs.c.
use mathlib.Core.Path.{subst}
use orion_final.Base.{
  ℕ, ◌+◌, ◌^◌, ◌≤◌, ◌<◌, ◌≡◌, ◌≢◌, refl, sym, ap, ◌∙◌, arith, ◌⊎◌, inl, inr, false, ◌||◌, ◌==◌, ltb,
  lt→ltb, ge→ltb, ltb→lt, ltb→ge, ne→eqb, Bool-cases, some, Option, if◌then◌else◌, if_false,
}
use orion_final.Base.Update.{update_self}
use orion_final.Base.Words.{minus_one, u32}
use orion_final.Files.{File, Files}
use orion_final.Ramfs.{Allocator, Ramfs, inode_of, vnode_file, ramfs_read, ramfs_write}
use orion_final.Ramfs.File.{Apart, Bounded, Written, byte, size, capacity, Fresh}
use orion_final.Ramfs.Write.{ramfs_write_lem}
use orion_final.Ramfs.Contents.{readable, ramfs_read_lem}
use orion_final.Vfs.{vfs_read, vfs_write, positive, set_offset, advance, seek_end, wrote, o_append}
use orion_final.Vfs.Backend.{word, write_word, ramfs_ops}

guard_open :
    (f v buf len : ℕ)
    → f ≢ 0
    → v ≢ 0
    → buf ≢ 0
    → len ≢ 0
    → (f == 0 || (v == 0 || (buf == 0 || len == 0))) ≡ false
guard_open f v buf len a b c d =
    rw (ne→eqb f 0 a, ne→eqb v 0 b, ne→eqb buf 0 c, ne→eqb len 0 d) refl

module _ {H : Type 0} (alloc : Allocator H) (s : Files (Ramfs H)) (f buf len : ℕ) where
  read_result : ℕ × Ramfs H → ℕ × Files (Ramfs H)
  read_result (n, r) = (
    n,
    if positive n
        then set_offset (record s { resources = r }) f (u32 ((s.files f).offset + n))
        else record s { resources = r },
  )

  result_first : (n : ℕ) (r : Ramfs H) → (read_result (n, r)).0 ≡ n
  unfolding read_result
  result_first n r = refl

  read_result_lem :
      (n : ℕ) (r : Ramfs H)
      → n < 2 ^ 31
      → (n ≡ 0) ⊎ ((s.files f).offset + n < 2 ^ 32)
      → ((read_result (n, r)).1.resources ≡ r)
        × (((read_result (n, r)).1.files f).offset ≡ (s.files f).offset + n)
  unfolding read_result
  read_result_lem n r l o = elim (Bool-cases (ltb 0 n)) [
    | inr e ↦ rw e (refl, omega (arith, ltb→ge _ _ e))
    | inl e ↦
        rw (e, lt→ltb n (2 ^ 31) l)
          (
            refl,
            ap (λ (g : File). g.offset) (update_self s.files f _) ∙ omega (arith, ltb→lt _ _ e),
          )
  ]

  vfs_read_step :
      f ≢ 0
      → (s.files f).vnode ≢ 0
      → buf ≢ 0
      → len ≢ 0
      → let r = ramfs_read s.resources (s.files f).vnode buf len (s.files f).offset in
        vfs_read (ramfs_ops alloc) s f buf len ≡ read_result (word r.0, r.1)
  unfolding vfs_read read_result
  vfs_read_step a b c d = if_false _ _ (guard_open f _ buf len a b c d)

  -- A read from an open file returns the number of bytes from its offset to the end, at most `len`, copies them, and
  -- advances the offset by that number; so the next read goes on where this one ended.
  pub vfs_read_lem :
      f ≢ 0
      → (s.files f).vnode ≢ 0
      → buf ≢ 0
      → 0 < len
      → len < 2 ^ 31
      → (s.resources.vnodes (s.files f).vnode).kind ≡ vnode_file
      → Bounded s.resources (s.files f).vnode
      → size s.resources (s.files f).vnode < 2 ^ 32
      → Apart buf len
          (inode_of s.resources (s.files f).vnode).buf
          (capacity s.resources (s.files f).vnode)
      → let v = (s.files f).vnode in
        let offset = (s.files f).offset in
        let n = readable (size s.resources v) len offset in
        let r = vfs_read (ramfs_ops alloc) s f buf len in
        (r.0 ≡ n)
        × ((i : ℕ) → i < n → r.1.resources.memory (buf + i) ≡ byte s.resources v (offset + i))
        × ((r.1.files f).offset ≡ offset + n)
        × (r.1.resources.vnodes ≡ s.resources.vnodes)
        × (r.1.resources.inodes ≡ s.resources.inodes)
  vfs_read_lem a b c d small file bounded size_small apart =
      let v = (s.files f).vnode in
      let offset = (s.files f).offset in
      let n = readable (size s.resources v) len offset in
      let rr = ramfs_read s.resources v buf len offset in
      let l = ramfs_read_lem s.resources v buf len offset file bounded size_small apart in
      let step : vfs_read (ramfs_ops alloc) s f buf len ≡ read_result (n, rr.1) =
        vfs_read_step a b c (omega arith) ∙ ap (λ (o : Option ℕ). read_result (word o, rr.1)) l.0 in
      let bound : n ≤ len = ground arith in
      let inside : (n ≡ 0) ⊎ (offset + n < 2 ^ 32) = ground arith in
      let after = read_result_lem n rr.1 (omega arith) inside in
      rw step (
        result_first n rr.1,
        λ i h. ap (λ (t : Ramfs H). t.memory (buf + i)) after.0 ∙ l.1 i h,
        after.1,
        ap (λ (t : Ramfs H). t.vnodes) after.0 ∙ l.3,
        ap (λ (t : Ramfs H). t.inodes) after.0 ∙ l.4,
      )

  -- where a write begins
  abbrev pub write_offset : ℕ
  write_offset =
      if o_append (s.files f).flags then size s.resources (s.files f).vnode else (s.files f).offset

  seek_end_lem :
      let t = seek_end (ramfs_ops alloc) s f in
      (t.resources ≡ s.resources)
      × ((t.files f).vnode ≡ (s.files f).vnode)
      × ((t.files f).offset ≡ write_offset)
  unfolding seek_end
  seek_end_lem = elim (Bool-cases (o_append (s.files f).flags)) [
    | inl e ↦ rw e (
      refl,
      ap (λ (g : File). g.vnode) (update_self s.files f _),
      ap (λ (g : File). g.offset) (update_self s.files f _),
    )
    | inr e ↦ rw e (refl, refl, refl)
  ]

  vfs_write_step :
      f ≢ 0
      → (s.files f).vnode ≢ 0
      → buf ≢ 0
      → len ≢ 0
      → vfs_write (ramfs_ops alloc) s f buf len
        ≡ wrote
            (ramfs_ops alloc)
            (seek_end (ramfs_ops alloc) s f)
            f
            (write_word (ramfs_write alloc s.resources (s.files f).vnode buf len write_offset))
  unfolding vfs_write
  vfs_write_step a b c d =
      let t = seek_end (ramfs_ops alloc) s f in
      if_false _ _ (guard_open f _ buf len a b c d)
      ∙ ap
          (λ (r : Ramfs H).
            wrote (ramfs_ops alloc) t f
              (write_word (ramfs_write alloc r (s.files f).vnode buf len (t.files f).offset)))
          seek_end_lem.0
      ∙ ap
          (λ (o : ℕ).
            wrote (ramfs_ops alloc) t f
              (write_word (ramfs_write alloc s.resources (s.files f).vnode buf len o)))
          seek_end_lem.2

  advance_lem :
      (d : Files (Ramfs H)) (o n : ℕ)
      → (d.files f).offset ≡ o
      → o + n < 2 ^ 32
      → o + n ≤ size d.resources (d.files f).vnode
      → let u = advance (ramfs_ops alloc) d f n in
        (u.resources ≡ d.resources) × ((u.files f).offset ≡ o + n)
  unfolding advance
  advance_lem d o n at small inside =
      let sum : u32 ((d.files f).offset + n) ≡ o + n = omega arith in
      let covered : ltb (size d.resources (d.files f).vnode) (u32 ((d.files f).offset + n))
          ≡ false =
        ge→ltb _ _ (omega arith) in
      rw covered (refl, ap (λ (g : File). g.offset) (update_self d.files f _) ∙ sum)

  wrote_lem :
      (d : Files (Ramfs H)) (o n : ℕ) (r : Ramfs H)
      → (d.files f).offset ≡ o
      → 0 < n
      → n < 2 ^ 31
      → o + n < 2 ^ 32
      → o + n ≤ size r (d.files f).vnode
      → (u : Files (Ramfs H)) × (wrote (ramfs_ops alloc) d f (some (n, r)) ≡ some (n, u))
        × (u.resources ≡ r)
        × ((u.files f).offset ≡ o + n)
  unfolding wrote
  wrote_lem d o n r at pos small room inside =
      let done = record d { resources = r } in
      let l = advance_lem done o n at room inside in
      (
        advance (ramfs_ops alloc) done f n,
        rw (lt→ltb 0 n pos, lt→ltb n (2 ^ 31) small) refl,
        l.0,
        l.1,
      )

  wrote_fails :
      (d : Files (Ramfs H)) (r : Ramfs H)
      → wrote (ramfs_ops alloc) d f (some (minus_one, r))
        ≡ some (minus_one, record d { resources = r })
  unfolding wrote
  wrote_fails d r = refl

  -- What a write to an open file does: -1 is returned and the file is as it was; or `len` is
  -- returned, the bytes are written where the write begins, and the offset is after them.
  pub data FileWritten (r : Option (ℕ × Files (Ramfs H))) : Type 0 where
    refused :
        (t : Files (Ramfs H))
        → r ≡ some (minus_one, t)
        → t.resources.memory ≡ s.resources.memory
        → t.resources.vnodes ≡ s.resources.vnodes
        → t.resources.inodes ≡ s.resources.inodes
        → FileWritten r
    accepted :
        (t : Files (Ramfs H))
        → r ≡ some (len, t)
        → Written s.resources (s.files f).vnode buf len write_offset t.resources
        → Bounded t.resources (s.files f).vnode
        → (t.files f).offset ≡ write_offset + len
        → FileWritten r

  -- A write of 1 to 2 ^ 31 - 1 bytes, from a buffer that is not null, to an open regular file of ramfs begins at its offset,
  -- or with `O_APPEND` at the end of the file. If it ends at 2 ^ 31 at most, the file's size is within its
  -- buffer, the source is apart from that buffer, and blocks of the heap are apart from both, it returns, and
  -- either returns -1 and leaves the contents of the file, or writes all bytes there and sets the offset after them.
  pub vfs_write_lem :
      f ≢ 0
      → (s.files f).vnode ≢ 0
      → buf ≢ 0
      → 0 < len
      → len < 2 ^ 31
      → write_offset + len ≤ 2 ^ 31
      → (s.resources.vnodes (s.files f).vnode).kind ≡ vnode_file
      → Bounded s.resources (s.files f).vnode
      → Apart buf len
          (inode_of s.resources (s.files f).vnode).buf
          (capacity s.resources (s.files f).vnode)
      → Fresh alloc s.resources (s.files f).vnode buf len
      → FileWritten (vfs_write (ramfs_ops alloc) s f buf len)
  vfs_write_lem a b c pos small room file bounded apart fresh =
      let v = (s.files f).vnode in
      let d = seek_end (ramfs_ops alloc) s f in
      let begun = vfs_write_step a b c (omega arith) in
      elim (ramfs_write_lem alloc s.resources v buf len write_offset file room bounded apart
        fresh) [
          | inl (n, z, e) ↦
              let r = record s.resources { heap = (alloc.kmalloc s.resources.heap n).1 } in
              refused (record d { resources = r })
                (begun ∙ ap (λ o. wrote (ramfs_ops alloc) d f (write_word o)) e ∙ wrote_fails d r)
                refl refl refl
          | inr (r, e, w, br) ↦
              let large : write_offset + len ≤ size r v = ground (arith, w.new_size) in
              let inside : write_offset + len ≤ size r (d.files f).vnode =
                subst (λ x. write_offset + len ≤ size r x) (sym seek_end_lem.1) large in
              let small_end : write_offset + len < 2 ^ 32 = omega arith in
              let (u, eu, same, at) =
                wrote_lem d write_offset len r seek_end_lem.2 pos small small_end inside in
              accepted u (begun ∙ ap (λ o. wrote (ramfs_ops alloc) d f (write_word o)) e ∙ eu)
                (subst (Written s.resources v buf len write_offset) (sym same) w)
                (subst (λ t. Bounded t v) (sym same) br) at
        ]
