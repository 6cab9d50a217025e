-- ===== src/Vfs/Backend.antt =====
-- The table `ramfs_ops`, `ramfs_register_dev` and `ramfs_init` of kernel/fs/ramfs.c, for a file system all of whose vnodes
-- are its own.
use orion_final.Base.{
  ℕ, Bool, true, false, not, ◌==◌, Option, none, some, bit_and, if◌then◌else◌, [], ◌∷◌,
}
use orion_final.Base.Words.{minus_one}
use orion_final.Ramfs.{
  Allocator, Ramfs, set_size, vnode_dir, vnode_file, ramfs_lookup, ramfs_create, ramfs_mkdir_op,
  ramfs_open, ramfs_read, ramfs_write, Name, ramfs_add_dirent, ramfs_new_vnode,
}
use orion_final.Vfs.{Vnodes, MountTable, byte_at, slash, split_path, vfs_resolve, vfs_mount}

-- an `int` result as a word
abbrev pub word : Option ℕ → ℕ
word none = minus_one
word (some n) = n

abbrev pub is_some : Option ℕ → Bool
is_some none = false
is_some (some n) = true

abbrev pub o_trunc : ℕ → Bool
o_trunc flags = not (bit_and flags 8 == 0)

module _ {H : Type 0} where
  abbrev pub write_word : Option (Option ℕ × Ramfs H) → Option (ℕ × Ramfs H)
  write_word none = none
  write_word (some (r, t)) = some (word r, t)

  abbrev pub ramfs_ops : Allocator H → Vnodes (Ramfs H)
  ramfs_ops alloc = record {
    is_dir = λ s v. (s.vnodes v).kind == vnode_dir;
    size = λ s v. (s.vnodes v).size;
    set_size = set_size;
    lookup = ramfs_lookup;
    create = λ s dir name. ramfs_create alloc s dir name vnode_file;
    mkdir = λ s dir name. let (r, t) = ramfs_mkdir_op alloc s dir name in (is_some r, t);
    open_op = λ s v flags. (true, ramfs_open alloc s v (o_trunc flags));
    read = λ s v buf len offset. let (r, t) = ramfs_read s v buf len offset in (word r, t);
    write = λ s v buf len offset. write_word (ramfs_write alloc s v buf len offset);
    kmalloc = λ s n. let (p, h) = alloc.kmalloc s.heap n in (p, record s { heap = h });
  }

  -- `false` is -1.
  pub ramfs_register_dev : Allocator H → Ramfs H → MountTable → Name → ℕ → Bool × Ramfs H
  ramfs_register_dev alloc s mounts path dev_vnode =
      if byte_at path 0 == slash
      then elim (split_path path) [
        | none ↦ (false, s)
        | some (parent, leaf) ↦ elim (vfs_resolve (ramfs_ops alloc) s mounts parent) [
          | none ↦ (false, s)
          | some dir ↦
              if (s.vnodes dir).kind == vnode_dir
              then ramfs_add_dirent alloc s dir leaf dev_vnode
              else (false, s)
        ]
      ]
      else (false, s)

  -- `ramfs_root` and the state after it
  pub ramfs_init : Allocator H → Ramfs H → MountTable → ℕ × Ramfs H × MountTable
  ramfs_init alloc s mounts =
      let (root, s') = ramfs_new_vnode alloc s vnode_dir in
      if root == 0
      then (0, s', mounts)
      else (let (ok, mounts') = vfs_mount mounts (slash ∷ []) root in (root, s', mounts'))
