-- ===== src/Ramfs/Examples.antt =====
-- Runs of kernel/fs/ramfs.c on a small file system.
use orion_final.Base.{ℕ, ◌+◌, ◌≤◌, ◌<◌, ◌≡◌, refl, arith, ◌⊎◌, inl, inr, none, some, [], ◌∷◌}
use orion_final.Base.Update.{update}
use orion_final.Ramfs.{
  Inode, Dirent, Allocator, Ramfs, vnode_file, vnode_dir, ramfs_write, ramfs_read, ramfs_create,
  ramfs_unlink, ramfs_lookup, ramfs_readdir, same_name, find, grown,
}
use orion_final.Ramfs.File.{Bounded, Written, Fresh}
use orion_final.Ramfs.Write.{ramfs_write_lem}
use orion_final.Ramfs.Contents.{ramfs_read-ramfs_write}
use orion_final.Ramfs.Bounds.{Untouched, ramfs_write-Bounded}
use orion_final.Ramfs.Directory.{IsDirectory, Unlinked, ramfs_unlink_lem}
use orion_final.Ramfs.Create.{Lawful, InUse, Created, ramfs_create_lem}

-- An allocator that never reuses a block: the state is the last address given.
abbrev bump : Allocator ℕ
bump = record { kmalloc = λ h n. (h + 1, h + 1 + n); kfree = λ h p. h }

abbrev Used : ℕ → ℕ → Type 0
Used h p = p ≤ h

bump-Lawful : Lawful bump Used
bump-Lawful = record { fresh = λ h n p l e. absurd (omega arith); kept = λ h n p l. omega arith }

abbrev empty_inode : Inode
empty_inode = record { buf = 0; capacity = 0; children = []; child_count = 0 }

abbrev entry_a : Dirent
entry_a = record { address = 5; name = b'a' ∷ []; vnode = 3 }

-- the root directory at 1 with its inode at 2, and in it the file "a" at 3 with its inode at 4
abbrev small : Ramfs ℕ
small = record {
  vnodes =
      update (λ _. record { kind = vnode_file; size = 0; inode = 4 }) 1
        (record { kind = vnode_dir; size = 0; inode = 2 });
  inodes =
      update (λ _. empty_inode) 2 (record empty_inode { children = entry_a ∷ []; child_count = 1 });
  memory = λ p. p;
  heap = 100;
}

small-Bounded : Bounded small 3
small-Bounded = record { within = omega arith; buffered = λ _. refl }

small-Fresh : Fresh bump small 3 10 3
small-Fresh = λ c _. (inr (omega arith), inr (omega arith))

written : Ramfs ℕ
unfolding ramfs_write
written = elim (ramfs_write bump small 3 10 3 0) [ none ↦ small | some (r, t) ↦ t ]

small-IsDirectory : IsDirectory small 1
unfolding find
small-IsDirectory = record {
  kind = refl;
  listing = record { distinct = (refl, tt); within = (omega arith, tt); counted = refl };
}

small-InUse : InUse Used small 1
small-InUse = record { vnode = omega arith; inode = omega arith }

write_returns : ramfs_write bump small 3 10 3 0 ≡ some (some 3, written)
unfolding ramfs_write written grown
write_returns = refl

ramfs_write_lem_example :
    ((c : ℕ) × ((bump.kmalloc small.heap c).0 ≡ 0)
      × (ramfs_write bump small 3 10 3 0
          ≡ some (none, record small { heap = (bump.kmalloc small.heap c).1 })))
    ⊎ ((t : Ramfs ℕ) × (ramfs_write bump small 3 10 3 0 ≡ some (some 3, t))
        × Written small 3 10 3 0 t
        × Bounded t 3)
ramfs_write_lem_example =
    ramfs_write_lem bump small 3 10 3 0 refl (omega arith) small-Bounded (inr (omega arith))
      small-Fresh

ramfs_read-ramfs_write_example :
    let r = ramfs_read written 3 50 3 0 in
    (r.0 ≡ some 3) × ((i : ℕ) → i < 3 → r.1.memory (50 + i) ≡ small.memory (10 + i))
unfolding ramfs_write written grown
ramfs_read-ramfs_write_example =
    ramfs_read-ramfs_write bump small written 3 10 3 0 50 refl (omega arith) (omega arith)
      small-Bounded (inr (omega arith)) small-Fresh write_returns (inl (omega arith))

ramfs_write-Bounded_example : Bounded written 3 × Untouched bump small 3 10 3 written
ramfs_write-Bounded_example =
    ramfs_write-Bounded bump small 3 10 3 0 (some 3) written (omega arith) small-Bounded
      write_returns

ramfs_create_lem_example :
    Created small 1 (b'b' ∷ []) vnode_file (ramfs_create bump small 1 (b'b' ∷ []) vnode_file)
    × IsDirectory (ramfs_create bump small 1 (b'b' ∷ []) vnode_file).1 1
ramfs_create_lem_example =
    ramfs_create_lem bump bump-Lawful small 1 (b'b' ∷ []) vnode_file small-IsDirectory small-InUse
      (omega arith)

ramfs_unlink_lem_example : Unlinked small 1 (b'a' ∷ []) (ramfs_unlink bump small 1 (b'a' ∷ []))
ramfs_unlink_lem_example = ramfs_unlink_lem bump small 1 (b'a' ∷ []) small-IsDirectory

-- The new name is found, and the old one still.
create_then_lookup :
    let t = (ramfs_create bump small 1 (b'b' ∷ []) vnode_file).1 in
    (ramfs_lookup t 1 (b'b' ∷ []) ≡ some 118) × (ramfs_lookup t 1 (b'a' ∷ []) ≡ some 3)
unfolding ramfs_create ramfs_lookup same_name find
create_then_lookup = (refl, refl)

unlink_then_lookup : ramfs_lookup (ramfs_unlink bump small 1 (b'a' ∷ [])).1 1 (b'a' ∷ []) ≡ none
unfolding ramfs_unlink ramfs_lookup same_name find
unlink_then_lookup = refl

readdir_first : ramfs_readdir small 1 0 ≡ some (b'a' ∷ [], 3)
unfolding ramfs_readdir
readdir_first = refl
