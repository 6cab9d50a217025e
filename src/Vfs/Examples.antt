-- ===== src/Vfs/Examples.antt =====
-- Runs of kernel/fs/vfs.c on a small file system.
use orion_final.Base.{ℕ, ◌+◌, ◌≤◌, ◌≡◌, refl, arith, inl, inr, some, true, false, [], ◌∷◌}
use orion_final.Base.Update.{update}
use orion_final.Files.{Files}
use orion_final.Ramfs.{
  Inode, Allocator, Ramfs, vnode_file, vnode_dir, find, same_name, ramfs_create, ramfs_lookup,
  ramfs_open,
}
use orion_final.Ramfs.File.{Bounded}
use orion_final.Ramfs.Directory.{IsDirectory}
use orion_final.Ramfs.Create.{Lawful, InUse}
use orion_final.Vfs.{
  Mount, MountTable, walk, component, skip_slashes, slash, find_mount, vfs_resolve, split_path,
  vfs_open, vfs_write,
}
use orion_final.Vfs.Mounts.{LongestCover, find_mount-LongestCover}
use orion_final.Vfs.Walk.{absolute, follow, vfs_resolve-absolute}
use orion_final.Vfs.Split.{split_path-append}
use orion_final.Vfs.Offsets.{vfs_write_lem, FileWritten}
use orion_final.Vfs.Create.{vfs_resolve-vfs_open}
use orion_final.Vfs.Backend.{ramfs_ops}

-- An allocator that never reuses a block: the state is the last address given.
abbrev bump : Allocator ℕ
bump = record { kmalloc = λ h n. (h + 1, h + 1 + n); kfree = λ h p. h }

abbrev Used : ℕ → ℕ → Type 0
Used h p = p ≤ h

bump-Lawful : Lawful bump Used
bump-Lawful = record { fresh = λ h n p l e. absurd (omega arith); kept = λ h n p l. omega arith }

abbrev empty_inode : Inode
empty_inode = record { buf = 0; capacity = 0; children = []; child_count = 0 }

-- the root directory at 1 with its inode at 2, and in it the file "a" at 3 with its inode at 4, which
-- has 5 bytes at 200
abbrev tree : Ramfs ℕ
tree = record {
  vnodes =
      update (λ _. record { kind = vnode_file; size = 5; inode = 4 }) 1
        (record { kind = vnode_dir; size = 0; inode = 2 });
  inodes =
      update (λ _. record empty_inode { buf = 200; capacity = 64 }) 2
        (record empty_inode {
          children = record { address = 5; name = b'a' ∷ []; vnode = 3 } ∷ [];
          child_count = 1;
        });
  memory = λ p. p;
  heap = 300;
}

-- the file at 7 is open at the offset 2
abbrev files : Files (Ramfs ℕ)
files = record {
  files = λ _. record { vnode = 3; offset = 2; flags = 0; refcount = 1 };
  vnode_refcount = λ _. 1;
  resources = tree;
}

abbrev root_mount : Mount
root_mount = record { path = slash ∷ []; root = 1; active = true }

abbrev mounts : MountTable
mounts = record {
  entries = root_mount ∷ record { path = []; root = 0; active = false } ∷ [];
  count = 1;
}

find_mount-LongestCover_example :
    LongestCover mounts.entries (slash ∷ b'a' ∷ []) (find_mount mounts (slash ∷ b'a' ∷ []))
find_mount-LongestCover_example = find_mount-LongestCover mounts (slash ∷ b'a' ∷ [])

-- "//a/" is found.
vfs_resolve-absolute_example :
    vfs_resolve (ramfs_ops bump) tree mounts (absolute ((1, b'a' ∷ []) ∷ []) 1)
    ≡ follow (ramfs_ops bump) tree 1 ((1, b'a' ∷ []) ∷ [])
unfolding find_mount
vfs_resolve-absolute_example =
    vfs_resolve-absolute (ramfs_ops bump) tree mounts root_mount ((1, b'a' ∷ []) ∷ []) 1
      (omega arith, omega arith, (λ e. absurd (omega arith), tt), tt) (λ e. cc) refl refl

split_path-append_example : split_path (b'd' ∷ slash ∷ b'a' ∷ []) ≡ some (b'd' ∷ [], b'a' ∷ [])
split_path-append_example =
    split_path-append (b'd' ∷ []) (b'a' ∷ []) (λ e. absurd (omega arith), tt) (omega arith)

tree-Bounded : Bounded tree 3
tree-Bounded = record { within = omega arith; buffered = λ e. absurd (omega arith) }

vfs_write_lem_example : FileWritten bump files 7 20 10 (vfs_write (ramfs_ops bump) files 7 20 10)
vfs_write_lem_example =
    vfs_write_lem bump files 7 20 10 (omega arith) (omega arith) (omega arith) (omega arith)
      (omega arith) (omega arith) refl tree-Bounded (inl (omega arith))
      (λ c _. (inr (omega arith), inr (omega arith)))

tree-IsDirectory : IsDirectory tree 1
unfolding find
tree-IsDirectory = record {
  kind = refl;
  listing = record { distinct = (refl, tt); within = (omega arith, tt); counted = refl };
}

tree-InUse : InUse Used tree 1
tree-InUse = record { vnode = omega arith; inode = omega arith }

opened_at : (vfs_open (ramfs_ops bump) files mounts (slash ∷ b'b' ∷ []) 5).0 ≡ 412
unfolding find_mount vfs_open vfs_resolve split_path find same_name ramfs_lookup ramfs_create walk
    component skip_slashes ramfs_open
opened_at = refl

vfs_resolve-vfs_open_example :
    let r = vfs_open (ramfs_ops bump) files mounts (slash ∷ b'b' ∷ []) 5 in
    (vfs_resolve (ramfs_ops bump) r.1.resources mounts (slash ∷ b'b' ∷ [])
      ≡ some (r.1.files r.0).vnode)
    × ((r.1.files r.0).refcount ≡ 1)
    × (r.1.vnode_refcount (r.1.files r.0).vnode ≡ 1)
unfolding find_mount vfs_open vfs_resolve split_path find same_name ramfs_lookup ramfs_create walk
    component skip_slashes
vfs_resolve-vfs_open_example =
    vfs_resolve-vfs_open bump mounts root_mount refl bump-Lawful files (b'b' ∷ []) 5 refl refl
      tree-IsDirectory tree-InUse (λ e. absurd (omega arith), tt) (omega arith) (omega arith) refl
      refl refl (λ e. absurd (omega (arith, opened_at, e)))
