-- ===== src/Vfs/Descriptors.antt =====
-- `fd_table_init`, `fd_read` and `fd_write` of kernel/proc/fd.c. The three vnodes of kernel/fs/devfs.c are arguments.
use orion_final.Base.{ℕ, ◌==◌, leb, if◌then◌else◌, Option, none, some}
use orion_final.Base.Update.{update}
use orion_final.Base.Words.{minus_one}
use orion_final.Files.{Files, Table, fd_max}
use orion_final.Vfs.{Vnodes, vfs_open_vnode, vfs_read, vfs_write}

-- a pointer to an open file as the entry of a table
abbrev pub slot : ℕ → Option ℕ
slot f = if f == 0 then none else some f

module _ {R : Type 0} (ops : Vnodes R) where
  pub fd_table_init : Files R → ℕ → ℕ → ℕ → Files R × Table
  fd_table_init s stdin stdout stderr =
      let (f0, s0) = vfs_open_vnode ops s stdin 0 in
      let (f1, s1) = vfs_open_vnode ops s0 stdout 1 in
      let (f2, s2) = vfs_open_vnode ops s1 stderr 1 in
      (s2, update (update (update (λ _. none) 0 (slot f0)) 1 (slot f1)) 2 (slot f2))

  pub fd_read : Files R → Table → ℕ → ℕ → ℕ → ℕ × Files R
  fd_read s table fd buf len =
      if leb fd_max fd
      then (minus_one, s)
      else elim (table fd) [ none ↦ (minus_one, s) | some f ↦ vfs_read ops s f buf len ]

  -- `none`: it does not return.
  pub fd_write : Files R → Table → ℕ → ℕ → ℕ → Option (ℕ × Files R)
  fd_write s table fd buf len =
      if leb fd_max fd
      then some (minus_one, s)
      else elim (table fd) [ none ↦ some (minus_one, s) | some f ↦ vfs_write ops s f buf len ]
