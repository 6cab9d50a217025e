-- ===== src/Files.antt =====
-- kernel/proc/fd.c, with the reference counts of open files in kernel/fs/vfs.c (`vfs_close`,
-- `vnode_unref`) and `sys_dup2` of kernel/syscall/syscall.c. A `file_t *` is its address, a table of
-- descriptors a function from the slot. A descriptor is an `int`: a negative one is a word from 2 ^ 31
-- on, and so fails `fd >= FD_MAX` as it fails `fd < 0`.
pub mod Refs
pub mod Slots
mod Examples
use orion_final.Base.{
  ℕ, zero, suc, ◌+◌, ◌-◌, Bool, true, false, not, ◌||◌, ◌==◌, ltb, leb, if◌then◌else◌, Option, none,
  some,
}
use orion_final.Base.Update.{update}
use orion_final.Base.Words.{u32, sub32}

abbrev pub fd_max : ℕ
fd_max = 16

-- `file_t`
pub record File : Type 0 where
  pub vnode : ℕ
  pub offset : ℕ
  pub flags : ℕ
  pub refcount : ℕ

-- The open files, the reference counts of the vnodes, and what the vnodes' own code keeps.
pub record Files (R : Type 0) : Type 0 where
  pub files : ℕ → File
  pub vnode_refcount : ℕ → ℕ
  pub resources : R

-- The `close` operation of a vnode, where it has one, and `kfree`.
pub record Backend (R : Type 0) : Type 0 where
  pub close : R → ℕ → R
  pub kfree : R → ℕ → R

abbrev pub Table : Type 0
Table = ℕ → Option ℕ

module _ {R : Type 0} where
  pub vnode_unref : Files R → ℕ → Files R
  vnode_unref s v =
      if ltb 0 (s.vnode_refcount v)
      then record s { vnode_refcount = update s.vnode_refcount v (s.vnode_refcount v - 1) }
      else s

  abbrev pub set_refcount : Files R → ℕ → ℕ → Files R
  set_refcount s f n = record s { files = update s.files f (record (s.files f) { refcount = n }) }

  -- `f->refcount++`
  pub share : Files R → ℕ → Files R
  share s f = set_refcount s f (u32 ((s.files f).refcount + 1))

  module _ (env : Backend R) where
    -- the end of `vfs_close`, for the last reference
    pub release : Files R → ℕ → Files R
    unfolding vnode_unref
    release s f =
        let v = (s.files f).vnode in
        let closed = vnode_unref (record s { resources = env.close s.resources v }) v in
        record closed { resources = env.kfree closed.resources f }

    pub vfs_close : Files R → ℕ → Files R
    unfolding release
    vfs_close s f =
        let n = sub32 (s.files f).refcount 1 in
        if ltb 0 n then set_refcount s f n else release (set_refcount s f n) f

    -- a slot of a table is closed
    pub close_slot : Files R → Table → ℕ → Files R × Table
    unfolding vfs_close
    close_slot s table fd = elim (table fd) [
      | none ↦ (s, table)
      | some f ↦ (vfs_close s f, update table fd none)
    ]

    pub fd_close : Files R → Table → ℕ → Files R × Table
    unfolding close_slot
    fd_close s table fd = if leb fd_max fd then (s, table) else close_slot s table fd

    -- the slots from `i` on, `left` of them
    pub close_slots : Files R → Table → ℕ → ℕ → Files R × Table
    close_slots s table i zero = (s, table)
    close_slots s table i (suc left) =
        let (s', table') = close_slot s table i in close_slots s' table' (i + 1) left

    pub fd_table_close_all : Files R → Table → Files R × Table
    unfolding close_slots
    fd_table_close_all s table = close_slots s table 0 fd_max

    -- `sys_dup2` of a current process, with its table; `none` is -1.
    pub dup2 : Files R → Table → ℕ → ℕ → Option ℕ × Files R × Table
    dup2 s table oldfd newfd =
        if leb fd_max oldfd || leb fd_max newfd then (none, s, table) else elim (table oldfd) [
          | none ↦ (none, s, table)
          | some f ↦
              if oldfd == newfd
              then (some newfd, s, table)
              else (let (s', table') = fd_close s table newfd in
                  (some newfd, share s' f, update table' newfd (some f)))
        ]

  pub clone_slots : Files R → Table → Table → ℕ → ℕ → Files R × Table
  unfolding share
  clone_slots s src dst i zero = (s, dst)
  clone_slots s src dst i (suc left) =
      let s' : Files R = elim (src i) [ none ↦ s | some f ↦ share s f ] in
      clone_slots s' src (update dst i (src i)) (i + 1) left

  pub fd_table_clone : Files R → Table → Table → Files R × Table
  unfolding clone_slots
  fd_table_clone s src dst = clone_slots s src dst 0 fd_max

-- the lowest free slot from `i` on, among `left` of them
pub free_slot : Table → ℕ → ℕ → Option ℕ
free_slot table i zero = none
free_slot table i (suc left) =
    let rest = free_slot table (i + 1) left in elim (table i) [ none ↦ some i | some f ↦ rest ]

-- `none` is -1.
pub fd_install : Table → ℕ → Option ℕ × Table
unfolding free_slot
fd_install table f = elim (free_slot table 0 fd_max) [
  | none ↦ (none, table)
  | some i ↦ (some i, update table i (some f))
]
