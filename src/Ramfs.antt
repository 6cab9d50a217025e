-- ===== src/Ramfs.antt =====
-- kernel/fs/ramfs.c, with `vnode_alloc` of kernel/fs/vfs.c. A pointer is its address, and the null
-- pointer is 0. The vnodes and the inodes stand at their addresses; the directory entries of an inode,
-- which only its own list reaches, are that list, each with the address that `kfree` is given. A name is
-- the list of its bytes before the zero byte, and a test `strcmp(a, b) == 0` is the equality of the two
-- lists (Strings/Compare relates them). File data and callers' buffers are ranges of one memory. `kmalloc`
-- and `kfree` are the parameter `Allocator`; their headers are not part of that
-- memory, nor are the vnodes and the inodes: of a write that overruns its buffer (see Ramfs/Bounds) the model says
-- which bytes it writes, not what else of the kernel stands there.
pub mod Grow
pub mod File
pub mod Move
pub mod Write
pub mod Bounds
pub mod Contents
pub mod Names
pub mod Directory
pub mod Create
mod Examples
use orion_final.Base.{
  ℕ, zero, suc, ◌+◌, ◌-◌, ◌*◌, Bool, true, false, not, ◌&&◌, ◌==◌, ltb, if◌then◌else◌, Option, none,
  some, List, [], ◌∷◌, take,
}
use orion_final.Base.Update.{update}
use orion_final.Base.Words.{u32, sub32}
use orion_final.Strings.{Memory, memcpy}

abbrev pub Name : Type 0
Name = List ℕ

-- `strcmp(a, b) == 0`
unfoldable pub same_name : Name → Name → Bool
same_name [] [] = true
same_name [] (y ∷ ys) = false
same_name (x ∷ xs) [] = false
same_name (x ∷ xs) (y ∷ ys) = x == y && same_name xs ys

abbrev pub vfs_name_max : ℕ
vfs_name_max = 64

abbrev pub vnode_file : ℕ
vnode_file = 1

abbrev pub vnode_dir : ℕ
vnode_dir = 2

-- `vnode_t` but for `refcount`, which is `vnode_refcount` of Files; the inode is `data`.
pub record Vnode : Type 0 where
  pub kind : ℕ
  pub size : ℕ
  pub inode : ℕ

-- `ramfs_dirent_t`
pub record Dirent : Type 0 where
  pub address : ℕ
  pub name : Name
  pub vnode : ℕ

-- `ramfs_inode_t`
pub record Inode : Type 0 where
  pub buf : ℕ
  pub capacity : ℕ
  pub children : List Dirent
  pub child_count : ℕ

-- `kmalloc` returns 0 when it fails.
pub record Allocator (H : Type 0) : Type 0 where
  pub kmalloc : H → ℕ → ℕ × H
  pub kfree : H → ℕ → H

pub record Ramfs (H : Type 0) : Type 0 where
  pub vnodes : ℕ → Vnode
  pub inodes : ℕ → Inode
  pub memory : Memory
  pub heap : H

-- The loop `while (new_cap < end) new_cap *= 2`, at most `fuel` rounds of its test: `none` when it has
-- not ended by then.
pub grown : ℕ → ℕ → ℕ → Option ℕ
grown zero new_cap end = none
grown (suc fuel) new_cap end =
    let rest = grown fuel (u32 (new_cap * 2)) end in if ltb new_cap end then rest else some new_cap

-- A 32-bit number is doubled at most 32 times before it is 0 or large enough.
abbrev pub grow_rounds : ℕ
grow_rounds = 33

-- the vnode of the first entry with this name
unfoldable pub find : List Dirent → Name → Option ℕ
find [] name = none
find (d ∷ ds) name = if same_name d.name name then some d.vnode else find ds name

-- the entries without the first one of this name, which is returned too
pub detach : List Dirent → Name → Option (Dirent × List Dirent)
detach [] name = none
detach (d ∷ ds) name =
    if same_name d.name name
    then some (d, ds)
    else elim (detach ds name) [ none ↦ none | some (x, rest) ↦ some (x, d ∷ rest) ]

-- the entry number `index`
pub entry : List Dirent → ℕ → Option Dirent
entry [] index = none
entry (d ∷ ds) zero = some d
entry (d ∷ ds) (suc index) = entry ds index

module _ {H : Type 0} where
  abbrev pub inode_of : Ramfs H → ℕ → Inode
  inode_of s v = s.inodes (s.vnodes v).inode

  abbrev pub set_inode : Ramfs H → ℕ → Inode → Ramfs H
  set_inode s v ino = record s { inodes = update s.inodes (s.vnodes v).inode ino }

  abbrev pub set_size : Ramfs H → ℕ → ℕ → Ramfs H
  set_size s v n = record s { vnodes = update s.vnodes v (record (s.vnodes v) { size = n }) }

  -- `none` is -1; the bytes are copied to `buf`.
  unfoldable pub ramfs_read : Ramfs H → ℕ → ℕ → ℕ → ℕ → Option ℕ × Ramfs H
  ramfs_read s v buf len offset =
      if not ((s.vnodes v).kind == vnode_file)
      then (none, s)
      else (if ltb offset (s.vnodes v).size
          then (let avail = sub32 (s.vnodes v).size offset in
              let n = if ltb len avail then len else avail in
              (some n, record s { memory = memcpy s.memory buf ((inode_of s v).buf + offset) n }))
          else (some 0, s))

  unfoldable pub ramfs_lookup : Ramfs H → ℕ → Name → Option ℕ
  unfolding find
  ramfs_lookup s dir name =
      if (s.vnodes dir).kind == vnode_dir then find (inode_of s dir).children name else none

  -- `none` is -1; the name and the vnode are what is stored through the two pointers.
  pub ramfs_readdir : Ramfs H → ℕ → ℕ → Option (Name × ℕ)
  unfolding entry
  ramfs_readdir s dir index =
      if (s.vnodes dir).kind == vnode_dir
      then elim (entry (inode_of s dir).children index) [
        | none ↦ none
        | some d ↦ some (take (vfs_name_max - 1) d.name, d.vnode)
      ]
      else none

  -- `memcpy`, and the new size
  pub store : Ramfs H → ℕ → ℕ → ℕ → ℕ → ℕ → Ramfs H
  store s v buf len offset end =
      let copied = record s { memory = memcpy s.memory ((inode_of s v).buf + offset) buf len } in
      if ltb (s.vnodes v).size end then set_size copied v end else copied

  -- the rest of `ramfs_write` after the growth of the buffer
  pub write_grown : ℕ → ℕ → ℕ → ℕ → ℕ → Option (Bool × Ramfs H) → Option (Option ℕ × Ramfs H)
  unfolding store
  write_grown v buf len offset end none = none
  write_grown v buf len offset end (some (false, s)) = some (none, s)
  write_grown v buf len offset end (some (true, s)) = some (some len, store s v buf len offset end)

  module _ (alloc : Allocator H) where
    abbrev pub free : Ramfs H → ℕ → Ramfs H
    free s p = record s { heap = alloc.kfree s.heap p }

    -- `vnode_alloc`, with the operations of this file system: 0 is the null pointer. Its write
    -- `refcount = 0` is made where the counts are, by `count_new` of Vfs.
    pub vnode_alloc : Ramfs H → ℕ → ℕ → ℕ × Ramfs H
    vnode_alloc s kind inode =
        let (v, heap) = alloc.kmalloc s.heap 20 in
        if v == 0 then (0, record s { heap = heap }) else (
          v,
          record s {
            heap = heap;
            vnodes = update s.vnodes v (record { kind = kind; size = 0; inode = inode });
          },
        )

    pub ramfs_new_vnode : Ramfs H → ℕ → ℕ × Ramfs H
    unfolding vnode_alloc
    ramfs_new_vnode s kind =
        let (ino, heap) = alloc.kmalloc s.heap 16 in
        if ino == 0
        then (0, record s { heap = heap })
        else (let empty : Inode = record {
          buf = 0;
          capacity = 0;
          children = [];
          child_count = 0;
        } in
            let (v, s') =
              vnode_alloc (record s { heap = heap; inodes = update s.inodes ino empty }) kind ino in
            if v == 0 then (0, free s' ino) else (v, s'))

    -- `trunc` is whether the flags have `O_TRUNC`; the result is always 0.
    unfoldable pub ramfs_open : Ramfs H → ℕ → Bool → Ramfs H
    ramfs_open s v trunc =
        if trunc && ((s.vnodes v).kind == vnode_file)
        then (let ino = inode_of s v in
            let reset = set_size (set_inode s v (record ino { capacity = 0 })) v 0 in
            if ino.buf == 0
            then reset
            else free (set_inode reset v (record ino { capacity = 0; buf = 0 })) ino.buf)
        else s

    -- The new buffer of `c` bytes, with the data copied and the old buffer freed. `false` is -1.
    pub move_to : Ramfs H → ℕ → ℕ → Bool × Ramfs H
    move_to s v c =
        let (p, heap) = alloc.kmalloc s.heap c in
        let ino = inode_of s v in
        if p == 0 then (false, record s { heap = heap }) else (
          true,
          record s {
            heap = if ino.buf == 0 then heap else alloc.kfree heap ino.buf;
            memory =
                if not (ino.buf == 0) && not ((s.vnodes v).size == 0)
                then memcpy s.memory p ino.buf (s.vnodes v).size
                else s.memory;
            inodes = update s.inodes (s.vnodes v).inode (record ino { buf = p; capacity = c });
          },
        )

    -- `none`: the loop does not end.
    pub grow : Ramfs H → ℕ → ℕ → Option (Bool × Ramfs H)
    unfolding move_to
    grow s v end =
        let capacity = (inode_of s v).capacity in
        if ltb capacity end
        then elim (grown grow_rounds (if capacity == 0 then 64 else capacity) end) [
          | none ↦ none
          | some c ↦ some (move_to s v c)
        ]
        else some (true, s)

    -- `none`: it does not return; `some (none, _)`: it returns -1.
    pub ramfs_write : Ramfs H → ℕ → ℕ → ℕ → ℕ → Option (Option ℕ × Ramfs H)
    unfolding grow write_grown
    ramfs_write s v buf len offset =
        if not ((s.vnodes v).kind == vnode_file)
        then some (none, s)
        else (let end = u32 (offset + len) in write_grown v buf len offset end (grow s v end))

    -- `false` is -1.
    pub ramfs_add_dirent : Ramfs H → ℕ → Name → ℕ → Bool × Ramfs H
    ramfs_add_dirent s dir name child =
        let (d, heap) = alloc.kmalloc s.heap 72 in
        let ino = inode_of s dir in
        if d == 0
        then (false, record s { heap = heap })
        else (let added : Dirent = record {
          address = d;
          name = take (vfs_name_max - 1) name;
          vnode = child;
        } in
            (
              true,
              set_inode (record s { heap = heap }) dir
                  (record ino {
                    children = added ∷ ino.children;
                    child_count = u32 (ino.child_count + 1);
                  }),
            ))

    -- a new vnode with its entry
    pub add_new : Ramfs H → ℕ → Name → ℕ → Option ℕ × Ramfs H
    unfolding ramfs_new_vnode ramfs_add_dirent
    add_new s dir name kind =
        let (child, s') = ramfs_new_vnode s kind in
        if child == 0
        then (none, s')
        else (let (ok, s'') = ramfs_add_dirent s' dir name child in
            if ok
            then (some child, s'')
            else (none, free (free s'' (s''.vnodes child).inode) child))

    -- `none` is -1, otherwise the vnode that is stored through `out`.
    unfoldable pub ramfs_create : Ramfs H → ℕ → Name → ℕ → Option ℕ × Ramfs H
    unfolding ramfs_lookup add_new
    ramfs_create s dir name kind =
        if (s.vnodes dir).kind == vnode_dir
        then elim (ramfs_lookup s dir name) [
          | some existing ↦ (some existing, s)
          | none ↦ add_new s dir name kind
        ]
        else (none, s)

    pub ramfs_mkdir_op : Ramfs H → ℕ → Name → Option ℕ × Ramfs H
    unfolding ramfs_create
    ramfs_mkdir_op s dir name = ramfs_create s dir name vnode_dir

    -- what `ramfs_unlink` frees once the entry is off the list
    pub release : Ramfs H → Dirent → Ramfs H
    release s d =
        let ci = (s.vnodes d.vnode).inode in
        let s' =
          if ci == 0
          then s
          else free (if (s.inodes ci).buf == 0 then s else free s (s.inodes ci).buf) ci in
        free (free s' d.vnode) d.address

    -- `false` is -1.
    pub ramfs_unlink : Ramfs H → ℕ → Name → Bool × Ramfs H
    unfolding detach release
    ramfs_unlink s dir name =
        if (s.vnodes dir).kind == vnode_dir
        then (let ino = inode_of s dir in
            elim (detach ino.children name) [
              | none ↦ (false, s)
              | some (d, rest) ↦ (
                true,
                release
                    (set_inode s dir
                      (record ino { children = rest; child_count = sub32 ino.child_count 1 }))
                    d,
              )
            ])
        else (false, s)
