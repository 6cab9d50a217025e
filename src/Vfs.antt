-- ===== src/Vfs.antt =====
-- kernel/fs/vfs.c but for `vnode_alloc`, which is in Ramfs, and `vnode_unref` and `vfs_close`, which are in Files. A path
-- is the list of its bytes before the zero byte; a null path is not modelled. What the operations of a
-- vnode do, its type and its size, and `kmalloc`, are the parameter `Vnodes`, over a state `R`. The open files
-- and the reference counts of vnodes are those of Files. A result of type `int` is a word of 32 bits.
pub mod Mounts
pub mod Walk
pub mod Split
pub mod Backend
pub mod Descriptors
pub mod Offsets
pub mod Create
mod Examples
use orion_final.Base.{
  ℕ, zero, suc, ◌+◌, ◌-◌, ◌^◌, Bool, true, false, not, ◌&&◌, ◌||◌, ◌==◌, ltb, leb, if◌then◌else◌,
  Option, none, some, List, [], ◌∷◌, take, drop, length, bit_and,
}
use orion_final.Base.Update.{update}
use orion_final.Base.Words.{u32, minus_one}
use orion_final.Files.{File, Files}
use orion_final.Ramfs.{Name, vfs_name_max}

abbrev pub vfs_mount_max : ℕ
vfs_mount_max = 8

abbrev pub vfs_path_max : ℕ
vfs_path_max = 128

abbrev pub slash : ℕ
slash = b'/'

-- `flags & O_CREAT`, `flags & O_APPEND`
abbrev pub o_creat : ℕ → Bool
o_creat flags = not (bit_and flags 4 == 0)

abbrev pub o_append : ℕ → Bool
o_append flags = not (bit_and flags 16 == 0)

-- `xs[i]`, which is the zero byte at the end
abbrev pub byte_at : Name → ℕ → ℕ
byte_at [] i = 0
byte_at (x ∷ xs) zero = x
byte_at (x ∷ xs) (suc i) = byte_at xs i

-- `mount_entry_t`
pub record Mount : Type 0 where
  pub path : Name
  pub root : ℕ
  pub active : Bool

pub record MountTable : Type 0 where
  pub entries : List Mount
  pub count : ℕ

pub clear_mounts : List Mount → List Mount
clear_mounts [] = []
clear_mounts (m ∷ ms) = record m { active = false; root = 0 } ∷ clear_mounts ms

pub vfs_init : MountTable → MountTable
unfolding clear_mounts
vfs_init t = record { entries = clear_mounts t.entries; count = 0 }

-- the entries with the first free one filled in
pub fill_mount : List Mount → Name → ℕ → Option (List Mount)
fill_mount [] path root = none
fill_mount (m ∷ ms) path root =
    if m.active
    then elim (fill_mount ms path root) [ none ↦ none | some rest ↦ some (m ∷ rest) ]
    else some (record { path = take (vfs_path_max - 1) path; root = root; active = true } ∷ ms)

-- `false` is -1.
pub vfs_mount : MountTable → Name → ℕ → Bool × MountTable
unfolding fill_mount
vfs_mount t path root =
    if root == 0 || leb vfs_mount_max t.count
    then (false, t)
    else elim (fill_mount t.entries path root) [
      | none ↦ (false, t)
      | some entries ↦ (true, record { entries = entries; count = u32 (t.count + 1) })
    ]

-- `strncmp(mp, path, strlen(mp)) == 0`
pub is_prefix : Name → Name → Bool
is_prefix [] path = true
is_prefix (x ∷ xs) [] = false
is_prefix (x ∷ xs) (y ∷ ys) = x == y && is_prefix xs ys

-- the conditions of `find_mount` on an entry but for its length
pub matches : Mount → Name → Bool
unfolding is_prefix
matches m path =
    let mlen = length m.path in
    m.active
    && (is_prefix m.path path
        && ((mlen == 1 && byte_at m.path 0 == slash)
            || (byte_at path mlen == slash || byte_at path mlen == 0)))

-- the loop of `find_mount`, from the best entry so far and its length
pub find_best : List Mount → Name → Option Mount → ℕ → Option Mount
unfolding matches
find_best [] path best best_len = best
find_best (m ∷ ms) path best best_len =
    let better = matches m path && ltb best_len (length m.path) in
    find_best ms path (if better then some m else best) (if better then length m.path else best_len)

pub find_mount : MountTable → Name → Option Mount
unfolding find_best
find_mount t path = find_best t.entries path none 0

-- `while (*rest == '/') rest++`
pub skip_slashes : Name → Name
skip_slashes [] = []
skip_slashes (x ∷ xs) = if x == slash then skip_slashes xs else x ∷ xs

-- the loop that extracts a component, with room for `n` bytes, and the rest after it
pub component : ℕ → Name → Name × Name
component n [] = ([], [])
component zero (x ∷ xs) = ([], x ∷ xs)
component (suc n) (x ∷ xs) =
    let (c, rest) = component n xs in if x == slash then ([], x ∷ xs) else (x ∷ c, rest)

-- the loop that splits a path, from the byte before `i` down: the index of the slash
pub last_slash : Name → ℕ → Option ℕ
last_slash path zero = none
last_slash path (suc i) = if byte_at path i == slash then some i else last_slash path i

-- the parent's path and the name in it: `none` where there is no slash
pub split_path : Name → Option (Name × Name)
unfolding last_slash
split_path path =
    let parent = take (vfs_path_max - 1) path in
    elim (last_slash parent (length parent)) [
      | none ↦ none
      | some k ↦ some (if k == 0 then slash ∷ [] else take k parent, drop (k + 1) path)
    ]

pub record Vnodes (R : Type 0) : Type 0 where
  -- `v->type == VNODE_DIR`
  pub is_dir : R → ℕ → Bool
  pub size : R → ℕ → ℕ
  pub set_size : R → ℕ → ℕ → R
  -- `none` where there is no such operation, it fails or stores a null pointer
  pub lookup : R → ℕ → Name → Option ℕ
  -- with `VNODE_FILE`
  pub create : R → ℕ → Name → Option ℕ × R
  -- `false` is -1, also where there is no such operation.
  pub mkdir : R → ℕ → Name → Bool × R
  -- `true` where there is no such operation
  pub open_op : R → ℕ → ℕ → Bool × R
  -- -1 where there is no such operation; a write may not return.
  pub read : R → ℕ → ℕ → ℕ → ℕ → ℕ × R
  pub write : R → ℕ → ℕ → ℕ → ℕ → Option (ℕ × R)
  -- 0 when it fails
  pub kmalloc : R → ℕ → ℕ × R

-- `n > 0`, for a word that is an `int`
abbrev pub positive : ℕ → Bool
positive n = ltb 0 n && ltb n (2 ^ 31)

module _ {R : Type 0} where
  abbrev pub set_offset : Files R → ℕ → ℕ → Files R
  set_offset s f n = record s { files = update s.files f (record (s.files f) { offset = n }) }

  -- `vnode_ref`
  pub vnode_ref : Files R → ℕ → Files R
  vnode_ref s v = record s {
    vnode_refcount = update s.vnode_refcount v (u32 (s.vnode_refcount v + 1));
  }

module _ {R : Type 0} (ops : Vnodes R) where
  -- the loop over the components, at most `fuel` rounds of it
  pub walk : R → ℕ → ℕ → Name → Option ℕ
  walk s fuel cur [] = some cur
  walk s zero cur (x ∷ xs) = none
  walk s (suc fuel) cur (x ∷ xs) =
      let (c, rest) = component (vfs_name_max - 1) (x ∷ xs) in
      elim (ops.lookup s cur c) [ none ↦ none | some next ↦ walk s fuel next (skip_slashes rest) ]

  -- A round takes a byte at least.
  pub vfs_resolve : R → MountTable → Name → Option ℕ
  unfolding walk
  vfs_resolve s t path =
      if byte_at path 0 == slash
      then elim (find_mount t path) [
        | none ↦ none
        | some m ↦
            let rest = skip_slashes (drop (length m.path) path) in walk s (length rest) m.root rest
      ]
      else none

  -- 0 is the null pointer.
  pub vfs_open_vnode : Files R → ℕ → ℕ → ℕ × Files R
  unfolding vnode_ref
  vfs_open_vnode s v flags =
      if v == 0
      then (0, s)
      else (let (ok, opened) = ops.open_op s.resources v flags in
          let (f, allocated) = ops.kmalloc opened 16 in
          if not ok
          then (0, record s { resources = opened })
          else (if f == 0
              then (0, record s { resources = allocated })
              else (let file : File = record {
                vnode = v;
                offset = if o_append flags then ops.size allocated v else 0;
                flags = u32 flags;
                refcount = 1;
              } in
                  (
                    f,
                    vnode_ref (record s { resources = allocated; files = update s.files f file }) v,
                  ))))

  -- The state `r` after the creation of `v`: `vnode_alloc` has made its reference count 0, unless the
  -- name was there before. The count of a directory that `vfs_mkdir` makes is not followed.
  pub count_new : Files R → ℕ → Name → ℕ → R → Files R
  count_new s dir name v r = elim (ops.lookup s.resources dir name) [
    | none ↦ record s { resources = r; vnode_refcount = update s.vnode_refcount v 0 }
    | some old ↦ record s { resources = r }
  ]

  -- the branch of `vfs_open` for a path that is not there
  pub open_new : Files R → MountTable → Name → ℕ → ℕ × Files R
  unfolding vfs_open_vnode count_new
  open_new s t path flags = if not (o_creat flags) then (0, s) else elim (split_path path) [
    | none ↦ (0, s)
    | some (parent, filename) ↦ elim (vfs_resolve s.resources t parent) [
      | none ↦ (0, s)
      | some dir ↦
          if not (ops.is_dir s.resources dir)
          then (0, s)
          else (let (made, r) = ops.create s.resources dir filename in
              elim made [
                | none ↦ (0, record s { resources = r })
                | some newfile ↦ vfs_open_vnode (count_new s dir filename newfile r) newfile flags
              ])
    ]
  ]

  pub vfs_open : Files R → MountTable → Name → ℕ → ℕ × Files R
  unfolding open_new
  vfs_open s t path flags = elim (vfs_resolve s.resources t path) [
    | none ↦ open_new s t path flags
    | some v ↦ vfs_open_vnode s v flags
  ]

  pub vfs_read : Files R → ℕ → ℕ → ℕ → ℕ × Files R
  vfs_read s f buf len =
      if f == 0 || ((s.files f).vnode == 0 || (buf == 0 || len == 0))
      then (minus_one, s)
      else (let (n, r) = ops.read s.resources (s.files f).vnode buf len (s.files f).offset in
          let done = record s { resources = r } in
          (n, if positive n then set_offset done f (u32 ((s.files f).offset + n)) else done))

  -- after the write of `n` bytes: the offset, and the size where it is less
  pub advance : Files R → ℕ → ℕ → Files R
  advance s f n =
      let v = (s.files f).vnode in
      let offset = u32 ((s.files f).offset + n) in
      let moved = set_offset s f offset in
      if ltb (ops.size s.resources v) offset
      then record moved { resources = ops.set_size s.resources v offset }
      else moved

  -- `if (f->flags & O_APPEND) f->offset = f->vnode->size`
  pub seek_end : Files R → ℕ → Files R
  seek_end s f =
      if o_append (s.files f).flags
      then set_offset s f (ops.size s.resources (s.files f).vnode)
      else s

  -- the rest of `vfs_write` after the write
  pub wrote : Files R → ℕ → Option (ℕ × R) → Option (ℕ × Files R)
  unfolding advance
  wrote s f none = none
  wrote s f (some (n, r)) =
      let done = record s { resources = r } in
      some (n, if positive n then advance done f n else done)

  -- `none`: it does not return.
  pub vfs_write : Files R → ℕ → ℕ → ℕ → Option (ℕ × Files R)
  unfolding seek_end wrote
  vfs_write s f buf len =
      if f == 0 || ((s.files f).vnode == 0 || (buf == 0 || len == 0))
      then some (minus_one, s)
      else (let s' = seek_end s f in
          wrote s' f (ops.write s'.resources (s.files f).vnode buf len (s'.files f).offset))

  -- `false` is -1.
  pub vfs_mkdir : R → MountTable → Name → Bool × R
  vfs_mkdir s t path =
      if byte_at path 0 == slash
      then elim (split_path path) [
        | none ↦ (false, s)
        | some (parent, dirname) ↦ elim (vfs_resolve s t parent) [
          | none ↦ (false, s)
          | some dir ↦ if ops.is_dir s dir then ops.mkdir s dir dirname else (false, s)
        ]
      ]
      else (false, s)
