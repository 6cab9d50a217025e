-- ===== src/Ramfs/File.antt =====
-- The data of a file of kernel/fs/ramfs.c, and what a write to it relies on and makes.
use orion_final.Base.{ℕ, ◌+◌, ◌≤◌, ◌<◌, ◌≡◌, ◌≢◌, ◌⊎◌, ltb, if◌then◌else◌}
use orion_final.Ramfs.{Allocator, Ramfs, inode_of}

-- The range of `n` bytes at `p` and that of `m` bytes at `q` have no byte in common.
abbrev pub Apart : ℕ → ℕ → ℕ → ℕ → Type 0
Apart p n q m = (p + n ≤ q) ⊎ (q + m ≤ p)

module _ {H : Type 0} where
  -- the byte number `i` of the file `v`
  abbrev pub byte : Ramfs H → ℕ → ℕ → ℕ
  byte s v i = s.memory ((inode_of s v).buf + i)

  abbrev pub size : Ramfs H → ℕ → ℕ
  size s v = (s.vnodes v).size

  abbrev pub capacity : Ramfs H → ℕ → ℕ
  capacity s v = (inode_of s v).capacity

  -- The buffer of the file and that of the caller are ready for a write up to `end`.
  pub record Ready (s : Ramfs H) (v src len end : ℕ) (t : Ramfs H) : Type 0 where
    pub same_vnodes : t.vnodes ≡ s.vnodes
    pub same_bytes : (i : ℕ) → i < size s v → byte t v i ≡ byte s v i
    pub same_source : (i : ℕ) → i < len → t.memory (src + i) ≡ s.memory (src + i)
    pub room : end ≤ capacity t v
    pub apart : Apart src len (inode_of t v).buf (capacity t v)

  -- What a write of `len` bytes at `offset` makes of the file.
  pub record Written (s : Ramfs H) (v src len offset : ℕ) (t : Ramfs H) : Type 0 where
    pub same_kind : (t.vnodes v).kind ≡ (s.vnodes v).kind
    pub written : (i : ℕ) → i < len → byte t v (offset + i) ≡ s.memory (src + i)
    pub kept : (i : ℕ) → i < size s v → (i < offset) ⊎ (offset + len ≤ i) → byte t v i ≡ byte s v i
    pub new_size : size t v ≡ (if ltb (size s v) (offset + len) then offset + len else size s v)
    pub room : offset + len ≤ capacity t v
    pub apart : Apart src len (inode_of t v).buf (capacity t v)

  -- The size is within the buffer, and there is a buffer unless the capacity is 0.
  pub record Bounded (s : Ramfs H) (v : ℕ) : Type 0 where
    pub within : size s v ≤ capacity s v
    pub buffered : (inode_of s v).buf ≡ 0 → capacity s v ≡ 0

  -- What `kmalloc` gives has no byte in common with the file's buffer or the caller's.
  abbrev pub Fresh : Allocator H → Ramfs H → ℕ → ℕ → ℕ → Type 0
  Fresh alloc s v src len =
      (c : ℕ)
      → (alloc.kmalloc s.heap c).0 ≢ 0
      → Apart (alloc.kmalloc s.heap c).0 c (inode_of s v).buf (capacity s v)
        × Apart (alloc.kmalloc s.heap c).0 c src len
