-- ===== src/Ramfs/Directory.antt =====
-- `ramfs_create`, `ramfs_unlink` and `ramfs_lookup` of kernel/fs/ramfs.c on a directory.
use mathlib.Core.Path.{subst}
use orion_final.Ramfs.Names.{
  Distinct, NamesWithin, find_long, detach-none, detach-Detached, Detached,
}
use orion_final.Base.{
  ℕ, zero, suc, ◌+◌, ◌≤◌, ◌<◌, ◌≡◌, refl, sym, ap, ◌∙◌, arith, inl, inr, Bool, true, false,
  Option-cases, eq→eqb, none, some, List, [], ◌∷◌, length, take, ◌-◌, if◌then◌else◌, if_true,
}
use orion_final.Base.Update.{update, update_self}
use orion_final.Base.Words.{u32, sub32}
use orion_final.Ramfs.{
  Name, Dirent, Inode, Vnode, Allocator, Ramfs, inode_of, vnode_dir, same_name, find, detach,
  ramfs_lookup, ramfs_unlink, release, vfs_name_max,
}

pub take_short : {A : Type 0} (n : ℕ) (xs : List A) → length xs ≤ n → take n xs ≡ xs
take_short zero [] l = refl
take_short (suc n) [] l = refl
take_short zero (x ∷ xs) l = absurd (omega arith)
take_short (suc n) (x ∷ xs) l = ap (λ r. x ∷ r) (take_short n xs (omega arith))

-- A directory's inode: the names are distinct and fit into an entry, and the entries are counted.
pub record IsListing (ino : Inode) : Type 0 where
  pub distinct : Distinct ino.children
  pub within : NamesWithin 63 ino.children
  pub counted : ino.child_count ≡ u32 (length ino.children)

abbrev pub added : Inode → ℕ → Name → ℕ → Inode
added ino d name child = record ino {
  children =
      record { address = d; name = take (vfs_name_max - 1) name; vnode = child } ∷ ino.children;
  child_count = u32 (ino.child_count + 1);
}

pub added-IsListing :
    (ino : Inode) (d : ℕ) (name : Name) (child : ℕ)
    → IsListing ino
    → length name ≤ 63
    → find ino.children name ≡ none
    → IsListing (added ino d name child)
added-IsListing ino d name child l short missing =
    let same = take_short 63 name short in
    record {
      distinct = (ap (find ino.children) same ∙ missing, l.distinct);
      within = (omega (arith, ap length same), l.within);
      counted = omega (arith, l.counted);
    }

pub find-added :
    (ino : Inode) (d : ℕ) (name : Name) (child : ℕ)
    → length name ≤ 63
    → (other : Name)
    → find (added ino d name child).children other
      ≡ (if same_name name other then some child else find ino.children other)
unfolding find
find-added ino d name child short other =
    ap (λ n. if same_name n other then some child else find ino.children other)
      (take_short 63 name short)

abbrev taken : Inode → List Dirent → Inode
taken ino rest = record ino { children = rest; child_count = sub32 ino.child_count 1 }

taken-IsListing :
    (ino : Inode) (name : Name) (x : Dirent) (rest : List Dirent)
    → IsListing ino
    → Detached ino.children name x rest
    → IsListing (taken ino rest)
taken-IsListing ino name x rest l r = record {
  distinct = r.distinct l.distinct;
  within = r.within 63 l.within;
  counted = omega (arith, l.counted, r.count);
}

module _ {H : Type 0} where
  pub record IsDirectory (s : Ramfs H) (dir : ℕ) : Type 0 where
    pub kind : (s.vnodes dir).kind ≡ vnode_dir
    pub listing : IsListing (inode_of s dir)

  pub lookup_children :
      (s : Ramfs H) (dir : ℕ) (name : Name)
      → (s.vnodes dir).kind ≡ vnode_dir
      → ramfs_lookup s dir name ≡ find (inode_of s dir).children name
  unfolding ramfs_lookup
  lookup_children s dir name kind = if_true _ _ (eq→eqb _ _ kind)

  -- A directory whose inode has become `ino`.
  pub record Becomes (s : Ramfs H) (dir : ℕ) (ino : Inode) (t : Ramfs H) : Type 0 where
    pub same_vnode : t.vnodes dir ≡ s.vnodes dir
    pub inode : inode_of t dir ≡ ino

  pub Becomes-IsDirectory :
      (s : Ramfs H) (dir : ℕ) (ino : Inode) (t : Ramfs H)
      → Becomes s dir ino t
      → IsDirectory s dir
      → IsListing ino
      → IsDirectory t dir
  Becomes-IsDirectory s dir ino t b d l = record {
    kind = ap (λ (v : Vnode). v.kind) b.same_vnode ∙ d.kind;
    listing = subst IsListing (sym b.inode) l;
  }

  pub Becomes-lookup :
      (s : Ramfs H) (dir : ℕ) (ino : Inode) (t : Ramfs H)
      → Becomes s dir ino t
      → IsDirectory s dir
      → (name : Name) → ramfs_lookup t dir name ≡ find ino.children name
  Becomes-lookup s dir ino t b d name =
      lookup_children t dir name (ap (λ (v : Vnode). v.kind) b.same_vnode ∙ d.kind)
      ∙ ap (λ (i : Inode). find i.children name) b.inode

  -- A name of more than 63 bytes, which no entry can hold, is never found.
  pub ramfs_lookup_long :
      (s : Ramfs H) (dir : ℕ) (name : Name)
      → IsDirectory s dir
      → 63 < length name
      → ramfs_lookup s dir name ≡ none
  ramfs_lookup_long s dir name d long =
      lookup_children s dir name d.kind ∙ find_long 63 _ name d.listing.within long

  -- What `ramfs_unlink` leaves of the directory.
  unlinked : Ramfs H → ℕ → List Dirent → Ramfs H
  unlinked s dir rest = record s {
    inodes = update s.inodes (s.vnodes dir).inode (taken (inode_of s dir) rest);
  }

  -- What `ramfs_unlink` does: the name is not there, -1 is returned and nothing changes; or the name,
  -- and no other, is gone from the directory.
  pub data Unlinked (s : Ramfs H) (dir : ℕ) (name : Name) (r : Bool × Ramfs H) : Type 0 where
    missing : ramfs_lookup s dir name ≡ none → r ≡ (false, s) → Unlinked s dir name r
    removed :
        (v : ℕ)
        → ramfs_lookup s dir name ≡ some v
        → r.0 ≡ true
        → IsDirectory r.1 dir
        → ((other : Name)
            → ramfs_lookup r.1 dir other
              ≡ (if same_name name other then none else ramfs_lookup s dir other))
        → Unlinked s dir name r

  module _ (alloc : Allocator H) where
    release_same :
        (s : Ramfs H) (d : Dirent)
        → ((release alloc s d).vnodes ≡ s.vnodes) × ((release alloc s d).inodes ≡ s.inodes)
    unfolding release
    release_same s d = ground arith

    unlinked-Becomes :
        (s : Ramfs H) (dir : ℕ) (x : Dirent) (rest : List Dirent)
        → Becomes s dir (taken (inode_of s dir) rest) (release alloc (unlinked s dir rest) x)
    unfolding unlinked
    unlinked-Becomes s dir x rest =
        let u = unlinked s dir rest in
        let t = release alloc u x in
        let same = release_same u x in
        record {
          same_vnode = ap (λ (f : ℕ → Vnode). f dir) same.0;
          inode =
              ap (λ (f : ℕ → Vnode). t.inodes (f dir).inode) same.0
              ∙ ap (λ (f : ℕ → Inode). f (s.vnodes dir).inode) same.1
              ∙ update_self s.inodes _ _;
        }

    unlink_missing :
        (s : Ramfs H) (dir : ℕ) (name : Name)
        → (s.vnodes dir).kind ≡ vnode_dir
        → detach (inode_of s dir).children name ≡ none
        → ramfs_unlink alloc s dir name ≡ (false, s)
    unfolding ramfs_unlink
    unlink_missing s dir name kind e = if_true _ _ (eq→eqb _ _ kind) ∙ rw e refl

    unlink_found :
        (s : Ramfs H) (dir : ℕ) (name : Name) (x : Dirent) (rest : List Dirent)
        → (s.vnodes dir).kind ≡ vnode_dir
        → detach (inode_of s dir).children name ≡ some (x, rest)
        → ramfs_unlink alloc s dir name ≡ (true, release alloc (unlinked s dir rest) x)
    unfolding ramfs_unlink unlinked
    unlink_found s dir name x rest kind e = if_true _ _ (eq→eqb _ _ kind) ∙ rw e refl

    -- In a directory whose names are distinct, `ramfs_unlink` removes the name and no other, and the
    -- directory stays such a one; where the name is not there, -1 is returned and nothing changes.
    pub ramfs_unlink_lem :
        (s : Ramfs H) (dir : ℕ) (name : Name)
        → IsDirectory s dir
        → Unlinked s dir name (ramfs_unlink alloc s dir name)
    ramfs_unlink_lem s dir name d = elim (Option-cases (detach (inode_of s dir).children name)) [
      | inl e ↦
          missing (lookup_children s dir name d.kind ∙ detach-none _ name e)
            (unlink_missing s dir name d.kind e)
      | inr ((x, rest), e) ↦
          let r = detach-Detached _ name x rest e in
          let b = unlinked-Becomes s dir x rest in
          subst (Unlinked s dir name) (sym (unlink_found s dir name x rest d.kind e)) (
            removed x.vnode (lookup_children s dir name d.kind ∙ r.found) refl
              (Becomes-IsDirectory s dir _ _ b d (taken-IsListing _ name x rest d.listing r))
              (λ other.
                Becomes-lookup s dir _ _ b d other
                ∙ r.lookups d.listing.distinct other
                ∙ ap (λ o. if same_name name other then none else o)
                    (sym (lookup_children s dir other d.kind))))
    ]
