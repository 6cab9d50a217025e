-- ===== src/Ramfs/Create.antt =====
-- `ramfs_create` and what it calls, of kernel/fs/ramfs.c.
use mathlib.Core.Path.{subst}
use orion_final.Ramfs.Names.{same_name→eq}
use orion_final.Ramfs.Directory.{
  IsDirectory, added, added-IsListing, find-added, Becomes, Becomes-IsDirectory, Becomes-lookup,
  lookup_children,
}
use orion_final.Base.{
  ℕ, ◌≤◌, ◌≡◌, ◌≢◌, refl, sym, ap, ◌∙◌, arith, ◌⊎◌, inl, inr, ◌==◌, true, false, Bool-cases,
  Option-cases, eq→eqb, none, some, Option, length, if◌then◌else◌, if_true, if_false,
}
use orion_final.Base.Update.{update_self}
use orion_final.Ramfs.{
  Name, Inode, Vnode, Allocator, Ramfs, inode_of, vnode_dir, ramfs_lookup, ramfs_create,
  ramfs_new_vnode, vnode_alloc, ramfs_add_dirent, add_new, same_name,
}

-- What the file system relies on of the heap: a block in use is not given again, and stays in use until
-- it is freed.
pub record Lawful {H : Type 0} (alloc : Allocator H) (Live : H → ℕ → Type 0) : Type 0 where
  pub fresh : (h : H) (n p : ℕ) → Live h p → (alloc.kmalloc h n).0 ≢ p
  pub kept : (h : H) (n p : ℕ) → Live h p → Live (alloc.kmalloc h n).1 p

-- The vnode and the inode of a directory are in use.
pub record InUse {H : Type 0} (Live : H → ℕ → Type 0) (s : Ramfs H) (dir : ℕ) : Type 0 where
  pub vnode : Live s.heap dir
  pub inode : Live s.heap (s.vnodes dir).inode

module _ {H : Type 0} where
  -- an empty vnode of this kind
  abbrev pub IsNew : ℕ → Ramfs H → ℕ → Type 0
  IsNew kind s v = ((s.vnodes v).kind ≡ kind) × ((s.vnodes v).size ≡ 0)

  -- What `ramfs_create` does: it fails, and no name of the directory changes; or the name, and no other, stands for the vnode that it
  -- returns. That is the old one, and nothing changes, if the name was there; and else an empty one of the kind that was asked for.
  pub data Created (s : Ramfs H) (dir : ℕ) (name : Name) (kind : ℕ) (r : Option ℕ × Ramfs H)
      : Type 0 where
    refused :
        r.0 ≡ none
        → ((other : Name) → ramfs_lookup r.1 dir other ≡ ramfs_lookup s dir other)
        → Created s dir name kind r
    created :
        (v : ℕ)
        → r.0 ≡ some v
        → ((other : Name)
            → ramfs_lookup r.1 dir other
              ≡ (if same_name name other then some v else ramfs_lookup s dir other))
        → ((ramfs_lookup s dir name ≡ some v) × (r.1 ≡ s))
          ⊎ ((ramfs_lookup s dir name ≡ none) × IsNew kind r.1 v)
        → Created s dir name kind r

module _ {H : Type 0} {Live : H → ℕ → Type 0} (alloc : Allocator H) (law : Lawful alloc Live) where
  new_vnode-Becomes :
      (s : Ramfs H) (dir kind : ℕ)
      → InUse Live s dir
      → Becomes s dir (inode_of s dir) (ramfs_new_vnode alloc s kind).1
  unfolding ramfs_new_vnode vnode_alloc
  new_vnode-Becomes s dir kind u =
      let h1 = (alloc.kmalloc s.heap 16).1 in
      let apart_ino = law.fresh s.heap 16 _ u.inode in
      let apart_vnode = law.fresh h1 20 dir (law.kept s.heap 16 dir u.vnode) in
      record { same_vnode = ground arith; inode = ground arith }

  add_dirent-Becomes :
      (s : Ramfs H) (dir : ℕ) (name : Name) (child : ℕ)
      → let r = ramfs_add_dirent alloc s dir name child in
        ((r.0 ≡ false) × Becomes s dir (inode_of s dir) r.1)
        ⊎ ((r.0 ≡ true)
            × Becomes s dir (added (inode_of s dir) (alloc.kmalloc s.heap 72).0 name child) r.1)
  unfolding ramfs_add_dirent
  add_dirent-Becomes s dir name child = elim (Bool-cases ((alloc.kmalloc s.heap 72).0 == 0)) [
    | inl z ↦ rw z (inl (refl, record { same_vnode = refl; inode = refl }))
    | inr z ↦ rw z (inr (refl, record { same_vnode = refl; inode = update_self s.inodes _ _ }))
  ]

  add_dirent_vnodes :
      (s : Ramfs H) (dir : ℕ) (name : Name) (child : ℕ)
      → (ramfs_add_dirent alloc s dir name child).1.vnodes ≡ s.vnodes
  unfolding ramfs_add_dirent
  add_dirent_vnodes s dir name child = ground arith

  ramfs_new_vnode-IsNew :
      (s : Ramfs H) (kind : ℕ)
      → let (child, t) = ramfs_new_vnode alloc s kind in (child == 0) ≡ false → IsNew kind t child
  unfolding ramfs_new_vnode vnode_alloc
  ramfs_new_vnode-IsNew s kind e = ground arith

  Becomes-trans :
      (s t u : Ramfs H) (dir : ℕ) (i j : Inode)
      → Becomes s dir i t
      → Becomes t dir j u
      → Becomes s dir j u
  Becomes-trans s t u dir i j a b = record {
    same_vnode = b.same_vnode ∙ a.same_vnode;
    inode = b.inode;
  }

  heap-Becomes :
      (s : Ramfs H) (dir : ℕ) (i : Inode) (t : Ramfs H) (h : H)
      → Becomes s dir i t
      → Becomes s dir i (record t { heap = h })
  heap-Becomes s dir i t h b = record { same_vnode = b.same_vnode; inode = b.inode }

  -- The directory after `add_new`.
  data Added (s : Ramfs H) (dir : ℕ) (name : Name) (kind : ℕ) (r : Option ℕ × Ramfs H)
      : Type 0 where
    failed : r.0 ≡ none → Becomes s dir (inode_of s dir) r.1 → Added s dir name kind r
    made :
        (v d : ℕ)
        → r.0 ≡ some v
        → Becomes s dir (added (inode_of s dir) d name v) r.1
        → IsNew kind r.1 v
        → Added s dir name kind r

  add_new-Added :
      (s : Ramfs H) (dir : ℕ) (name : Name) (kind : ℕ)
      → InUse Live s dir
      → Added s dir name kind (add_new alloc s dir name kind)
  unfolding add_new
  add_new-Added s dir name kind u =
      let s' = (ramfs_new_vnode alloc s kind).1 in
      let child = (ramfs_new_vnode alloc s kind).0 in
      let b = new_vnode-Becomes s dir kind u in
      elim (Bool-cases (child == 0)) [
        | inl z ↦ rw z (failed refl b)
        | inr z ↦ elim (add_dirent-Becomes s' dir name child) [
          | inl (no_entry, c) ↦
              rw (z, no_entry)
                (failed refl (
                  heap-Becomes s dir _ (ramfs_add_dirent alloc s' dir name child).1 _
                    (Becomes-trans s s' _ dir _ _ b (keep s' dir _ c b.inode))))
          | inr (entered, c) ↦
              let d = (alloc.kmalloc s'.heap 72).0 in
              rw (z, entered)
                (made child d refl
                  (subst
                    (λ i.
                      Becomes s dir (added i d name child)
                        (ramfs_add_dirent alloc s' dir name child).1)
                    b.inode (Becomes-trans s s' _ dir _ _ b c))
                  (subst (λ (g : ℕ → Vnode). ((g child).kind ≡ kind) × ((g child).size ≡ 0))
                    (sym (add_dirent_vnodes s' dir name child)) (ramfs_new_vnode-IsNew s kind z)))
        ]
      ]
    where
      keep :
          (s' : Ramfs H) (dir : ℕ) (t : Ramfs H)
          → Becomes s' dir (inode_of s' dir) t
          → inode_of s' dir ≡ inode_of s dir
          → Becomes s' dir (inode_of s dir) t
      keep s' dir t c e = record { same_vnode = c.same_vnode; inode = c.inode ∙ e }

  create_existing :
      (s : Ramfs H) (dir : ℕ) (name : Name) (kind v : ℕ)
      → (s.vnodes dir).kind ≡ vnode_dir
      → ramfs_lookup s dir name ≡ some v
      → ramfs_create alloc s dir name kind ≡ (some v, s)
  unfolding ramfs_create
  create_existing s dir name kind v k e = if_true _ _ (eq→eqb _ _ k) ∙ rw e refl

  create_new :
      (s : Ramfs H) (dir : ℕ) (name : Name) (kind : ℕ)
      → (s.vnodes dir).kind ≡ vnode_dir
      → ramfs_lookup s dir name ≡ none
      → ramfs_create alloc s dir name kind ≡ add_new alloc s dir name kind
  unfolding ramfs_create
  create_new s dir name kind k e = if_true _ _ (eq→eqb _ _ k) ∙ rw e refl

  -- In a directory that is in use, `ramfs_create` with a name of at most 63 bytes either fails and leaves every name as it was, or
  -- makes the name, and no other, stand for the vnode that it returns, which is the old one, with nothing changed, if the name was there and else an empty one of the kind asked for; the names stay distinct and counted.
  pub ramfs_create_lem :
      (s : Ramfs H) (dir : ℕ) (name : Name) (kind : ℕ)
      → IsDirectory s dir
      → InUse Live s dir
      → length name ≤ 63
      → Created s dir name kind (ramfs_create alloc s dir name kind)
        × IsDirectory (ramfs_create alloc s dir name kind).1 dir
  ramfs_create_lem s dir name kind d u short = elim (Option-cases (ramfs_lookup s dir name)) [
    | inr (v, e) ↦
        subst (λ r. Created s dir name kind r × IsDirectory r.1 dir)
          (sym (create_existing s dir name kind v d.kind e))
          (created v refl (present v e) (inl (e, refl)), d)
    | inl e ↦
        subst (λ r. Created s dir name kind r × IsDirectory r.1 dir)
          (sym (create_new s dir name kind d.kind e))
          (by_outcome e _ (add_new-Added s dir name kind u))
  ]
    where
      present :
          (v : ℕ)
          → ramfs_lookup s dir name ≡ some v
          → (other : Name)
          → ramfs_lookup s dir other
            ≡ (if same_name name other then some v else ramfs_lookup s dir other)
      present v e other = elim (Bool-cases (same_name name other)) [
        | inl f ↦
            ap (ramfs_lookup s dir) (sym (same_name→eq name other f)) ∙ e ∙ sym (if_true _ _ f)
        | inr f ↦ sym (if_false _ _ f)
      ]

      by_outcome :
          ramfs_lookup s dir name ≡ none
          → (r : Option ℕ × Ramfs H) → Added s dir name kind r
          → Created s dir name kind r × IsDirectory r.1 dir
      by_outcome e r (failed f b) = (
        refused f (λ other.
            Becomes-lookup s dir _ r.1 b d other ∙ sym (lookup_children s dir other d.kind)),
        Becomes-IsDirectory s dir _ r.1 b d d.listing,
      )
      by_outcome e r (made v a f b n) =
          let missing = sym (lookup_children s dir name d.kind) ∙ e in
          (
            created v f
                (λ other.
                  Becomes-lookup s dir _ r.1 b d other
                  ∙ find-added (inode_of s dir) a name v short other
                  ∙ ap (λ o. if same_name name other then some v else o)
                      (sym (lookup_children s dir other d.kind)))
                (inr (e, n)),
            Becomes-IsDirectory s dir _ r.1 b d
                (added-IsListing (inode_of s dir) a name v d.listing short missing),
          )
