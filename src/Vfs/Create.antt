-- ===== src/Vfs/Create.antt =====
-- `vfs_open` of kernel/fs/vfs.c with `O_CREAT`, on the files of kernel/fs/ramfs.c.
use mathlib.Core.Path.{subst}
use mathlib.Core.List.{append-nil}
use orion_final.Base.{
  ℕ, ◌≤◌, ◌<◌, ◌+◌, ◌≡◌, ◌≢◌, refl, sym, ap, ◌∙◌, arith, inl, inr, true, false, not, ◌==◌, eq→eqb,
  Bool-cases, none, some, Option, [], ◌∷◌, ◌++◌, length, if◌then◌else◌, if_true, if_false,
}
use orion_final.Base.Update.{update, update_self}
use orion_final.Base.Words.{u32}
use orion_final.Files.{File, Files}
use orion_final.Ramfs.{
  Name, Allocator, Ramfs, Vnode, Inode, find, vnode_file, vnode_dir, ramfs_lookup, ramfs_create,
  ramfs_open,
}
use orion_final.Ramfs.Bounds.{ramfs_open_plain}
use orion_final.Ramfs.Names.{same_name_self}
use orion_final.Ramfs.Directory.{IsDirectory}
use orion_final.Ramfs.Create.{Lawful, InUse, Created, refused, created, ramfs_create_lem}
use orion_final.Vfs.{
  Mount, MountTable, slash, find_mount, vfs_resolve, split_path, o_creat, vfs_open, open_new,
  count_new, vfs_open_vnode,
}
use orion_final.Vfs.Walk.{SlashFree, follow, vfs_resolve-absolute}
use orion_final.Vfs.Split.{split_path-append}
use orion_final.Vfs.Backend.{ramfs_ops, o_trunc}

follow_one : (o : Option ℕ) → elim o as (λ _. Option ℕ) [ none ↦ none | some n ↦ some n ] ≡ o
follow_one none = refl
follow_one (some n) = refl

module _ {H : Type 0} (alloc : Allocator H) where
  lookup_same :
      (a b : Ramfs H) (dir : ℕ) (name : Name)
      → a.vnodes ≡ b.vnodes
      → a.inodes ≡ b.inodes
      → ramfs_lookup a dir name ≡ ramfs_lookup b dir name
  unfolding ramfs_lookup
  lookup_same a b dir name e f =
      ap
        (λ (g : ℕ → Vnode).
          if (g dir).kind == vnode_dir then find (a.inodes (g dir).inode).children name else none)
        e
      ∙ ap
          (λ (g : ℕ → Inode).
            if (b.vnodes dir).kind == vnode_dir
            then find (g (b.vnodes dir).inode).children name
            else none)
          f

  -- What `vfs_open_vnode` makes, where it does not fail.
  record Opened (t : Files (Ramfs H)) (v : ℕ) (r : ℕ × Files (Ramfs H)) : Type 0 where
    pub vnode : (r.1.files r.0).vnode ≡ v
    pub refcount : (r.1.files r.0).refcount ≡ 1
    pub count : r.1.vnode_refcount v ≡ u32 (t.vnode_refcount v + 1)
    pub vnodes : r.1.resources.vnodes ≡ t.resources.vnodes
    pub inodes : r.1.resources.inodes ≡ t.resources.inodes

  vfs_open_vnode-Opened :
      (t : Files (Ramfs H)) (v flags : ℕ)
      → o_trunc flags ≡ false
      → (vfs_open_vnode (ramfs_ops alloc) t v flags).0 ≢ 0
      → Opened t v (vfs_open_vnode (ramfs_ops alloc) t v flags)
  unfolding vfs_open_vnode
  vfs_open_vnode-Opened t v flags plain given =
      let same = ramfs_open_plain alloc t.resources v (o_trunc flags) plain in
      elim (Bool-cases (v == 0)) [
        | inl z ↦ absurd (given (rw z refl))
        | inr z ↦
            elim (Bool-cases
              ((alloc.kmalloc (ramfs_open alloc t.resources v (o_trunc flags)).heap 16).0 == 0)) [
                | inl e ↦ absurd (given (rw (z, e) refl))
                | inr e ↦
                    rw (z, e)
                      (record {
                        vnode = ap (λ (g : File). g.vnode) (update_self t.files _ _);
                        refcount = ap (λ (g : File). g.refcount) (update_self t.files _ _);
                        count = update_self t.vnode_refcount v _;
                        vnodes = ap (λ (x : Ramfs H). x.vnodes) same;
                        inodes = ap (λ (x : Ramfs H). x.inodes) same;
                      })
              ]
      ]

  module _ (mounts : MountTable) (m : Mount) (at_root : m.path ≡ slash ∷ []) where
    resolve_root :
        (r : Ramfs H)
        → find_mount mounts (slash ∷ []) ≡ some m
        → vfs_resolve (ramfs_ops alloc) r mounts (slash ∷ []) ≡ some m.root
    unfolding follow
    resolve_root r e = vfs_resolve-absolute (ramfs_ops alloc) r mounts m [] 1 tt (λ f. cc) e at_root

    resolve_leaf :
        (r : Ramfs H) (leaf : Name)
        → SlashFree leaf
        → 0 < length leaf
        → length leaf ≤ 63
        → find_mount mounts (slash ∷ leaf) ≡ some m
        → vfs_resolve (ramfs_ops alloc) r mounts (slash ∷ leaf) ≡ ramfs_lookup r m.root leaf
    unfolding follow
    resolve_leaf r leaf free pos short e =
        let same : slash ∷ (leaf ++ []) ≡ slash ∷ leaf =
          ap (λ (xs : Name). slash ∷ xs) (append-nil leaf) in
        ap (vfs_resolve (ramfs_ops alloc) r mounts) (sym same)
        ∙ vfs_resolve-absolute (ramfs_ops alloc) r mounts m ((0, leaf) ∷ []) 0
            (pos, short, free, tt) (λ f. cc) (ap (find_mount mounts) same ∙ e) at_root
        ∙ follow_one (ramfs_lookup r m.root leaf)

    count_new_same :
        (s : Files (Ramfs H)) (leaf : Name) (v : ℕ) (r : Ramfs H)
        → (count_new (ramfs_ops alloc) s m.root leaf v r).resources ≡ r
    unfolding count_new
    count_new_same s leaf v r = either (ramfs_lookup s.resources m.root leaf)
      where
        either :
            (o : Option ℕ)
            → (elim o as (λ _. Files (Ramfs H)) [
              | none ↦ record s { resources = r; vnode_refcount = update s.vnode_refcount v 0 }
              | some old ↦ record s { resources = r }
            ]).resources
              ≡ r
        either none = refl
        either (some old) = refl

    count_new_zero :
        (s : Files (Ramfs H)) (leaf : Name) (v : ℕ) (r : Ramfs H)
        → ramfs_lookup s.resources m.root leaf ≡ none
        → (count_new (ramfs_ops alloc) s m.root leaf v r).vnode_refcount v ≡ 0
    unfolding count_new
    count_new_zero s leaf v r e =
        ap
          (λ o.
            (elim o as (λ _. Files (Ramfs H)) [
              | none ↦ record s { resources = r; vnode_refcount = update s.vnode_refcount v 0 }
              | some old ↦ record s { resources = r }
            ]).vnode_refcount
              v)
          e
        ∙ update_self s.vnode_refcount v 0

    -- the rest of `vfs_open` after the creation
    opened : Files (Ramfs H) → Name → ℕ → Option ℕ × Ramfs H → ℕ × Files (Ramfs H)
    opened s leaf flags (none, r) = (0, record s { resources = r })
    opened s leaf flags (some v, r) =
        vfs_open_vnode (ramfs_ops alloc) (count_new (ramfs_ops alloc) s m.root leaf v r) v flags

    by_created :
        (s : Files (Ramfs H)) (leaf : Name) (flags : ℕ) (x : Option ℕ × Ramfs H)
        → elim x.0 as (λ _. ℕ × Files (Ramfs H)) [
          | none ↦ (0, record s { resources = x.1 })
          | some v ↦
              vfs_open_vnode
                (ramfs_ops alloc)
                (count_new (ramfs_ops alloc) s m.root leaf v x.1)
                v
                flags
        ]
          ≡ opened s leaf flags x
    unfolding opened
    by_created s leaf flags (none, r) = refl
    by_created s leaf flags (some v, r) = refl

    opened-none :
        (s : Files (Ramfs H)) (leaf : Name) (flags : ℕ) (x : Option ℕ × Ramfs H)
        → x.0 ≡ none
        → (opened s leaf flags x).0 ≡ 0
    unfolding opened
    opened-none s leaf flags (none, r) e = refl
    opened-none s leaf flags (some v, r) e = cc

    opened-some :
        (s : Files (Ramfs H)) (leaf : Name) (flags v : ℕ) (x : Option ℕ × Ramfs H)
        → x.0 ≡ some v
        → opened s leaf flags x
          ≡ vfs_open_vnode
              (ramfs_ops alloc)
              (count_new (ramfs_ops alloc) s m.root leaf v x.1)
              v
              flags
    unfolding opened
    opened-some s leaf flags v (none, r) e = cc
    opened-some s leaf flags v (some w, r) e =
        let same : w ≡ v = cc in
        ap
          (λ (n : ℕ).
            vfs_open_vnode (ramfs_ops alloc) (count_new (ramfs_ops alloc) s m.root leaf n r) n
              flags)
          same

    missing_step :
        (s : Files (Ramfs H)) (path : Name) (flags : ℕ)
        → vfs_resolve (ramfs_ops alloc) s.resources mounts path ≡ none
        → vfs_open (ramfs_ops alloc) s mounts path flags
          ≡ open_new (ramfs_ops alloc) s mounts path flags
    unfolding vfs_open
    missing_step s path flags e =
        ap
          (λ o. elim o as (λ _. ℕ × Files (Ramfs H)) [
            | none ↦ open_new (ramfs_ops alloc) s mounts path flags
            | some v ↦ vfs_open_vnode (ramfs_ops alloc) s v flags
          ])
          e

    new_step :
        (s : Files (Ramfs H)) (leaf : Name) (flags : ℕ)
        → o_creat flags ≡ true
        → split_path (slash ∷ leaf) ≡ some (slash ∷ [], leaf)
        → vfs_resolve (ramfs_ops alloc) s.resources mounts (slash ∷ []) ≡ some m.root
        → (s.resources.vnodes m.root).kind ≡ vnode_dir
        → open_new (ramfs_ops alloc) s mounts (slash ∷ leaf) flags
          ≡ opened s leaf flags (ramfs_create alloc s.resources m.root leaf vnode_file)
    unfolding open_new
    new_step s leaf flags creat split root kind =
        if_false _ _ (ap not creat)
        ∙ rw (split, root, eq→eqb _ _ kind)
            (by_created s leaf flags (ramfs_create alloc s.resources m.root leaf vnode_file))

    module _ {Live : H → ℕ → Type 0} (law : Lawful alloc Live) where
      -- `vfs_open` with `O_CREAT` and without `O_TRUNC`, of a new name of at most 63 bytes in the root
      -- directory, makes a file that the path stands for from then on: unless it returns a null
      -- pointer, the vnode of the open file is what `vfs_resolve` gives, and the open file and the vnode
      -- have one reference each.
      pub vfs_resolve-vfs_open :
          (s : Files (Ramfs H)) (leaf : Name) (flags : ℕ)
          → find_mount mounts (slash ∷ []) ≡ some m
          → find_mount mounts (slash ∷ leaf) ≡ some m
          → IsDirectory s.resources m.root
          → InUse Live s.resources m.root
          → SlashFree leaf
          → 0 < length leaf
          → length leaf ≤ 63
          → o_creat flags ≡ true
          → o_trunc flags ≡ false
          → vfs_resolve (ramfs_ops alloc) s.resources mounts (slash ∷ leaf) ≡ none
          → let r = vfs_open (ramfs_ops alloc) s mounts (slash ∷ leaf) flags in
            r.0 ≢ 0
            → (vfs_resolve (ramfs_ops alloc) r.1.resources mounts (slash ∷ leaf)
                ≡ some (r.1.files r.0).vnode)
              × ((r.1.files r.0).refcount ≡ 1)
              × (r.1.vnode_refcount (r.1.files r.0).vnode ≡ 1)
      vfs_resolve-vfs_open s leaf flags er el dir used free pos short creat plain missing =
          let made = ramfs_create alloc s.resources m.root leaf vnode_file in
          let split = split_path-append [] leaf free (omega arith) in
          let step =
            missing_step s (slash ∷ leaf) flags missing
            ∙ new_step s leaf flags creat split (resolve_root s.resources er) dir.kind in
          subst (Stands leaf) (sym step) (
            by_outcome made
              (ramfs_create_lem alloc law s.resources m.root leaf vnode_file dir used short).0)
        where
          absent : ramfs_lookup s.resources m.root leaf ≡ none
          absent = sym (resolve_leaf s.resources leaf free pos short el) ∙ missing

          Stands : Name → ℕ × Files (Ramfs H) → Type 0
          Stands name r =
              r.0 ≢ 0
              → (vfs_resolve (ramfs_ops alloc) r.1.resources mounts (slash ∷ name)
                  ≡ some (r.1.files r.0).vnode)
                × ((r.1.files r.0).refcount ≡ 1)
                × (r.1.vnode_refcount (r.1.files r.0).vnode ≡ 1)

          by_outcome :
              (x : Option ℕ × Ramfs H)
              → Created s.resources m.root leaf vnode_file x
              → Stands leaf (opened s leaf flags x)
          by_outcome x (refused f same) = λ given. absurd (given (opened-none s leaf flags x f))
          by_outcome x (created v f found old) =
              subst (Stands leaf) (sym (opened-some s leaf flags v x f)) (λ given.
                let t = count_new (ramfs_ops alloc) s m.root leaf v x.1 in
                let r = vfs_open_vnode (ramfs_ops alloc) t v flags in
                let o = vfs_open_vnode-Opened t v flags plain given in
                (
                  resolve_leaf r.1.resources leaf free pos short el
                      ∙ lookup_same r.1.resources x.1 m.root leaf
                          (o.vnodes ∙ ap (λ (y : Ramfs H). y.vnodes) (count_new_same s leaf v x.1))
                          (o.inodes ∙ ap (λ (y : Ramfs H). y.inodes) (count_new_same s leaf v x.1))
                      ∙ found leaf
                      ∙ if_true _ _ (same_name_self leaf)
                      ∙ ap some (sym o.vnode),
                  o.refcount,
                  ap r.1.vnode_refcount o.vnode
                      ∙ o.count
                      ∙ ap (λ n. u32 (n + 1)) (count_new_zero s leaf v x.1 absent),
                ))
