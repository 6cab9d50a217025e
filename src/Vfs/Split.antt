-- ===== src/Vfs/Split.antt =====
-- The split of a path into its parent and a name, in `vfs_open` and `vfs_mkdir` of kernel/fs/vfs.c and
-- `ramfs_register_dev` of kernel/fs/ramfs.c.
use orion_final.Vfs.Walk.{SlashFree}
use orion_final.Ramfs.Directory.{take_short}
use orion_final.Base.{
  ℕ, zero, suc, ◌+◌, ◌≤◌, ◌<◌, ◌≡◌, ◌≢◌, refl, sym, ap, ◌∙◌, arith, ◌==◌, eq→eqb, ne→eqb, none,
  some, Option, [], ◌∷◌, ◌++◌, length, length-append, take, drop, if◌then◌else◌, if_true, if_false,
}
use orion_final.Ramfs.{Name}
use orion_final.Vfs.{slash, byte_at, last_slash, split_path}

byte_at-append : (p xs : Name) (j : ℕ) → byte_at (p ++ xs) (length p + j) ≡ byte_at xs j
byte_at-append [] xs j = ap (byte_at xs) (omega arith)
byte_at-append (x ∷ p) xs j =
    let there : suc (length p) + j ≡ suc (length p + j) = omega arith in
    ap (byte_at (x ∷ (p ++ xs))) there ∙ byte_at-append p xs j

byte_at-SlashFree : (xs : Name) (j : ℕ) → SlashFree xs → j < length xs → byte_at xs j ≢ slash
byte_at-SlashFree [] j h l = absurd (omega arith)
byte_at-SlashFree (x ∷ xs) zero h l = h.0
byte_at-SlashFree (x ∷ xs) (suc j) h l = byte_at-SlashFree xs j h.1 (omega arith)

last_slash_here : (path : Name) (i : ℕ) → byte_at path i ≡ slash → last_slash path (suc i) ≡ some i
unfolding last_slash
last_slash_here path i e = if_true _ _ (eq→eqb _ _ e)

last_slash_before :
    (path : Name) (i : ℕ) → byte_at path i ≢ slash → last_slash path (suc i) ≡ last_slash path i
unfolding last_slash
last_slash_before path i e = if_false _ _ (ne→eqb _ _ e)

last_slash-append :
    (p leaf : Name) (j : ℕ)
    → SlashFree leaf
    → j ≤ length leaf
    → last_slash (p ++ slash ∷ leaf) (length p + suc j) ≡ some (length p)
last_slash-append p leaf zero h l =
    let path = p ++ slash ∷ leaf in
    ap (last_slash path) (omega arith)
    ∙ last_slash_here path (length p)
        (ap (byte_at path) (omega arith) ∙ byte_at-append p (slash ∷ leaf) 0)
last_slash-append p leaf (suc j) h l =
    let path = p ++ slash ∷ leaf in
    let not_slash : byte_at path (length p + suc j) ≢ slash = λ e.
      byte_at-SlashFree leaf j h (omega arith)
        (sym (byte_at-append p (slash ∷ leaf) (suc j)) ∙ e) in
    ap (last_slash path) (omega arith)
    ∙ last_slash_before path (length p + suc j) not_slash
    ∙ last_slash-append p leaf j h (omega arith)

take-append : (p xs : Name) → take (length p) (p ++ xs) ≡ p
take-append [] xs = refl
take-append (x ∷ p) xs = ap (λ r. x ∷ r) (take-append p xs)

drop-append : (p xs : Name) (x : ℕ) → drop (length p + 1) (p ++ x ∷ xs) ≡ xs
drop-append [] xs x = refl
drop-append (y ∷ p) xs x =
    let there : suc (length p) + 1 ≡ suc (length p + 1) = omega arith in
    ap (λ n. drop n (y ∷ (p ++ x ∷ xs))) there ∙ drop-append p xs x

-- the path of the directory `p`
abbrev pub parent_path : Name → Name
parent_path [] = slash ∷ []
parent_path (x ∷ p) = x ∷ p

parent_at :
    (p leaf : Name)
    → (if length p == 0 then slash ∷ [] else take (length p) (p ++ slash ∷ leaf)) ≡ parent_path p
parent_at [] leaf = refl
parent_at (x ∷ p) leaf =
    if_false _ _ (ne→eqb (length (x ∷ p)) 0 (omega arith)) ∙ take-append (x ∷ p) (slash ∷ leaf)

-- A path of at most 127 bytes is split at its last slash; before the first slash there is the root.
pub split_path-append :
    (p leaf : Name)
    → SlashFree leaf
    → length (p ++ slash ∷ leaf) ≤ 127
    → split_path (p ++ slash ∷ leaf) ≡ some (parent_path p, leaf)
unfolding split_path
split_path-append p leaf h l =
    ap split_at (take_short 127 path l)
    ∙ ap found (
        ap (last_slash path) (length-append p (slash ∷ leaf))
        ∙ last_slash-append p leaf (length leaf) h (omega arith))
    ∙ ap (λ (q : Name). some (q, drop (length p + 1) path)) (parent_at p leaf)
    ∙ ap (λ (q : Name). some (parent_path p, q)) (drop-append p leaf slash)
  where
    path : Name
    path = p ++ slash ∷ leaf

    found : Option ℕ → Option (Name × Name)
    found o = elim o [
      | none ↦ none
      | some k ↦ some (if k == 0 then slash ∷ [] else take k path, drop (k + 1) path)
    ]

    split_at : Name → Option (Name × Name)
    split_at parent = elim (last_slash parent (length parent)) [
      | none ↦ none
      | some k ↦ some (if k == 0 then slash ∷ [] else take k parent, drop (k + 1) path)
    ]
