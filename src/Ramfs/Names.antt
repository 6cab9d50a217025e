-- ===== src/Ramfs/Names.antt =====
-- The lists of directory entries of kernel/fs/ramfs.c, and the equality of names.
use orion_final.Base.{
  ℕ, suc, ◌≤◌, ◌<◌, ◌≡◌, ◌≢◌, refl, sym, ap, ◌∙◌, arith, inl, inr, true, false, Option-cases,
  Bool-cases, eqb→eq, eq→eqb, none, some, Option, List, [], ◌∷◌, length, if◌then◌else◌, if_true,
  if_false,
}
use mathlib.Core.Path.{subst}
use orion_final.Ramfs.{Name, Dirent, same_name, find, detach}

pub same_name→eq : (a b : Name) → same_name a b ≡ true → a ≡ b
unfolding same_name
same_name→eq [] [] h = refl
same_name→eq [] (y ∷ ys) h = cc
same_name→eq (x ∷ xs) [] h = cc
same_name→eq (x ∷ xs) (y ∷ ys) h = ground (arith, same_name→eq xs ys, eqb→eq x y)

pub same_name_self : (a : Name) → same_name a a ≡ true
unfolding same_name
same_name_self [] = refl
same_name_self (x ∷ xs) = ground (arith, same_name_self xs, eq→eqb x x refl)

pub same_name_ne : (a b : Name) → a ≢ b → same_name a b ≡ false
same_name_ne a b h = elim (Bool-cases (same_name a b)) [
  | inl e ↦ absurd (h (same_name→eq a b e))
  | inr e ↦ e
]

pub same_name_comm : (a b : Name) → same_name a b ≡ same_name b a
unfolding same_name
same_name_comm [] [] = refl
same_name_comm [] (y ∷ ys) = refl
same_name_comm (x ∷ xs) [] = refl
same_name_comm (x ∷ xs) (y ∷ ys) = ground (arith, same_name_comm xs ys)

-- No two entries have the same name.
abbrev pub Distinct : List Dirent → Type 0
Distinct [] = Unit
Distinct (d ∷ ds) = (find ds d.name ≡ none) × Distinct ds

-- Every name has at most `n` bytes.
abbrev pub NamesWithin : ℕ → List Dirent → Type 0
NamesWithin n [] = Unit
NamesWithin n (d ∷ ds) = (length d.name ≤ n) × NamesWithin n ds

pub find_head :
    (d : Dirent) (ds : List Dirent) (name : Name)
    → same_name d.name name ≡ true
    → find (d ∷ ds) name ≡ some d.vnode
unfolding find
find_head d ds name e = rw e refl

pub find_tail :
    (d : Dirent) (ds : List Dirent) (name : Name)
    → same_name d.name name ≡ false
    → find (d ∷ ds) name ≡ find ds name
unfolding find
find_tail d ds name e = rw e refl

-- A name that is longer than every entry's is not found.
pub find_long :
    (n : ℕ) (ds : List Dirent) (name : Name)
    → NamesWithin n ds
    → n < length name
    → find ds name ≡ none
unfolding find
find_long n [] name h l = refl
find_long n (d ∷ ds) name h l =
    find_tail d ds name
      (same_name_ne d.name name (λ e. absurd (omega (arith, ap length e, h.0, l))))
    ∙ find_long n ds name h.1 l

pub detach-none : (ds : List Dirent) (name : Name) → detach ds name ≡ none → find ds name ≡ none
unfolding find detach
detach-none [] name e = refl
detach-none (d ∷ ds) name e = ground (arith, detach-none ds name)

-- What `detach` takes from the list.
pub record Detached (ds : List Dirent) (name : Name) (x : Dirent) (rest : List Dirent)
    : Type 0 where
  pub named : x.name ≡ name
  pub found : find ds name ≡ some x.vnode
  pub count : length ds ≡ suc (length rest)
  pub distinct : Distinct ds → Distinct rest
  pub within : (n : ℕ) → NamesWithin n ds → NamesWithin n rest
  pub lookups :
      Distinct ds
      → (other : Name) → find rest other ≡ (if same_name name other then none else find ds other)

Detached-head :
    (d : Dirent) (ds : List Dirent) (name : Name)
    → same_name d.name name ≡ true
    → Detached (d ∷ ds) name d ds
Detached-head d ds name e =
    let same = same_name→eq d.name name e in
    record {
      named = same;
      found = find_head d ds name e;
      count = refl;
      distinct = λ h. h.1;
      within = λ n h. h.1;
      lookups = λ distinct other. elim (Bool-cases (same_name name other)) [
        | inl f ↦
            ap (find ds) (sym (same ∙ same_name→eq name other f)) ∙ distinct.0 ∙ sym (if_true _ _ f)
        | inr f ↦
            sym (find_tail d ds other (ap (λ n. same_name n other) same ∙ f)) ∙ sym (if_false _ _ f)
      ];
    }

Detached-tail :
    (d : Dirent) (ds : List Dirent) (name : Name) (x : Dirent) (rest : List Dirent)
    → same_name d.name name ≡ false
    → Detached ds name x rest
    → Detached (d ∷ ds) name x (d ∷ rest)
Detached-tail d ds name x rest e r = record {
  named = r.named;
  found = find_tail d ds name e ∙ r.found;
  count = ap suc r.count;
  distinct = λ h.
      (r.lookups h.1 d.name ∙ if_false _ _ (same_name_comm name d.name ∙ e) ∙ h.0, r.distinct h.1);
  within = λ n h. (h.0, r.within n h.1);
  lookups = λ distinct other. elim (Bool-cases (same_name d.name other)) [
    | inl f ↦
        let apart : same_name name other ≡ false =
          ap (same_name name) (sym (same_name→eq d.name other f))
          ∙ same_name_comm name d.name
          ∙ e in
        find_head d rest other f ∙ sym (find_head d ds other f) ∙ sym (if_false _ _ apart)
    | inr f ↦
        find_tail d rest other f
        ∙ r.lookups distinct.1 other
        ∙ ap (λ o. if same_name name other then none else o) (sym (find_tail d ds other f))
  ];
}

detach_head :
    (d : Dirent) (ds : List Dirent) (name : Name)
    → same_name d.name name ≡ true
    → detach (d ∷ ds) name ≡ some (d, ds)
unfolding detach
detach_head d ds name e = rw e refl

detach_tail :
    (d : Dirent) (ds : List Dirent) (name : Name) (r : Option (Dirent × List Dirent))
    → same_name d.name name ≡ false
    → detach ds name ≡ r
    → detach (d ∷ ds) name ≡ elim r [ none ↦ none | some (x, rest) ↦ some (x, d ∷ rest) ]
unfolding detach
detach_tail d ds name r e f =
    if_false _ _ e
    ∙ ap
        (λ o. elim o as (λ _. Option (Dirent × List Dirent)) [
          | none ↦ none
          | some (x, rest) ↦ some (x, d ∷ rest)
        ])
        f

pub detach-Detached :
    (ds : List Dirent) (name : Name) (x : Dirent) (rest : List Dirent)
    → detach ds name ≡ some (x, rest)
    → Detached ds name x rest
unfolding detach
detach-Detached [] name x rest e = cc
detach-Detached (d ∷ ds) name x rest e = elim (Bool-cases (same_name d.name name)) [
  | inl h ↦
      let pair : ◌≡◌ {A = Option (Dirent × List Dirent)} (some (d, ds)) (some (x, rest)) =
        sym (detach_head d ds name h) ∙ e in
      let first : d ≡ x = cc in
      let second : ds ≡ rest = cc in
      subst (λ y. Detached (d ∷ ds) name y rest) first
        (subst (λ r. Detached (d ∷ ds) name d r) second (Detached-head d ds name h))
  | inr h ↦ elim (Option-cases (detach ds name)) [
    | inl f ↦ let nothing = sym (detach_tail d ds name none h f) ∙ e in cc
    | inr ((y, r), f) ↦
        let pair : ◌≡◌ {A = Option (Dirent × List Dirent)} (some (y, d ∷ r)) (some (x, rest)) =
          sym (detach_tail d ds name (some (y, r)) h f) ∙ e in
        let first : y ≡ x = cc in
        let second : d ∷ r ≡ rest = cc in
        subst (λ z. Detached (d ∷ ds) name z rest) first
          (subst (λ z. Detached (d ∷ ds) name y z) second
            (Detached-tail d ds name y r h (detach-Detached ds name y r f)))
  ]
]
