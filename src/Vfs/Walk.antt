-- ===== src/Vfs/Walk.antt =====
-- The walk over a path in `vfs_resolve` of kernel/fs/vfs.c.
use orion_final.Base.{
  ℕ, zero, suc, ◌≤◌, ◌<◌, ◌≡◌, ◌≢◌, refl, sym, ap, ◌∙◌, arith, eq→eqb, ne→eqb, none, some, Option,
  List, [], ◌∷◌, ◌++◌, length, length-append, if_true, if_false, drop,
}
use orion_final.Ramfs.{Name}
use orion_final.Vfs.{
  Mount, MountTable, Vnodes, slash, byte_at, find_mount, skip_slashes, component, walk, vfs_resolve,
}

abbrev pub SlashFree : Name → Type 0
SlashFree [] = Unit
SlashFree (x ∷ xs) = (x ≢ slash) × SlashFree xs

abbrev pub slashes : ℕ → Name
slashes zero = []
slashes (suc n) = slash ∷ slashes n

-- The components of a path, each with the number of slashes before it, less one.
abbrev pub Components : Type 0
Components = List (ℕ × Name)

-- The absolute path of these components, with `t` slashes at its end.
abbrev pub absolute : Components → ℕ → Name
absolute [] t = slashes t
absolute ((k, c) ∷ cs) t = slashes (suc k) ++ (c ++ absolute cs t)

-- Every component is a name: not empty, of at most 63 bytes, without a slash.
abbrev pub AreNames : Components → Type 0
AreNames [] = Unit
AreNames ((k, c) ∷ cs) = (0 < length c) × (length c ≤ 63) × SlashFree c × AreNames cs

skip_slash : (xs : Name) → skip_slashes (slash ∷ xs) ≡ skip_slashes xs
unfolding skip_slashes
skip_slash xs = refl

skip_none : (x : ℕ) (xs : Name) → x ≢ slash → skip_slashes (x ∷ xs) ≡ x ∷ xs
unfolding skip_slashes
skip_none x xs h = if_false _ _ (ne→eqb x slash h)

skip-slashes : (k : ℕ) (xs : Name) → skip_slashes (slashes k ++ xs) ≡ skip_slashes xs
skip-slashes zero xs = refl
skip-slashes (suc k) xs = skip_slash (slashes k ++ xs) ∙ skip-slashes k xs

skip-only : (k : ℕ) → skip_slashes (slashes k) ≡ []
unfolding skip_slashes
skip-only zero = refl
skip-only (suc k) = skip_slash (slashes k) ∙ skip-only k

length-skip : (xs : Name) → length (skip_slashes xs) ≤ length xs
unfolding skip_slashes
length-skip [] = omega arith
length-skip (x ∷ xs) = ground (arith, length-skip xs)

-- The bytes after a component: none, or a slash first.
abbrev AtEnd : Name → Type 0
AtEnd [] = Unit
AtEnd (x ∷ xs) = x ≡ slash

absolute-AtEnd : (cs : Components) (t : ℕ) → AtEnd (absolute cs t)
absolute-AtEnd [] zero = tt
absolute-AtEnd [] (suc t) = refl
absolute-AtEnd ((k, c) ∷ cs) t = refl

component_end : (n : ℕ) (rest : Name) → AtEnd rest → component n rest ≡ ([], rest)
unfolding component
component_end zero [] h = refl
component_end (suc n) [] h = refl
component_end zero (x ∷ xs) h = refl
component_end (suc n) (x ∷ xs) h = if_true _ _ (eq→eqb x slash h)

component-append :
    (n : ℕ) (c rest : Name)
    → length c ≤ n
    → SlashFree c
    → AtEnd rest
    → component n (c ++ rest) ≡ (c, rest)
unfolding component
component-append n [] rest l f h = component_end n rest h
component-append zero (x ∷ xs) rest l f h = absurd (omega arith)
component-append (suc n) (x ∷ xs) rest l f h =
    if_false _ _ (ne→eqb x slash f.0)
    ∙ ap (λ (p : Name × Name). (x ∷ p.0, p.1)) (component-append n xs rest (omega arith) f.1 h)

skip-absolute :
    (k x : ℕ) (c : Name) (cs : Components) (t : ℕ)
    → x ≢ slash
    → skip_slashes (absolute ((k, x ∷ c) ∷ cs) t) ≡ x ∷ (c ++ absolute cs t)
skip-absolute k x c cs t h =
    skip-slashes (suc k) (x ∷ (c ++ absolute cs t)) ∙ skip_none x (c ++ absolute cs t) h

skip-drop :
    (cs : Components) (t : ℕ) → skip_slashes (drop 1 (absolute cs t)) ≡ skip_slashes (absolute cs t)
skip-drop [] zero = refl
skip-drop [] (suc t) = sym (skip_slash (slashes t))
skip-drop ((k, c) ∷ cs) t = sym (skip_slash (slashes k ++ (c ++ absolute cs t)))

starts : (cs : Components) (t : ℕ) → absolute cs t ≢ [] → byte_at (absolute cs t) 0 ≡ slash
starts [] zero h = absurd (h refl)
starts [] (suc t) h = refl
starts ((k, c) ∷ cs) t h = refl

bind_ext :
    (f g : ℕ → Option ℕ)
    → ((n : ℕ) → f n ≡ g n)
    → (o : Option ℕ)
    → elim o as (λ _. Option ℕ) [ none ↦ none | some n ↦ f n ]
      ≡ elim o as (λ _. Option ℕ) [ none ↦ none | some n ↦ g n ]
bind_ext f g h none = refl
bind_ext f g h (some n) = h n

module _ {R : Type 0} (ops : Vnodes R) (s : R) where
  -- the lookups, one after the other
  unfoldable pub follow : ℕ → Components → Option ℕ
  follow cur [] = some cur
  follow cur ((k, c) ∷ cs) = elim (ops.lookup s cur c) [ none ↦ none | some next ↦ follow next cs ]

  walk_end : (fuel cur : ℕ) → walk ops s fuel cur [] ≡ some cur
  unfolding walk
  walk_end zero cur = refl
  walk_end (suc fuel) cur = refl

  walk_round :
      (fuel cur x : ℕ) (xs c rest : Name)
      → component 63 (x ∷ xs) ≡ (c, rest)
      → walk ops s (suc fuel) cur (x ∷ xs) ≡ elim (ops.lookup s cur c) [
        | none ↦ none
        | some next ↦ walk ops s fuel next (skip_slashes rest)
      ]
  unfolding walk
  walk_round fuel cur x xs c rest e =
      ap
        (λ (p : Name × Name). elim (ops.lookup s cur p.0) as (λ _. Option ℕ) [
          | none ↦ none
          | some next ↦ walk ops s fuel next (skip_slashes p.1)
        ])
        e

  pub walk-absolute :
      (cs : Components) (t fuel cur : ℕ)
      → AreNames cs
      → length (skip_slashes (absolute cs t)) ≤ fuel
      → walk ops s fuel cur (skip_slashes (absolute cs t)) ≡ follow cur cs
  unfolding follow
  walk-absolute [] t fuel cur h l = ap (walk ops s fuel cur) (skip-only t) ∙ walk_end fuel cur
  walk-absolute ((k, []) ∷ cs) t fuel cur h l = absurd (omega (arith, h.0))
  walk-absolute ((k, x ∷ c) ∷ cs) t zero cur h l =
      absurd (omega (arith, ap length (skip-absolute k x c cs t h.2.0)))
  walk-absolute ((k, x ∷ c) ∷ cs) t (suc fuel) cur h l =
      let rest = absolute cs t in
      let start = skip-absolute k x c cs t h.2.0 in
      let shorter : length (skip_slashes rest) ≤ fuel =
        omega (arith, ap length start, length-append c rest, length-skip rest) in
      ap (walk ops s (suc fuel) cur) start
      ∙ walk_round fuel cur x (c ++ rest) (x ∷ c) rest
          (component-append 63 (x ∷ c) rest h.1 h.2 (absolute-AtEnd cs t))
      ∙ bind_ext _ _ (λ next. walk-absolute cs t fuel next h.3 shorter) (ops.lookup s cur (x ∷ c))

  -- A path of components that are names, separated by one or more slashes, with any number of slashes at
  -- its end, stands for what the lookups of the components give, one after the other from the root, when
  -- its file system is the one mounted at "/".
  pub vfs_resolve-absolute :
      (mounts : MountTable) (m : Mount) (cs : Components) (t : ℕ)
      → AreNames cs
      → absolute cs t ≢ []
      → find_mount mounts (absolute cs t) ≡ some m
      → m.path ≡ slash ∷ []
      → vfs_resolve ops s mounts (absolute cs t) ≡ follow m.root cs
  unfolding vfs_resolve
  vfs_resolve-absolute mounts m cs t h some_path e at_root =
      if_true _ _ (eq→eqb _ _ (starts cs t some_path))
      ∙ ap (λ o. elim o as (λ _. Option ℕ) [ none ↦ none | some mount ↦ from mount ]) e
      ∙ ap (λ (n : ℕ). resolve_rest (drop n (absolute cs t))) (ap length at_root)
      ∙ ap (λ (rest : Name). walk ops s (length rest) m.root rest) (skip-drop cs t)
      ∙ walk-absolute cs t (length (skip_slashes (absolute cs t))) m.root h (omega arith)
    where
      from : Mount → Option ℕ
      from mount =
          let rest = skip_slashes (drop (length mount.path) (absolute cs t)) in
          walk ops s (length rest) mount.root rest

      resolve_rest : Name → Option ℕ
      resolve_rest xs = walk ops s (length (skip_slashes xs)) m.root (skip_slashes xs)
