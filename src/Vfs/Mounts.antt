-- ===== src/Vfs/Mounts.antt =====
-- `find_mount` and `vfs_mount` of kernel/fs/vfs.c.
use mathlib.Core.Path.{subst}
use orion_final.Base.{
  ℕ, ◌≤◌, ◌<◌, ◌≡◌, refl, sym, ap, arith, ◌⊎◌, inl, inr, true, false, ◌&&◌, ltb, ltb→lt, ltb→ge,
  Bool, ◌∙◌, Bool-cases, none, some, Option, List, [], ◌∷◌, ◌++◌, ◌==◌, ◌||◌, length, eq→eqb,
  eqb→eq,
}
use orion_final.Ramfs.{Name}
use orion_final.Vfs.{Mount, MountTable, matches, find_best, find_mount, is_prefix, byte_at, slash}

-- The entry is one of the list.
abbrev pub Among : Mount → List Mount → Type 0
Among b [] = ⊥
Among b (m ∷ ms) = (b ≡ m) ⊎ Among b ms

abbrev pub path_length : Option Mount → ℕ
path_length none = 0
path_length (some m) = length m.path

-- What the loop makes of the best entry so far.
record Improves (ms : List Mount) (path : Name) (best r : Option Mount) : Type 0 where
  pub origin : (b : Mount) → r ≡ some b → (best ≡ some b) ⊎ (Among b ms × (matches b path ≡ true))
  pub grows : path_length best ≤ path_length r
  pub longest : (m : Mount) → Among m ms → matches m path ≡ true → length m.path ≤ path_length r

better-cases :
    (m : Mount) (path : Name) (best : Option Mount)
    → ((matches m path ≡ true)
        × (path_length best < length m.path)
        × ((matches m path && ltb (path_length best) (length m.path)) ≡ true))
      ⊎ (((matches m path ≡ true) → length m.path ≤ path_length best)
          × ((matches m path && ltb (path_length best) (length m.path)) ≡ false))
better-cases m path best = elim (Bool-cases (matches m path)) [
  | inr e ↦ inr (λ f. cc, rw e refl)
  | inl e ↦ elim (Bool-cases (ltb (path_length best) (length m.path))) [
    | inl f ↦ inl (e, ltb→lt _ _ f, rw (e, f) refl)
    | inr f ↦ inr (λ _. ltb→ge _ _ f, rw (e, f) refl)
  ]
]

find_best-Improves :
    (ms : List Mount) (path : Name) (best : Option Mount)
    → Improves ms path best (find_best ms path best (path_length best))
unfolding find_best
find_best-Improves [] path best = record {
  origin = λ b e. inl e;
  grows = omega arith;
  longest = λ m h f. absurd h;
}
find_best-Improves (m ∷ ms) path best = elim (better-cases m path best) [
  | inl (is_match, longer, e) ↦
      let r = find_best-Improves ms path (some m) in
      rw e (record {
        origin = λ b f. elim (r.origin b f) [
          | inl same ↦
              let this : m ≡ b = cc in
              inr (inl (sym this), subst (λ x. matches x path ≡ true) this is_match)
          | inr (there, fits) ↦ inr (inr there, fits)
        ];
        grows = omega (arith, r.grows);
        longest = λ x h f. elim h [
          | inl same ↦ omega (arith, r.grows, ap (λ (y : Mount). length y.path) same)
          | inr there ↦ r.longest x there f
        ];
      })
  | inr (shorter, e) ↦
      let r = find_best-Improves ms path best in
      rw e (record {
        origin = λ b f. elim (r.origin b f) [
          | inl same ↦ inl same
          | inr (there, fits) ↦ inr (inr there, fits)
        ];
        grows = r.grows;
        longest = λ x h f. elim h [
          | inl same ↦ omega (
            arith,
            r.grows,
            ap (λ (y : Mount). length y.path) same,
            shorter (subst (λ y. matches y path ≡ true) same f),
          )
          | inr there ↦ r.longest x there f
        ];
      })
]

-- The entry is active, and its path is that of the root directory, or `path` goes on after it with a
-- slash or ends there; in each case `path` begins with it.
pub record Covers (m : Mount) (path : Name) : Type 0 where
  pub is_active : m.active ≡ true
  pub rest : Name
  pub begins : path ≡ m.path ++ rest
  pub boundary : (m.path ≡ slash ∷ []) ⊎ (byte_at rest 0 ≡ slash) ⊎ (byte_at rest 0 ≡ 0)

is_prefix-append : (xs rest : Name) → is_prefix xs (xs ++ rest) ≡ true
unfolding is_prefix
is_prefix-append [] rest = refl
is_prefix-append (x ∷ xs) rest = rw (eq→eqb x x refl) (is_prefix-append xs rest)

rest_of : (xs path : Name) → is_prefix xs path ≡ true → (rest : Name) × (path ≡ xs ++ rest)
unfolding is_prefix
rest_of [] path e = (path, refl)
rest_of (x ∷ xs) [] e = cc
rest_of (x ∷ xs) (y ∷ ys) e =
    let (rest, same) = rest_of xs ys (ground arith) in let head : x ≡ y = ground arith in (rest, cc)

byte_at-append : (xs rest : Name) → byte_at (xs ++ rest) (length xs) ≡ byte_at rest 0
byte_at-append [] rest = refl
byte_at-append (x ∷ xs) rest = byte_at-append xs rest

root_path : (xs : Name) → (length xs == 1 && byte_at xs 0 == slash) ≡ true → xs ≡ slash ∷ []
root_path [] e = cc
root_path (x ∷ []) e = let same : x ≡ slash = ground arith in cc
root_path (x ∷ y ∷ xs) e = absurd (ground arith)

or-cases : (a b : Bool) → (a || b) ≡ true → (a ≡ true) ⊎ (b ≡ true)
or-cases true b e = inl refl
or-cases false b e = inr e

matches-Covers : (m : Mount) (path : Name) → matches m path ≡ true → Covers m path
unfolding matches
matches-Covers m path e =
    let (rest, begins) = rest_of m.path path (ground arith) in
    let next : byte_at path (length m.path) ≡ byte_at rest 0 =
      ap (λ (p : Name). byte_at p (length m.path)) begins ∙ byte_at-append m.path rest in
    let ends =
      or-cases (length m.path == 1 && byte_at m.path 0 == slash)
        (byte_at path (length m.path) == slash || byte_at path (length m.path) == 0)
        (ground arith) in
    record {
      is_active = ground arith;
      rest = rest;
      begins = begins;
      boundary = elim ends [
        | inl f ↦ inl (root_path m.path f)
        | inr f ↦ elim (or-cases (byte_at path (length m.path) == slash) _ f) [
          | inl g ↦ inr (inl (sym next ∙ eqb→eq _ _ g))
          | inr g ↦ inr (inr (sym next ∙ eqb→eq _ _ g))
        ]
      ];
    }

Covers-matches : (m : Mount) (path : Name) → Covers m path → matches m path ≡ true
unfolding matches
Covers-matches m path c =
    let fits : is_prefix m.path path ≡ true =
      ap (is_prefix m.path) c.begins ∙ is_prefix-append m.path c.rest in
    let next : byte_at path (length m.path) ≡ byte_at c.rest 0 =
      ap (λ (p : Name). byte_at p (length m.path)) c.begins ∙ byte_at-append m.path c.rest in
    elim c.boundary [
      | inl root ↦
          let one : length m.path ≡ 1 = ap length root in
          let first : byte_at m.path 0 ≡ slash = ap (λ (p : Name). byte_at p 0) root in
          ground (arith, c.is_active, fits, one, first)
      | inr (inl s) ↦ ground (arith, c.is_active, fits, next, s)
      | inr (inr z) ↦ ground (arith, c.is_active, fits, next, z)
    ]

-- An entry that covers the path, or none, and no entry that covers it has a longer path.
pub record LongestCover (ms : List Mount) (path : Name) (r : Option Mount) : Type 0 where
  pub covers : (b : Mount) → r ≡ some b → Among b ms × Covers b path
  pub longest : (m : Mount) → Among m ms → Covers m path → length m.path ≤ path_length r

-- `find_mount` returns an entry of the table that is active and whose path is a prefix of the path that ends at the
-- end of a component, and of these one with the longest path; or none, and then no such entry has a path that is not empty.
pub find_mount-LongestCover :
    (t : MountTable) (path : Name) → LongestCover t.entries path (find_mount t path)
unfolding find_mount
find_mount-LongestCover t path =
    let r = find_best-Improves t.entries path none in
    record {
      covers = λ b e. elim (r.origin b e) [
        | inl f ↦ absurd (cc)
        | inr (there, fits) ↦ (there, matches-Covers b path fits)
      ];
      longest = λ m there c. r.longest m there (Covers-matches m path c);
    }
