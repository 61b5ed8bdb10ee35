-- ===== src/Worker/Path/Inside.antt =====
-- Where the operating system finds a path that `normalize_path` accepted: POSIX resolution of
-- "", "." and "..", for a file system without symbolic links.
use mathlib.Core.Path.{subst}
use code_delta.Prelude.{
  ◌≡◌, refl, sym, ap, ◌∙◌, ◌||◌, List, [], ◌∷◌, ◌++◌, append_assoc, append-nil, if◌then◌else◌, All,
  ok,
}
use code_delta.Text.{Text, txt, is_eq, is_empty, split, join, LetterCase}
use code_delta.Text.Equal.{is_eq_of_ne}
use code_delta.Text.Split.{split-IsPair, split-slash}
use code_delta.Worker.Path.{normalize_path}
use code_delta.Worker.Path.Accepts.{IsName, IsRelative, split_of_IsRelative}
use code_delta.Worker.Path.Allowed.{IsAllowed}
use code_delta.Worker.Path.Normal.{last_part, normalize_path-eq-ok_iff}

-- The parent of a directory; the root is its own parent.
abbrev parent : List Text → List Text
parent [] = []
parent (d ∷ []) = []
parent (d ∷ e ∷ ds) = d ∷ parent (e ∷ ds)

enter : List Text → Text → List Text
enter here part =
    if is_empty part || is_eq part (txt ".")
    then here
    else if is_eq part (txt "..")
    then parent here
    else here ++ part ∷ []

walk : List Text → List Text → List Text
walk here [] = here
walk here (part ∷ parts) = walk (enter here part) parts

-- The names on the way from the root to the file.
pub resolve : Text → List Text
resolve path = walk [] (split b'/' path)

enter-IsName : (here : List Text) (part : Text) → IsName part → enter here part ≡ here ++ part ∷ []
unfolding enter
enter-IsName here [] n = absurd (n.not_empty refl)
enter-IsName here (a ∷ p) n =
    rw (is_eq_of_ne (a ∷ p) (txt ".") n.not_dot, is_eq_of_ne (a ∷ p) (txt "..") n.not_dots)

walk-names : (here parts : List Text) → All IsName parts → walk here parts ≡ here ++ parts
unfolding walk
walk-names here [] _ = sym (append-nil here)
walk-names here (p ∷ ps) (n, ns) =
    rw (enter-IsName here p n) (walk-names (here ++ p ∷ []) ps ns ∙ append_assoc here (p ∷ []) ps)

resolve-names :
    (q : Text)
    → All IsName (split b'/' q)
    → resolve (txt "/workspace/repository/" ++ q)
      ≡ txt "workspace" ∷ txt "repository" ∷ split b'/' q
unfolding resolve walk enter split is_eq
resolve-names q names = walk-names (txt "workspace" ∷ txt "repository" ∷ []) (split b'/' q) names

resolve_below :
    (q : Text)
    → IsRelative q
    → resolve (txt "/workspace/repository/" ++ q)
      ≡ txt "workspace" ∷ txt "repository" ∷ split b'/' q
resolve_below q r = resolve-names q (subst (All IsName) (sym (split_of_IsRelative q r)) r.names)

-- The path leads to something below the repository's directory.
abbrev pub IsBelow : Text → Type 0
IsBelow path =
    (first : Text) × (more : List Text) × (resolve path
      ≡ txt "workspace" ∷ txt "repository" ∷ first ∷ more)

IsBelow-of_names :
    (q : Text) → All IsName (split b'/' q) → IsBelow (txt "/workspace/repository/" ++ q)
IsBelow-of_names q names =
    let (first, more, e) = split-IsPair b'/' q in
    (
      first,
      more,
      resolve-names q names ∙ ap (λ (ts : List Text). txt "workspace" ∷ txt "repository" ∷ ts) e,
    )

All-left : (P : Text → Type 0) (xs ys : List Text) → All P (xs ++ ys) → All P xs
All-left P [] ys h = tt
All-left P (x ∷ xs) ys (h, hs) = (h, All-left P xs ys hs)

module _ (letters : LetterCase) where
  -- An accepted path, put behind "/workspace/repository/", resolves to a file below that
  -- directory: to the path's own parts there, at least one of them.
  pub normalize_path-inside :
      (v q : Text)
      → normalize_path letters v ≡ ok q
      → (first : Text) × (more : List Text) × (resolve (txt "/workspace/repository/" ++ q)
          ≡ txt "workspace" ∷ txt "repository" ∷ first ∷ more)
        × (join (txt "/") (first ∷ more) ≡ v)
  normalize_path-inside v q h =
      let (same, r, a) = (normalize_path-eq-ok_iff letters v q).0 h in
      (
        r.first,
        r.more,
        rw same (
            resolve_below v r
            ∙ ap (λ (ts : List Text). txt "workspace" ∷ txt "repository" ∷ ts)
                (split_of_IsRelative v r)),
        sym r.joined,
      )

  -- Normalising what was accepted accepts it again: a second call cannot throw.
  pub normalize_path_again :
      (v q : Text) → normalize_path letters v ≡ ok q → normalize_path letters q ≡ ok q
  normalize_path_again v q h =
      let (same, r, a) = (normalize_path-eq-ok_iff letters v q).0 h in
      (normalize_path-eq-ok_iff letters q q).1 (
        refl,
        subst IsRelative (sym same) r,
        subst (λ (p : Text). IsAllowed (letters.lower p) (letters.lower (last_part p))) (sym same)
            a,
      )

  -- An accepted path, and each directory that it names on its way, lie below the repository.
  pub accepted-IsBelow :
      (q : Text) → normalize_path letters q ≡ ok q → IsBelow (txt "/workspace/repository/" ++ q)
  accepted-IsBelow q h =
      let (_, r, a) = (normalize_path-eq-ok_iff letters q q).0 h in
      IsBelow-of_names q (subst (All IsName) (sym (split_of_IsRelative q r)) r.names)

  pub directory-IsBelow :
      (q directory name : Text)
      → normalize_path letters q ≡ ok q
      → q ≡ directory ++ (b'/' ∷ name)
      → IsBelow (txt "/workspace/repository/" ++ directory)
  directory-IsBelow q directory name h e =
      let (_, r, a) = (normalize_path-eq-ok_iff letters q q).0 h in
      let names : All IsName (split b'/' q) =
        subst (All IsName) (sym (split_of_IsRelative q r)) r.names in
      let parts = ap (split b'/') e ∙ split-slash b'/' directory name in
      IsBelow-of_names directory
        (All-left IsName (split b'/' directory) (split b'/' name) (subst (All IsName) parts names))
