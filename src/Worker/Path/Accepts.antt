-- ===== src/Worker/Path/Accepts.antt =====
-- Which paths `normalize_path` accepts, said without its tests, and what it gives back.
use code_delta.Prelude.{
  ◌≡◌, refl, ◌≢◌, false, ◌||◌, List, [], ◌∷◌, arith, or-false, any, All, All-map,
}
use code_delta.Text.{Text, txt, is_eq, is_empty, split, join}
use code_delta.Text.Equal.{ne_of_is_eq, is_eq_of_ne}
use code_delta.Text.Search.{Lacks}
use code_delta.Text.Split.{split-join}
use code_delta.Worker.Path.{bad_part}

-- A part that names an entry of its directory: not empty, "." or "..", and without "/".
pub record IsName (part : Text) : Type 0 where
  pub not_empty : part ≢ []
  pub not_dot : part ≢ txt "."
  pub not_dots : part ≢ txt ".."
  pub no_slash : Lacks b'/' part

-- The path is names joined by single slashes, and holds no backslash and no NUL.
pub record IsRelative (path : Text) : Type 0 where
  pub first : Text
  pub more : List Text
  pub joined : path ≡ join (txt "/") (first ∷ more)
  pub names : All IsName (first ∷ more)
  pub no_backslash : Lacks b'\x5c' path
  pub no_nul : Lacks 0 path

bad_part→IsName : (part : Text) → Lacks b'/' part → bad_part part ≡ false → IsName part
unfolding bad_part
bad_part→IsName part slash h =
    let (front, dots) =
      or-false (is_empty part || is_eq part (txt ".")) (is_eq part (txt "..")) h in
    let (empty, dot) = or-false (is_empty part) (is_eq part (txt ".")) front in
    record {
      not_empty = ne_empty part empty;
      not_dot = ne_of_is_eq part (txt ".") dot;
      not_dots = ne_of_is_eq part (txt "..") dots;
      no_slash = slash;
    }
  where
    ne_empty : (p : Text) → is_empty p ≡ false → p ≢ []
    ne_empty [] e = cc
    ne_empty (a ∷ p) e = λ q. cc

pub bad_part_of_IsName : (part : Text) → IsName part → bad_part part ≡ false
unfolding bad_part
bad_part_of_IsName [] n = absurd (n.not_empty refl)
bad_part_of_IsName (a ∷ p) n =
    ground
      (arith, is_eq_of_ne (a ∷ p) (txt ".") n.not_dot, is_eq_of_ne (a ∷ p) (txt "..") n.not_dots)

pub IsName-of_parts :
    (parts : List Text) → All (Lacks b'/') parts → any bad_part parts ≡ false → All IsName parts
IsName-of_parts [] _ h = tt
IsName-of_parts (p ∷ ps) (slash, slashes) h =
    let (here, later) = or-false (bad_part p) (any bad_part ps) h in
    (bad_part→IsName p slash here, IsName-of_parts ps slashes later)

pub Lacks-of_IsName : (parts : List Text) → All IsName parts → All (Lacks b'/') parts
Lacks-of_IsName = All-map (λ p n. n.no_slash)

-- What the parts of a relative path are.
pub split_of_IsRelative : (path : Text) (r : IsRelative path) → split b'/' path ≡ r.first ∷ r.more
split_of_IsRelative path r =
    rw (← r.joined) at (split-join b'/' r.first r.more (Lacks-of_IsName (r.first ∷ r.more) r.names))
