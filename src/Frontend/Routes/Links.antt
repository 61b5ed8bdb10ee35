-- ===== src/Frontend/Routes/Links.antt =====
-- The links of the application lead to the pages that they are meant for.
use code_delta.Prelude.{◌||◌, [], ◌∷◌, ◌==◌, if◌then◌else◌}
use code_delta.Text.{Text}

-- The path of a link: what stands before the query or the fragment.
abbrev pub path_of : Text → Text
path_of [] = []
path_of (c ∷ s) = let rest = path_of s in if (c == b'#') || (c == b'?') then [] else c ∷ rest
