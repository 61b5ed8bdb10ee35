-- ===== src/Worker/Path.antt =====
-- normalizePath of policy.ts, with the deny lists that it reads.
pub mod Accepts
pub mod Allowed
pub mod Normal
pub mod Inside
use code_delta.Prelude.{
  ◌/◌, Bool, ◌||◌, List, [], ◌∷◌, ◌++◌, any, Result, ◌>>=◌, ◌>>◌, throw_if, ok,
}
use code_delta.Text.{
  Text, txt, is_eq, is_empty, starts_with, ends_with, has_unit, has_text, split, join, last_or,
  LetterCase,
}
use code_delta.Worker.Fault.{Fault, invalid_path, denied_path}

abbrev pub denied_prefixes : List Text
denied_prefixes =
    txt ".git"
    ∷ txt ".github/workflows"
    ∷ txt ".circleci"
    ∷ txt ".buildkite"
    ∷ txt ".ssh"
    ∷ txt ".aws"
    ∷ txt ".config/gcloud"
    ∷ []

abbrev pub denied_file_names : List Text
denied_file_names =
    txt ".env"
    ∷ txt ".env.local"
    ∷ txt ".npmrc"
    ∷ txt ".pypirc"
    ∷ txt ".netrc"
    ∷ txt "id_rsa"
    ∷ txt "id_ed25519"
    ∷ txt "credentials"
    ∷ txt "credentials.json"
    ∷ txt "credentials.yml"
    ∷ txt "credentials.yaml"
    ∷ txt "service-account.json"
    ∷ []

abbrev pub denied_suffixes : List Text
denied_suffixes = txt ".key" ∷ txt ".pem" ∷ txt ".p12" ∷ txt ".pfx" ∷ []

-- The first test: empty, a backslash, a NUL, or absolute.
unfoldable pub malformed : Text → Bool
unfolding has_unit starts_with
malformed value =
    is_empty value || has_unit b'\x5c' value || has_unit 0 value || starts_with value (txt "/")

-- `!part || part === "." || part === ".."`
unfoldable pub bad_part : Text → Bool
unfolding is_eq
bad_part part = is_empty part || is_eq part (txt ".") || is_eq part (txt "..")

-- lowered === prefix || lowered.startsWith(`${prefix}/`)
unfoldable pub in_directory : Text → Text → Bool
unfolding is_eq starts_with
in_directory lowered prefix = is_eq lowered prefix || starts_with lowered (prefix ++ txt "/")

unfoldable pub under_denied : Text → Bool
unfolding in_directory
under_denied lowered = any (in_directory lowered) denied_prefixes

-- The file's name is one that holds secrets.
unfoldable pub secret_name : Text → Bool
unfolding has_text starts_with ends_with
secret_name name =
    has_text name denied_file_names
    || starts_with name (txt ".env.")
    || any (λ suffix. ends_with name suffix) denied_suffixes

module _ (letters : LetterCase) where
  -- What is refused as `denied_path`, of a path and its last part.
  unfoldable pub denied : Text → Text → Bool
  denied normalized last =
      under_denied (letters.lower normalized) || secret_name (letters.lower last)

  unfoldable pub normalize_path : Text → Result Fault Text
  normalize_path value = do
    throw_if (malformed value) invalid_path
    let parts = split b'/' value
    throw_if (any bad_part parts) invalid_path
    let normalized = join (txt "/") parts
    throw_if (denied normalized (last_or [] parts)) denied_path
    ok normalized
