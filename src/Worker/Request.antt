-- ===== src/Worker/Request.antt =====
-- The execution request of policy.ts: its types, its limits and its parser.
pub mod Shapes
pub mod Valid
pub mod Sound
pub mod Encode
use code_delta.Prelude.{
  ℕ, Bool, true, false, ◌&&◌, ◌||◌, not, Option, none, some, List, [], ◌∷◌, map, ltb, leb, ◌==◌,
  if◌then◌else◌, length, drop, all, any, Result, ◌>>=◌, ◌>>◌, throw_if, need, map_result, ok,
}
use code_delta.Text.{
  Text, txt, is_eq, is_empty, starts_with, has_unit, has_text, LetterCase, set_of,
}
use code_delta.Json.{Value, property, as_str, as_items, as_fields, as_natural, as_strs}
use code_delta.Worker.Fault.{
  Fault, invalid_file, invalid_check, invalid_request, duplicate_file, duplicate_edit,
  duplicate_check,
}
use code_delta.Worker.Path.{normalize_path}

abbrev pub max_files : ℕ
max_files = 1000

abbrev pub max_edits : ℕ
max_edits = 100

abbrev pub max_checks : ℕ
max_checks = 10

abbrev pub allowed_executables : List Text
allowed_executables =
    txt "python"
    ∷ txt "python3"
    ∷ txt "pytest"
    ∷ txt "ruff"
    ∷ txt "mypy"
    ∷ txt "pyright"
    ∷ txt "pip"
    ∷ txt "uv"
    ∷ txt "poetry"
    ∷ txt "node"
    ∷ txt "npm"
    ∷ txt "npx"
    ∷ txt "pnpm"
    ∷ txt "yarn"
    ∷ txt "bun"
    ∷ txt "go"
    ∷ txt "cargo"
    ∷ txt "bundle"
    ∷ []

pub record SandboxFile : Type 0 where
  pub path : Text
  pub content_base64 : Text
  pub sha256 : Text

pub record VerificationCommand : Type 0 where
  pub id : Text
  pub kind : Text
  pub argv : List Text
  pub timeout_ms : ℕ

-- The schema version is the text "1.0" in every request.
pub record ExecutionRequest : Type 0 where
  pub attempt_id : Text
  pub snapshot_digest : Text
  pub patch_digest : Text
  pub files : List SandboxFile
  pub edits : List SandboxFile
  pub checks : List VerificationCommand

abbrev pub lower_letter : ℕ → Bool
lower_letter c = leb b'a' c && leb c b'z'

abbrev pub upper_letter : ℕ → Bool
upper_letter c = leb b'A' c && leb c b'Z'

abbrev pub digit : ℕ → Bool
digit c = leb b'0' c && leb c b'9'

-- [a-f0-9], [A-Za-z0-9+/], [a-z0-9_-], [A-Za-z0-9_-]
abbrev pub hex_unit : ℕ → Bool
hex_unit c = (leb b'a' c && leb c b'f') || digit c

abbrev pub base64_unit : ℕ → Bool
base64_unit c = upper_letter c || lower_letter c || digit c || c == b'+' || c == b'/'

abbrev pub id_unit : ℕ → Bool
id_unit c = lower_letter c || digit c || c == b'_' || c == b'-'

abbrev pub attempt_unit : ℕ → Bool
attempt_unit c = upper_letter c || id_unit c

-- /^[a-f0-9]{64}$/
unfoldable pub hex_digest : Text → Bool
hex_digest s = length s == 64 && all hex_unit s

-- /^sha256:[a-f0-9]{64}$/
unfoldable pub tagged_digest : Text → Bool
unfolding hex_digest starts_with
tagged_digest s = starts_with s (txt "sha256:") && hex_digest (drop 7 s)

-- /^[A-Za-z0-9+/]*={0,2}$/; "=" is not in the class, so the class takes all that it can.
unfoldable pub base64_shape : Text → Bool
base64_shape [] = true
base64_shape (c ∷ s) =
    let rest = base64_shape s in
    if base64_unit c then rest else leb (length (c ∷ s)) 2 && all (λ d. d == b'=') (c ∷ s)

-- /^[a-z0-9][a-z0-9_-]{0,99}$/
unfoldable pub check_id : Text → Bool
check_id [] = false
check_id (c ∷ s) = (lower_letter c || digit c) && leb (length s) 99 && all id_unit s

-- /^[A-Za-z0-9_-]{1,100}$/
unfoldable pub attempt_shape : Text → Bool
attempt_shape s = leb 1 (length s) && leb (length s) 100 && all attempt_unit s

-- `!argument || argument.length > 500 || /[\0\r\n]/.test(argument)`
unfoldable pub bad_argument : Text → Bool
unfolding has_unit
bad_argument s = is_empty s || ltb 500 (length s) || has_unit 0 s || has_unit 13 s || has_unit 10 s

-- typedArgv[0] ?? ""
abbrev pub first_or_empty : List Text → Text
first_or_empty [] = []
first_or_empty (s ∷ ss) = s

-- `n > limit` for a configured limit; a limit that is not a number exceeds nothing.
abbrev pub exceeds : ℕ → Option ℕ → Bool
exceeds n none = false
exceeds n (some limit) = ltb limit n

-- new Set(list).size !== list.length
unfoldable pub repeats : List Text → Bool
unfolding set_of
repeats xs = not (length (set_of xs) == length xs)

module _ (letters : LetterCase) where
  unfoldable pub parse_file : Value → Result Fault SandboxFile
  parse_file value = do
    fields ← need (as_fields value) invalid_file
    path ← need (as_str (property fields (txt "path"))) invalid_file
    content ← need (as_str (property fields (txt "content_base64"))) invalid_file
    sha256 ← need (as_str (property fields (txt "sha256"))) invalid_file
    throw_if (not (hex_digest sha256) || not (base64_shape content)) invalid_file
    normalized ← normalize_path letters path
    ok (record { path = normalized; content_base64 = content; sha256 = sha256 })

unfoldable pub parse_command : Option ℕ → Value → Result Fault VerificationCommand
parse_command max_timeout value = do
  fields ← need (as_fields value) invalid_check
  id ← need (as_str (property fields (txt "id"))) invalid_check
  throw_if (not (check_id id)) invalid_check
  kind ← need (as_str (property fields (txt "kind"))) invalid_check
  arguments ← need (as_items (property fields (txt "argv"))) invalid_check
  throw_if (ltb (length arguments) 1 || ltb 32 (length arguments)) invalid_check
  timeout ← need (as_natural (property fields (txt "timeout_ms"))) invalid_check
  throw_if (ltb timeout 100 || exceeds timeout max_timeout) invalid_check
  argv ← need (as_strs arguments) invalid_check
  throw_if (not (has_text (first_or_empty argv) allowed_executables) || any bad_argument argv)
      invalid_check
  ok (record { id = id; kind = kind; argv = argv; timeout_ms = timeout })

abbrev pub file_paths : List SandboxFile → List Text
file_paths files = map (λ (file : SandboxFile). file.path) files

abbrev pub command_ids : List VerificationCommand → List Text
command_ids checks = map (λ (check : VerificationCommand). check.id) checks

-- `Array.isArray(value.files)` and the bounds on its length.
unfoldable pub bounded_items : ℕ → ℕ → Value → Result Fault (List Value)
bounded_items least most value = do
  found ← need (as_items value) invalid_request
  throw_if (ltb (length found) least || ltb most (length found)) invalid_request
  ok found

module _ (letters : LetterCase) (max_timeout : Option ℕ) where
  unfoldable pub parse_execution_request : Value → Result Fault ExecutionRequest
  parse_execution_request value = do
    fields ← need (as_fields value) invalid_request
    version ← need (as_str (property fields (txt "schema_version"))) invalid_request
    throw_if (not (is_eq version (txt "1.0"))) invalid_request
    attempt ← need (as_str (property fields (txt "attempt_id"))) invalid_request
    throw_if (not (attempt_shape attempt)) invalid_request
    snapshot ← need (as_str (property fields (txt "snapshot_digest"))) invalid_request
    throw_if (not (tagged_digest snapshot)) invalid_request
    patch ← need (as_str (property fields (txt "patch_digest"))) invalid_request
    throw_if (not (hex_digest patch)) invalid_request
    file_values ← bounded_items 0 max_files (property fields (txt "files"))
    edit_values ← bounded_items 1 max_edits (property fields (txt "edits"))
    check_values ← bounded_items 1 max_checks (property fields (txt "checks"))
    files ← map_result (parse_file letters) file_values
    edits ← map_result (parse_file letters) edit_values
    checks ← map_result (parse_command max_timeout) check_values
    throw_if (repeats (file_paths files)) duplicate_file
    throw_if (repeats (file_paths edits)) duplicate_edit
    throw_if (repeats (command_ids checks)) duplicate_check
    ok (record {
      attempt_id = attempt;
      snapshot_digest = snapshot;
      patch_digest = patch;
      files = files;
      edits = edits;
      checks = checks;
    })
