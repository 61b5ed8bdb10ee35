-- ===== src/Worker/Files.antt =====
-- writeFiles of index.ts, with `digest`.
pub mod Setup
use code_delta.Worker.Sandbox.{
  Sandbox, Platform, Run, ◌>>=◌, ◌>>◌, lift, done, made, mkdir, write_file,
}
use code_delta.Prelude.{
  ℕ, zero, suc, ◌+◌, ◌-◌, ◌/◌, ◌%◌, not, Option, none, some, List, [], ◌∷◌, ◌++◌, ltb, ◌==◌,
  if◌then◌else◌, take, throw_if, need,
}
use code_delta.Text.{Text, txt, is_eq}
use code_delta.Worker.Fault.{file_digest_mismatch, platform_error}
use code_delta.Worker.Path.{normalize_path}
use code_delta.Worker.Request.{SandboxFile, ExecutionRequest}

-- byte.toString(16).padStart(2, "0")
abbrev pub hex_digit : ℕ → ℕ
hex_digit n = if ltb n 10 then b'0' + n else b'a' + (n - 10)

unfoldable pub hex_text : List ℕ → Text
hex_text [] = []
hex_text (byte ∷ bytes) = hex_digit (byte / 16) ∷ hex_digit (byte % 16) ∷ hex_text bytes

-- path.lastIndexOf("/"), and none for -1.
unfoldable pub last_index_of : ℕ → Text → Option ℕ
last_index_of c [] = none
last_index_of c (a ∷ s) = elim (last_index_of c s) [
  | some i ↦ some (suc i)
  | none ↦ if a == c then some 0 else none
]

abbrev pub repository : Text
repository = txt "/workspace/repository/"

module _ (platform : Platform) (sandbox : Sandbox) where
  unfoldable pub digest : List ℕ → Text
  unfolding hex_text
  digest bytes = hex_text (platform.sha256 bytes)

  unfoldable pub make_directory : Text → Run (Unit {0})
  make_directory path calls = made (mkdir path) (sandbox.can_mkdir calls path) calls

  unfoldable pub write_bytes : Text → List ℕ → Run (Unit {0})
  write_bytes path bytes calls =
      made (write_file path bytes) (sandbox.can_write calls path bytes) calls

  -- `if (slash > 0)` with slash = path.lastIndexOf("/")
  unfoldable pub make_parent : Text → Option ℕ → Run (Unit {0})
  unfolding make_directory
  make_parent path none = done
  make_parent path (some zero) = done
  make_parent path (some (suc i)) = make_directory (repository ++ take (suc i) path)

  -- One round of the loop.
  unfoldable pub write_one : SandboxFile → Run (Unit {0})
  unfolding make_directory write_bytes make_parent
  write_one file = do
    path ← lift (normalize_path platform.letters file.path)
    bytes ← lift (need (platform.atob file.content_base64) platform_error)
    lift (throw_if (not (is_eq (digest bytes) file.sha256)) file_digest_mismatch)
    make_parent path (last_index_of b'/' path)
    write_bytes (repository ++ path) bytes

  unfoldable pub write_files : List SandboxFile → Run (Unit {0})
  unfolding write_one
  write_files [] = done
  write_files (file ∷ files) = do write_one file; write_files files

  -- What `execute` does before the checks.
  unfoldable pub prepare : ExecutionRequest → Run (Unit {0})
  unfolding write_files
  prepare payload = do
    make_directory (txt "/workspace/repository")
    write_files payload.files
    write_files payload.edits
