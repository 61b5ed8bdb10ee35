-- ===== src/Worker/Sandbox.antt =====
-- The sandbox and the platform as the worker meets them (@cloudflare/sandbox, crypto.subtle, atob,
-- JSON.parse): not code of the repository, hence parameters. A sandbox may answer each call as it
-- likes, depending on all calls before it, so a theorem over every `Sandbox` covers each failure.
use code_delta.Prelude.{ℕ, Bool, true, false, Option, List, [], ◌∷◌, ◌++◌, Result, ok, err}
use code_delta.Text.{Text, LetterCase}
use code_delta.Json.{Value}
use code_delta.Worker.Fault.{Fault, platform_error}

pub data Call : Type 0 where
  mkdir : Text → Call
  write_file : Text → List ℕ → Call
  exec : Text → ℕ → Call
  destroy : Call

pub record ExecResult : Type 0 where
  pub success : Bool
  pub exit_code : ℕ
  pub duration : ℕ
  pub stdout : Text
  pub stderr : Text

-- `exec` throws with the message of an `Error`, or with something else.
pub data ExecOutcome : Type 0 where
  finished : ExecResult → ExecOutcome
  threw : Option Text → ExecOutcome

-- Each answer from the calls made before, oldest first; `false` stands for an exception. The
-- answer of `destroy` is whether it ended in ten seconds.
pub record Sandbox : Type 0 where
  pub can_mkdir : List Call → Text → Bool
  pub can_write : List Call → Text → List ℕ → Bool
  pub run : List Call → Text → ℕ → ExecOutcome
  pub can_destroy : List Call → Bool

-- `atob` gives the bytes or throws; `sha256` gives the bytes of the digest; `utf8` is the
-- encoding of `TextEncoder`; `parse_json` decodes and parses, or throws.
pub record Platform : Type 0 where
  pub letters : LetterCase
  pub atob : Text → Option (List ℕ)
  pub sha256 : List ℕ → List ℕ
  pub utf8 : Text → List ℕ
  pub parse_json : List ℕ → Option Value

-- Code that calls the sandbox and may throw: the calls made so far are kept when it throws.
abbrev pub Run : Type 0 → Type 0
Run A = List Call → Result Fault A × List Call

abbrev continue : {A B : Type 0} → Result Fault A → (A → Run B) → Run B
continue (ok a) f calls = f a calls
continue (err e) f calls = (err e, calls)

infixl 5 ◌>>=◌ ◌>>◌
abbrev pub ◌>>=◌ : {A B : Type 0} → Run A → (A → Run B) → Run B
◌>>=◌ m f calls = let (r, after) = m calls in continue r f after

abbrev pub ◌>>◌ : {B : Type 0} → Run (Unit {0}) → Run B → Run B
m >> k = m >>= λ _. k

abbrev pub lift : {A : Type 0} → Result Fault A → Run A
lift r calls = (r, calls)

abbrev pub done : Run (Unit {0})
done calls = (ok tt, calls)

-- A call that was made, and whether it threw.
abbrev pub made : Call → Bool → Run (Unit {0})
made call true calls = (ok tt, calls ++ call ∷ [])
made call false calls = (err platform_error, calls ++ call ∷ [])
