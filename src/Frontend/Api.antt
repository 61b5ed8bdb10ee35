-- ===== src/Frontend/Api.antt =====
-- The requests of lib/data.ts and lib/migrations.ts: what each makes of the response. A response
-- is its status and its body as JSON, none where `response.json()` rejects.
pub mod Answers
use code_delta.Prelude.{
  ℕ, zero, Bool, false, ◌&&◌, not, Option, some, [], ◌∷◌, ◌++◌, ltb, leb, ◌==◌, if◌then◌else◌, any,
  Result, need, ok, err,
}
use code_delta.Text.{Text, txt, is_eq, is_empty}
use code_delta.Json.{Value, items, property, natural, undefined, null, bool, num, str, arr, obj}

pub record Response : Type 0 where
  pub status : ℕ
  pub json : Option Value

-- The message of an `Error`: a text, one that ends with the response's status, or the text that
-- JavaScript makes of a value; or the rejection of `response.json()`.
pub data Problem : Type 0 where
  said : Text → Problem
  said_status : Text → ℕ → Problem
  of_value : Value → Problem
  no_json : Problem

-- response.ok
abbrev pub is_ok : Response → Bool
is_ok response = leb 200 response.status && ltb response.status 300

abbrev pub body_of : Response → Result Problem Value
body_of response = need response.json no_json

-- payload?.detail of a body, which is undefined for all but objects.
abbrev pub detail_of : Option Value → Value
detail_of (some (obj fields)) = property fields (txt "detail")
detail_of _ = undefined

-- `detail || message`; a detail that is no text is turned into one by `Error`.
abbrev pub detail_or : Value → Problem → Problem
detail_or (str (c ∷ s)) problem = said (c ∷ s)
detail_or (str []) problem = problem
detail_or undefined problem = problem
detail_or null problem = problem
detail_or (bool false) problem = problem
detail_or (num (natural zero)) problem = problem
detail_or value problem = of_value value

unfoldable pub read_json : Text → Response → Result Problem Value
unfolding property
read_json fallback response =
    if response.status == 401
    then err (said (txt "Sign in with GitHub to view migration work."))
    else if not (is_ok response)
    then err (detail_or (detail_of response.json) (said_status fallback response.status))
    else body_of response

unfoldable pub fetch_migrations : Response → Result Problem Value
unfolding read_json
fetch_migrations response =
    if response.status == 404
    then err (said (txt "The connected API needs to be upgraded before migrations are available."))
    else read_json (txt "Migrations could not be loaded") response

unfoldable pub fetch_migration : Response → Result Problem Value
unfolding read_json
fetch_migration response = read_json (txt "Migration could not be loaded") response

unfoldable pub fetch_change : Response → Result Problem Value
unfolding read_json
fetch_change response = read_json (txt "Provider change could not be loaded") response

-- The publication, and null where there is none.
unfoldable pub fetch_publication : Response → Result Problem Value
unfolding read_json
fetch_publication response =
    if response.status == 404
    then ok null
    else read_json (txt "Publication status could not be loaded") response

unfoldable pub fetch_providers : Response → Result Problem Value
unfolding read_json
fetch_providers response =
    if response.status == 404
    then err (said (txt "The connected API needs to be upgraded before providers are available."))
    else read_json (txt "Providers could not be loaded") response

unfoldable pub run_command : Text → Response → Result Problem Value
unfolding read_json
run_command action response = read_json (txt "The " ++ action ++ txt " action failed") response

unfoldable pub fetch_runs : Response → Result Problem Value
fetch_runs response =
    if response.status == 401
    then err (said (txt "Sign in with GitHub to see your runs."))
    else if not (is_ok response)
    then err (said_status (txt "Runs request failed with ") response.status)
    else body_of response

-- The answer to a request about one run, with its two messages.
unfoldable pub run_answer : Text → Text → Response → Result Problem Value
run_answer sign_in failed_with response =
    if response.status == 401
    then err (said sign_in)
    else if not (is_ok response)
    then err (
        if response.status == 404
        then said (txt "This run could not be found.")
        else said_status failed_with response.status)
    else body_of response

unfoldable pub fetch_run : Response → Result Problem Value
unfolding run_answer
fetch_run = run_answer (txt "Sign in with GitHub to see this run.") (txt "Run request failed with ")

unfoldable pub retry_run : Response → Result Problem Value
unfolding run_answer
retry_run =
    run_answer (txt "Sign in with GitHub to retry this run.") (txt "Retry request failed with ")

pub data ConnectionStatus : Type 0 where
  preview checking connected upgrade_required unavailable : ConnectionStatus

-- item is a text, and it is this one.
abbrev pub is_text : Text → Value → Bool
is_text s (str t) = is_eq t s
is_text s _ = false

-- The capabilities that are texts include the name.
unfoldable pub has_capability : Text → Value → Bool
unfolding is_eq
has_capability name (arr vs) = any (is_text name) (items vs)
has_capability name _ = false

unfoldable pub health_status : Option Value → ConnectionStatus
unfolding is_eq property has_capability
health_status (some (obj fields)) =
    if not (is_text (txt "ok") (property fields (txt "status")))
    then unavailable
    else if has_capability (txt "migrations") (property fields (txt "capabilities"))
        && has_capability (txt "providers") (property fields (txt "capabilities"))
    then connected
    else upgrade_required
health_status _ = unavailable

-- `api_url` is empty in the preview; the health check is not sent then.
unfoldable pub check_connection : Text → Response → ConnectionStatus
unfolding health_status
check_connection api_url response =
    if is_empty api_url
    then unavailable
    else if not (is_ok response)
    then unavailable
    else health_status response.json

-- The user of the session, or null.
unfoldable pub fetch_me : Text → Response → Result Problem Value
fetch_me api_url response =
    if is_empty api_url then ok null else if not (is_ok response) then ok null else body_of response
