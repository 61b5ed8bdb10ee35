-- ===== src/Frontend/Auth.antt =====
-- chatgpt-auth.ts: the signed-in user of the request headers, and the paths that lead to signing
-- in and out. The URL parser and the percent coding of the platform are parameters.
pub mod Returns
use code_delta.Prelude.{◌⊎◌, inl, inr, Bool, ◌||◌, not, Option, none, some, [], ◌++◌, if◌then◌else◌}
use code_delta.Text.{Text, txt, is_eq, is_empty, starts_with}

abbrev pub sign_in_path : Text
sign_in_path = txt "/signin-with-chatgpt"

abbrev pub sign_out_path : Text
sign_out_path = txt "/signout-with-chatgpt"

abbrev pub callback_path : Text
callback_path = txt "/callback"

abbrev pub app_origin : Text
app_origin = txt "https://app.local"

pub record Url : Type 0 where
  pub origin : Text
  pub pathname : Text
  pub search : Text
  pub hash : Text

-- `new URL(value, "https://app.local")`, or none when it throws; `encodeURIComponent`; and
-- `decodeURIComponent`, or none when it throws.
pub record Web : Type 0 where
  pub parse : Text → Option Url
  pub encode : Text → Text
  pub decode : Text → Option Text

unfoldable pub is_reserved : Text → Bool
unfolding is_eq
is_reserved pathname =
    is_eq pathname sign_in_path || is_eq pathname sign_out_path || is_eq pathname callback_path

-- `${url.pathname}${url.search}${url.hash}`
abbrev pub shown : Url → Text
shown url = url.pathname ++ url.search ++ url.hash

-- !value.startsWith("/") || value.startsWith("//")
unfoldable pub is_foreign : Text → Bool
unfolding starts_with
is_foreign value = not (starts_with value (txt "/")) || starts_with value (txt "//")

-- The path behind the URL that was parsed.
unfoldable pub checked_path : Option Url → Text
unfolding is_eq is_reserved
checked_path none = txt "/"
checked_path (some url) =
    if not (is_eq url.origin app_origin)
    then txt "/"
    else if is_reserved url.pathname
    then txt "/"
    else shown url

pub record ChatUser : Type 0 where
  pub display_name : Text
  pub email : Text
  pub full_name : Option Text

abbrev pub name_or : Option Text → Text → Text
name_or none other = other
name_or (some s) other = s

abbrev pub make_user : Text → Option Text → ChatUser
make_user email full_name = record {
  display_name = name_or full_name email;
  email = email;
  full_name = full_name;
}

-- A header that is missing reads as empty: both are false.
abbrev pub header_text : Option Text → Text
header_text none = []
header_text (some s) = s

module _ (web : Web) where
  unfoldable pub safe_return_path : Text → Text
  unfolding is_foreign checked_path
  safe_return_path value = if is_foreign value then txt "/" else checked_path (web.parse value)

  unfoldable pub sign_in_link : Text → Text
  unfolding safe_return_path
  sign_in_link return_to =
      sign_in_path ++ txt "?return_to=" ++ web.encode (safe_return_path return_to)

  unfoldable pub sign_out_link : Text → Text
  unfolding safe_return_path
  sign_out_link return_to =
      sign_out_path ++ txt "?return_to=" ++ web.encode (safe_return_path return_to)

  -- The full name of the headers, if it is there and percent-encoded.
  unfoldable pub decoded_name : (Text → Option Text) → Option Text
  unfolding is_eq
  decoded_name headers =
      let name = header_text (headers (txt "oai-authenticated-user-full-name")) in
      let coding = header_text (headers (txt "oai-authenticated-user-full-name-encoding")) in
      if is_empty name
      then none
      else if is_eq coding (txt "percent-encoded-utf-8")
      then web.decode name
      else none

  unfoldable pub current_user : (Text → Option Text) → Option ChatUser
  unfolding decoded_name
  current_user headers =
      let email = header_text (headers (txt "oai-authenticated-user-email")) in
      if is_empty email then none else some (make_user email (decoded_name headers))

  -- The user, or the path of the redirect.
  unfoldable pub require_user : (Text → Option Text) → Text → ChatUser ⊎ Text
  unfolding current_user sign_in_link
  require_user headers return_to = elim (current_user headers) [
    | some user ↦ inl user
    | none ↦ inr (sign_in_link return_to)
  ]
