-- ===== src/Frontend/Format.antt =====
-- The formatting functions of MigrationWorkspace.tsx and DeltaCodeApp.tsx, and what they take from
-- the platform. A time is its milliseconds since 1970.
pub mod Ages
pub mod Decimals
use code_delta.Prelude.{
  ℕ, zero, suc, ◌+◌, ◌-◌, ◌/◌, ◌%◌, Bool, true, ◌&&◌, ◌||◌, not, Option, none, some, List, [], ◌∷◌,
  ◌++◌, ltb, leb, if◌then◌else◌, take, drop, filter,
}
use code_delta.Text.{Text, txt, is_empty, replace_unit, last_or, LetterCase}
use code_delta.Json.{Value, Number}
use code_delta.Worker.Regex.{space_unit}
use code_delta.Frontend.Run.{CurrentUser}
use code_delta.Frontend.Migration.Evidence.{Decimal}
use code_delta.Frontend.Detail.{text_or, name_of}

-- The digits of a number, the last one first found; one round of fuel for each digit.
abbrev pub digits : ℕ → ℕ → Text
digits zero n = []
digits (suc fuel) n =
    let front = digits fuel (n / 10) in
    if ltb n 10 then (b'0' + n) ∷ [] else front ++ (b'0' + n % 10) ∷ []

-- String(n); a number has at most as many digits as it counts.
abbrev pub decimal : ℕ → Text
decimal n = digits (n + 1) n

-- What the pages take from outside: the address of the API, the case tables, percent coding, the
-- clock, `new Date(text).getTime()` (none for NaN), `Number(text)`, `Intl.DateTimeFormat`, `toLocaleString`,
-- `JSON.stringify`, and in floating point `Math.round(score * 100)`, `(ms / 1000).toFixed(1)`,
-- `Math.round((a / b) * 100)` and the text of `Math.max(10, (a / b) * 100)`.
pub record Site : Type 0 where
  pub api_url : Text
  pub letters : LetterCase
  pub encode : Text → Text
  pub now : ℕ
  pub parse_date : Text → Option ℕ
  pub to_number : Text → Number
  pub show_date : Text → Text
  pub show_local : Text → Text
  pub show_json : Value → Text
  pub round_hundred : Decimal → ℕ
  pub seconds_text : ℕ → Text
  pub round_share : ℕ → ℕ → ℕ
  pub share_text : ℕ → ℕ → Text

-- githubLoginUrl and githubRepositoryRefreshUrl
abbrev pub login_base : Site → Text
login_base site = site.api_url ++ txt "/auth/github/login"

unfoldable pub login_url : Site → Text
login_url site = login_base site ++ txt "?redirect_uri=" ++ site.encode (txt "/migrations")

unfoldable pub refresh_url : Site → Text
refresh_url site =
    login_base site ++ txt "?redirect_uri=" ++ site.encode (txt "/settings/integrations")

abbrev pub is_live : Site → Bool
is_live site = not (is_empty site.api_url)

-- How long ago something was; `not_a_time` is NaN, and `ahead` what lies in the future.
pub data Age : Type 0 where
  minutes hours days ahead_hours ahead_days : ℕ → Age
  not_a_time : Age

abbrev pub age_text : Age → Text
age_text (minutes n) = decimal n ++ txt "m ago"
age_text (hours n) = decimal n ++ txt "h ago"
age_text (days n) = decimal n ++ txt "d ago"
age_text (ahead_hours n) = b'-' ∷ (decimal n ++ txt "h ago")
age_text (ahead_days n) = b'-' ∷ (decimal n ++ txt "d ago")
age_text not_a_time = txt "NaNd ago"

abbrev pub at_least_one : ℕ → ℕ
at_least_one n = if ltb n 1 then 1 else n

-- Math.round(a / b) of numbers that are not negative.
abbrev pub round_div : ℕ → ℕ → ℕ
round_div a b = (a + b / 2) / b

unfoldable pub age_of_minutes : ℕ → Age
age_of_minutes m =
    if ltb m 60
    then minutes m
    else if ltb (round_div m 60) 24
    then hours (round_div m 60)
    else days (round_div (round_div m 60) 24)

-- The age of `formatRelative`, which says one minute for the future too.
unfoldable pub relative_age : ℕ → Option ℕ → Age
unfolding age_of_minutes
relative_age now none = not_a_time
relative_age now (some time) = age_of_minutes (at_least_one (round_div (now - time) 60000))

-- Math.round of a negative quotient: halves go up, to the smaller size.
abbrev pub round_down : ℕ → ℕ → ℕ
round_down a b = (a + (b - 1) / 2) / b

-- The age of `formatRelativeDate` for a time that is so many minutes ahead.
unfoldable pub age_ahead : ℕ → Age
age_ahead m =
    if ltb m 60
    then minutes 1
    else if ltb (round_down m 60) 24
    then ahead_hours (round_down m 60)
    else ahead_days (round_down (round_down m 60) 24)

unfoldable pub age_past : ℕ → Age
age_past m = if ltb m 60 then minutes (at_least_one m) else age_of_minutes m

unfoldable pub relative_date_age : ℕ → Option ℕ → Age
unfolding age_past age_ahead
relative_date_age now none = not_a_time
relative_date_age now (some time) =
    if leb time now
    then age_past (round_div (now - time) 60000)
    else age_ahead (round_down (time - now) 60000)

unfoldable pub format_relative : Site → Text → Text
unfolding relative_age
format_relative site value = age_text (relative_age site.now (site.parse_date value))

unfoldable pub format_relative_date : Site → Text → Text
unfolding relative_date_age
format_relative_date site value = age_text (relative_date_age site.now (site.parse_date value))

-- !value
abbrev pub absent_text : Option Text → Bool
absent_text none = true
absent_text (some s) = is_empty s

abbrev pub given : Option Text → Text
given none = []
given (some s) = s

unfoldable pub format_date : Site → Option Text → Text
format_date site value =
    if absent_text value then txt "Not scheduled" else site.show_date (given value)

unfoldable pub percentage : Site → Decimal → Text
percentage site value = decimal (site.round_hundred value) ++ txt "%"

-- value.replaceAll("_", " ")
abbrev pub spaced : Text → Text
spaced = replace_unit b'_' (txt " ")

-- value.slice(0, 2).toUpperCase() and value[0].toUpperCase() + value.slice(1)
unfoldable pub initials : Site → Text → Text
initials site s = site.letters.upper (take 2 s)

unfoldable pub capitalised : Site → Text → Text
capitalised site s = site.letters.upper (take 1 s) ++ drop 1 s

-- String(n).padStart(2, "0")
abbrev pub padded : ℕ → Text
padded n = if ltb n 10 then b'0' ∷ decimal n else decimal n

-- name.split(/\s+/).filter(Boolean): the words.
abbrev pub put_unit : ℕ → List Text → List Text
put_unit c [] = (c ∷ []) ∷ []
put_unit c (w ∷ ws) = (c ∷ w) ∷ ws

abbrev pub pieces : Text → List Text
pieces [] = [] ∷ []
pieces (c ∷ s) = let rest = pieces s in if space_unit c then [] ∷ rest else put_unit c rest

abbrev pub words : Text → List Text
words s = filter (λ w. not (is_empty w)) (pieces s)

-- login.replace(/[^a-z0-9]/gi, "")
abbrev pub login_unit : ℕ → Bool
login_unit c =
    (leb b'a' c && leb c b'z') || (leb b'A' c && leb c b'Z') || (leb b'0' c && leb c b'9')

abbrev pub first_word : List Text → Text
first_word [] = []
first_word (w ∷ ws) = w

abbrev pub letters_of_words : List Text → Text
letters_of_words (w ∷ v ∷ ws) = take 1 w ++ take 1 (last_or v ws)
letters_of_words ws = take 2 (first_word ws)

abbrev pub login_letters : Site → Text → Text
login_letters site login =
    text_or (site.letters.upper (take 2 (filter login_unit login))) (txt "DC")

abbrev pub named_initials : Site → Text → Text → Text
named_initials site name login =
    if is_empty name
    then login_letters site login
    else site.letters.upper (letters_of_words (words name))

unfoldable pub user_initials : Site → Option CurrentUser → Text
user_initials site none = txt "DC"
user_initials site (some user) = named_initials site (name_of user.name) user.login
