-- ===== src/Frontend/Markup/Links.antt =====
-- The links and buttons of the pages: where a link may lead, and what it has to say.
use code_delta.Prelude.{
  String, ◌≡◌, Bool, true, false, ◌&&◌, ◌||◌, not, Option, none, some, List, [], ◌∷◌, ◌==◌, ◌++◌,
  any, if◌then◌else◌,
}
use code_delta.Text.Equal.{is_eq_refl}
use code_delta.Text.{Text, txt, is_eq, has_text}
use code_delta.Frontend.Format.{Site, login_url, refresh_url}
use code_delta.Frontend.Markup.Sound.{or_true, and-same, everywhere}
use code_delta.Frontend.Markup.{Attribute, Markup, attr, maybe, nothing, text, number, ◌&◌, tag}
use code_delta.Frontend.Routes.{Page, page_of, not_found}
use code_delta.Frontend.Routes.Links.{path_of}

-- The value of an attribute, and none if it is missing or undefined.
abbrev pub value_of : Text → List Attribute → Option Text
value_of name [] = none
value_of name (attr k v ∷ attributes) =
    let rest = value_of name attributes in if is_eq (txt k) name then some v else rest
value_of name (maybe k v ∷ attributes) =
    let rest = value_of name attributes in if is_eq (txt k) name then v else rest
value_of name (_ ∷ attributes) = value_of name attributes

abbrev pub has_value : Text → Option Text → Bool
has_value value none = false
has_value value (some v) = is_eq v value

abbrev pub is_known : Page → Bool
is_known not_found = false
is_known _ = true

-- A link to one of the places in the page, or to a page that the route table has.
unfoldable pub leads_to_page : List Text → Site → Text → Bool
unfolding page_of
leads_to_page places site [] = false
leads_to_page places site (c ∷ s) =
    ((c == b'#') && has_text s places) || ((c == b'/') && is_known (page_of site (path_of s)))

-- The sign-in of the API with a page to return to.
abbrev sign_in : Site → Text → Text
sign_in site page =
    (site.api_url ++ txt "/auth/github/login") ++ txt "?redirect_uri=" ++ site.encode page

-- The sign-in of the API, which then returns to the migrations or to the integrations.
unfoldable pub is_api_link : Site → Text → Bool
unfolding is_eq
is_api_link site s =
    any (λ page. is_eq s (sign_in site page))
      (txt "/migrations" ∷ txt "/settings/integrations" ∷ [])

abbrev pub good_href : List Text → Site → Option Text → Bool
good_href places site none = false
good_href places site (some s) = leads_to_page places site s || is_api_link site s

abbrev pub is_given : Option Text → Bool
is_given none = false
is_given (some _) = true

-- The place is the identifier of an element.
unfoldable pub has_id : Text → Markup → Bool
has_id place nothing = false
has_id place (text s) = false
has_id place (number n) = false
has_id place (a & b) = has_id place a || has_id place b
has_id place (tag name attributes m) =
    has_value place (value_of (txt "id") attributes) || has_id place m

-- A link leads to a page of the front end or to the API, or opens another site in a new tab that
-- learns nothing about this one; and a button says whether it sends a form.
unfoldable pub is_sound : List Text → Site → String → List Attribute → Bool
unfolding is_eq leads_to_page
is_sound places site name attributes =
    if is_eq (txt name) (txt "a")
    then (has_value (txt "_blank") (value_of (txt "target") attributes)
        && has_value (txt "noreferrer") (value_of (txt "rel") attributes)
        && is_given (value_of (txt "href") attributes))
      || (not (is_given (value_of (txt "target") attributes))
          && good_href places site (value_of (txt "href") attributes))
    else if is_eq (txt name) (txt "button")
    then is_given (value_of (txt "type") attributes)
    else true

module _ (site : Site) where
  pub login_url-IsLink : is_api_link site (login_url site) ≡ true
  unfolding is_api_link login_url
  login_url-IsLink = rw (is_eq_refl (sign_in site (txt "/migrations")))

  pub refresh_url-IsLink : is_api_link site (refresh_url site) ≡ true
  unfolding is_api_link refresh_url
  refresh_url-IsLink = rw (is_eq_refl (sign_in site (txt "/settings/integrations")), or_true _)

-- The rules with which the links of a page are checked.
pub ruleset links = (everywhere, or_true, and-same, login_url-IsLink, refresh_url-IsLink)
