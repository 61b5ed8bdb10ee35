-- ===== src/Frontend/App/Links.antt =====
-- Every link and button of every page.
use code_delta.Prelude.{List, [], ◌∷◌}
use code_delta.Text.{Text, txt}
use code_delta.Frontend.Markup.{Markup}
use code_delta.Frontend.Routes.{Page, docs}
use code_delta.Frontend.Public.Links.{docs_sections}
use code_delta.Frontend.App.{App}

-- The places of a page that its links name.
abbrev pub sections_of : Page → List Text
sections_of docs = docs_sections
sections_of _ = []

abbrev main_only : List Text
main_only = txt "main-content" ∷ []

abbrev pub places_of : Page → List Text
places_of page = txt "main-content" ∷ sections_of page
