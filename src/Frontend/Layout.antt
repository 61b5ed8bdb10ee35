-- ===== src/Frontend/Layout.antt =====
-- layout.tsx: the metadata of the site and the frame around its pages.
use code_delta.Prelude.{ℕ, true, ◌||◌, Option, none, some, List, [], ◌∷◌, ◌++◌, if◌then◌else◌}
use code_delta.Text.{Text, txt, starts_with}
use code_delta.Frontend.Markup.{Markup, attr, flag, text, ◌&◌, tag}

-- The parts of the metadata that are made here: the addresses and the texts.
pub record Image : Type 0 where
  pub url : Text
  pub width : ℕ
  pub height : ℕ
  pub alt : Text

pub record OpenGraph : Type 0 where
  pub kind : Text
  pub title : Text
  pub description : Text
  pub images : List Image

pub record TwitterCard : Type 0 where
  pub card : Text
  pub title : Text
  pub description : Text
  pub images : List Text

pub record Icons : Type 0 where
  pub icon_url : Text
  pub icon_type : Text
  pub shortcut : Text
  pub apple : Text

-- `metadata_base` is the argument of `new URL`.
pub record Metadata : Type 0 where
  pub metadata_base : Text
  pub title : Text
  pub description : Text
  pub application_name : Text
  pub icons : Icons
  pub keywords : List Text
  pub open_graph : OpenGraph
  pub twitter : TwitterCard

-- requestHeaders.get("host") ?? "localhost:3000"
abbrev pub host_or_local : Option Text → Text
host_or_local none = txt "localhost:3000"
host_or_local (some host) = host

unfoldable pub protocol_of : Text → Text
unfolding starts_with
protocol_of host =
    if starts_with host (txt "localhost") || starts_with host (txt "127.0.0.1")
    then txt "http"
    else txt "https"

unfoldable pub origin_of : Option Text → Text
unfolding protocol_of
origin_of header = protocol_of (host_or_local header) ++ txt "://" ++ host_or_local header

abbrev pub share_title : Text
share_title = txt "Delta Code — Ship API changes without the guesswork."

unfoldable pub generate_metadata : Option Text → Metadata
unfolding origin_of
generate_metadata header = record {
  metadata_base = origin_of header;
  title = txt "Delta Code";
  description =
      txt
        "Evidence-first API verification that shows exactly how pull requests change real behavior.";
  application_name = txt "Delta Code";
  icons = record {
    icon_url = txt "/favicon.svg";
    icon_type = txt "image/svg+xml";
    shortcut = txt "/favicon.svg";
    apple = txt "/brand/delta-code-badge.png";
  };
  keywords =
      txt "API regression testing"
      ∷ txt "GitHub pull requests"
      ∷ txt "FastAPI"
      ∷ txt "behavioral testing"
      ∷ [];
  open_graph = record {
    kind = txt "website";
    title = share_title;
    description =
        txt
          "Run targeted requests against both branches and review only the behavior that actually changed.";
    images =
        record {
          url = origin_of header ++ txt "/og-v2.png";
          width = 1731;
          height = 909;
          alt = share_title;
        }
        ∷ [];
  };
  twitter = record {
    card = txt "summary_large_image";
    title = share_title;
    description = txt "Evidence-first API verification for modern development teams.";
    images = (origin_of header ++ txt "/og-v2.png") ∷ [];
  };
}

unfoldable pub root_layout : Markup → Markup
root_layout children =
    tag "html"
      (attr "lang" (txt "en")
        ∷ attr "data-theme" (txt "light")
        ∷ flag "suppressHydrationWarning" (true)
        ∷ [])
      (tag "body" [] (
        tag "a" (attr "class" (txt "skip-link") ∷ attr "href" (txt "#main-content") ∷ [])
          (text (txt "Skip to content"))
        & tag "div" (attr "id" (txt "main-content") ∷ []) (children)))
