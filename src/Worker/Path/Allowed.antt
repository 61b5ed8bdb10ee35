-- ===== src/Worker/Path/Allowed.antt =====
-- The deny lists as statements about the lower-case path and its last part.
use code_delta.Prelude.{
  ◌≡◌, ◌≢◌, ◌↔◌, inl, inr, false, ◌++◌, arith, Bool-cases, or-false, or_false, any, All, All-map,
  All-of_any, any-of_All,
}
use code_delta.Text.{Text, txt, is_eq, starts_with, ends_with, has_text, LetterCase}
use code_delta.Text.Equal.{ne_of_is_eq, is_eq_of_ne, Absent, Absent-of_has_text, has_text_of_Absent}
use code_delta.Text.Search.{starts_with_iff, ends_with_iff}
use code_delta.Worker.Path.{
  denied_prefixes, denied_file_names, denied_suffixes, in_directory, under_denied, secret_name,
  denied,
}

-- The path is not the directory, and nothing below it.
pub record IsOutside (path directory : Text) : Type 0 where
  pub not_it : path ≢ directory
  pub not_below : (rest : Text) → path ≢ (directory ++ txt "/") ++ rest

pub record IsPublicName (name : Text) : Type 0 where
  pub not_listed : Absent name denied_file_names
  pub not_env : (rest : Text) → name ≢ txt ".env." ++ rest
  pub not_key : All (λ suffix. (front : Text) → name ≢ front ++ suffix) denied_suffixes

-- Of the lower-case path and the lower-case last part.
pub record IsAllowed (lowered name : Text) : Type 0 where
  pub outside : All (IsOutside lowered) denied_prefixes
  pub public_name : IsPublicName name

IsOutside-of_test : (path d : Text) → in_directory path d ≡ false → IsOutside path d
unfolding in_directory
IsOutside-of_test path d h =
    let (p, q) = or-false (is_eq path d) (starts_with path (d ++ txt "/")) h in
    record {
      not_it = ne_of_is_eq path d p;
      not_below = λ rest e. cc (q, (starts_with_iff path (d ++ txt "/")).1 (rest, e));
    }

test_of_IsOutside : (path d : Text) → IsOutside path d → in_directory path d ≡ false
unfolding in_directory
test_of_IsOutside path d o = elim (Bool-cases (starts_with path (d ++ txt "/"))) [
  | inl h ↦ let (rest, e) = (starts_with_iff path (d ++ txt "/")).0 h in absurd (o.not_below rest e)
  | inr h ↦ ground (arith, h, is_eq_of_ne path d o.not_it)
]

no_suffix :
    (name suffix : Text) → ends_with name suffix ≡ false → (front : Text) → name ≢ front ++ suffix
no_suffix name suffix h front e = cc (h, (ends_with_iff name suffix).1 (front, e))

suffix_test :
    (name suffix : Text) → ((front : Text) → name ≢ front ++ suffix) → ends_with name suffix ≡ false
suffix_test name suffix h = elim (Bool-cases (ends_with name suffix)) [
  | inl p ↦ let (front, e) = (ends_with_iff name suffix).0 p in absurd (h front e)
  | inr p ↦ p
]

prefix_false : (name p : Text) → ((rest : Text) → name ≢ p ++ rest) → starts_with name p ≡ false
prefix_false name p h = elim (Bool-cases (starts_with name p)) [
  | inl q ↦ let (rest, e) = (starts_with_iff name p).0 q in absurd (h rest e)
  | inr q ↦ q
]

IsPublicName-of_secret : (name : Text) → secret_name name ≡ false → IsPublicName name
unfolding secret_name
IsPublicName-of_secret name h =
    let (front, suffixes) = or-false _ (any (λ suffix. ends_with name suffix) denied_suffixes) h in
    let (listed, env) =
      or-false (has_text name denied_file_names) (starts_with name (txt ".env.")) front in
    record {
      not_listed = Absent-of_has_text name denied_file_names listed;
      not_env = λ rest e. cc (env, (starts_with_iff name (txt ".env.")).1 (rest, e));
      not_key =
          All-map (no_suffix name) denied_suffixes
            (All-of_any (ends_with name) denied_suffixes suffixes);
    }

secret_of_IsPublicName : (name : Text) → IsPublicName name → secret_name name ≡ false
unfolding secret_name
secret_of_IsPublicName name p = ground (
  arith,
  has_text_of_Absent name denied_file_names p.not_listed,
  prefix_false name (txt ".env.") p.not_env,
  any-of_All (ends_with name) denied_suffixes
      (All-map (suffix_test name) denied_suffixes p.not_key),
)

pub under_denied-eq-false_iff :
    (path : Text) → (under_denied path ≡ false) ↔ All (IsOutside path) denied_prefixes
unfolding under_denied
under_denied-eq-false_iff path = (
  λ h.
      All-map (IsOutside-of_test path) denied_prefixes
        (All-of_any (in_directory path) denied_prefixes h),
  λ a.
      any-of_All (in_directory path) denied_prefixes
        (All-map (test_of_IsOutside path) denied_prefixes a),
)

module _ (letters : LetterCase) where
  -- The code's two tests pass exactly when the path is allowed.
  pub denied-eq-false_iff :
      (path last : Text)
      → (denied letters path last ≡ false) ↔ IsAllowed (letters.lower path) (letters.lower last)
  unfolding denied
  denied-eq-false_iff path last = (to, from)
    where
      to : denied letters path last ≡ false → IsAllowed (letters.lower path) (letters.lower last)
      to h =
          let (p, q) =
            or-false (under_denied (letters.lower path)) (secret_name (letters.lower last)) h in
          record {
            outside = (under_denied-eq-false_iff (letters.lower path)).0 p;
            public_name = IsPublicName-of_secret (letters.lower last) q;
          }

      from : IsAllowed (letters.lower path) (letters.lower last) → denied letters path last ≡ false
      from a =
          or_false _ _ ((under_denied-eq-false_iff (letters.lower path)).1 a.outside)
            (secret_of_IsPublicName (letters.lower last) a.public_name)
