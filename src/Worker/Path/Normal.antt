-- ===== src/Worker/Path/Normal.antt =====
-- What `normalize_path` accepts and returns.
use mathlib.Core.Path.{subst}
use code_delta.Prelude.{
  ℕ, ◌≡◌, refl, sym, ap, ◌∙◌, ◌≢◌, ◌↔◌, false, List, [], ◌∷◌, ◌++◌, arith, any, All, All-map,
  any-of_All, ok,
}
use code_delta.Text.{Text, txt, has_unit, split, join, last_or, LetterCase}
use code_delta.Text.Search.{Lacks, Lacks-of_has_unit, has_unit_of_Lacks}
use code_delta.Text.Split.{split-IsPair, join-split, split-Lacks}
use code_delta.Worker.Path.{malformed, bad_part, denied, normalize_path}
use code_delta.Worker.Path.Accepts.{
  IsName, IsRelative, bad_part_of_IsName, IsName-of_parts, split_of_IsRelative,
}
use code_delta.Worker.Path.Allowed.{IsAllowed, denied-eq-false_iff}

-- The last part of a path, as the code names it.
abbrev pub last_part : Text → Text
last_part path = last_or [] (split b'/' path)

malformed-false :
    (v : Text) → malformed v ≡ false → (has_unit b'\x5c' v ≡ false) × (has_unit 0 v ≡ false)
unfolding malformed
malformed-false v h = ground arith

-- Names that are joined begin with a unit that is no slash.
join-names :
    (p : Text) (ps : List Text)
    → All IsName (p ∷ ps)
    → (a : ℕ) × (rest : Text) × (join (txt "/") (p ∷ ps) ≡ a ∷ rest) × (a ≢ b'/')
unfolding join
join-names [] ps (n, _) = absurd (n.not_empty refl)
join-names (a ∷ p) [] (n, _) = (a, p, refl, n.no_slash.0)
join-names (a ∷ p) (q ∷ ps) (n, _) =
    (a, p ++ (txt "/" ++ join (txt "/") (q ∷ ps)), refl, n.no_slash.0)

malformed-cons :
    (a : ℕ) (s : Text)
    → a ≢ b'/'
    → Lacks b'\x5c' (a ∷ s)
    → Lacks 0 (a ∷ s)
    → malformed (a ∷ s) ≡ false
unfolding malformed
malformed-cons a s slash backslash nul =
    ground (arith, has_unit_of_Lacks b'\x5c' (a ∷ s) backslash, has_unit_of_Lacks 0 (a ∷ s) nul)

not_malformed : (v : Text) → IsRelative v → malformed v ≡ false
not_malformed v r =
    let (a, rest, joined, slash) = join-names r.first r.more r.names in
    let e : v ≡ a ∷ rest = r.joined ∙ joined in
    rw e (malformed-cons a rest slash (rw e at r.no_backslash) (rw e at r.no_nul))

module _ (letters : LetterCase) where
  steps :
      (v q : Text)
      → normalize_path letters v ≡ ok q
      → (malformed v ≡ false)
        × (any bad_part (split b'/' v) ≡ false)
        × (denied letters (join (txt "/") (split b'/' v)) (last_part v) ≡ false)
        × (q ≡ join (txt "/") (split b'/' v))
  unfolding normalize_path
  steps v q h = ground arith

  accepted :
      (v q : Text)
      → malformed v ≡ false
      → any bad_part (split b'/' v) ≡ false
      → denied letters v (last_part v) ≡ false
      → q ≡ v
      → normalize_path letters v ≡ ok q
  unfolding normalize_path
  accepted v q shape parts deny same = rw (shape, parts, join-split b'/' v, deny, same)

  -- A path is accepted exactly when it is names joined by single slashes, holds no backslash and
  -- no NUL, and its lower-case form avoids the deny lists; it is returned as it came.
  pub normalize_path-eq-ok_iff :
      (v q : Text)
      → (normalize_path letters v ≡ ok q)
        ↔ ((q ≡ v) × IsRelative v × IsAllowed (letters.lower v) (letters.lower (last_part v)))
  normalize_path-eq-ok_iff v q = (to, from)
    where
      to :
          normalize_path letters v ≡ ok q
          → (q ≡ v) × IsRelative v × IsAllowed (letters.lower v) (letters.lower (last_part v))
      to h =
          let (shape, parts, deny, same) = steps v q h in
          let (backslash, nul) = malformed-false v shape in
          let (p, ps, e) = split-IsPair b'/' v in
          let names : All IsName (p ∷ ps) =
            subst (λ (ts : List Text). All IsName ts) e
              (IsName-of_parts (split b'/' v) (split-Lacks b'/' v) parts) in
          (
            same ∙ join-split b'/' v,
            record {
              first = p;
              more = ps;
              joined = sym (join-split b'/' v) ∙ ap (join (txt "/")) e;
              names = names;
              no_backslash = Lacks-of_has_unit b'\x5c' v backslash;
              no_nul = Lacks-of_has_unit 0 v nul;
            },
            (denied-eq-false_iff letters v (last_part v)).0 (rw (join-split b'/' v) at deny),
          )

      from :
          ((q ≡ v) × IsRelative v × IsAllowed (letters.lower v) (letters.lower (last_part v)))
          → normalize_path letters v ≡ ok q
      from (same, r, a) =
          accepted v q (not_malformed v r)
            (rw (split_of_IsRelative v r) (
              any-of_All bad_part (r.first ∷ r.more)
                (All-map bad_part_of_IsName (r.first ∷ r.more) r.names)))
            ((denied-eq-false_iff letters v (last_part v)).1 a) same
