-- ===== src/Worker/Request/Valid.antt =====
-- What every request that the parser returns satisfies.
use code_delta.Worker.Path.Inside.{normalize_path_again}
use code_delta.Prelude.{
  ℕ, suc, ◌≤◌, ◌≡◌, refl, ap, ◌↔◌, inl, inr, true, false, ◌&&◌, ◌||◌, not, Option, none, some, List,
  [], ◌∷◌, ◌++◌, arith, ltb, leb, leb→le, le→leb, Option-cases, or-false, and-true, not-false,
  length, all, any, All, All-map, All-of_all, all-of_All, All-of_any, Result, map_result, >>=-eq-ok,
  throw_if-eq-ok, need-eq-ok, Result-cases, ok_injective, ok,
}
use code_delta.Text.{Text, txt, has_text, LetterCase}
use code_delta.Text.Equal.{Absent, not_Absent, Distinct}
use code_delta.Json.{Value, property, as_str, as_items, as_fields, as_natural, as_strs}
use code_delta.Worker.Fault.{invalid_file, invalid_check, invalid_request}
use code_delta.Worker.Path.{normalize_path}
use code_delta.Worker.Request.{
  max_files, max_edits, max_checks, allowed_executables, SandboxFile, VerificationCommand,
  ExecutionRequest, lower_letter, digit, id_unit, attempt_unit, hex_digest, base64_shape, check_id,
  attempt_shape, bad_argument, first_or_empty, exceeds, parse_file, parse_command, file_paths,
  command_ids, bounded_items,
}
use code_delta.Worker.Request.Shapes.{
  Each, IsHexDigest, hex_digest_iff, IsBase64, base64_shape_iff, IsArgument, bad_argument_iff,
}

-- The path is one that `normalize_path` accepts and leaves alone.
pub record IsFile (letters : LetterCase) (file : SandboxFile) : Type 0 where
  pub path : normalize_path letters file.path ≡ ok file.path
  pub content : IsBase64 file.content_base64
  pub digest : IsHexDigest file.sha256

abbrev pub IsCheckId : Text → Type 0
IsCheckId [] = ⊥
IsCheckId (c ∷ s) = ((lower_letter c || digit c) ≡ true) × (length s ≤ 99) × Each id_unit s

pub record IsCommand (max_timeout : Option ℕ) (check : VerificationCommand) : Type 0 where
  pub id : IsCheckId check.id
  pub some_argument : 1 ≤ length check.argv
  pub few_arguments : length check.argv ≤ 32
  pub executable : ¬ (Absent (first_or_empty check.argv) allowed_executables)
  pub arguments : All IsArgument check.argv
  pub least_time : 100 ≤ check.timeout_ms
  pub most_time : (limit : ℕ) → max_timeout ≡ some limit → check.timeout_ms ≤ limit

pub record IsAttemptId (s : Text) : Type 0 where
  pub some_unit : 1 ≤ length s
  pub few_units : length s ≤ 100
  pub units : Each attempt_unit s

pub record IsRequest (letters : LetterCase) (max_timeout : Option ℕ) (r : ExecutionRequest)
    : Type 0 where
  pub attempt : IsAttemptId r.attempt_id
  pub snapshot : (d : Text) × (r.snapshot_digest ≡ txt "sha256:" ++ d) × IsHexDigest d
  pub patch : IsHexDigest r.patch_digest
  pub few_files : length r.files ≤ max_files
  pub some_edit : 1 ≤ length r.edits
  pub few_edits : length r.edits ≤ max_edits
  pub some_check : 1 ≤ length r.checks
  pub few_checks : length r.checks ≤ max_checks
  pub files : All (IsFile letters) r.files
  pub edits : All (IsFile letters) r.edits
  pub checks : All (IsCommand max_timeout) r.checks
  pub distinct_files : Distinct (file_paths r.files)
  pub distinct_edits : Distinct (file_paths r.edits)
  pub distinct_checks : Distinct (command_ids r.checks)

-- A mapped parser keeps the length and gives items that it returned.
pub map_result-eq-ok {ℓ} :
    {E A B : Type 0} (f : A → Result E B) (P : B → Type ℓ)
    → ((a : A) (b : B) → f a ≡ ok b → P b)
    → (xs : List A) (ys : List B) → map_result f xs ≡ ok ys
    → (length ys ≡ length xs) × All P ys
map_result-eq-ok f P sound [] [] h = (refl, tt)
map_result-eq-ok f P sound [] (y ∷ ys) h = cc
map_result-eq-ok f P sound (x ∷ xs) ys h = elim (Result-cases (f x)) [
  | inr (e, p) ↦ cc (rw (p, map_result) at h)
  | inl (y, p) ↦ elim (Result-cases (map_result f xs)) [
    | inr (e, q) ↦ cc (rw (p, q, map_result) at h)
    | inl (zs, q) ↦
        let (n, all_zs) = map_result-eq-ok f P sound xs zs q in
        rw (← ok_injective (rw (p, q, map_result) at h)) (ap suc n, (sound x y p, all_zs))
  ]
]

pub check_id_iff : (s : Text) → (check_id s ≡ true) ↔ IsCheckId s
unfolding check_id
check_id_iff [] = (λ h. cc h, λ h. absurd h)
check_id_iff (c ∷ s) = (to, from)
  where
    to :
        ((lower_letter c || digit c) && leb (length s) 99 && all id_unit s) ≡ true
        → IsCheckId (c ∷ s)
    to h =
        let (front, units) = and-true _ (all id_unit s) h in
        let (first, few) = and-true (lower_letter c || digit c) (leb (length s) 99) front in
        (first, leb→le _ _ few, All-of_all id_unit s units)

    from :
        IsCheckId (c ∷ s)
        → ((lower_letter c || digit c) && leb (length s) 99 && all id_unit s) ≡ true
    from (first, few, units) =
        ground (arith, first, le→leb (length s) 99 few, all-of_All id_unit s units)

pub attempt_shape_iff : (s : Text) → (attempt_shape s ≡ true) ↔ IsAttemptId s
unfolding attempt_shape
attempt_shape_iff s = (
  λ h.
      let (front, units) = and-true _ (all attempt_unit s) h in
      let (least, most) = and-true (leb 1 (length s)) (leb (length s) 100) front in
      record {
        some_unit = leb→le _ _ least;
        few_units = leb→le _ _ most;
        units = All-of_all attempt_unit s units;
      },
  λ a. ground (arith, all-of_All attempt_unit s a.units),
)

length-as_strs : (vs : List Value) (ss : List Text) → as_strs vs ≡ some ss → length ss ≡ length vs
length-as_strs [] ss h = ground arith
length-as_strs (v ∷ vs) ss h = elim (Option-cases (as_str v)) [
  | inl e ↦ cc (rw (e, as_strs) at h)
  | inr (s, e) ↦ elim (Option-cases (as_strs vs)) [
    | inl f ↦ cc (rw (e, f, as_strs) at h)
    | inr (ts, f) ↦
        let found : some (s ∷ ts) ≡ some ss = rw (e, f, as_strs) at h in
        let same : s ∷ ts ≡ ss = cc found in rw (← same) (ap suc (length-as_strs vs ts f))
  ]
]

module _ (letters : LetterCase) where
  pub parse_file-IsFile :
      (v : Value) (file : SandboxFile) → parse_file letters v ≡ ok file → IsFile letters file
  unfolding parse_file
  parse_file-IsFile v file h =
      let (fields, e₁, h₁) = need-eq-ok (as_fields v) invalid_file _ h in
      let (path, e₂, h₂) = need-eq-ok (as_str (property fields (txt "path"))) invalid_file _ h₁ in
      let (content, e₃, h₃) =
        need-eq-ok (as_str (property fields (txt "content_base64"))) invalid_file _ h₂ in
      let (sha256, e₄, h₄) =
        need-eq-ok (as_str (property fields (txt "sha256"))) invalid_file _ h₃ in
      let (shapes, h₅) =
        throw_if-eq-ok (not (hex_digest sha256) || not (base64_shape content)) invalid_file _ h₄ in
      let (normalized, accepted, h₆) = >>=-eq-ok (normalize_path letters path) _ h₅ in
      let (hex, base64) = or-false _ _ shapes in
      rw (← ok_injective h₆) (record {
        path = normalize_path_again letters path normalized accepted;
        content = (base64_shape_iff content).0 (not-false _ base64);
        digest = (hex_digest_iff sha256).0 (not-false _ hex);
      })

pub le_of_eq_le : {m n k : ℕ} → m ≡ n → n ≤ k → m ≤ k
le_of_eq_le e h = omega arith

pub le_of_le_eq : {m n k : ℕ} → m ≡ n → k ≤ n → k ≤ m
le_of_le_eq e h = omega arith

at_most :
    (n : ℕ) (max_timeout : Option ℕ) (limit : ℕ)
    → exceeds n max_timeout ≡ false
    → max_timeout ≡ some limit
    → n ≤ limit
at_most n none limit h e = cc
at_most n (some m) limit h e = ground arith

between : (n least most : ℕ) → (ltb n least || ltb most n) ≡ false → (least ≤ n) × (n ≤ most)
between n least most h = ground arith

pub parse_command-IsCommand :
    (max_timeout : Option ℕ) (v : Value) (check : VerificationCommand)
    → parse_command max_timeout v ≡ ok check
    → IsCommand max_timeout check
unfolding parse_command
parse_command-IsCommand max_timeout v check h =
    let (fields, e₁, h₁) = need-eq-ok (as_fields v) invalid_check _ h in
    let (id, e₂, h₂) = need-eq-ok (as_str (property fields (txt "id"))) invalid_check _ h₁ in
    let (id_ok, h₃) = throw_if-eq-ok (not (check_id id)) invalid_check _ h₂ in
    let (kind, e₄, h₄) = need-eq-ok (as_str (property fields (txt "kind"))) invalid_check _ h₃ in
    let (given, e₅, h₅) = need-eq-ok (as_items (property fields (txt "argv"))) invalid_check _ h₄ in
    let (count, h₆) =
      throw_if-eq-ok (ltb (length given) 1 || ltb 32 (length given)) invalid_check _ h₅ in
    let (timeout, e₇, h₇) =
      need-eq-ok (as_natural (property fields (txt "timeout_ms"))) invalid_check _ h₆ in
    let (time, h₈) =
      throw_if-eq-ok (ltb timeout 100 || exceeds timeout max_timeout) invalid_check _ h₇ in
    let (argv, e₉, h₉) = need-eq-ok (as_strs given) invalid_check _ h₈ in
    let (safe, done) =
      throw_if-eq-ok
        (not (has_text (first_or_empty argv) allowed_executables) || any bad_argument argv)
        invalid_check _ h₉ in
    let (allowed, good) = or-false _ (any bad_argument argv) safe in
    let (least, most) = or-false (ltb timeout 100) (exceeds timeout max_timeout) time in
    let (some_given, few_given) = between (length given) 1 32 count in
    let n : length argv ≡ length given = length-as_strs given argv e₉ in
    rw (← ok_injective done) (record {
      id = (check_id_iff id).0 (not-false _ id_ok);
      some_argument = le_of_le_eq n some_given;
      few_arguments = le_of_eq_le n few_given;
      executable = not_Absent (first_or_empty argv) allowed_executables (not-false _ allowed);
      arguments = All-map (λ a. (bad_argument_iff a).0) argv (All-of_any bad_argument argv good);
      least_time = ground arith;
      most_time = λ limit. at_most timeout max_timeout limit most;
    })

pub bounded_items-eq-ok :
    (least most : ℕ) (v : Value) (vs : List Value)
    → bounded_items least most v ≡ ok vs
    → (least ≤ length vs) × (length vs ≤ most)
unfolding bounded_items
bounded_items-eq-ok least most v vs h =
    let (found, e₁, h₁) = need-eq-ok (as_items v) invalid_request _ h in
    let (bounds, done) =
      throw_if-eq-ok (ltb (length found) least || ltb most (length found)) invalid_request _ h₁ in
    rw (← ok_injective done) (between (length found) least most bounds)
