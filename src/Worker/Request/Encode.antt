-- ===== src/Worker/Request/Encode.antt =====
-- A valid request, written as JSON, is parsed back to itself.
use code_delta.Prelude.{
  ℕ, ◌≤◌, ◌≡◌, refl, Bool, true, false, ◌||◌, not, Option, none, some, List, [], ◌∷◌, map, arith,
  ltb, or_false, length, length-map, All, All-map, any-of_All, Result, map_result, ok,
}
use code_delta.Text.{txt, is_eq, LetterCase}
use code_delta.Json.{
  Value, items_of, property, items-items_of, as_strs-map, natural, num, str, arr, obj, end, field,
}
use code_delta.Text.Equal.{has_text_of_not_Absent}
use code_delta.Worker.Request.{
  max_files, max_edits, max_checks, allowed_executables, SandboxFile, VerificationCommand,
  ExecutionRequest, bad_argument, first_or_empty, exceeds, parse_file, parse_command, file_paths,
  command_ids, bounded_items, parse_execution_request,
}
use code_delta.Worker.Request.Shapes.{
  hex_digest_iff, tagged_digest_iff, base64_shape_iff, bad_argument_iff, repeats_iff,
}
use code_delta.Worker.Request.Valid.{IsFile, IsCommand, IsRequest, check_id_iff, attempt_shape_iff}

abbrev pub encode_file : SandboxFile → Value
encode_file file = obj (
    field (txt "path") (str file.path) (
      field (txt "content_base64") (str file.content_base64)
        (field (txt "sha256") (str file.sha256) end)))

abbrev pub encode_command : VerificationCommand → Value
encode_command check = obj (
    field (txt "id") (str check.id) (
      field (txt "kind") (str check.kind) (
        field (txt "argv") (arr (items_of (map str check.argv)))
          (field (txt "timeout_ms") (num (natural check.timeout_ms)) end))))

abbrev pub encode : ExecutionRequest → Value
encode r = obj (
    field (txt "schema_version") (str (txt "1.0")) (
      field (txt "attempt_id") (str r.attempt_id) (
        field (txt "snapshot_digest") (str r.snapshot_digest) (
          field (txt "patch_digest") (str r.patch_digest) (
            field (txt "files") (arr (items_of (map encode_file r.files))) (
              field (txt "edits") (arr (items_of (map encode_file r.edits)))
                (field (txt "checks") (arr (items_of (map encode_command r.checks))) end)))))))

map_result-map :
    {A B E : Type 0} (f : B → Result E A) (g : A → B) (P : A → Type 0)
    → ((a : A) → P a → f (g a) ≡ ok a)
    → (xs : List A) → All P xs
    → map_result f (map g xs) ≡ ok xs
map_result-map f g P back [] _ = refl
map_result-map f g P back (x ∷ xs) (p, ps) = rw (back x p, map_result-map f g P back xs ps)

module _ (letters : LetterCase) where
  parse_file-encode_file :
      (file : SandboxFile) → IsFile letters file → parse_file letters (encode_file file) ≡ ok file
  unfolding parse_file property is_eq
  parse_file-encode_file file v = rw (
    (hex_digest_iff file.sha256).1 v.digest,
    (base64_shape_iff file.content_base64).1 v.content,
    v.path,
  )

within : (n least most : ℕ) → least ≤ n → n ≤ most → (ltb n least || ltb most n) ≡ false
within n least most p q = ground arith

not_exceeds :
    (n : ℕ) (max_timeout : Option ℕ)
    → ((limit : ℕ) → max_timeout ≡ some limit → n ≤ limit)
    → exceeds n max_timeout ≡ false
not_exceeds n none h = refl
not_exceeds n (some limit) h = ground (arith, h limit refl)

long_enough : (n k : ℕ) → k ≤ n → ltb n k ≡ false
long_enough n k h = ground arith

not_flip : (b : Bool) → b ≡ true → not b ≡ false
not_flip b h = ground arith

module _ (max_timeout : Option ℕ) where
  parse_command-encode_command :
      (check : VerificationCommand)
      → IsCommand max_timeout check
      → parse_command max_timeout (encode_command check) ≡ ok check
  unfolding parse_command property is_eq
  parse_command-encode_command check v = rw (
    (check_id_iff check.id).1 v.id,
    items-items_of (map str check.argv),
    length-map str check.argv,
    within (length check.argv) 1 32 v.some_argument v.few_arguments,
    or_false _ _ (long_enough check.timeout_ms 100 v.least_time)
        (not_exceeds check.timeout_ms max_timeout v.most_time),
    as_strs-map check.argv,
    or_false _ _
        (not_flip _
          (has_text_of_not_Absent (first_or_empty check.argv) allowed_executables v.executable))
        (any-of_All bad_argument check.argv
          (All-map (λ a. (bad_argument_iff a).1) check.argv v.arguments)),
  )

module _ {A : Type 0} (g : A → Value) where
  bounded_items-items_of :
      (least most : ℕ) (xs : List A)
      → least ≤ length xs
      → length xs ≤ most
      → bounded_items least most (arr (items_of (map g xs))) ≡ ok (map g xs)
  unfolding bounded_items
  bounded_items-items_of least most xs p q =
      rw (items-items_of (map g xs), length-map g xs, within (length xs) least most p q)

module _ (letters : LetterCase) (max_timeout : Option ℕ) where
  -- Every valid request, written as a JSON object, is parsed to that request.
  pub parse_execution_request-encode :
      (r : ExecutionRequest)
      → IsRequest letters max_timeout r
      → parse_execution_request letters max_timeout (encode r) ≡ ok r
  unfolding parse_execution_request property is_eq
  parse_execution_request-encode r v = rw (
    (attempt_shape_iff r.attempt_id).1 v.attempt,
    (tagged_digest_iff r.snapshot_digest).1 v.snapshot,
    (hex_digest_iff r.patch_digest).1 v.patch,
    bounded_items-items_of encode_file 0 max_files r.files (omega arith) v.few_files,
    bounded_items-items_of encode_file 1 max_edits r.edits v.some_edit v.few_edits,
    bounded_items-items_of encode_command 1 max_checks r.checks v.some_check v.few_checks,
    map_result-map (parse_file letters) encode_file (IsFile letters)
        (parse_file-encode_file letters) r.files v.files,
    map_result-map (parse_file letters) encode_file (IsFile letters)
        (parse_file-encode_file letters) r.edits v.edits,
    map_result-map (parse_command max_timeout) encode_command (IsCommand max_timeout)
        (parse_command-encode_command max_timeout) r.checks v.checks,
    (repeats_iff (file_paths r.files)).1 v.distinct_files,
    (repeats_iff (file_paths r.edits)).1 v.distinct_edits,
    (repeats_iff (command_ids r.checks)).1 v.distinct_checks,
  )
