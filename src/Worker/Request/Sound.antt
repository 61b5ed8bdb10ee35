-- ===== src/Worker/Request/Sound.antt =====
-- Every request that the parser returns is valid.
use code_delta.Prelude.{
  ℕ, ◌≡◌, not, Option, not-false, map_result, >>=-eq-ok, throw_if-eq-ok, need-eq-ok, ok_injective,
  ok,
}
use code_delta.Text.{txt, is_eq, LetterCase}
use code_delta.Json.{Value, property, as_str, as_fields}
use code_delta.Worker.Fault.{invalid_request, duplicate_file, duplicate_edit, duplicate_check}
use code_delta.Worker.Request.{
  max_files, max_edits, max_checks, ExecutionRequest, hex_digest, tagged_digest, attempt_shape,
  repeats, parse_file, parse_command, file_paths, command_ids, bounded_items,
  parse_execution_request,
}
use code_delta.Worker.Request.Shapes.{hex_digest_iff, tagged_digest_iff, repeats_iff}
use code_delta.Worker.Request.Valid.{
  IsFile, IsCommand, IsRequest, map_result-eq-ok, attempt_shape_iff, parse_file-IsFile, le_of_eq_le,
  le_of_le_eq, parse_command-IsCommand, bounded_items-eq-ok,
}

module _ (letters : LetterCase) (max_timeout : Option ℕ) where
  -- A request that is parsed has valid digests and identifiers, at most 1000 files, 1 to 100 edits
  -- and 1 to 10 checks; each file's path is accepted by `normalize_path`, each command starts with
  -- an allowed executable, has 1 to 32 one-line arguments and a time between 100 ms and the
  -- configured limit; no two files, no two edits and no two checks share a path or an identifier.
  pub parse_execution_request-IsRequest :
      (v : Value) (r : ExecutionRequest)
      → parse_execution_request letters max_timeout v ≡ ok r
      → IsRequest letters max_timeout r
  unfolding parse_execution_request
  parse_execution_request-IsRequest v r h =
      let (fields, e₁, h₁) = need-eq-ok (as_fields v) invalid_request _ h in
      let (version, e₂, h₂) =
        need-eq-ok (as_str (property fields (txt "schema_version"))) invalid_request _ h₁ in
      let (one, h₃) = throw_if-eq-ok (not (is_eq version (txt "1.0"))) invalid_request _ h₂ in
      let (attempt, e₄, h₄) =
        need-eq-ok (as_str (property fields (txt "attempt_id"))) invalid_request _ h₃ in
      let (attempt_ok, h₅) = throw_if-eq-ok (not (attempt_shape attempt)) invalid_request _ h₄ in
      let (snapshot, e₆, h₆) =
        need-eq-ok (as_str (property fields (txt "snapshot_digest"))) invalid_request _ h₅ in
      let (snapshot_ok, h₇) = throw_if-eq-ok (not (tagged_digest snapshot)) invalid_request _ h₆ in
      let (patch, e₈, h₈) =
        need-eq-ok (as_str (property fields (txt "patch_digest"))) invalid_request _ h₇ in
      let (patch_ok, h₉) = throw_if-eq-ok (not (hex_digest patch)) invalid_request _ h₈ in
      let (fs, found_files, g₁) =
        >>=-eq-ok (bounded_items 0 max_files (property fields (txt "files"))) _ h₉ in
      let (es, found_edits, g₂) =
        >>=-eq-ok (bounded_items 1 max_edits (property fields (txt "edits"))) _ g₁ in
      let (cs, found_checks, g₃) =
        >>=-eq-ok (bounded_items 1 max_checks (property fields (txt "checks"))) _ g₂ in
      let (files, parsed_files, g₄) = >>=-eq-ok (map_result (parse_file letters) fs) _ g₃ in
      let (edits, parsed_edits, g₅) = >>=-eq-ok (map_result (parse_file letters) es) _ g₄ in
      let (checks, parsed_checks, g₆) =
        >>=-eq-ok (map_result (parse_command max_timeout) cs) _ g₅ in
      let (files_differ, g₇) = throw_if-eq-ok (repeats (file_paths files)) duplicate_file _ g₆ in
      let (edits_differ, g₈) = throw_if-eq-ok (repeats (file_paths edits)) duplicate_edit _ g₇ in
      let (checks_differ, done) =
        throw_if-eq-ok (repeats (command_ids checks)) duplicate_check _ g₈ in
      let (n_files, all_files) =
        map_result-eq-ok (parse_file letters) (IsFile letters) (parse_file-IsFile letters) fs files
          parsed_files in
      let (n_edits, all_edits) =
        map_result-eq-ok (parse_file letters) (IsFile letters) (parse_file-IsFile letters) es edits
          parsed_edits in
      let (n_checks, all_checks) =
        map_result-eq-ok (parse_command max_timeout) (IsCommand max_timeout)
          (parse_command-IsCommand max_timeout) cs checks parsed_checks in
      let (least_fs, most_fs) =
        bounded_items-eq-ok 0 max_files (property fields (txt "files")) fs found_files in
      let (least_es, most_es) =
        bounded_items-eq-ok 1 max_edits (property fields (txt "edits")) es found_edits in
      let (least_cs, most_cs) =
        bounded_items-eq-ok 1 max_checks (property fields (txt "checks")) cs found_checks in
      rw (← ok_injective done) (record {
        attempt = (attempt_shape_iff attempt).0 (not-false _ attempt_ok);
        snapshot = (tagged_digest_iff snapshot).0 (not-false _ snapshot_ok);
        patch = (hex_digest_iff patch).0 (not-false _ patch_ok);
        few_files = le_of_eq_le n_files most_fs;
        some_edit = le_of_le_eq n_edits least_es;
        few_edits = le_of_eq_le n_edits most_es;
        some_check = le_of_le_eq n_checks least_cs;
        few_checks = le_of_eq_le n_checks most_cs;
        files = all_files;
        edits = all_edits;
        checks = all_checks;
        distinct_files = (repeats_iff (file_paths files)).0 files_differ;
        distinct_edits = (repeats_iff (file_paths edits)).0 edits_differ;
        distinct_checks = (repeats_iff (command_ids checks)).0 checks_differ;
      })
