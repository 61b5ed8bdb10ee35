-- ===== src/Worker/Fault.antt =====
-- The messages of the errors that the worker throws (policy.ts, index.ts).
pub data Fault : Type 0 where
  invalid_path denied_path invalid_file invalid_check invalid_request : Fault
  duplicate_file duplicate_edit duplicate_check : Fault
  file_digest_mismatch invalid_content_length request_too_large : Fault
  -- An exception of the platform: malformed base64 or JSON, a failed call of the sandbox.
  platform_error : Fault
