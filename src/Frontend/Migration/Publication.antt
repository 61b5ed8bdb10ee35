-- ===== src/Frontend/Migration/Publication.antt =====
-- PublicationStatus of lib/migrations.ts.
use code_delta.Prelude.{ℕ, Option}
use code_delta.Text.{Text}

pub data Publication : Type 0 where
  queued publishing completed failed : Publication

pub record PublicationStatus : Type 0 where
  pub status : Publication
  pub branch : Text
  pub pull_number : Option ℕ
  pub pull_url : Option Text
  pub error_code : Option Text
