-- ===== src/Jobs/Models.antt =====
-- jobs/models.py, and the status of models/disk.py. A time is a number of microseconds, a `job_id`
-- and a descriptor of an opened file are numbers; the runner is what moves a task in `Jobs.Tasks`.
use yandex_workspace_mcp.Prelude.{ℕ, Bool, true, false, Text, Option}

-- UploadJobStatus
pub data UploadJobStatus : Type 0 where
  queued running completed failed cancelled : UploadJobStatus

-- `status in {"completed", "failed", "cancelled"}`
unfoldable pub is_terminal : UploadJobStatus → Bool
is_terminal completed = true
is_terminal failed = true
is_terminal cancelled = true
is_terminal _ = false

-- a == b
unfoldable pub status_eq : UploadJobStatus → UploadJobStatus → Bool
status_eq queued queued = true
status_eq running running = true
status_eq completed completed = true
status_eq failed failed = true
status_eq cancelled cancelled = true
status_eq _ _ = false

pub record UploadJob : Type 0 where
  pub job_id : ℕ
  pub status : UploadJobStatus
  pub created_at : ℕ
  pub updated_at : ℕ
  pub expires_at : ℕ
  pub bytes_total : ℕ
  pub bytes_sent : ℕ
  pub destination_path : Text
  pub overwrite : Bool
  pub opened : ℕ
  pub error_category : Option Text

-- AllowedLocalFile, as far as the store sees it.
pub record OpenedFile : Type 0 where
  pub descriptor : ℕ
  pub size : ℕ
