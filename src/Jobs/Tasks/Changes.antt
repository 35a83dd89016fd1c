-- ===== src/Jobs/Tasks/Changes.antt =====
-- What one turn of a coroutine makes of its job.
use yandex_workspace_mcp.Prelude.{
  ℕ, ◌≡◌, refl, ◌⊎◌, inl, inr, true, Text, Option, none, some, arith,
}
use yandex_workspace_mcp.Jobs.Models.{
  UploadJobStatus, queued, running, completed, failed, cancelled, is_terminal, status_eq, UploadJob,
}
use yandex_workspace_mcp.Jobs.Uploads.{begin, complete, cancel, fail}
use yandex_workspace_mcp.Jobs.Tasks.{Phase, fresh, uploading, ending, dead}
use yandex_workspace_mcp.Jobs.Tasks.Fits.{Fits, Sent}

pub running-of : (status : UploadJobStatus) → Fits (some uploading) status → status ≡ running
running-of queued (inl e) = cc
running-of queued (inr e) = cc
running-of running e = refl
running-of completed (inl e) = cc
running-of completed (inr (inl e)) = cc
running-of completed (inr (inr e)) = cc
running-of failed (inl e) = cc
running-of failed (inr (inl e)) = cc
running-of failed (inr (inr e)) = cc
running-of cancelled (inl e) = cc
running-of cancelled (inr (inl e)) = cc
running-of cancelled (inr (inr e)) = cc

pub queued-of : (status : UploadJobStatus) → Fits (some fresh) status → status ≡ queued
queued-of queued e = refl
queued-of running e = cc
queued-of completed (inl e) = cc
queued-of completed (inr (inl e)) = cc
queued-of completed (inr (inr e)) = cc
queued-of failed (inl e) = cc
queued-of failed (inr (inl e)) = cc
queued-of failed (inr (inr e)) = cc
queued-of cancelled (inl e) = cc
queued-of cancelled (inr (inl e)) = cc
queued-of cancelled (inr (inr e)) = cc

pub ended-of : (status : UploadJobStatus) → Fits (some ending) status → is_terminal status ≡ true
unfolding is_terminal
ended-of queued (inl e) = cc
ended-of queued (inr e) = cc
ended-of running e = cc
ended-of completed e = refl
ended-of failed e = refl
ended-of cancelled e = refl

pub terminal-Fits :
    (p : Option Phase) (status : UploadJobStatus)
    → is_terminal status ≡ true
    → (p ≡ none) ⊎ ((p ≡ some ending) ⊎ (p ≡ some dead))
    → Fits p status
unfolding is_terminal
terminal-Fits p queued h f = cc
terminal-Fits p running h f = cc
terminal-Fits p completed h f = f
terminal-Fits p failed h f = f
terminal-Fits p cancelled h f = f

module _ (now : ℕ) (job : UploadJob) where
  pub begin-id : (begin now job).job_id ≡ job.job_id
  unfolding begin
  begin-id = ground arith

  pub complete-id : (ttl : ℕ) → (complete ttl now job).job_id ≡ job.job_id
  unfolding complete
  complete-id ttl = ground arith

  pub fail-id : (ttl : ℕ) (category : Text) → (fail ttl now category job).job_id ≡ job.job_id
  unfolding fail
  fail-id ttl category = ground arith

  pub cancel-id : (ttl : ℕ) → (cancel ttl now job).job_id ≡ job.job_id
  unfolding cancel
  cancel-id ttl = ground arith

  pub begin-Fits :
      Sent job
      → job.status ≡ queued
      → Fits (some uploading) (begin now job).status × Sent (begin now job)
  unfolding begin status_eq
  begin-Fits b e = ground arith

module _ (ttl now : ℕ) (job : UploadJob) (b : Sent job) where
  pub complete-Fits :
      job.status ≡ running
      → Fits (some ending) (complete ttl now job).status × Sent (complete ttl now job)
  unfolding complete status_eq
  complete-Fits e = ground arith

  pub fail-Fits :
      (category : Text)
      → job.status ≡ running
      → Fits (some ending) (fail ttl now category job).status × Sent (fail ttl now category job)
  unfolding fail status_eq
  fail-Fits category e = ground arith

  pub cancel-Fits :
      (p : Option Phase)
      → (p ≡ some ending) ⊎ (p ≡ some dead)
      → (job.status ≡ running) ⊎ (job.status ≡ queued)
      → Fits p (cancel ttl now job).status × Sent (cancel ttl now job)
  unfolding cancel status_eq
  cancel-Fits p d e = ground arith

  -- The last loop of `close` finds queued jobs whose coroutine is dead, and ended ones.
  pub closed-Fits :
      (p : Option Phase)
      → (p ≡ none) ⊎ (p ≡ some dead)
      → Fits p job.status
      → Fits p (cancel ttl now job).status × Sent (cancel ttl now job)
  unfolding cancel status_eq
  closed-Fits p done f = at job.status refl f
    where
      at :
          (status : UploadJobStatus)
          → job.status ≡ status
          → Fits p status
          → Fits p (cancel ttl now job).status × Sent (cancel ttl now job)
      at queued e g = ground arith
      at running e g = absurd (ground arith)
      at completed e g = ground arith
      at failed e g = ground arith
      at cancelled e g = ground arith
