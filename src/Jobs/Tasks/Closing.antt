-- ===== src/Jobs/Tasks/Closing.antt =====
-- jobs/uploads.py: what the last loop of `close` leaves.
use yandex_workspace_mcp.Prelude.{
  ℕ, ◌≡◌, refl, inl, inr, Bool, true, false, not, ◌||◌, List, [], ◌∷◌, ◌==◌, map, All, Bool-cases,
  arith, any,
}
use yandex_workspace_mcp.Jobs.Models.{
  UploadJobStatus, queued, running, completed, failed, cancelled, is_terminal, status_eq, UploadJob,
}
use yandex_workspace_mcp.Jobs.Uploads.{
  UploadJobStore, close_file, close_files, cancel, finish_close,
}

abbrev pub is_open : ℕ → List ℕ → Bool
is_open descriptor files = any (λ f. f == descriptor) files

pub is_open-close_file :
    (a d : ℕ) (files : List ℕ) → is_open a files ≡ false → is_open a (close_file d files) ≡ false
unfolding close_file
is_open-close_file a d [] h = refl
is_open-close_file a d (f ∷ files) h = ground (arith, is_open-close_file a d files)

close_file-closed : (d : ℕ) (files : List ℕ) → is_open d (close_file d files) ≡ false
unfolding close_file
close_file-closed d [] = refl
close_file-closed d (f ∷ files) = ground (arith, close_file-closed d files)

close_files-closed :
    (a : ℕ) (jobs : List UploadJob) (files : List ℕ)
    → is_open a files ≡ false
    → is_open a (close_files jobs files) ≡ false
unfolding close_files
close_files-closed a [] files h = h
close_files-closed a (job ∷ jobs) files h =
    close_files-closed a jobs (close_file job.opened files)
      (is_open-close_file a job.opened files h)

-- Ended, and its file is closed.
abbrev pub IsReleased : List ℕ → UploadJob → Type 0
IsReleased files job = (is_terminal job.status ≡ true) × (is_open job.opened files ≡ false)

ended-or-active :
    (status : UploadJobStatus)
    → (status_eq status queued || status_eq status running) ≡ not (is_terminal status)
unfolding is_terminal status_eq
ended-or-active queued = refl
ended-or-active running = refl
ended-or-active completed = refl
ended-or-active failed = refl
ended-or-active cancelled = refl

module _ (ttl now : ℕ) where
  cancel-IsReleased :
      (job : UploadJob) (files : List ℕ)
      → is_open job.opened files ≡ false
      → IsReleased files (cancel ttl now job)
  unfolding cancel is_terminal
  cancel-IsReleased job files closed =
      elim (Bool-cases (status_eq job.status queued || status_eq job.status running)) [
        | inl active ↦ rw active (refl, closed)
        | inr ended ↦ rw ended (ground (arith, ended-or-active job.status), closed)
      ]

  close_files-IsReleased :
      (jobs : List UploadJob) (files : List ℕ)
      → All (IsReleased (close_files jobs files)) (map (cancel ttl now) jobs)
  unfolding close_files
  close_files-IsReleased [] files = tt
  close_files-IsReleased (job ∷ jobs) files = (
    cancel-IsReleased job (close_files jobs (close_file job.opened files)) (
        close_files-closed job.opened jobs (close_file job.opened files)
          (close_file-closed job.opened files)),
    close_files-IsReleased jobs (close_file job.opened files),
  )

-- After the last loop of `close` every job of the store has ended and its file is closed.
pub finish_close-IsReleased :
    (now : ℕ) (s : UploadJobStore)
    → All (IsReleased (finish_close now s).open_files) (finish_close now s).jobs
unfolding finish_close
finish_close-IsReleased now s = close_files-IsReleased s.ttl now s.jobs s.open_files
