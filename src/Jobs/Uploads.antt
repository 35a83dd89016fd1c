-- ===== src/Jobs/Uploads.antt =====
-- jobs/uploads.py: `UploadJobStore`. Each function is what one method does while it holds the lock;
-- `now` is what `datetime.now(UTC)` returns there.
pub mod Evict
pub mod Submit
pub mod Listing
mod Tests
use yandex_workspace_mcp.Prelude.{
  ℕ, zero, suc, ◌+◌, Bool, true, false, not, ◌&&◌, ◌||◌, Text, text, Option, none, some, List, [],
  ◌∷◌, ◌++◌, map, leb, ltb, ◌==◌, if◌then◌else◌, length, take, drop, filter_by,
}
use yandex_workspace_mcp.Errors.{
  Error, Result, ok, err, configuration_error, rate_limit_exceeded, resource_not_found, ◌>>=◌,
}
use yandex_workspace_mcp.Jobs.Models.{
  UploadJobStatus, queued, running, completed, failed, cancelled, is_terminal, status_eq, UploadJob,
  OpenedFile,
}

-- The fields that the methods change. `open_files` has the descriptors that are not closed.
pub record UploadJobStore : Type 0 where
  pub capacity : ℕ
  pub ttl : ℕ
  pub owner : Text
  pub jobs : List UploadJob
  pub closed : Bool
  pub open_files : List ℕ

-- opened.close(): closing twice is closing once.
unfoldable pub close_file : ℕ → List ℕ → List ℕ
close_file descriptor files = filter_by (λ f. not (f == descriptor)) files

-- self._jobs.get(job_id)
unfoldable pub find_job : ℕ → List UploadJob → Option UploadJob
find_job id [] = none
find_job id (job ∷ jobs) = if job.job_id == id then some job else find_job id jobs

-- self._jobs.pop(job_id, None)
unfoldable pub pop_job : ℕ → List UploadJob → List UploadJob
pop_job id jobs = filter_by (λ job. not (job.job_id == id)) jobs

-- An assignment to fields of the job object that the dictionary holds under `job_id`.
unfoldable pub update_job : ℕ → (UploadJob → UploadJob) → List UploadJob → List UploadJob
update_job id change jobs = map (λ job. if job.job_id == id then change job else job) jobs

-- `job.status in {...} and job.expires_at <= now`
unfoldable pub is_expired : ℕ → UploadJob → Bool
unfolding is_terminal
is_expired now job = is_terminal job.status && leb job.expires_at now

-- _prune_locked
unfoldable pub prune : ℕ → List UploadJob → List UploadJob
prune now jobs = filter_by (λ job. not (is_expired now job)) jobs

-- The `next(...)` of _evict_terminal_locked.
unfoldable pub first_terminal : List UploadJob → Option ℕ
first_terminal [] = none
first_terminal (job ∷ jobs) =
    if is_terminal job.status then some job.job_id else first_terminal jobs

-- _evict_terminal_locked. Each round takes a job out, so as many rounds as there are jobs are enough.
unfoldable pub evict_rounds : ℕ → ℕ → List UploadJob → List UploadJob
evict_rounds zero capacity jobs = jobs
evict_rounds (suc fuel) capacity jobs =
    let next : List UploadJob = elim (first_terminal jobs) [
      | none ↦ jobs
      | some id ↦ evict_rounds fuel capacity (pop_job id jobs)
    ] in
    if leb capacity (length jobs) then next else jobs

unfoldable pub evict_terminal : ℕ → List UploadJob → List UploadJob
evict_terminal capacity jobs = evict_rounds (length jobs) capacity jobs

-- The job that `submit` makes.
unfoldable pub new_job : UploadJobStore → ℕ → ℕ → OpenedFile → Text → Bool → UploadJob
new_job s now id file destination_path overwrite = record {
  job_id = id;
  status = queued;
  created_at = now;
  updated_at = now;
  expires_at = now + s.ttl;
  bytes_total = file.size;
  bytes_sent = 0;
  destination_path = destination_path;
  overwrite = overwrite;
  opened = file.descriptor;
  error_category = none;
}

-- submit, with the `uuid4()` that it draws. The file is open when it is called.
unfoldable pub submit :
    ℕ → ℕ → OpenedFile → Text → Bool → UploadJobStore → Result UploadJob × UploadJobStore
submit now id file destination_path overwrite s =
    if s.closed
    then (
      err configuration_error,
      record s { open_files = close_file file.descriptor s.open_files },
    )
    else (let kept = evict_terminal s.capacity (prune now s.jobs) in
        let job = new_job s now id file destination_path overwrite in
        if leb s.capacity (length kept)
        then (
          err rate_limit_exceeded,
          record s { jobs = kept; open_files = close_file file.descriptor s.open_files },
        )
        else (ok job, record s { jobs = kept ++ job ∷ [] }))

-- _run, the first part under the lock; the flag says that the runner is called.
unfoldable pub begin : ℕ → UploadJob → UploadJob
begin now job =
    if status_eq job.status queued then record job { status = running; updated_at = now } else job

-- After the runner returned.
unfoldable pub complete : ℕ → ℕ → UploadJob → UploadJob
complete ttl now job =
    if status_eq job.status running
    then record job {
      status = completed;
      bytes_sent = job.bytes_total;
      updated_at = now;
      expires_at = now + ttl;
    }
    else job

-- `except asyncio.CancelledError`, and the last loop of `close`.
unfoldable pub cancel : ℕ → ℕ → UploadJob → UploadJob
cancel ttl now job =
    if status_eq job.status queued || status_eq job.status running
    then record job { status = cancelled; updated_at = now; expires_at = now + ttl }
    else job

-- `except Exception`, with the category of the exception.
unfoldable pub fail : ℕ → ℕ → Text → UploadJob → UploadJob
fail ttl now category job =
    if status_eq job.status running
    then record job {
      status = failed;
      error_category = some category;
      updated_at = now;
      expires_at = now + ttl;
    }
    else job

-- The `finally` of _run: the file is closed if the job is still in the dictionary.
unfoldable pub release : ℕ → UploadJobStore → UploadJobStore
release id s = elim (find_job id s.jobs) [
  | none ↦ s
  | some job ↦ record s { open_files = close_file job.opened s.open_files }
]

-- get
unfoldable pub get : ℕ → ℕ → UploadJobStore → Result UploadJob × UploadJobStore
get now id s =
    let kept = prune now s.jobs in
    (
      elim (find_job id kept) [ none ↦ err resource_not_found | some job ↦ ok job ],
      record s { jobs = kept },
    )

-- The last part of `close`, when the tasks are done.
unfoldable pub close_files : List UploadJob → List ℕ → List ℕ
close_files [] files = files
close_files (job ∷ jobs) files = close_files jobs (close_file job.opened files)

unfoldable pub finish_close : ℕ → UploadJobStore → UploadJobStore
finish_close now s = record s {
  jobs = map (cancel s.ttl now) s.jobs;
  open_files = close_files s.jobs s.open_files;
}
