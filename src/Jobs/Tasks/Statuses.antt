-- ===== src/Jobs/Tasks/Statuses.antt =====
-- The statuses that a job goes through, and what filters leave of the jobs.
use yandex_workspace_mcp.Prelude.{
  ℕ, ◌≡◌, refl, subst, inl, inr, Bool, true, false, Text, Option, none, some, List, [], ◌∷◌, ◌==◌,
  ==_iff, if◌then◌else◌, if_cases, filter_by, All, All-filter_by, Bool-cases, arith,
}
use yandex_workspace_mcp.Jobs.Models.{
  UploadJobStatus, queued, running, completed, failed, cancelled, is_terminal, status_eq, UploadJob,
}
use yandex_workspace_mcp.Jobs.Uploads.{find_job, is_expired, prune, begin, complete, cancel, fail}
use yandex_workspace_mcp.Jobs.Uploads.Evict.{Distinct}

-- One change of status, or none: what has ended does not change any more.
unfoldable pub may_move : UploadJobStatus → UploadJobStatus → Bool
unfolding status_eq
may_move queued running = true
may_move queued cancelled = true
may_move running completed = true
may_move running failed = true
may_move running cancelled = true
may_move a b = status_eq a b

-- What became of the job: it is there, with a status that it may move to, its file and its
-- destination, or it had ended and was taken out.
abbrev pub Outcome : UploadJob → Option UploadJob → Type 0
Outcome job none = is_terminal job.status ≡ true
Outcome job (some later) =
    (may_move job.status later.status ≡ true)
    × (later.opened ≡ job.opened)
    × (later.destination_path ≡ job.destination_path)

may_move_refl : (status : UploadJobStatus) → may_move status status ≡ true
unfolding may_move
may_move_refl queued = refl
may_move_refl running = refl
may_move_refl completed = refl
may_move_refl failed = refl
may_move_refl cancelled = refl

pub Outcome-same : (job : UploadJob) → Outcome job (some job)
Outcome-same job = (may_move_refl job.status, refl, refl)

module _ (ttl now : ℕ) (job : UploadJob) where
  pub begin-Outcome : Outcome job (some (begin now job))
  unfolding begin status_eq may_move
  begin-Outcome = ground arith

  pub complete-Outcome : Outcome job (some (complete ttl now job))
  unfolding complete status_eq may_move
  complete-Outcome = ground arith

  pub fail-Outcome : (category : Text) → Outcome job (some (fail ttl now category job))
  unfolding fail status_eq may_move
  fail-Outcome category = ground arith

  pub cancel-Outcome : Outcome job (some (cancel ttl now job))
  unfolding cancel status_eq may_move
  cancel-Outcome = ground arith

pub find_job-absent :
    (id : ℕ) (jobs : List UploadJob)
    → All (λ k. (k.job_id == id) ≡ false) jobs
    → find_job id jobs ≡ none
unfolding find_job
find_job-absent id [] a = refl
find_job-absent id (j ∷ jobs) a = rw (a.0) (find_job-absent id jobs a.1)

-- What a filter leaves of a job that is found.
pub find_job-filter_by :
    (p : UploadJob → Bool) (id : ℕ) (jobs : List UploadJob) {job : UploadJob}
    → Distinct jobs
    → find_job id jobs ≡ some job
    → find_job id (filter_by p jobs) ≡ (if p job then some job else none)
unfolding find_job
find_job-filter_by p id [] {job} d e = cc
find_job-filter_by p id (j ∷ jobs) {job} d e = elim (Bool-cases (j.job_id == id)) [
  | inl hit ↦
      let same : j ≡ job = ground arith in
      let others =
        subst (λ i. All (λ k. (k.job_id == i) ≡ false) jobs) ((==_iff j.job_id id).0 hit) d.0 in
      let gone = find_job-absent id (filter_by p jobs) (All-filter_by _ p jobs others) in
      subst
        (λ k.
          find_job id (if p j then j ∷ filter_by p jobs else filter_by p jobs)
          ≡ (if p k then some k else none))
        same (elim (Bool-cases (p j)) [ inl kept ↦ rw (kept, hit) | inr dropped ↦ rw dropped gone ])
  | inr miss ↦
      let found : find_job id jobs ≡ some job = ground arith in
      let ih = find_job-filter_by p id jobs d.1 found in
      elim (Bool-cases (p j)) [ inl kept ↦ rw (kept, miss) ih | inr dropped ↦ rw dropped ih ]
]

-- A filter that takes out ended jobs only.
pub filtered-Outcome :
    (p : UploadJob → Bool) (id : ℕ) (jobs : List UploadJob) (job : UploadJob)
    → Distinct jobs
    → find_job id jobs ≡ some job
    → ((p job ≡ false) → is_terminal job.status ≡ true)
    → Outcome job (find_job id (filter_by p jobs))
filtered-Outcome p id jobs job d e h =
    rw (find_job-filter_by p id jobs d e)
      (if_cases (Outcome job) (p job) (some job) none (λ _. Outcome-same job) h)

pub pruned-Outcome :
    (now id : ℕ) (jobs : List UploadJob) (job : UploadJob)
    → Distinct jobs
    → find_job id jobs ≡ some job
    → Outcome job (find_job id (prune now jobs))
unfolding prune is_expired
pruned-Outcome now id jobs job d e = filtered-Outcome _ id jobs job d e (λ h. ground arith)
