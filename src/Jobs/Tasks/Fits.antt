-- ===== src/Jobs/Tasks/Fits.antt =====
-- What the coroutines have to do with the jobs, and how one job's change leaves the others.
use yandex_workspace_mcp.Prelude.{
  ℕ, suc, ◌≡◌, refl, ap, subst, ◌⊎◌, inl, inr, false, Option, none, some, List, [], ◌∷◌, ◌==◌,
  ==_iff, if◌then◌else◌, length, All, Bool-cases, arith,
}
use yandex_workspace_mcp.Jobs.Models.{
  UploadJobStatus, queued, running, completed, status_eq, UploadJob,
}
use yandex_workspace_mcp.Jobs.Uploads.{find_job, update_job}
use yandex_workspace_mcp.Jobs.Uploads.Evict.{Distinct}
use yandex_workspace_mcp.Jobs.Tasks.{Phase, fresh, uploading, ending, dead, set_phase}

-- A queued job waits for its coroutine, a running one is in the runner's hands, and no coroutine
-- works for a job that has ended.
abbrev pub Fits : Option Phase → UploadJobStatus → Type 0
Fits p queued = (p ≡ some fresh) ⊎ (p ≡ some dead)
Fits p running = p ≡ some uploading
Fits p _ = (p ≡ none) ⊎ ((p ≡ some ending) ⊎ (p ≡ some dead))

-- Only a completed upload has sent bytes, and then all of them.
abbrev pub Sent : UploadJob → Type 0
Sent job = job.bytes_sent ≡ (if status_eq job.status completed then job.bytes_total else 0)

abbrev pub JobFits : (ℕ → Option Phase) → UploadJob → Type 0
JobFits phase job = Fits (phase job.job_id) job.status × Sent job

module _ (id : ℕ) (change : UploadJob → UploadJob)
    (same_id : (job : UploadJob) → (change job).job_id ≡ job.job_id) where
  pub job_id-update :
      (job : UploadJob) → (if job.job_id == id then change job else job).job_id ≡ job.job_id
  job_id-update job = ground (arith, same_id job)

  All-other-update :
      (a : ℕ) (jobs : List UploadJob)
      → All (λ k. (k.job_id == a) ≡ false) jobs
      → All (λ k. (k.job_id == a) ≡ false) (update_job id change jobs)
  unfolding update_job
  All-other-update a [] h = tt
  All-other-update a (job ∷ jobs) h = (rw (job_id-update job) h.0, All-other-update a jobs h.1)

  pub Distinct-update_job :
      (jobs : List UploadJob) → Distinct jobs → Distinct (update_job id change jobs)
  unfolding update_job
  Distinct-update_job [] d = tt
  Distinct-update_job (job ∷ jobs) d =
      (rw (job_id-update job) (All-other-update job.job_id jobs d.0), Distinct-update_job jobs d.1)

  pub length-update_job : (jobs : List UploadJob) → length (update_job id change jobs) ≡ length jobs
  unfolding update_job
  length-update_job [] = refl
  length-update_job (job ∷ jobs) = ap suc (length-update_job jobs)

  -- The jobs of other ids stay as they were, and so does what their coroutines do.
  pub Fits-update_job :
      (phase : ℕ → Option Phase) (p : Option Phase) (jobs : List UploadJob)
      → ((job : UploadJob)
          → job.job_id ≡ id
          → JobFits phase job
          → Fits p (change job).status × Sent (change job))
      → All (JobFits phase) jobs
      → All (JobFits (set_phase id p phase)) (update_job id change jobs)
  unfolding update_job
  Fits-update_job phase p [] h v = tt
  Fits-update_job phase p (job ∷ jobs) h v = elim (Bool-cases (job.job_id == id)) [
    | inl hit ↦
        let here = h job ((==_iff job.job_id id).0 hit) v.0 in
        (rw (hit, same_id job, hit) here, Fits-update_job phase p jobs h v.1)
    | inr miss ↦ (rw (miss, miss) v.0, Fits-update_job phase p jobs h v.1)
  ]

pub find_job-none :
    (id : ℕ) (jobs : List UploadJob)
    → find_job id jobs ≡ none
    → All (λ k. (k.job_id == id) ≡ false) jobs
unfolding find_job
find_job-none id [] e = tt
find_job-none id (job ∷ jobs) e = ground (arith, find_job-none id jobs)

pub find_job-All :
    (P : UploadJob → Type 0) (id : ℕ) (jobs : List UploadJob) {job : UploadJob}
    → All P jobs
    → find_job id jobs ≡ some job
    → P job × (job.job_id ≡ id)
unfolding find_job
find_job-All P id [] {job} h e = cc
find_job-All P id (j ∷ jobs) {job} h e = elim (Bool-cases (j.job_id == id)) [
  | inl hit ↦
      let same : j ≡ job = ground arith in
      (subst P same h.0, subst (λ k. k.job_id ≡ id) same ((==_iff j.job_id id).0 hit))
  | inr miss ↦ find_job-All P id jobs h.1 (ground arith)
]

-- A new phase for an id that no job has.
pub fits-absent :
    (id : ℕ) (p : Option Phase) (phase : ℕ → Option Phase) (jobs : List UploadJob)
    → All (λ k. (k.job_id == id) ≡ false) jobs
    → All (JobFits phase) jobs
    → All (JobFits (set_phase id p phase)) jobs
fits-absent id p phase [] a h = tt
fits-absent id p phase (job ∷ jobs) a h = (rw (a.0) h.0, fits-absent id p phase jobs a.1 h.1)
