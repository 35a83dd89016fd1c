-- ===== src/Jobs/Tasks/Turns.antt =====
-- The invariant of the store and its coroutines, and the turns of one coroutine that keep it.
use yandex_workspace_mcp.Prelude.{
  ℕ, ◌≤◌, ◌≡◌, refl, ap, subst, ◌∙◌, ◌⊎◌, inl, inr, false, some, List, [], ◌∷◌, ◌==◌, length, All,
  Option-cases, arith,
}
use yandex_workspace_mcp.Jobs.Models.{queued, running, status_eq, UploadJob}
use yandex_workspace_mcp.Jobs.Uploads.{find_job, update_job, begin, cancel}
use yandex_workspace_mcp.Jobs.Uploads.Evict.{Distinct}
use yandex_workspace_mcp.Jobs.Tasks.{
  Phase, fresh, uploading, ending, System, starts_in, advanced, started,
}
use yandex_workspace_mcp.Jobs.Tasks.Fits.{
  Fits, Sent, JobFits, Distinct-update_job, length-update_job, Fits-update_job, find_job-none,
  find_job-All, fits-absent,
}
use yandex_workspace_mcp.Jobs.Tasks.Changes.{
  running-of, queued-of, begin-Fits, cancel-Fits, begin-id, cancel-id,
}

pub record Inv (s : System) : Type 0 where
  pub bounded : length s.jobs ≤ s.capacity
  pub distinct : Distinct s.jobs
  pub fits : All (JobFits s.phase) s.jobs

-- One job's coroutine takes a step.
pub advanced-Inv :
    (id : ℕ) (change : UploadJob → UploadJob) (p : Phase) (s : System)
    → ((job : UploadJob) → (change job).job_id ≡ job.job_id)
    → ((job : UploadJob)
        → job.job_id ≡ id
        → JobFits s.phase job
        → Fits (some p) (change job).status × Sent (change job))
    → Inv s
    → Inv (advanced id change p s)
unfolding advanced
advanced-Inv id change p s same_id h v = record {
  bounded = omega (arith, length-update_job id change same_id s.jobs, v.bounded);
  distinct = Distinct-update_job id change same_id s.jobs v.distinct;
  fits = Fits-update_job id change same_id s.phase (some p) s.jobs h v.fits;
}

update_job-absent :
    (id : ℕ) (change : UploadJob → UploadJob) (jobs : List UploadJob)
    → All (λ k. (k.job_id == id) ≡ false) jobs
    → update_job id change jobs ≡ jobs
unfolding update_job
update_job-absent id change [] a = refl
update_job-absent id change (job ∷ jobs) a =
    rw (a.0) (ap (λ l. job ∷ l) (update_job-absent id change jobs a.1))

-- The coroutine of a job that is not in the dictionary.
pub absent-Inv :
    (id : ℕ) (change : UploadJob → UploadJob) (p : Phase) (s : System)
    → All (λ k. (k.job_id == id) ≡ false) s.jobs
    → Inv s
    → Inv (advanced id change p s)
unfolding advanced
absent-Inv id change p s a v = rw (update_job-absent id change s.jobs a) (record {
  bounded = v.bounded;
  distinct = v.distinct;
  fits = fits-absent id (some p) s.phase s.jobs a v.fits;
})

pub started-Inv :
    (now id : ℕ) (s : System) → s.phase id ≡ some fresh → Inv s → Inv (started now id s)
unfolding started
started-Inv now id s waiting v = elim (Option-cases (find_job id s.jobs)) [
  | inl missing ↦
      absent-Inv id (begin now) (starts_in (find_job id s.jobs)) s (find_job-none id s.jobs missing)
        v
  | inr (job, found) ↦
      let (fit, same) = find_job-All (JobFits s.phase) id s.jobs v.fits found in
      let is_queued =
        queued-of job.status (subst (λ p. Fits p job.status) (ap s.phase same ∙ waiting) fit.0) in
      let ready : starts_in (find_job id s.jobs) ≡ uploading =
        ap starts_in found ∙ (unfold status_eq in ground arith) in
      rw ready (
        advanced-Inv id (begin now) uploading s (λ j. begin-id now j)
          (λ j j_id j_fits. begin-Fits now j j_fits.1 (
            queued-of j.status (subst (λ p. Fits p j.status) (ap s.phase j_id ∙ waiting) j_fits.0)))
          v)
]

-- A coroutine in the runner's hands takes a step to its end.
pub ended-Inv :
    (id : ℕ) (change : UploadJob → UploadJob) (s : System)
    → ((job : UploadJob) → (change job).job_id ≡ job.job_id)
    → ((job : UploadJob)
        → Sent job
        → job.status ≡ running
        → Fits (some ending) (change job).status × Sent (change job))
    → s.phase id ≡ some uploading
    → Inv s
    → Inv (advanced id change ending s)
ended-Inv id change s same_id h busy v =
    advanced-Inv id change ending s same_id
      (λ j j_id j_fits.
        h j j_fits.1
          (running-of j.status (subst (λ p. Fits p j.status) (ap s.phase j_id ∙ busy) j_fits.0)))
      v

-- A coroutine is cancelled where it waits.
pub cancelled-Inv :
    (now id : ℕ) (s : System)
    → (s.phase id ≡ some uploading) ⊎ (s.phase id ≡ some fresh)
    → Inv s
    → Inv (advanced id (cancel s.ttl now) ending s)
cancelled-Inv now id s at v =
    advanced-Inv id (cancel s.ttl now) ending s (λ j. cancel-id now j s.ttl)
      (λ j j_id j_fits.
        cancel-Fits s.ttl now j j_fits.1 (some ending) (inl refl)
          (live at j (subst (λ i. Fits (s.phase i) j.status) j_id j_fits.0)))
      v
  where
    live :
        (s.phase id ≡ some uploading) ⊎ (s.phase id ≡ some fresh)
        → (j : UploadJob) → Fits (s.phase id) j.status
        → (j.status ≡ running) ⊎ (j.status ≡ queued)
    live (inl busy) j f = inl (running-of j.status (subst (λ p. Fits p j.status) busy f))
    live (inr waiting) j f = inr (queued-of j.status (subst (λ p. Fits p j.status) waiting f))
