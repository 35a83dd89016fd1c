-- ===== src/Jobs/Tasks/Lifecycle.antt =====
-- One step of any coroutine, and what becomes of each job.
use yandex_workspace_mcp.Prelude.{
  ℕ, ◌≡◌, refl, ap, subst, inl, inr, Bool, false, Text, none, some, List, [], ◌∷◌, ◌++◌, map, ◌==◌,
  ==_iff, if◌then◌else◌, if_cases, Bool-cases, arith,
}
use yandex_workspace_mcp.Jobs.Models.{UploadJob, OpenedFile}
use yandex_workspace_mcp.Jobs.Uploads.{
  find_job, update_job, prune, evict_terminal, new_job, begin, complete, cancel, fail, release, get,
  finish_close,
}
use yandex_workspace_mcp.Jobs.Uploads.Evict.{Distinct}
use yandex_workspace_mcp.Jobs.Uploads.Submit.{submit_cases}
use yandex_workspace_mcp.Jobs.Tasks.{
  System, submitted, advanced, started, finalized, closing, Step, submits, starts, returns, raises,
  cancels, dies, finalizes, gets, prunes, closes, closed_all,
}
use yandex_workspace_mcp.Jobs.Tasks.Changes.{begin-id, complete-id, fail-id, cancel-id}
use yandex_workspace_mcp.Jobs.Tasks.Statuses.{
  Outcome, Outcome-same, begin-Outcome, complete-Outcome, fail-Outcome, cancel-Outcome,
  pruned-Outcome,
}
use yandex_workspace_mcp.Jobs.Tasks.Room.{Kept, Kept-Outcome, Kept-made_room}
use yandex_workspace_mcp.Jobs.Tasks.Fits.{job_id-update}

find_job-append :
    (id : ℕ) (job : UploadJob) (jobs more : List UploadJob)
    → find_job id jobs ≡ some job
    → find_job id (jobs ++ more) ≡ some job
unfolding find_job
find_job-append id job [] more e = cc
find_job-append id job (j ∷ jobs) more e = ground (arith, find_job-append id job jobs more)

find_job-append_none :
    (id : ℕ) (jobs more : List UploadJob)
    → find_job id jobs ≡ none
    → find_job id (jobs ++ more) ≡ find_job id more
unfolding find_job
find_job-append_none id [] more e = refl
find_job-append_none id (j ∷ jobs) more e = ground (arith, find_job-append_none id jobs more)

module _ (id a : ℕ) (change : UploadJob → UploadJob)
    (same_id : (j : UploadJob) → (change j).job_id ≡ j.job_id) where
  find_job-update_job :
      (jobs : List UploadJob) (job : UploadJob)
      → find_job id jobs ≡ some job
      → find_job id (update_job a change jobs) ≡ some (if job.job_id == a then change job else job)
  unfolding find_job update_job
  find_job-update_job [] job e = cc
  find_job-update_job (j ∷ jobs) job e =
      rw (job_id-update a change same_id j) (elim (Bool-cases (j.job_id == id)) [
        | inl hit ↦
            let same : j ≡ job = ground arith in
            rw hit (ap (λ (k : UploadJob). some (if k.job_id == a then change k else k)) same)
        | inr miss ↦ rw miss (find_job-update_job jobs job (ground arith))
      ])

  updated-Outcome :
      (jobs : List UploadJob) (job : UploadJob)
      → ((j : UploadJob) → Outcome j (some (change j)))
      → find_job id jobs ≡ some job
      → Outcome job (find_job id (update_job a change jobs))
  updated-Outcome jobs job h e = rw (find_job-update_job jobs job e) (
      if_cases (λ k. Outcome job (some k)) (job.job_id == a) (change job) job (λ _. h job)
        (λ _. Outcome-same job))

mapped-Outcome :
    (id : ℕ) (change : UploadJob → UploadJob) (jobs : List UploadJob) (job : UploadJob)
    → ((j : UploadJob) → (change j).job_id ≡ j.job_id)
    → Outcome job (some (change job))
    → find_job id jobs ≡ some job
    → Outcome job (find_job id (map change jobs))
unfolding find_job
mapped-Outcome id change [] job same_id h e = absurd (cc)
mapped-Outcome id change (j ∷ jobs) job same_id h e =
    rw (same_id j) (elim (Bool-cases (j.job_id == id)) [
      | inl hit ↦
          let same : job ≡ j = ground arith in
          rw hit (subst (λ k. Outcome job (some (change k))) same h)
      | inr miss ↦ rw miss (mapped-Outcome id change jobs job same_id h (ground arith))
    ])

submitted-Outcome :
    (now new_id : ℕ) (file : OpenedFile) (destination_path : Text) (overwrite : Bool) (s : System)
    (id : ℕ) (job : UploadJob)
    → find_job new_id s.jobs ≡ none
    → Distinct s.jobs
    → find_job id s.jobs ≡ some job
    → Outcome job (find_job id (submitted now new_id file destination_path overwrite s).jobs)
unfolding submitted find_job new_job
submitted-Outcome now new_id file destination_path overwrite s id job missing d e =
    submit_cases (λ r. Outcome job (find_job id r.1.jobs)) now new_id file destination_path
      overwrite (record s.store { open_files = file.descriptor ∷ s.open_files })
      (λ _. rw e (Outcome-same job))
      (λ _. Kept-Outcome id job _ (Kept-made_room s.capacity now id job s.jobs d e))
      (λ _ _. accepted (Kept-made_room s.capacity now id job s.jobs d e))
  where
    new : UploadJob
    new =
        new_job (record s.store { open_files = file.descriptor ∷ s.open_files }) now new_id file
          destination_path overwrite

    other : (new_id == id) ≡ false
    other = elim (Bool-cases (new_id == id)) [
      | inr miss ↦ miss
      | inl hit ↦ absurd (ground (arith, ap (λ i. find_job i s.jobs) ((==_iff new_id id).0 hit)))
    ]

    accepted :
        Kept id job (evict_terminal s.capacity (prune now s.jobs))
        → Outcome job (find_job id (evict_terminal s.capacity (prune now s.jobs) ++ new ∷ []))
    accepted (inl found) = rw (find_job-append id job _ (new ∷ []) found) (Outcome-same job)
    accepted (inr (h, gone)) =
        rw (find_job-append_none id _ (new ∷ []) gone, other, find_job, new_job) h

jobs-finalized : (id : ℕ) (s : System) → (finalized id s).jobs ≡ s.jobs
unfolding finalized release
jobs-finalized id s = ground arith

-- In a state where no two jobs have one id (every state that a new store reaches), one step of any
-- coroutine leaves each job with its file and its destination and with its status, or moves it from
-- queued to running or cancelled, or from running to completed, failed or cancelled; only a job that
-- had ended may leave the store.
pub step-Outcome :
    {s t : System} (id : ℕ) (job : UploadJob)
    → Step s t
    → Distinct s.jobs
    → find_job id s.jobs ≡ some job
    → Outcome job (find_job id t.jobs)
step-Outcome id job (submits now a file destination_path overwrite s missing idle) d e =
    submitted-Outcome now a file destination_path overwrite s id job missing d e
step-Outcome id job (starts now a s waiting) d e =
    unfold started advanced in
    updated-Outcome id a (begin now) (λ j. begin-id now j) s.jobs job (λ j. begin-Outcome 0 now j) e
step-Outcome id job (returns now a s busy) d e =
    unfold advanced in
    updated-Outcome id a (complete s.ttl now) (λ j. complete-id now j s.ttl) s.jobs job
      (λ j. complete-Outcome s.ttl now j) e
step-Outcome id job (raises now a category s busy) d e =
    unfold advanced in
    updated-Outcome id a (fail s.ttl now category) (λ j. fail-id now j s.ttl category) s.jobs job
      (λ j. fail-Outcome s.ttl now j category) e
step-Outcome id job (cancels now a s at) d e =
    unfold advanced in
    updated-Outcome id a (cancel s.ttl now) (λ j. cancel-id now j s.ttl) s.jobs job
      (λ j. cancel-Outcome s.ttl now j) e
step-Outcome id job (dies a s shut at) d e = rw e (Outcome-same job)
step-Outcome id job (finalizes a s done) d e = rw (jobs-finalized a s, e) (Outcome-same job)
step-Outcome id job (gets now a s) d e = unfold get in pruned-Outcome now id s.jobs job d e
step-Outcome id job (prunes now s) d e = pruned-Outcome now id s.jobs job d e
step-Outcome id job (closes s) d e = unfold closing in rw e (Outcome-same job)
step-Outcome id job (closed_all now s shut done) d e =
    unfold finish_close in
    mapped-Outcome id (cancel s.ttl now) s.jobs job (λ j. cancel-id now j s.ttl)
      (cancel-Outcome s.ttl now job) e
