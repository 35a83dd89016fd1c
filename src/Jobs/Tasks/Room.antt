-- ===== src/Jobs/Tasks/Room.antt =====
-- Making room takes out jobs that have ended, and no others.
use yandex_workspace_mcp.Prelude.{
  ℕ, zero, suc, ◌≡◌, refl, sym, subst, ◌∙◌, ◌⊎◌, inl, inr, Bool, true, false, none, some, List, [],
  ◌∷◌, leb, ◌==◌, ==_iff, if_cases, length, filter_by, All, All-filter_by, Bool-cases, Option-cases,
  arith,
}
use yandex_workspace_mcp.Jobs.Models.{is_terminal, UploadJob}
use yandex_workspace_mcp.Jobs.Uploads.{
  find_job, pop_job, is_expired, prune, first_terminal, evict_rounds, evict_terminal,
}
use yandex_workspace_mcp.Jobs.Uploads.Evict.{Distinct, Distinct-filter_by}
use yandex_workspace_mcp.Jobs.Tasks.Fits.{find_job-none, find_job-All}
use yandex_workspace_mcp.Jobs.Uploads.Evict.{first_terminal-ne}
use yandex_workspace_mcp.Jobs.Tasks.Statuses.{
  Outcome, Outcome-same, find_job-absent, find_job-filter_by,
}

-- The job is there as it was, or it had ended and is gone.
abbrev pub Kept : ℕ → UploadJob → List UploadJob → Type 0
Kept id job jobs =
    (find_job id jobs ≡ some job) ⊎ ((is_terminal job.status ≡ true) × (find_job id jobs ≡ none))

pub Kept-Outcome :
    (id : ℕ) (job : UploadJob) (jobs : List UploadJob)
    → Kept id job jobs
    → Outcome job (find_job id jobs)
Kept-Outcome id job jobs (inl e) = rw e (Outcome-same job)
Kept-Outcome id job jobs (inr (h, e)) = rw e h

Kept-filter_by :
    (p : UploadJob → Bool) (id : ℕ) (job : UploadJob) (jobs : List UploadJob)
    → Distinct jobs
    → find_job id jobs ≡ some job
    → ((p job ≡ false) → is_terminal job.status ≡ true)
    → Kept id job (filter_by p jobs)
Kept-filter_by p id job jobs d e h = rw (find_job-filter_by p id jobs d e) (
    if_cases (λ o. (o ≡ some job) ⊎ ((is_terminal job.status ≡ true) × (o ≡ none))) (p job)
      (some job) none (λ _. inl refl) (λ dropped. inr (h dropped, refl)))

-- The job that `_evict_terminal_locked` picks has ended.
first_terminal-find_job :
    (id : ℕ) (jobs : List UploadJob) {job : UploadJob}
    → Distinct jobs
    → first_terminal jobs ≡ some id
    → find_job id jobs ≡ some job
    → is_terminal job.status ≡ true
unfolding first_terminal find_job
first_terminal-find_job id [] d e f = cc
first_terminal-find_job id (j ∷ jobs) {job} d e f = elim (Bool-cases (is_terminal j.status)) [
  | inl ended ↦
      let picked : j.job_id ≡ id = ground arith in
      let hit : (j.job_id == id) ≡ true = (==_iff j.job_id id).1 picked in
      let same : j ≡ job = ground arith in subst (λ k. is_terminal k.status ≡ true) same ended
  | inr live ↦
      let picked : first_terminal jobs ≡ some id = ground arith in
      let miss = first_terminal-ne j.job_id id jobs d.0 picked in
      first_terminal-find_job id jobs {job = job} d.1 picked (ground arith)
]

find_job-absent_stays :
    (p : UploadJob → Bool) (id : ℕ) (jobs : List UploadJob)
    → find_job id jobs ≡ none
    → find_job id (filter_by p jobs) ≡ none
find_job-absent_stays p id jobs e =
    find_job-absent id _ (All-filter_by _ p jobs (find_job-none id jobs e))

Kept-pop_job :
    (a id : ℕ) (job : UploadJob) (jobs : List UploadJob)
    → Distinct jobs
    → first_terminal jobs ≡ some a
    → Kept id job jobs
    → Kept id job (pop_job a jobs)
unfolding pop_job
Kept-pop_job a id job jobs d e (inr (h, gone)) = inr (h, find_job-absent_stays _ id jobs gone)
Kept-pop_job a id job jobs d e (inl found) = Kept-filter_by _ id job jobs d found λ dropped.
    let job_is_id = (find_job-All (λ _. Unit {0}) id jobs (trivial jobs) found).1 in
    let a_is_id : a ≡ id = sym ((==_iff job.job_id a).0 (ground arith)) ∙ job_is_id in
    first_terminal-find_job id jobs d (subst (λ i. first_terminal jobs ≡ some i) a_is_id e) found
  where
    trivial : (l : List UploadJob) → All (λ _. Unit {0}) l
    trivial [] = tt
    trivial (j ∷ l) = (tt, trivial l)

Kept-evict_rounds :
    (fuel capacity id : ℕ) (job : UploadJob) (jobs : List UploadJob)
    → Distinct jobs
    → Kept id job jobs
    → Kept id job (evict_rounds fuel capacity jobs)
unfolding evict_rounds
Kept-evict_rounds zero capacity id job jobs d k = k
Kept-evict_rounds (suc fuel) capacity id job jobs d k =
    if_cases (Kept id job) (leb capacity (length jobs)) _ jobs
      (λ _. elim (Option-cases (first_terminal jobs)) [
        | inl busy ↦ rw busy k
        | inr (a, e) ↦ rw e (
            Kept-evict_rounds fuel capacity id job (pop_job a jobs)
              (unfold pop_job in Distinct-filter_by _ jobs d) (Kept-pop_job a id job jobs d e k))
      ])
      (λ _. k)

pub Kept-made_room :
    (capacity now id : ℕ) (job : UploadJob) (jobs : List UploadJob)
    → Distinct jobs
    → find_job id jobs ≡ some job
    → Kept id job (evict_terminal capacity (prune now jobs))
unfolding evict_terminal prune is_expired
Kept-made_room capacity now id job jobs d e =
    Kept-evict_rounds _ capacity id job _ (Distinct-filter_by _ jobs d)
      (Kept-filter_by _ id job jobs d e (λ dropped. ground arith))
