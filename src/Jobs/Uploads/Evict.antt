-- ===== src/Jobs/Uploads/Evict.antt =====
-- Making room: what pruning and evicting take out, and when a submission is refused.
use yandex_workspace_mcp.Prelude.{
  ℕ, zero, suc, ◌≤◌, ◌<◌, ◌≡◌, refl, ap, subst, ◌∙◌, ◌⊎◌, inl, inr, Bool, true, false, not, none,
  some, List, [], ◌∷◌, leb, ◌==◌, ==_iff, length, filter_by, All, All-filter_by,
  length-filter_by-le, Bool-cases, Option-cases, arith,
}
use yandex_workspace_mcp.Jobs.Models.{is_terminal, UploadJob}
use yandex_workspace_mcp.Jobs.Uploads.{
  pop_job, is_expired, prune, first_terminal, evict_rounds, evict_terminal,
}

-- No two jobs have one id.
abbrev pub Distinct : List UploadJob → Type 0
Distinct [] = Unit {0}
Distinct (job ∷ jobs) = All (λ k. (k.job_id == job.job_id) ≡ false) jobs × Distinct jobs

-- The jobs that are queued or running.
unfoldable pub active : List UploadJob → List UploadJob
active jobs = filter_by (λ job. not (is_terminal job.status)) jobs

pub Distinct-filter_by :
    (p : UploadJob → Bool) (jobs : List UploadJob) → Distinct jobs → Distinct (filter_by p jobs)
Distinct-filter_by p [] d = tt
Distinct-filter_by p (job ∷ jobs) d = elim (Bool-cases (p job)) [
  | inl kept ↦ rw kept (All-filter_by _ p jobs d.0, Distinct-filter_by p jobs d.1)
  | inr dropped ↦ rw dropped (Distinct-filter_by p jobs d.1)
]

pub active-prune : (now : ℕ) (jobs : List UploadJob) → active (prune now jobs) ≡ active jobs
unfolding active prune is_expired
active-prune now [] = refl
active-prune now (job ∷ jobs) = ground (arith, active-prune now jobs)

pop_job-absent :
    (id : ℕ) (jobs : List UploadJob)
    → All (λ k. (k.job_id == id) ≡ false) jobs
    → pop_job id jobs ≡ jobs
unfolding pop_job
pop_job-absent id [] h = refl
pop_job-absent id (job ∷ jobs) h = ground (arith, pop_job-absent id jobs h.1)

pub first_terminal-ne :
    (a id : ℕ) (jobs : List UploadJob)
    → All (λ k. (k.job_id == a) ≡ false) jobs
    → first_terminal jobs ≡ some id
    → (a == id) ≡ false
unfolding first_terminal
first_terminal-ne a id [] h e = cc
first_terminal-ne a id (job ∷ jobs) h e = ground (arith, first_terminal-ne a id jobs h.1)

-- Evicting a job leaves the active ones.
active-pop_job :
    (id : ℕ) (jobs : List UploadJob)
    → Distinct jobs
    → first_terminal jobs ≡ some id
    → active (pop_job id jobs) ≡ active jobs
unfolding active pop_job first_terminal
active-pop_job id [] d e = cc
active-pop_job id (job ∷ jobs) d e = elim (Bool-cases (is_terminal job.status)) [
  | inl terminal ↦
      let same : job.job_id ≡ id = ground arith in
      let gone =
        pop_job-absent id jobs (subst (λ i. All (λ k. (k.job_id == i) ≡ false) jobs) same d.0) in
      let hit : (job.job_id == id) ≡ true = (==_iff job.job_id id).1 same in
      rw (hit, terminal) (ap active gone)
  | inr live ↦
      let other = first_terminal-ne job.job_id id jobs d.0 (ground arith) in
      let ih = active-pop_job id jobs d.1 (ground arith) in rw (other, live) (ap (λ l. job ∷ l) ih)
]

length-pop_job :
    (id : ℕ) (jobs : List UploadJob)
    → first_terminal jobs ≡ some id
    → length (pop_job id jobs) < length jobs
unfolding pop_job first_terminal
length-pop_job id [] e = cc
length-pop_job id (job ∷ jobs) e = elim (Bool-cases (is_terminal job.status)) [
  | inl terminal ↦
      let same : job.job_id ≡ id = ground arith in
      let hit : (job.job_id == id) ≡ true = (==_iff job.job_id id).1 same in
      let short = length-filter_by-le (λ k. not (k.job_id == id)) jobs in rw hit (omega arith)
  | inr live ↦ ground (arith, length-pop_job id jobs)
]

none-active : (jobs : List UploadJob) → first_terminal jobs ≡ none → active jobs ≡ jobs
unfolding active first_terminal
none-active [] e = refl
none-active (job ∷ jobs) e = ground (arith, none-active jobs)

-- What the loop leaves: the active jobs, among others, and room or active jobs alone.
pub record Evicted (capacity : ℕ) (jobs kept : List UploadJob) : Type 0 where
  pub same_active : active kept ≡ active jobs
  pub distinct : Distinct kept
  pub shorter : length kept ≤ length jobs
  pub room : (length kept < capacity) ⊎ (active kept ≡ kept)

Evicted-step :
    {capacity : ℕ} {jobs kept : List UploadJob} (id : ℕ)
    → Distinct jobs
    → first_terminal jobs ≡ some id
    → Evicted capacity (pop_job id jobs) kept
    → Evicted capacity jobs kept
Evicted-step {jobs = jobs} id d e v = record {
  same_active = v.same_active ∙ active-pop_job id jobs d e;
  distinct = v.distinct;
  shorter = omega (arith, v.shorter, length-pop_job id jobs e);
  room = v.room;
}

evict_rounds-Evicted :
    (fuel capacity : ℕ) (jobs : List UploadJob)
    → Distinct jobs
    → length jobs ≤ fuel
    → Evicted capacity jobs (evict_rounds fuel capacity jobs)
unfolding evict_rounds
evict_rounds-Evicted zero capacity [] d h = record {
  same_active = refl;
  distinct = d;
  shorter = omega arith;
  room = inr (unfold active in refl);
}
evict_rounds-Evicted zero capacity (job ∷ jobs) d h = absurd (omega arith)
evict_rounds-Evicted (suc fuel) capacity jobs d h = elim (Bool-cases (leb capacity (length jobs))) [
  | inl full ↦ elim (Option-cases (first_terminal jobs)) [
    | inl busy ↦
        rw (full, busy, evict_rounds)
          (record {
            same_active = refl;
            distinct = d;
            shorter = omega arith;
            room = inr (none-active jobs busy);
          })
    | inr (id, e) ↦
        rw (full, e)
          (Evicted-step id d e (
            evict_rounds-Evicted fuel capacity (pop_job id jobs)
              (unfold pop_job in Distinct-filter_by _ jobs d)
              (omega (arith, length-pop_job id jobs e))))
  ]
  | inr room ↦ rw room (record {
    same_active = refl;
    distinct = d;
    shorter = omega arith;
    room = inl (ground arith);
  })
]

-- Where no two jobs have one id, the eviction keeps the queued and running jobs in order, keeps ids
-- distinct, adds nothing, and leaves room or queued and running jobs alone.
pub evict_terminal-Evicted :
    (capacity : ℕ) (jobs : List UploadJob)
    → Distinct jobs
    → Evicted capacity jobs (evict_terminal capacity jobs)
unfolding evict_terminal
evict_terminal-Evicted capacity jobs d =
    evict_rounds-Evicted (length jobs) capacity jobs d (omega arith)
