-- ===== src/Jobs/Uploads/Submit.antt =====
-- The ways in which `submit` can end, and when it is refused.
use mathlib.Core.Path.{ap₂}
use yandex_workspace_mcp.Prelude.{
  ℕ, zero, suc, ◌≤◌, ◌≡◌, refl, ◌∙◌, inl, inr, Bool, true, false, not, Text, List, [], ◌∷◌, ◌++◌,
  leb, if◌then◌else◌, length, All, All-filter_by, length-filter_by-le, filter_by-append, Bool-cases,
  Option-cases, if_cases, arith,
}
use yandex_workspace_mcp.Errors.{Result, ok, err, rate_limit_exceeded, configuration_error}
use yandex_workspace_mcp.Jobs.Models.{is_terminal, UploadJob, OpenedFile}
use yandex_workspace_mcp.Jobs.Uploads.{
  UploadJobStore, pop_job, is_expired, prune, first_terminal, evict_rounds, evict_terminal, new_job,
  submit, close_file,
}
use yandex_workspace_mcp.Jobs.Uploads.Evict.{
  Distinct, active, Distinct-filter_by, active-prune, Evicted, evict_terminal-Evicted,
}

active-append : (jobs more : List UploadJob) → active (jobs ++ more) ≡ active jobs ++ active more
unfolding active
active-append jobs more = filter_by-append _ jobs more

length-active-le : (jobs : List UploadJob) → length (active jobs) ≤ length jobs
unfolding active
length-active-le jobs = length-filter_by-le _ jobs

module _ (now id : ℕ) (file : OpenedFile) (destination_path : Text) (overwrite : Bool)
    (s : UploadJobStore) where
  -- What `submit` has left when it looks at the capacity.
  abbrev made_room : List UploadJob
  made_room = evict_terminal s.capacity (prune now s.jobs)

  made_room-Evicted : Distinct s.jobs → Evicted s.capacity (prune now s.jobs) made_room
  made_room-Evicted d =
      evict_terminal-Evicted s.capacity (prune now s.jobs)
        (unfold prune in Distinct-filter_by _ s.jobs d)

  active-new_job :
      active (new_job s now id file destination_path overwrite ∷ [])
      ≡ new_job s now id file destination_path overwrite ∷ []
  unfolding active new_job is_terminal
  active-new_job = refl

  -- Room is short exactly when the active jobs alone fill the store.
  full_iff :
      Distinct s.jobs → leb s.capacity (length made_room) ≡ leb s.capacity (length (active s.jobs))
  full_iff d =
      let v = made_room-Evicted d in
      let same = v.same_active ∙ active-prune now s.jobs in
      let short = length-active-le made_room in
      elim v.room [ inl room ↦ rw (← same) (ground arith) | inr busy ↦ rw (← same, busy) ]

  -- A submission to an open store whose job ids are distinct is refused, with `RateLimitExceeded`,
  -- exactly when the queued and running jobs alone fill the capacity: pruning and evicting make
  -- room in every other case. Either way no queued or running job is lost.
  pub submit_lem :
      Distinct s.jobs
      → s.closed ≡ false
      → ((submit now id file destination_path overwrite s).0 ≡ (
          if leb s.capacity (length (active s.jobs))
          then err rate_limit_exceeded
          else ok (new_job s now id file destination_path overwrite)))
        × (active (submit now id file destination_path overwrite s).1.jobs ≡ (
            if leb s.capacity (length (active s.jobs))
            then active s.jobs
            else active s.jobs ++ (new_job s now id file destination_path overwrite ∷ [])))
  unfolding submit new_job
  submit_lem d is_open =
      let v = made_room-Evicted d in
      let same = v.same_active ∙ active-prune now s.jobs in
      elim (Bool-cases (leb s.capacity (length made_room))) [
        | inl full ↦ rw (is_open, ← full_iff d, full) (refl, same)
        | inr room ↦
            rw (is_open, ← full_iff d, room)
              (refl, active-append made_room _ ∙ ap₂ (λ l r. l ++ r) same (active-new_job))
      ]

module _ (P : UploadJob → Type 0) where
  All-evict_rounds :
      (fuel capacity : ℕ) (jobs : List UploadJob)
      → All P jobs
      → All P (evict_rounds fuel capacity jobs)
  unfolding evict_rounds
  All-evict_rounds zero capacity jobs h = h
  All-evict_rounds (suc fuel) capacity jobs h =
      if_cases (All P) (leb capacity (length jobs)) _ jobs
        (λ _. elim (Option-cases (first_terminal jobs)) [
          | inl busy ↦ rw busy h
          | inr (id, e) ↦ rw e (
              All-evict_rounds fuel capacity (pop_job id jobs)
                (unfold pop_job in All-filter_by P _ jobs h))
        ])
        (λ _. h)

  -- Making room takes jobs out and changes none.
  pub All-made_room :
      (capacity now : ℕ) (jobs : List UploadJob)
      → All P jobs
      → All P (evict_terminal capacity (prune now jobs))
  unfolding evict_terminal prune
  All-made_room capacity now jobs h = All-evict_rounds _ capacity _ (All-filter_by P _ jobs h)

pub length-made_room-le :
    (capacity now : ℕ) (jobs : List UploadJob)
    → Distinct jobs
    → length (evict_terminal capacity (prune now jobs)) ≤ length jobs
unfolding prune
length-made_room-le capacity now jobs d = omega (
  arith,
  (evict_terminal-Evicted capacity (prune now jobs) (Distinct-filter_by _ jobs d)).shorter,
  length-filter_by-le (λ job. not (is_expired now job)) jobs,
)

pub Distinct-made_room :
    (capacity now : ℕ) (jobs : List UploadJob)
    → Distinct jobs
    → Distinct (evict_terminal capacity (prune now jobs))
unfolding prune
Distinct-made_room capacity now jobs d =
    (evict_terminal-Evicted capacity (prune now jobs) (Distinct-filter_by _ jobs d)).distinct

-- The three ways in which `submit` can end.
pub submit_cases {ℓ} :
    (P : Result UploadJob × UploadJobStore → Type ℓ) (now id : ℕ) (file : OpenedFile)
    (destination_path : Text) (overwrite : Bool) (s : UploadJobStore)
    → (s.closed ≡ true
        → P (
          err configuration_error,
          record s { open_files = close_file file.descriptor s.open_files },
        ))
    → (leb s.capacity (length (evict_terminal s.capacity (prune now s.jobs))) ≡ true
        → P (
          err rate_limit_exceeded,
          record s {
            jobs = evict_terminal s.capacity (prune now s.jobs);
            open_files = close_file file.descriptor s.open_files;
          },
        ))
    → (s.closed ≡ false
        → leb s.capacity (length (evict_terminal s.capacity (prune now s.jobs))) ≡ false
        → P (
          ok (new_job s now id file destination_path overwrite),
          record s {
            jobs =
                evict_terminal s.capacity (prune now s.jobs)
                ++ (new_job s now id file destination_path overwrite ∷ []);
          },
        ))
    → P (submit now id file destination_path overwrite s)
unfolding submit
submit_cases P now id file destination_path overwrite s shut full room =
    if_cases P s.closed _ _ shut (λ o.
      if_cases P (leb s.capacity (length (evict_terminal s.capacity (prune now s.jobs)))) _ _ full
        (room o))
