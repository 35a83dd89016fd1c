-- ===== src/Jobs/Tests.antt =====
-- Runs of the upload jobs.
use yandex_workspace_mcp.Prelude.{
  Bool-cases, inl, inr, ◌==◌, ◌≡◌, refl, true, false, text, [], ◌∷◌, ◌++◌, some, length, leb,
  if◌then◌else◌,
}
use yandex_workspace_mcp.Errors.{ok, err, rate_limit_exceeded}
use yandex_workspace_mcp.Jobs.Models.{UploadJob, OpenedFile}
use yandex_workspace_mcp.Jobs.Uploads.{
  begin, cancel, complete, finish_close, submit, new_job, find_job, evict_terminal,
}
use yandex_workspace_mcp.Jobs.Uploads.Evict.{active, Evicted, evict_terminal-Evicted}
use yandex_workspace_mcp.Jobs.Uploads.Submit.{submit_lem}
use yandex_workspace_mcp.Jobs.Tasks.{
  System, advanced, ending, Reach, init, submits, starts, returns, here, next, submitted, started,
  closing, dies, dead, set_phase, Closes, waits,
}
use yandex_workspace_mcp.Jobs.Uploads.{prune, is_expired, evict_rounds, first_terminal, update_job}
use yandex_workspace_mcp.Jobs.Models.{is_terminal, status_eq}
use yandex_workspace_mcp.Jobs.Tasks.Turns.{Inv}
use yandex_workspace_mcp.Jobs.Tasks.Invariant.{Reach-Inv}
use yandex_workspace_mcp.Jobs.Tasks.Statuses.{Outcome}
use yandex_workspace_mcp.Jobs.Tasks.Closed.{Settled, Closes-Settled}
use yandex_workspace_mcp.Jobs.Tasks.Lifecycle.{step-Outcome}

abbrev file : OpenedFile
file = record { descriptor = 3; size = 10 }

abbrev empty : System
empty = init 1 60 (text "owner")

-- Its line lists what a run of the store computes with.
unfoldable runs : Unit {0}
unfolding submitted started advanced submit prune is_expired is_terminal evict_terminal evict_rounds
    first_terminal find_job new_job begin update_job init status_eq
runs = tt

-- One job, queued and then running.
abbrev one_queued : System
one_queued = submitted 5 7 file (text "/Work/a") false empty

abbrev one_running : System
one_running = started 6 7 one_queued

abbrev queued_job : UploadJob
queued_job = new_job empty.store 5 7 file (text "/Work/a") false

one_queued-Reach : Reach empty one_queued
one_queued-Reach =
    next here
      (submits 5 7 file (text "/Work/a") false empty (unfold runs in refl) (unfold runs in refl))

one_running-Reach : Reach empty one_running
one_running-Reach = next one_queued-Reach (starts 6 7 one_queued (unfold runs in refl))

running_job : find_job 7 one_running.jobs ≡ some (begin 6 queued_job)
unfolding runs
running_job = refl

Reach-Inv_example : Inv one_running
Reach-Inv_example = Reach-Inv 1 60 (text "owner") one_running-Reach

step-Outcome_example :
    Outcome
      (begin 6 queued_job)
      (find_job 7 (advanced 7 (complete one_running.ttl 9) ending one_running).jobs)
step-Outcome_example =
    step-Outcome 7 (begin 6 queued_job) (returns 9 7 one_running (unfold runs in refl))
      Reach-Inv_example.distinct running_job

evict_terminal-Evicted_example : Evicted 1 one_running.jobs (evict_terminal 1 one_running.jobs)
evict_terminal-Evicted_example =
    evict_terminal-Evicted 1 one_running.jobs Reach-Inv_example.distinct

-- The one place is taken by a job at work.
submit_lem_example :
    ((submit 8 9 file (text "/Work/b") true one_running.store).0 ≡ (
      if leb one_running.capacity (length (active one_running.jobs))
      then err rate_limit_exceeded
      else ok (new_job one_running.store 8 9 file (text "/Work/b") true)))
    × (active (submit 8 9 file (text "/Work/b") true one_running.store).1.jobs ≡ (
        if leb one_running.capacity (length (active one_running.jobs))
        then active one_running.jobs
        else active one_running.jobs
          ++ (new_job one_running.store 8 9 file (text "/Work/b") true ∷ [])))
submit_lem_example =
    submit_lem 8 9 file (text "/Work/b") true one_running.store Reach-Inv_example.distinct
      (unfold runs in refl)

-- The queued job is cancelled before it has started, and a submission comes after the closing.
abbrev one_dead : System
one_dead = record (closing one_queued) {
  phase = set_phase 7 (some dead) (closing one_queued).phase;
}

abbrev one_closed : System
one_closed = record one_dead { store = finish_close 9 one_dead.store }

one_closed-Closes : Closes one_queued one_closed
unfolding runs closing
one_closed-Closes =
    waits 9 one_queued one_dead refl (next here (dies 7 (closing one_queued) refl (inl refl)))
      (λ id. elim (Bool-cases (id == 7)) [
        | inl same ↦ inr (inr (rw same refl))
        | inr other ↦ inl (rw other refl)
      ])

abbrev one_refused : System
one_refused = submitted 10 8 file (text "/Work/b") false one_closed

Closes-Settled_example : Settled one_refused
unfolding closing cancel
Closes-Settled_example = Closes-Settled one_closed-Closes (unfold runs in refl) (
    next here (
      submits 10 8 file (text "/Work/b") false one_closed (unfold runs finish_close in refl)
        (unfold runs in refl)))
