-- ===== src/Jobs/Tasks.antt =====
-- The interleavings of jobs/uploads.py: each step is what one coroutine does between two points at
-- which it gives up the lock, and the steps of different coroutines come in any order. These are more
-- orders than asyncio has: taking a lock that is free does not suspend a coroutine.
pub mod Fits
pub mod Changes
pub mod Turns
pub mod Invariant
pub mod Statuses
pub mod Room
pub mod Lifecycle
pub mod Closing
pub mod Closed
use yandex_workspace_mcp.Prelude.{
  ℕ, suc, ◌+◌, ◌≡◌, Bool, true, false, not, ◌⊎◌, Text, Option, none, some, List, [], ◌∷◌, ◌==◌,
  if◌then◌else◌, map,
}
use yandex_workspace_mcp.Errors.{Result, ok, err}
use yandex_workspace_mcp.Jobs.Models.{UploadJobStatus, queued, status_eq, UploadJob, OpenedFile}
use yandex_workspace_mcp.Jobs.Uploads.{
  UploadJobStore, find_job, update_job, prune, submit, begin, complete, cancel, fail, release, get,
  finish_close, close_file,
}

-- Where the coroutine `_run` of a job stands: before its first turn with the lock, in the runner (or
-- waiting for the lock after it), waiting for the lock of its `finally`, or cancelled where nothing
-- of it runs any more, that is before it started or while it waits for the `finally`.
pub data Phase : Type 0 where
  fresh uploading ending dead : Phase

-- The store and `self._tasks`.
pub record System : Type 0 where
  pub store : UploadJobStore
  pub open store use *
  pub phase : ℕ → Option Phase

abbrev pub set_phase : ℕ → Option Phase → (ℕ → Option Phase) → ℕ → Option Phase
set_phase id p phase j = if j == id then p else phase j

-- `open_allowed_local_file` in the service, and then `submit`.
unfoldable pub submitted : ℕ → ℕ → OpenedFile → Text → Bool → System → System
submitted now id file destination_path overwrite s =
    let opened = record s.store { open_files = file.descriptor ∷ s.open_files } in
    let (answer, store) = submit now id file destination_path overwrite opened in
    record {
      store = store;
      phase = elim answer [ ok _ ↦ set_phase id (some fresh) s.phase | err _ ↦ s.phase ];
    }

-- The job's object gets a change, and its coroutine goes on.
unfoldable pub advanced : ℕ → (UploadJob → UploadJob) → Phase → System → System
advanced id change p s = record {
  store = record s.store { jobs = update_job id change s.jobs };
  phase = set_phase id (some p) s.phase;
}

-- `if job.status != "queued": return`, and the `KeyError` of a missing job, lead to the `finally`.
abbrev pub starts_in : Option UploadJob → Phase
starts_in none = ending
starts_in (some job) = if status_eq job.status queued then uploading else ending

unfoldable pub started : ℕ → ℕ → System → System
started now id s = advanced id (begin now) (starts_in (find_job id s.jobs)) s

unfoldable pub finalized : ℕ → System → System
finalized id s = record { store = release id s.store; phase = set_phase id none s.phase }

unfoldable pub closing : System → System
closing s = record s { store = record s.store { closed = true } }

-- No coroutine will take another step.
abbrev pub AllDone : System → Type 0
AllDone s = (id : ℕ) → (s.phase id ≡ none) ⊎ (s.phase id ≡ some dead)

pub data Step : System → System → Type 0 where
  submits :
      (now id : ℕ) (file : OpenedFile) (destination_path : Text) (overwrite : Bool) (s : System)
      → find_job id s.jobs ≡ none
      → s.phase id ≡ none
      → Step s (submitted now id file destination_path overwrite s)
  starts : (now id : ℕ) (s : System) → s.phase id ≡ some fresh → Step s (started now id s)
  returns :
      (now id : ℕ) (s : System)
      → s.phase id ≡ some uploading
      → Step s (advanced id (complete s.ttl now) ending s)
  raises :
      (now id : ℕ) (category : Text) (s : System)
      → s.phase id ≡ some uploading
      → Step s (advanced id (fail s.ttl now category) ending s)
  cancels :
      (now id : ℕ) (s : System)
      → (s.phase id ≡ some uploading) ⊎ (s.phase id ≡ some fresh)
      → Step s (advanced id (cancel s.ttl now) ending s)
  dies :
      (id : ℕ) (s : System)
      → s.closed ≡ true
      → (s.phase id ≡ some fresh) ⊎ (s.phase id ≡ some ending)
      → Step s (record s { phase = set_phase id (some dead) s.phase })
  finalizes : (id : ℕ) (s : System) → s.phase id ≡ some ending → Step s (finalized id s)
  gets : (now id : ℕ) (s : System) → Step s (record s { store = (get now id s.store).1 })
  prunes :
      (now : ℕ) (s : System)
      → Step s (record s { store = record s.store { jobs = prune now s.jobs } })
  closes : (s : System) → Step s (closing s)
  closed_all :
      (now : ℕ) (s : System)
      → s.closed ≡ true
      → AllDone s
      → Step s (record s { store = finish_close now s.store })

-- A store without jobs.
unfoldable pub init : ℕ → ℕ → Text → System
init capacity ttl owner = record {
  store = record {
    capacity = capacity;
    ttl = ttl;
    owner = owner;
    jobs = [];
    closed = false;
    open_files = [];
  };
  phase = λ _. none;
}

pub data Reach (s : System) : System → Type 0 where
  here : Reach s s
  next : {t u : System} → Reach s t → Step t u → Reach s u

-- A call of `close`, from its start to its return. Where the store is closed already it returns at
-- once. Otherwise it closes the store, waits for the tasks that it found (whose cancellation is a
-- step of each) while other coroutines go on, and goes through the jobs.
pub data Closes : System → System → Type 0 where
  returns_at_once : (s : System) → s.closed ≡ true → Closes s s
  waits :
      (now : ℕ) (s t : System)
      → s.closed ≡ false
      → Reach (closing s) t
      → ((id : ℕ) → (s.phase id ≡ none) ⊎ ((t.phase id ≡ none) ⊎ (t.phase id ≡ some dead)))
      → Closes s (record t { store = finish_close now t.store })
