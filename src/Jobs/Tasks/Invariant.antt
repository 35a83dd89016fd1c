-- ===== src/Jobs/Tasks/Invariant.antt =====
-- What holds in every state that the store can reach.
use yandex_workspace_mcp.Prelude.{
  ℕ, suc, ◌≤◌, ◌≡◌, refl, sym, ap, subst, ◌⊎◌, inl, inr, Bool, false, not, Text, Option, none, some,
  List, [], ◌∷◌, ◌++◌, map, leb, ◌==◌, ==_refl, ==_iff, length, length-append, All, All-append,
  All-filter_by, length-filter_by-le, Bool-cases, Option-cases, arith,
}
use yandex_workspace_mcp.Errors.{ok, err}
use yandex_workspace_mcp.Jobs.Models.{UploadJobStatus, status_eq, UploadJob, OpenedFile}
use yandex_workspace_mcp.Jobs.Uploads.{
  find_job, is_expired, prune, evict_terminal, new_job, complete, cancel, fail, release, get,
  finish_close,
}
use yandex_workspace_mcp.Jobs.Uploads.Evict.{Distinct, Distinct-filter_by}
use yandex_workspace_mcp.Jobs.Uploads.Submit.{
  submit_cases, All-made_room, length-made_room-le, Distinct-made_room,
}
use yandex_workspace_mcp.Jobs.Tasks.{
  Phase, fresh, ending, dead, System, set_phase, submitted, finalized, closing, AllDone, Step,
  submits, starts, returns, raises, cancels, dies, finalizes, gets, prunes, closes, closed_all,
  init, Reach, here, next,
}
use yandex_workspace_mcp.Jobs.Tasks.Fits.{Fits, JobFits, find_job-none, fits-absent}
use yandex_workspace_mcp.Jobs.Tasks.Changes.{
  queued-of, ended-of, terminal-Fits, complete-Fits, fail-Fits, closed-Fits, complete-id, fail-id,
  cancel-id,
}
use yandex_workspace_mcp.Jobs.Tasks.Turns.{Inv, started-Inv, ended-Inv, cancelled-Inv}

Distinct-append :
    (jobs : List UploadJob) (job : UploadJob)
    → All (λ k. (k.job_id == job.job_id) ≡ false) jobs
    → Distinct jobs
    → Distinct (jobs ++ job ∷ [])
Distinct-append [] job a d = (tt, tt)
Distinct-append (j ∷ jobs) job a d =
    (All-append _ jobs (job ∷ []) d.0 (ground (arith, a.0), tt), Distinct-append jobs job a.1 d.1)

submitted-Inv :
    (now id : ℕ) (file : OpenedFile) (destination_path : Text) (overwrite : Bool) (s : System)
    → find_job id s.jobs ≡ none
    → Inv s
    → Inv (submitted now id file destination_path overwrite s)
unfolding submitted
submitted-Inv now id file destination_path overwrite s missing v =
    submit_cases
      (λ r. Inv (record {
        store = r.1;
        phase = elim r.0 [ ok _ ↦ set_phase id (some fresh) s.phase | err _ ↦ s.phase ];
      }))
      now id file destination_path overwrite
      (record s.store { open_files = file.descriptor ∷ s.open_files })
      (λ _. record { bounded = v.bounded; distinct = v.distinct; fits = v.fits })
      (λ _. record {
        bounded = omega (arith, shorter, v.bounded);
        distinct = room_distinct;
        fits = room_fits;
      })
      (λ _ room. record {
        bounded = accept_bounded room;
        distinct = Distinct-append _ _ (unfold new_job in room_absent) room_distinct;
        fits =
            All-append _ _ _ (fits-absent id (some fresh) s.phase _ room_absent room_fits)
              (unfold new_job status_eq in ((inl (rw (==_refl id)), refl), tt));
      })
  where
    kept : List UploadJob
    kept = evict_terminal s.capacity (prune now s.jobs)

    shorter : length kept ≤ length s.jobs
    shorter = length-made_room-le s.capacity now s.jobs v.distinct

    room_distinct : Distinct kept
    room_distinct = Distinct-made_room s.capacity now s.jobs v.distinct

    room_fits : All (JobFits s.phase) kept
    room_fits = All-made_room (JobFits s.phase) s.capacity now s.jobs v.fits

    room_absent : All (λ k. (k.job_id == id) ≡ false) kept
    room_absent = All-made_room _ s.capacity now s.jobs (find_job-none id s.jobs missing)

    accept_bounded :
        leb s.capacity (length kept) ≡ false
        → length (
            kept
            ++ (new_job
                  (record s.store { open_files = file.descriptor ∷ s.open_files })
                  now
                  id
                  file
                  destination_path
                  overwrite
                ∷ []))
          ≤ s.capacity
    accept_bounded room = ground (
      arith,
      length-append kept (
          new_job (record s.store { open_files = file.descriptor ∷ s.open_files }) now id file
            destination_path overwrite
          ∷ []),
    )

-- The phase of an id changes, and the jobs of that id may have any of its two phases.
Fits-phase :
    (id : ℕ) (p : Option Phase) (phase : ℕ → Option Phase) (jobs : List UploadJob)
    → ((status : UploadJobStatus) → Fits (phase id) status → Fits p status)
    → All (JobFits phase) jobs
    → All (JobFits (set_phase id p phase)) jobs
Fits-phase id p phase [] h a = tt
Fits-phase id p phase (job ∷ jobs) h a = elim (Bool-cases (job.job_id == id)) [
  | inl hit ↦
      let same = (==_iff job.job_id id).0 hit in
      (
        (rw hit (h job.status (subst (λ i. Fits (phase i) job.status) same a.0.0)), a.0.1),
        Fits-phase id p phase jobs h a.1,
      )
  | inr miss ↦ (rw miss a.0, Fits-phase id p phase jobs h a.1)
]

released-Inv : (id : ℕ) (s : System) → Inv s → Inv (record s { store = release id s.store })
unfolding release
released-Inv id s v = elim (Option-cases (find_job id s.jobs)) [
  | inl missing ↦ rw (missing, release) v
  | inr (job, found) ↦
      rw (found, release) (record { bounded = v.bounded; distinct = v.distinct; fits = v.fits })
]

finalized-Inv : (id : ℕ) (s : System) → s.phase id ≡ some ending → Inv s → Inv (finalized id s)
unfolding finalized
finalized-Inv id s done v =
    let w = released-Inv id s v in
    record {
      bounded = w.bounded;
      distinct = w.distinct;
      fits =
          Fits-phase id none s.phase _
            (λ status f.
              terminal-Fits none status (ended-of status (subst (λ p. Fits p status) done f))
                (inl refl))
            w.fits;
    }

died-Inv :
    (id : ℕ) (s : System)
    → (s.phase id ≡ some fresh) ⊎ (s.phase id ≡ some ending)
    → Inv s
    → Inv (record s { phase = set_phase id (some dead) s.phase })
died-Inv id s (inl waiting) v = record {
  bounded = v.bounded;
  distinct = v.distinct;
  fits =
      Fits-phase id (some dead) s.phase s.jobs
        (λ status f.
          subst (Fits (some dead)) (sym (queued-of status (subst (λ p. Fits p status) waiting f)))
            (inr refl))
        v.fits;
}
died-Inv id s (inr done) v = record {
  bounded = v.bounded;
  distinct = v.distinct;
  fits =
      Fits-phase id (some dead) s.phase s.jobs
        (λ status f.
          terminal-Fits (some dead) status (ended-of status (subst (λ p. Fits p status) done f))
            (inr (inr refl)))
        v.fits;
}

pruned-Inv :
    (now : ℕ) (s : System)
    → Inv s
    → Inv (record s { store = record s.store { jobs = prune now s.jobs } })
unfolding prune
pruned-Inv now s v = record {
  bounded = omega (arith, length-filter_by-le (λ job. not (is_expired now job)) s.jobs, v.bounded);
  distinct = Distinct-filter_by _ s.jobs v.distinct;
  fits = All-filter_by _ _ s.jobs v.fits;
}

-- The last loop of `close`, over jobs that no coroutine works for.
map-cancel-id :
    (ttl now a : ℕ) (jobs : List UploadJob)
    → All (λ k. (k.job_id == a) ≡ false) jobs
    → All (λ k. (k.job_id == a) ≡ false) (map (cancel ttl now) jobs)
map-cancel-id ttl now a [] h = tt
map-cancel-id ttl now a (job ∷ jobs) h =
    (rw (cancel-id now job ttl) h.0, map-cancel-id ttl now a jobs h.1)

map-cancel-Distinct :
    (ttl now : ℕ) (jobs : List UploadJob) → Distinct jobs → Distinct (map (cancel ttl now) jobs)
map-cancel-Distinct ttl now [] d = tt
map-cancel-Distinct ttl now (job ∷ jobs) d = (
  rw (cancel-id now job ttl) (map-cancel-id ttl now job.job_id jobs d.0),
  map-cancel-Distinct ttl now jobs d.1,
)

length-map-cancel :
    (ttl now : ℕ) (jobs : List UploadJob) → length (map (cancel ttl now) jobs) ≡ length jobs
length-map-cancel ttl now [] = refl
length-map-cancel ttl now (job ∷ jobs) = ap suc (length-map-cancel ttl now jobs)

map-cancel-Fits :
    (ttl now : ℕ) (phase : ℕ → Option Phase) (jobs : List UploadJob)
    → ((id : ℕ) → (phase id ≡ none) ⊎ (phase id ≡ some dead))
    → All (JobFits phase) jobs
    → All (JobFits phase) (map (cancel ttl now) jobs)
map-cancel-Fits ttl now phase [] done h = tt
map-cancel-Fits ttl now phase (job ∷ jobs) done h = (
  rw (cancel-id now job ttl)
      (closed-Fits ttl now job h.0.1 (phase job.job_id) (done job.job_id) h.0.0),
  map-cancel-Fits ttl now phase jobs done h.1,
)

finish_close-Inv :
    (now : ℕ) (s : System) → AllDone s → Inv s → Inv (record s { store = finish_close now s.store })
unfolding finish_close
finish_close-Inv now s done v = record {
  bounded = omega (arith, length-map-cancel s.ttl now s.jobs, v.bounded);
  distinct = map-cancel-Distinct s.ttl now s.jobs v.distinct;
  fits = map-cancel-Fits s.ttl now s.phase s.jobs done v.fits;
}

step-Inv : {s t : System} → Step s t → Inv s → Inv t
step-Inv (submits now id file destination_path overwrite s missing idle) v =
    submitted-Inv now id file destination_path overwrite s missing v
step-Inv (starts now id s waiting) v = started-Inv now id s waiting v
step-Inv (returns now id s busy) v =
    ended-Inv id (complete s.ttl now) s (λ j. complete-id now j s.ttl)
      (λ j. complete-Fits s.ttl now j) busy v
step-Inv (raises now id category s busy) v =
    ended-Inv id (fail s.ttl now category) s (λ j. fail-id now j s.ttl category)
      (λ j b. fail-Fits s.ttl now j b category) busy v
step-Inv (cancels now id s at) v = cancelled-Inv now id s at v
step-Inv (dies id s shut at) v = died-Inv id s at v
step-Inv (finalizes id s done) v = finalized-Inv id s done v
step-Inv (gets now id s) v = unfold get in pruned-Inv now s v
step-Inv (prunes now s) v = pruned-Inv now s v
step-Inv (closes s) v =
    unfold closing in record { bounded = v.bounded; distinct = v.distinct; fits = v.fits }
step-Inv (closed_all now s shut done) v = finish_close-Inv now s done v

init-Inv : (capacity ttl : ℕ) (owner : Text) → Inv (init capacity ttl owner)
unfolding init
init-Inv capacity ttl owner = record { bounded = omega arith; distinct = tt; fits = tt }

-- In every state that a new store can reach, whatever the order in which its coroutines run: there
-- are no more jobs than the capacity, no two with one id; a queued job has a coroutine that has not
-- started, a running one has its coroutine in the runner, an ended one has none at work; and the
-- bytes sent are all of the file's if the job completed, and none otherwise.
pub Reach-Inv :
    (capacity ttl : ℕ) (owner : Text) {s : System} → Reach (init capacity ttl owner) s → Inv s
Reach-Inv capacity ttl owner here = init-Inv capacity ttl owner
Reach-Inv capacity ttl owner (next r st) = step-Inv st (Reach-Inv capacity ttl owner r)
