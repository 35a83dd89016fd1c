-- ===== src/Jobs/Tasks/Closed.antt =====
-- jobs/uploads.py: what holds from when `close` returns on.
use yandex_workspace_mcp.Prelude.{
  ℕ, ◌≡◌, refl, sym, ap, ◌∙◌, inl, inr, ◌⊎◌, Bool, true, false, not, Text, Option, none, some, List,
  [], ◌∷◌, ◌==◌, ==_iff, ==_refl, All, All-filter_by, Bool-cases, Option-cases,
}
use yandex_workspace_mcp.Jobs.Models.{UploadJob, OpenedFile}
use yandex_workspace_mcp.Jobs.Uploads.{
  UploadJobStore, submit, prune, is_expired, get, close_file, finish_close, release, find_job,
}
use yandex_workspace_mcp.Jobs.Tasks.{
  Phase, fresh, uploading, ending, dead, System, set_phase, submitted, advanced, started, finalized,
  closing, AllDone, Step, submits, starts, returns, raises, cancels, dies, finalizes, gets, prunes,
  closes, closed_all, Reach, here, next, Closes, returns_at_once, waits,
}
use yandex_workspace_mcp.Jobs.Tasks.Closing.{
  is_open, is_open-close_file, IsReleased, finish_close-IsReleased,
}

-- A submission to a closed store is refused, and its file is closed.
submitted-closed :
    (now id : ℕ) (file : OpenedFile) (destination_path : Text) (overwrite : Bool) (s : System)
    → s.closed ≡ true
    → submitted now id file destination_path overwrite s ≡ record s {
      store = record s.store {
        open_files = close_file file.descriptor (file.descriptor ∷ s.open_files);
      };
    }
unfolding submitted submit
submitted-closed now id file destination_path overwrite s h = rw h refl

-- The store stays closed and gets no new coroutine.
record StaysClosed (s t : System) : Type 0 where
  pub shut : t.closed ≡ true
  pub no_more : (id : ℕ) → s.phase id ≡ none → t.phase id ≡ none

-- A coroutine that took a step was there before.
set_phase-none :
    (a : ℕ) (p : Option Phase) {q : Phase} (phase : ℕ → Option Phase)
    → phase a ≡ some q
    → (id : ℕ) → phase id ≡ none
    → set_phase a p phase id ≡ none
set_phase-none a p phase there id gone = elim (Bool-cases (id == a)) [
  | inl same ↦ absurd (let e = ap phase ((==_iff id a).0 same) in cc (there, gone, e))
  | inr other ↦ rw other gone
]

release-closed :
    (id : ℕ) (store : UploadJobStore) → store.closed ≡ true → (release id store).closed ≡ true
unfolding release
release-closed id store h = elim (Option-cases (find_job id store.jobs)) [
  | inl missing ↦ rw (release, missing) h
  | inr (job, found) ↦ rw (release, found) h
]

Step-StaysClosed : {s t : System} → Step s t → s.closed ≡ true → StaysClosed s t
Step-StaysClosed (submits now id file destination_path overwrite s absent idle) h =
    rw (submitted-closed now id file destination_path overwrite s h)
      (record { shut = h; no_more = λ i gone. gone })
Step-StaysClosed (starts now id s at) h =
    unfold started advanced in record { shut = h; no_more = set_phase-none id _ s.phase at }
Step-StaysClosed (returns now id s at) h =
    unfold advanced in record { shut = h; no_more = set_phase-none id _ s.phase at }
Step-StaysClosed (raises now id category s at) h =
    unfold advanced in record { shut = h; no_more = set_phase-none id _ s.phase at }
Step-StaysClosed (cancels now id s (inl at)) h =
    unfold advanced in record { shut = h; no_more = set_phase-none id _ s.phase at }
Step-StaysClosed (cancels now id s (inr at)) h =
    unfold advanced in record { shut = h; no_more = set_phase-none id _ s.phase at }
Step-StaysClosed (dies id s shut (inl at)) h = record {
  shut = h;
  no_more = set_phase-none id (some dead) s.phase at;
}
Step-StaysClosed (dies id s shut (inr at)) h = record {
  shut = h;
  no_more = set_phase-none id (some dead) s.phase at;
}
Step-StaysClosed (finalizes id s at) h =
    unfold finalized in
    record { shut = release-closed id s.store h; no_more = set_phase-none id none s.phase at }
Step-StaysClosed (gets now id s) h = unfold get in record { shut = h; no_more = λ i gone. gone }
Step-StaysClosed (prunes now s) h = record { shut = h; no_more = λ i gone. gone }
Step-StaysClosed (closes s) h = unfold closing in record { shut = refl; no_more = λ i gone. gone }
Step-StaysClosed (closed_all now s shut done) h =
    unfold finish_close in record { shut = h; no_more = λ i gone. gone }

Reach-StaysClosed : {s t : System} → Reach s t → s.closed ≡ true → StaysClosed s t
Reach-StaysClosed here h = record { shut = h; no_more = λ id gone. gone }
Reach-StaysClosed (next before step) h =
    let first = Reach-StaysClosed before h in
    let last = Step-StaysClosed step first.shut in
    record { shut = last.shut; no_more = λ id gone. last.no_more id (first.no_more id gone) }

-- The store is closed, its jobs have ended with their files closed, and no coroutine has a step left.
pub record Settled (s : System) : Type 0 where
  pub shut : s.closed ≡ true
  pub all_done : AllDone s
  pub released : All (IsReleased s.open_files) s.jobs

not_done :
    {A : Type 0} {o : Option Phase} (p : Phase)
    → o ≡ some p
    → (p ≡ dead → ⊥)
    → (o ≡ none) ⊎ (o ≡ some dead)
    → A
not_done p at alive (inl none_left) = absurd cc
not_done p at alive (inr ended) = absurd (alive (some-injective (sym at ∙ ended)))
  where
    some-injective : {a b : Phase} → some a ≡ some b → a ≡ b
    some-injective e = cc

refused-IsReleased :
    (d : ℕ) (files : List ℕ) (jobs : List UploadJob)
    → All (IsReleased files) jobs
    → All (IsReleased (close_file d (d ∷ files))) jobs
unfolding close_file
refused-IsReleased d files [] h = tt
refused-IsReleased d files (job ∷ jobs) h = ((h.0.0, closed), refused-IsReleased d files jobs h.1)
  where
    closed : is_open job.opened (close_file d (d ∷ files)) ≡ false
    closed = rw (==_refl d) (is_open-close_file job.opened d files h.0.1)

finished-Settled :
    (now : ℕ) (s : System)
    → s.closed ≡ true
    → AllDone s
    → Settled (record s { store = finish_close now s.store })
unfolding finish_close
finished-Settled now s shut done = record {
  shut = shut;
  all_done = done;
  released = finish_close-IsReleased now s.store;
}

Step-Settled : {s t : System} → Step s t → Settled s → Settled t
Step-Settled (submits now id file destination_path overwrite s absent idle) v =
    rw (submitted-closed now id file destination_path overwrite s v.shut) (record {
      shut = v.shut;
      all_done = v.all_done;
      released = refused-IsReleased file.descriptor s.open_files s.jobs v.released;
    })
Step-Settled (starts now id s at) v = not_done fresh at (λ e. cc) (v.all_done id)
Step-Settled (returns now id s at) v = not_done uploading at (λ e. cc) (v.all_done id)
Step-Settled (raises now id category s at) v = not_done uploading at (λ e. cc) (v.all_done id)
Step-Settled (cancels now id s (inl at)) v = not_done uploading at (λ e. cc) (v.all_done id)
Step-Settled (cancels now id s (inr at)) v = not_done fresh at (λ e. cc) (v.all_done id)
Step-Settled (dies id s shut (inl at)) v = not_done fresh at (λ e. cc) (v.all_done id)
Step-Settled (dies id s shut (inr at)) v = not_done ending at (λ e. cc) (v.all_done id)
Step-Settled (finalizes id s at) v = not_done ending at (λ e. cc) (v.all_done id)
Step-Settled (gets now id s) v =
    unfold get prune in
    record {
      shut = v.shut;
      all_done = v.all_done;
      released =
          All-filter_by (IsReleased s.open_files) (λ job. not (is_expired now job)) s.jobs
            v.released;
    }
Step-Settled (prunes now s) v =
    unfold prune in
    record {
      shut = v.shut;
      all_done = v.all_done;
      released =
          All-filter_by (IsReleased s.open_files) (λ job. not (is_expired now job)) s.jobs
            v.released;
    }
Step-Settled (closes s) v =
    unfold closing in record { shut = refl; all_done = v.all_done; released = v.released }
Step-Settled (closed_all now s shut done) v = finished-Settled now s v.shut v.all_done

Reach-Settled : {s t : System} → Reach s t → Settled s → Settled t
Reach-Settled here v = v
Reach-Settled (next before step) v = Step-Settled step (Reach-Settled before v)

-- When a call of `close` that found the store open has returned, and whatever steps come after: the
-- store is closed, every job in it has ended with its file closed, and no coroutine of a job has a
-- step left to take. (A call that finds the store closed returns at once.)
pub Closes-Settled : {s t u : System} → Closes s t → s.closed ≡ false → Reach t u → Settled u
Closes-Settled (returns_at_once s shut) open_before after = absurd cc
Closes-Settled (waits now s t was_open ran waited) open_before after =
    let v = Reach-StaysClosed ran (unfold closing in refl) in
    Reach-Settled after (
      finished-Settled now t v.shut (λ id. elim (waited id) [
        | inl gone ↦ inl (unfold closing in v.no_more id gone)
        | inr done ↦ done
      ]))
