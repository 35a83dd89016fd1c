-- ===== src/Services/Disk/Background.antt =====
-- Where the uploads in the background go.
mod Tests
use yandex_workspace_mcp.Prelude.{
  ℕ, ◌≡◌, inl, inr, Bool, true, false, not, ◌||◌, Text, List, [], ◌∷◌, ◌++◌, Option, none, some,
  if_cases, All, All-append,
}
use yandex_workspace_mcp.Errors.{Result, ok, err, permission_denied, Result-cases}
use yandex_workspace_mcp.Policies.Paths.Within.{Within, validate_path-Within}
use yandex_workspace_mcp.Jobs.Models.{UploadJob, OpenedFile}
use yandex_workspace_mcp.Jobs.Uploads.{UploadJobStore, submit, new_job}
use yandex_workspace_mcp.Jobs.Uploads.Submit.{submit_cases, All-made_room}
use yandex_workspace_mcp.Services.Disk.{DiskService, DiskClient, authorize_disk_path, no_roots}
use yandex_workspace_mcp.Services.Disk.Uploads.{AccessPolicies, upload_local_file_background}

module _ (nfkc : Text → Text) (s : DiskService) where
  -- The job uploads to a path within the allowed roots.
  abbrev pub StaysInside : UploadJob → Type 0
  StaysInside job = Within nfkc s.allowed_roots job.destination_path

  abbrev pub AllInside : Option UploadJobStore → Type 0
  AllInside none = Unit {0}
  AllInside (some store) = All StaysInside store.jobs

  submit-AllInside :
      (now id : ℕ) (file : OpenedFile) (destination : Text) (overwrite : Bool)
      (store : UploadJobStore)
      → Within nfkc s.allowed_roots destination
      → All StaysInside store.jobs
      → All StaysInside (submit now id file destination overwrite store).1.jobs
  unfolding new_job
  submit-AllInside now id file destination overwrite store inside h =
      let kept = All-made_room StaysInside store.capacity now store.jobs h in
      submit_cases (λ run. All StaysInside run.1.jobs) now id file destination overwrite store
        (λ shut. h) (λ full. kept) (λ is_open room. All-append StaysInside _ _ kept (inside, tt))

  module _ (client : DiskClient) (policies : AccessPolicies) where
    -- An upload in the background leaves in the job store only jobs whose destinations lie within the
    -- allowed roots, if there were only such jobs before, whether it is accepted or not.
    pub upload_local_file_background-AllInside :
        (now job_id : ℕ) (file_path destination_path : Text) (overwrite : Bool)
        (store : Option UploadJobStore)
        → AllInside store
        → AllInside
            (upload_local_file_background nfkc client policies s now job_id file_path
              destination_path overwrite store).1
    unfolding upload_local_file_background authorize_disk_path
    upload_local_file_background-AllInside now job_id file_path destination_path overwrite none h =
        tt
    upload_local_file_background-AllInside now job_id file_path destination_path overwrite
          (some store) h =
        if_cases (λ (run : Result UploadJob × Option UploadJobStore). AllInside run.1)
          (not s.can_write || (no_roots s.upload_allowed_dirs || not s.has_signed_client)) _ _
          (λ off. h)
          (λ on. elim (Result-cases (authorize_disk_path nfkc s destination_path)) [
            | inr (x, e) ↦ rw e h
            | inl (q, e) ↦
                let inside = (validate_path-Within nfkc destination_path s.allowed_roots e).1 in
                elim (Result-cases (
                  policies.open_allowed_local_file file_path s.upload_allowed_dirs
                    s.max_upload_bytes)) [
                      | inr (x, e') ↦ rw (e, e') h
                      | inl (opened, e') ↦
                          rw (e, e') (submit-AllInside now job_id opened q overwrite _ inside h)
                    ]
          ])
