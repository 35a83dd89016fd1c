-- ===== src/Services/Disk/Permitted/Uploading.antt =====
-- What the uploads from elsewhere and the public resource send upstream.
use yandex_workspace_mcp.Prelude.{
  ℕ, ◌≡◌, subst, inl, inr, Bool, not, ◌||◌, Text, Option, none, some, Bool-cases, arith,
}
use yandex_workspace_mcp.Errors.{Result, ok, permission_denied, Result-cases, ok-injective}
use yandex_workspace_mcp.Policies.Paths.Within.{validate_path-Within}
use yandex_workspace_mcp.Jobs.Models.{UploadJob, OpenedFile}
use yandex_workspace_mcp.Jobs.Uploads.{UploadJobStore, submit, new_job}
use yandex_workspace_mcp.Jobs.Uploads.Submit.{submit_cases}
use yandex_workspace_mcp.Services.Calls.{Call, ask-Sends, of_result-Sends, guard-Sends}
use yandex_workspace_mcp.Services.Disk.{
  Request, DiskClient, DiskService, no_roots, client_upload_local_file, client_upload_from_url,
  client_get_public_resource, authorize_disk_path,
}
use yandex_workspace_mcp.Services.Disk.Uploads.{
  AccessPolicies, finally_close, normalize_optional, upload_local_file, upload_from_url,
  get_public_resource, upload_local_file_background, background_runner,
}
use yandex_workspace_mcp.Services.Disk.Permitted.{Permitted, Safe, switch-Safe, authorized-Safe}

module _ (nfkc : Text → Text) (s : DiskService) (client : DiskClient) where
  -- A job whose runner sends what is permitted.
  abbrev pub JobPermitted : UploadJob → Type 0
  JobPermitted job =
      Permitted nfkc s (client_upload_local_file job.destination_path job.opened job.overwrite)

  pub background_runner-Safe :
      (job : UploadJob) → JobPermitted job → Safe nfkc s (background_runner client job)
  unfolding background_runner
  background_runner-Safe job h =
      ask-Sends (Permitted nfkc s) client.answer_operation
        (client_upload_local_file job.destination_path job.opened job.overwrite) h

module _ (nfkc : Text → Text) (client : DiskClient) (policies : AccessPolicies)
    (s : DiskService) where
  finally_close-Safe :
      {A : Type 0} (descriptor : ℕ) (m : Call Request A)
      → Safe nfkc s m
      → Safe nfkc s (finally_close descriptor m)
  unfolding finally_close
  finally_close-Safe descriptor m h sent all_sent = (tt, h sent all_sent)

  pub upload_local_file-Safe :
      (file_path destination_path : Text) (overwrite : Bool)
      → Safe nfkc s (upload_local_file nfkc client policies s file_path destination_path overwrite)
  unfolding upload_local_file
  upload_local_file-Safe file_path destination_path overwrite =
      guard-Sends (Permitted nfkc s)
        (not s.can_write || (no_roots s.upload_allowed_dirs || not s.has_signed_client))
        permission_denied _
        (λ passed. authorized-Safe nfkc s destination_path _ (λ q inside.
          of_result-Sends (Permitted nfkc s)
            (policies.open_allowed_local_file file_path s.upload_allowed_dirs s.max_upload_bytes) _
            (λ opened e. finally_close-Safe opened.descriptor _ (
              ask-Sends (Permitted nfkc s) client.answer_operation
                (client_upload_local_file q opened.descriptor overwrite)
                (ground (arith, passed), inside, ground (arith, passed), ground (arith, passed))))))

  pub upload_from_url-Safe :
      (url destination_path : Text) (overwrite : Bool)
      → Safe nfkc s (upload_from_url nfkc client policies s url destination_path overwrite)
  unfolding upload_from_url
  upload_from_url-Safe url destination_path overwrite =
      guard-Sends (Permitted nfkc s) (not s.can_write || no_roots s.upload_url_allowed_hosts)
        permission_denied _
        (λ passed. authorized-Safe nfkc s destination_path _ (λ q inside.
          of_result-Sends (Permitted nfkc s)
            (policies.validate_remote_upload_url url s.upload_url_allowed_hosts) _
            (λ validated e.
              ask-Sends (Permitted nfkc s) client.answer_operation
                (client_upload_from_url validated q overwrite)
                (ground (arith, passed), inside, ground (arith, passed)))))

  pub get_public_resource-Safe :
      (public_key public_url path : Option Text) (limit offset : ℕ)
      → Safe nfkc s
          (get_public_resource nfkc client policies s public_key public_url path limit offset)
  unfolding get_public_resource
  get_public_resource-Safe public_key public_url path limit offset =
      switch-Safe nfkc s s.can_read _ (λ on.
        of_result-Sends (Permitted nfkc s)
          (policies.authorize_public_locator public_key public_url s.allowed_public_keys) _
          (λ allowed e.
            of_result-Sends (Permitted nfkc s) (normalize_optional nfkc path) _ (λ nested e1.
              ask-Sends (Permitted nfkc s) client.answer_resource
                (client_get_public_resource allowed.0 allowed.1 nested limit offset) on)))

  submit-JobPermitted :
      (now id : ℕ) (file : OpenedFile) (destination : Text) (overwrite : Bool)
      (store : UploadJobStore)
      → Permitted nfkc s (client_upload_local_file destination file.descriptor overwrite)
      → (job : UploadJob) → (submit now id file destination overwrite store).0 ≡ ok job
      → JobPermitted nfkc s client job
  unfolding new_job
  submit-JobPermitted now id file destination overwrite store permitted =
      submit_cases
        (λ (run : Result UploadJob × UploadJobStore).
          (job : UploadJob) → run.0 ≡ ok job → JobPermitted nfkc s client job)
        now id file destination overwrite store (λ shut job e. absurd cc) (λ full job e. absurd cc)
        (λ is_open room job e. subst (JobPermitted nfkc s client) (ok-injective e) permitted)

  -- An upload in the background that is accepted gives such a job.
  pub upload_local_file_background-JobPermitted :
      (now job_id : ℕ) (file_path destination_path : Text) (overwrite : Bool)
      (store : Option UploadJobStore) (job : UploadJob)
      → (upload_local_file_background nfkc client policies s now job_id file_path destination_path
          overwrite store).0
        ≡ ok job
      → JobPermitted nfkc s client job
  unfolding upload_local_file_background authorize_disk_path
  upload_local_file_background-JobPermitted now job_id file_path destination_path overwrite none job
        h =
      absurd cc
  upload_local_file_background-JobPermitted now job_id file_path destination_path overwrite
        (some store) job h =
      elim (Bool-cases
        (not s.can_write || (no_roots s.upload_allowed_dirs || not s.has_signed_client))) [
          | inl off ↦ absurd (let e = rw off at h in cc)
          | inr on ↦ elim (Result-cases (authorize_disk_path nfkc s destination_path)) [
            | inr (x, e) ↦ absurd (let f = rw (on, e) at h in cc)
            | inl (q, e) ↦
                let inside = (validate_path-Within nfkc destination_path s.allowed_roots e).1 in
                elim (Result-cases (
                  policies.open_allowed_local_file file_path s.upload_allowed_dirs
                    s.max_upload_bytes)) [
                      | inr (x, e') ↦ absurd (let f = rw (on, e, e') at h in cc)
                      | inl (opened, e') ↦
                          submit-JobPermitted now job_id opened q overwrite _
                            (ground (arith, on), inside, ground (arith, on), ground (arith, on)) job
                            (rw (on, e, e') at h)
                    ]
          ]
        ]
