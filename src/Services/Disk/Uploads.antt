-- ===== src/Services/Disk/Uploads.antt =====
-- services/disk.py: uploads of local files and from a URL, the public resource, and the upload jobs.
use yandex_workspace_mcp.Prelude.{
  ℕ, Bool, not, ◌||◌, Text, List, ◌∷◌, Option, none, some, if◌then◌else◌,
}
use yandex_workspace_mcp.Errors.{Result, ok, err, permission_denied}
use yandex_workspace_mcp.Policies.Paths.{normalize_path}
use yandex_workspace_mcp.Jobs.Models.{UploadJob, OpenedFile, UploadJobStatus}
use yandex_workspace_mcp.Jobs.Uploads.{UploadJobStore, submit, get}
use yandex_workspace_mcp.Jobs.Uploads.Listing.{JobCursors, list}
use yandex_workspace_mcp.Models.Disk.{DiskResource, DiskOperationResponse}
use yandex_workspace_mcp.Services.Calls.{Call, of_result, ask, guard, ◌>>=◌, ◌>>◌}
use yandex_workspace_mcp.Services.Disk.{
  Request, DiskClient, DiskService, no_roots, authorize_disk_path, client_upload_local_file,
  client_upload_from_url, client_get_public_resource, close_local_file,
}

-- The policies for local files (policies/local_files.py) and for URLs (policies/urls.py).
pub record AccessPolicies : Type 0 where
  pub open_allowed_local_file :
      (file_path : Text) (allowed_dirs : List Text) (max_bytes : ℕ) → Result OpenedFile
  pub validate_remote_upload_url : (url : Text) (allowed_hosts : List Text) → Result Text
  pub authorize_public_locator :
      (public_key public_url : Option Text) (allowed_values : List Text)
      → Result (Option Text × Option Text)

-- `try: ... finally: opened.close()`
unfoldable pub finally_close : {A : Type 0} → ℕ → Call Request A → Call Request A
finally_close descriptor m sent = ((m sent).0, close_local_file descriptor ∷ (m sent).1)

-- `normalize_path(path) if path is not None else None`
unfoldable pub normalize_optional : (Text → Text) → Option Text → Result (Option Text)
normalize_optional nfkc none = ok none
normalize_optional nfkc (some path) = elim (normalize_path nfkc path) [
  | ok q ↦ ok (some q)
  | err e ↦ err e
]

module _ (nfkc : Text → Text) (client : DiskClient) (policies : AccessPolicies)
    (s : DiskService) where
  unfoldable pub upload_local_file : Text → Text → Bool → Call Request DiskOperationResponse
  upload_local_file file_path destination_path overwrite = do
    guard (not s.can_write || (no_roots s.upload_allowed_dirs || not s.has_signed_client))
        permission_denied
    destination ← of_result (authorize_disk_path nfkc s destination_path)
    opened ←
        of_result
          (policies.open_allowed_local_file file_path s.upload_allowed_dirs s.max_upload_bytes)
    finally_close opened.descriptor (
        ask client.answer_operation
          (client_upload_local_file destination opened.descriptor overwrite))

  unfoldable pub upload_from_url : Text → Text → Bool → Call Request DiskOperationResponse
  upload_from_url url destination_path overwrite = do
    guard (not s.can_write || no_roots s.upload_url_allowed_hosts) permission_denied
    destination ← of_result (authorize_disk_path nfkc s destination_path)
    validated_url ← of_result (policies.validate_remote_upload_url url s.upload_url_allowed_hosts)
    ask client.answer_operation (client_upload_from_url validated_url destination overwrite)

  unfoldable pub get_public_resource :
      Option Text → Option Text → Option Text → ℕ → ℕ → Call Request DiskResource
  get_public_resource public_key public_url path limit offset = do
    guard (not s.can_read) permission_denied
    allowed ←
        of_result (policies.authorize_public_locator public_key public_url s.allowed_public_keys)
    nested_path ← of_result (normalize_optional nfkc path)
    ask client.answer_resource
        (client_get_public_resource allowed.0 allowed.1 nested_path limit offset)

  -- The file is opened, and then the store gets it; `upload_job_store` is none where there is no store.
  unfoldable pub upload_local_file_background :
      (now job_id : ℕ)
      → Text
      → Text
      → Bool
      → Option UploadJobStore
      → Result UploadJob × Option UploadJobStore
  upload_local_file_background now job_id file_path destination_path overwrite none =
      (err permission_denied, none)
  upload_local_file_background now job_id file_path destination_path overwrite (some store) =
      if not s.can_write || (no_roots s.upload_allowed_dirs || not s.has_signed_client)
      then (err permission_denied, some store)
      else (elim (authorize_disk_path nfkc s destination_path) [
        | err e ↦ (err e, some store)
        | ok destination ↦
            elim (policies.open_allowed_local_file file_path s.upload_allowed_dirs
              s.max_upload_bytes) [
                | err e ↦ (err e, some store)
                | ok opened ↦
                    let run =
                      submit now job_id opened destination overwrite
                        (record store { open_files = opened.descriptor ∷ store.open_files }) in
                    (run.0, some run.1)
              ]
      ])

-- The `runner` of a job: `_run` calls it with what the job holds.
unfoldable pub background_runner : DiskClient → UploadJob → Call Request DiskOperationResponse
background_runner client job =
    ask client.answer_operation
      (client_upload_local_file job.destination_path job.opened job.overwrite)

unfoldable pub get_upload_status :
    (now job_id : ℕ) → Option UploadJobStore → Result UploadJob × Option UploadJobStore
get_upload_status now job_id none = (err permission_denied, none)
get_upload_status now job_id (some store) =
    ((get now job_id store).0, some (get now job_id store).1)

unfoldable pub list_upload_jobs :
    JobCursors
    → (now limit : ℕ) (cursor : Option Text) (status : Option UploadJobStatus) (principal : Text)
    → Option UploadJobStore
    → Result (List UploadJob × Option Text) × Option UploadJobStore
list_upload_jobs codec now limit cursor status principal none = (err permission_denied, none)
list_upload_jobs codec now limit cursor status principal (some store) =
    let run = list codec now limit cursor status (some principal) store in (run.0, some run.1)
