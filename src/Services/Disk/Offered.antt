-- ===== src/Services/Disk/Offered.antt =====
-- The methods that `DiskService` offers, and runs of them one after another, with the runners of the
-- uploads in the background. `get_upload_status` and `list_upload_jobs` send nothing.
use yandex_workspace_mcp.Prelude.{
  ℕ, ◌≡◌, sym, subst, inl, inr, Bool, Text, List, [], ◌∷◌, Option, All, Some,
}
use yandex_workspace_mcp.Errors.{ok}
use yandex_workspace_mcp.Jobs.Models.{UploadJob}
use yandex_workspace_mcp.Jobs.Uploads.{UploadJobStore}
use yandex_workspace_mcp.Models.Disk.{DiskSort, TrashSort, DiskResource}
use yandex_workspace_mcp.Services.Calls.{Call}
use yandex_workspace_mcp.Services.Disk.{Request, DiskClient, DiskService, client_upload_local_file}
use yandex_workspace_mcp.Services.Disk.Permitted.{Permitted, Safe}
use yandex_workspace_mcp.Models.Disk.{
  DiskInfo, DiskLinkResponse, DiskOperationResponse, DiskResourcePage, DiskSearchResponse,
}
use yandex_workspace_mcp.Services.Disk.Reads.{
  info, list_folder, recent, list_page, get_metadata, read_file, get_download_url,
}
use yandex_workspace_mcp.Services.Disk.Writes.{
  create_folder, copy, move, delete, rename, upload, publish, unpublish,
}
use yandex_workspace_mcp.Services.Disk.Trash.{list_trash, restore_from_trash, empty_trash}
use yandex_workspace_mcp.Services.Disk.Search.{DiskCursors, search}
use yandex_workspace_mcp.Services.Disk.Permitted.Reading.{
  info-Safe, list_folder-Safe, recent-Safe, list_page-Safe, get_metadata-Safe, read_file-Safe,
  get_download_url-Safe, list_trash-Safe, restore_from_trash-Safe, empty_trash-Safe,
}
use yandex_workspace_mcp.Services.Disk.Permitted.Writing.{
  create_folder-Safe, copy-Safe, move-Safe, delete-Safe, rename-Safe, upload-Safe, publish-Safe,
  unpublish-Safe,
}
use yandex_workspace_mcp.Services.Disk.Uploads.{
  AccessPolicies, upload_local_file, upload_from_url, get_public_resource,
  upload_local_file_background, background_runner,
}
use yandex_workspace_mcp.Services.Disk.Permitted.Uploading.{
  upload_local_file-Safe, upload_from_url-Safe, get_public_resource-Safe,
  upload_local_file_background-JobPermitted, background_runner-Safe,
}
use yandex_workspace_mcp.Services.Disk.Permitted.Searching.{search-Safe}

module _ (nfkc : Text → Text) (client : DiskClient) (s : DiskService) where
  -- A call of a method, with any arguments.
  pub data Offered : (A : Type 0) → Call Request A → Type 1 where
    calls_info : Offered DiskInfo (info nfkc client s)
    calls_list_folder :
        (path : Text) (limit offset : ℕ) (sort : DiskSort)
        → Offered DiskResource (list_folder nfkc client s path limit offset sort)
    calls_recent :
        (limit : ℕ) (media_type : Option Text)
        → Offered DiskResourcePage (recent nfkc client s limit media_type)
    calls_list_page :
        (path : Text) (limit offset : ℕ) (sort : DiskSort)
        → Offered DiskResourcePage (list_page nfkc client s path limit offset sort)
    calls_get_metadata : (path : Text) → Offered DiskResource (get_metadata nfkc client s path)
    calls_read_file :
        (decode : List ℕ → Text) (path : Text) → Offered Text (read_file nfkc client s decode path)
    calls_get_download_url :
        (path : Text) → Offered DiskLinkResponse (get_download_url nfkc client s path)
    calls_list_trash :
        (limit offset : ℕ) (sort : TrashSort)
        → Offered DiskResourcePage (list_trash nfkc client s limit offset sort)
    calls_restore_from_trash :
        (trash_path : Text) (destination_path : Option Text) (overwrite : Bool)
        → Offered DiskOperationResponse
            (restore_from_trash nfkc client s trash_path destination_path overwrite)
    calls_empty_trash :
        (confirm : Bool) → Offered DiskOperationResponse (empty_trash nfkc client s confirm)
    calls_create_folder :
        (path : Text) → Offered DiskOperationResponse (create_folder nfkc client s path)
    calls_copy :
        (from_path to_path : Text) (overwrite : Bool)
        → Offered DiskOperationResponse (copy nfkc client s from_path to_path overwrite)
    calls_move :
        (from_path to_path : Text) (overwrite : Bool)
        → Offered DiskOperationResponse (move nfkc client s from_path to_path overwrite)
    calls_delete :
        (path : Text) (permanently : Bool)
        → Offered DiskOperationResponse (delete nfkc client s path permanently)
    calls_rename :
        (path new_name : Text) (overwrite : Bool)
        → Offered DiskOperationResponse (rename nfkc client s path new_name overwrite)
    calls_upload :
        (path content : Text) (overwrite : Bool)
        → Offered DiskOperationResponse (upload nfkc client s path content overwrite)
    calls_publish : (path : Text) → Offered DiskResource (publish nfkc client s path)
    calls_unpublish : (path : Text) → Offered DiskOperationResponse (unpublish nfkc client s path)
    calls_upload_local_file :
        (policies : AccessPolicies) (file_path destination_path : Text) (overwrite : Bool)
        → Offered DiskOperationResponse
            (upload_local_file nfkc client policies s file_path destination_path overwrite)
    calls_upload_from_url :
        (policies : AccessPolicies) (url destination_path : Text) (overwrite : Bool)
        → Offered DiskOperationResponse
            (upload_from_url nfkc client policies s url destination_path overwrite)
    calls_get_public_resource :
        (policies : AccessPolicies) (public_key public_url path : Option Text) (limit offset : ℕ)
        → Offered DiskResource
            (get_public_resource nfkc client policies s public_key public_url path limit offset)
    calls_search :
        (codec : DiskCursors) (query : Text) (limit offset : ℕ) (cursor : Option Text)
        (principal : Text) (media_type : Option Text)
        → Offered DiskSearchResponse
            (search nfkc client s codec query limit offset cursor principal media_type)

  -- What has been sent after some calls, and the jobs of the uploads in the background that were
  -- accepted. The job store may have done anything in between, and the runner of an accepted job runs
  -- at any time after.
  pub data Run : List Request → List UploadJob → Type 1 where
    no_calls : Run [] []
    call_of :
        {A : Type 0} {sent : List Request} {jobs : List UploadJob} {method : Call Request A}
        → Run sent jobs
        → Offered A method
        → Run (method sent).1 jobs
    accepts :
        {sent : List Request} {jobs : List UploadJob} (policies : AccessPolicies) (now job_id : ℕ)
        (file_path destination_path : Text) (overwrite : Bool) (store : Option UploadJobStore)
        (job : UploadJob)
        → Run sent jobs
        → (upload_local_file_background nfkc client policies s now job_id file_path destination_path
            overwrite store).0
          ≡ ok job
        → Run sent (job ∷ jobs)
    uploads :
        {sent : List Request} {jobs : List UploadJob} (job : UploadJob)
        → Run sent jobs
        → Some (λ accepted. job ≡ accepted) jobs
        → Run (background_runner client job sent).1 jobs

  Offered-Safe : {A : Type 0} {method : Call Request A} → Offered A method → Safe nfkc s method
  Offered-Safe calls_info = info-Safe nfkc client s
  Offered-Safe (calls_list_folder path limit offset sort) =
      list_folder-Safe nfkc client s path limit offset sort
  Offered-Safe (calls_recent limit media_type) = recent-Safe nfkc client s limit media_type
  Offered-Safe (calls_list_page path limit offset sort) =
      list_page-Safe nfkc client s path limit offset sort
  Offered-Safe (calls_get_metadata path) = get_metadata-Safe nfkc client s path
  Offered-Safe (calls_read_file decode path) = read_file-Safe nfkc client s decode path
  Offered-Safe (calls_get_download_url path) = get_download_url-Safe nfkc client s path
  Offered-Safe (calls_list_trash limit offset sort) =
      list_trash-Safe nfkc client s limit offset sort
  Offered-Safe (calls_restore_from_trash trash_path destination_path overwrite) =
      restore_from_trash-Safe nfkc client s trash_path destination_path overwrite
  Offered-Safe (calls_empty_trash confirm) = empty_trash-Safe nfkc client s confirm
  Offered-Safe (calls_create_folder path) = create_folder-Safe nfkc client s path
  Offered-Safe (calls_copy from_path to_path overwrite) =
      copy-Safe nfkc client s from_path to_path overwrite
  Offered-Safe (calls_move from_path to_path overwrite) =
      move-Safe nfkc client s from_path to_path overwrite
  Offered-Safe (calls_delete path permanently) = delete-Safe nfkc client s path permanently
  Offered-Safe (calls_rename path new_name overwrite) =
      rename-Safe nfkc client s path new_name overwrite
  Offered-Safe (calls_upload path content overwrite) =
      upload-Safe nfkc client s path content overwrite
  Offered-Safe (calls_publish path) = publish-Safe nfkc client s path
  Offered-Safe (calls_unpublish path) = unpublish-Safe nfkc client s path
  Offered-Safe (calls_upload_local_file policies file_path destination_path overwrite) =
      upload_local_file-Safe nfkc client policies s file_path destination_path overwrite
  Offered-Safe (calls_upload_from_url policies url destination_path overwrite) =
      upload_from_url-Safe nfkc client policies s url destination_path overwrite
  Offered-Safe (calls_get_public_resource policies public_key public_url path limit offset) =
      get_public_resource-Safe nfkc client policies s public_key public_url path limit offset
  Offered-Safe (calls_search codec query limit offset cursor principal media_type) =
      search-Safe nfkc client s codec query limit offset cursor principal media_type

  Some-All :
      (P : UploadJob → Type 0) (jobs : List UploadJob) (job : UploadJob)
      → Some (λ accepted. job ≡ accepted) jobs
      → All P jobs
      → P job
  Some-All P [] job here h = absurd here
  Some-All P (j ∷ jobs) job (inl same) h = subst P (sym same) h.0
  Some-All P (j ∷ jobs) job (inr later) h = Some-All P jobs job later h.1

  Run-sound :
      {sent : List Request} {jobs : List UploadJob}
      → Run sent jobs
      → All (Permitted nfkc s) sent
        × All
            (λ job.
              Permitted nfkc s
                (client_upload_local_file job.destination_path job.opened job.overwrite))
            jobs
  Run-sound no_calls = (tt, tt)
  Run-sound (call_of {sent = sent} run offered) =
      let (permitted, accepted) = Run-sound run in (Offered-Safe offered sent permitted, accepted)
  Run-sound (accepts policies now job_id file_path destination_path overwrite store job run h) =
      let (permitted, accepted) = Run-sound run in
      (
        permitted,
        (
          upload_local_file_background-JobPermitted nfkc client policies s now job_id file_path
              destination_path overwrite store job h,
          accepted,
        ),
      )
  Run-sound (uploads {sent = sent} {jobs = jobs} job run known) =
      let (permitted, accepted) = Run-sound run in
      (
        background_runner-Safe nfkc s client job (Some-All _ jobs job known accepted) sent
            permitted,
        accepted,
      )

  -- However the methods of a service are called one after another, whatever the API answers, and
  -- whenever the runners of accepted uploads in the background run, every request to the API that was
  -- sent is permitted: a switch for it is on, each path on the Disk that it names (not one in the
  -- trash or within a public resource), in its normal form, lies within the allowed roots, the path of
  -- a delete for good is not a text in the list of roots, a text that is uploaded is no larger than
  -- the bound, a page of files asks for 1 to 100, and the trash is emptied only where the root `/` is
  -- allowed and so is destruction.
  pub Run-Permitted :
      {sent : List Request} {jobs : List UploadJob} → Run sent jobs → All (Permitted nfkc s) sent
  Run-Permitted run = (Run-sound run).0
