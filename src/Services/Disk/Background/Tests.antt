-- ===== src/Services/Disk/Background/Tests.antt =====
-- An upload in the background.
use yandex_workspace_mcp.Prelude.{◌≡◌, refl, inl, none, true, false, Text, text, [], ◌∷◌, some}
use yandex_workspace_mcp.Errors.{ok, err, resource_not_found}
use yandex_workspace_mcp.Policies.Paths.{runs as path_runs}
use yandex_workspace_mcp.Jobs.Models.{UploadJob, queued}
use yandex_workspace_mcp.Jobs.Uploads.{
  UploadJobStore, submit, new_job, prune, evict_terminal, evict_rounds,
}
use yandex_workspace_mcp.Services.Disk.{
  DiskService, DiskClient, client_upload_local_file, authorize_disk_path,
}
use yandex_workspace_mcp.Services.Disk.Offered.{Run, no_calls, accepts, uploads}
use yandex_workspace_mcp.Services.Disk.Uploads.{
  AccessPolicies, upload_local_file_background, background_runner,
}
use yandex_workspace_mcp.Services.Disk.Background.{
  AllInside, upload_local_file_background-AllInside,
}

abbrev unchanged : Text → Text
unchanged t = t

abbrev uploader : DiskService
uploader = record {
  allowed_roots = text "/Work" ∷ [];
  can_read = true;
  can_write = true;
  can_delete = false;
  max_upload_bytes = 10;
  has_signed_client = true;
  allow_global_destructive = false;
  max_inline_text_bytes = 10;
  upload_allowed_dirs = text "/home" ∷ [];
  upload_url_allowed_hosts = [];
  allowed_public_keys = [];
}

abbrev silent : DiskClient
silent = record {
  answer_info = λ sent request. err resource_not_found;
  answer_resource = λ sent request. err resource_not_found;
  answer_page = λ sent request. err resource_not_found;
  answer_link = λ sent request. err resource_not_found;
  answer_operation = λ sent request. err resource_not_found;
  answer_trash_page = λ sent request. err resource_not_found;
  answer_trash_entry = λ sent request. err resource_not_found;
  answer_bytes = λ sent request. ok [];
  answer_nothing = λ sent request. ok tt;
}

abbrev open_all : AccessPolicies
open_all = record {
  open_allowed_local_file = λ path dirs max_bytes. ok (record { descriptor = 3; size = 5 });
  validate_remote_upload_url = λ url hosts. ok url;
  authorize_public_locator = λ key url allowed. ok (key, url);
}

abbrev no_jobs : UploadJobStore
no_jobs = record {
  capacity = 2;
  ttl = 60;
  owner = text "owner";
  jobs = [];
  closed = false;
  open_files = [];
}

upload_local_file_background-AllInside_example :
    AllInside unchanged uploader
      (upload_local_file_background unchanged silent open_all uploader 5 7
        (text "/home/a")
        (text "/Work/a")
        false
        (some no_jobs)).1
upload_local_file_background-AllInside_example =
    upload_local_file_background-AllInside unchanged uploader silent open_all 5 7 (text "/home/a")
      (text "/Work/a") false (some no_jobs) tt

-- The upload is accepted, and its runner sends the file.
abbrev accepted_job : UploadJob
accepted_job = record {
  job_id = 7;
  status = queued;
  created_at = 5;
  updated_at = 5;
  expires_at = 65;
  bytes_total = 5;
  bytes_sent = 0;
  destination_path = text "/Work/a";
  overwrite = false;
  opened = 3;
  error_category = none;
}

-- Its line lists what the submission computes with.
unfoldable runs : Unit {0}
unfolding path_runs authorize_disk_path upload_local_file_background background_runner submit
    new_job prune evict_terminal evict_rounds
runs = tt

accepted :
    (upload_local_file_background unchanged silent open_all uploader 5 7
      (text "/home/a")
      (text "/Work/a")
      false
      (some no_jobs)).0
    ≡ ok accepted_job
unfolding runs
accepted = refl

one_upload :
    Run unchanged silent uploader
      (client_upload_local_file (text "/Work/a") 3 false ∷ [])
      (accepted_job ∷ [])
unfolding runs
one_upload =
    uploads accepted_job
      (accepts open_all 5 7 (text "/home/a") (text "/Work/a") false (some no_jobs) accepted_job
        no_calls accepted)
      (inl refl)
