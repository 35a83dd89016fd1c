-- ===== src/Jobs/Uploads/Tests.antt =====
-- Two pages of a list of two jobs.
use yandex_workspace_mcp.Prelude.{
  ℕ, ◌+◌, ◌≡◌, refl, sym, ap, false, Text, text, [], ◌∷◌, ◌++◌, none, some, take, drop, filter_by,
}
use yandex_workspace_mcp.Errors.{Result, ok, err, value_error, ok-injective}
use yandex_workspace_mcp.Jobs.Models.{UploadJob, running, is_terminal}
use yandex_workspace_mcp.Jobs.Uploads.{UploadJobStore, prune, is_expired}
use yandex_workspace_mcp.Jobs.Uploads.Listing.{
  JobCursors, Bound, list, page_at, start_of, selected_principal, has_status, list-join,
}

abbrev offset_of : Text → Result ℕ
offset_of [] = err value_error
offset_of (offset ∷ rest) = ok offset

abbrev plain_cursors : JobCursors
plain_cursors = record {
  encode_upload_jobs = λ principal status offset. ok (offset ∷ []);
  decode_upload_jobs = λ token principal status. offset_of token;
}

plain_cursors-Bound : Bound plain_cursors
plain_cursors-Bound = record {
  reads = λ principal status offset token h. sym (ap offset_of (ok-injective h));
}

abbrev job_with : ℕ → UploadJob
job_with id = record {
  job_id = id;
  status = running;
  created_at = 0;
  updated_at = 0;
  expires_at = 9;
  bytes_total = 1;
  bytes_sent = 0;
  destination_path = text "/Work/a";
  overwrite = false;
  opened = id;
  error_category = none;
}

abbrev two_jobs : UploadJobStore
two_jobs = record {
  capacity = 2;
  ttl = 60;
  owner = text "owner";
  jobs = job_with 1 ∷ job_with 2 ∷ [];
  closed = false;
  open_files = [];
}

first_page :
    (list plain_cursors 5 1 none none none two_jobs).0 ≡ ok (job_with 1 ∷ [], some (1 ∷ []))
unfolding list page_at prune is_expired is_terminal
first_page = refl

second_page :
    (list plain_cursors 5 1 (some (1 ∷ [])) none none two_jobs).0 ≡ ok (job_with 2 ∷ [], none)
unfolding list page_at prune is_expired is_terminal
second_page = refl

list-join_example :
    (offset : ℕ) × (start_of plain_cursors none (selected_principal none two_jobs.owner) none
      ≡ ok offset)
    × (((job_with 1 ∷ []) ++ (job_with 2 ∷ []))
        ≡ take (1 + 1) (drop offset (filter_by (has_status none) (prune 5 two_jobs.jobs))))
list-join_example =
    list-join plain_cursors 5 1 none none none two_jobs plain_cursors-Bound first_page second_page
