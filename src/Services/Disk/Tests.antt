-- ===== src/Services/Disk/Tests.antt =====
-- Runs of `DiskService` against an API that answers alike every time.
use yandex_workspace_mcp.Prelude.{
  ℕ, ◌≡◌, ◌≤◌, refl, true, false, Text, text, List, [], ◌∷◌, none, some, All, length, map, arith,
  is_part,
}
use yandex_workspace_mcp.Errors.{ok, err, resource_not_found}
use yandex_workspace_mcp.Python.Posixpath.{slash}
use yandex_workspace_mcp.Python.Posixpath.Laws.{rooted}
use yandex_workspace_mcp.Models.Disk.{
  by_name, file, ResourceFields, PageFields, DiskResource, plain, folder, no_items, item,
  DiskResourcePage, DiskSearchResponse, completed, count_items,
}
use yandex_workspace_mcp.Policies.Paths.{runs as path_runs}
use yandex_workspace_mcp.Policies.Paths.Canonical.{SlashBoundary}
use yandex_workspace_mcp.Policies.Paths.Ambiguity.{IsDecoded}
use yandex_workspace_mcp.Policies.Paths.Relative.{climbing}
use yandex_workspace_mcp.Policies.Paths.Decoding.{is_plain}
use yandex_workspace_mcp.Services.Disk.{
  Request, DiskClient, DiskService, client_delete_resource, client_list_resources,
  authorize_disk_path, is_visible, filter_embedded, filter_resource, filter_page,
}
use yandex_workspace_mcp.Services.Disk.Reads.{list_folder}
use yandex_workspace_mcp.Services.Disk.Writes.{delete}
use yandex_workspace_mcp.Services.Disk.Permitted.{Permitted}
use yandex_workspace_mcp.Services.Disk.Offered.{
  Run, no_calls, call_of, calls_list_folder, calls_delete, Run-Permitted,
}
use yandex_workspace_mcp.Services.Disk.Filtered.{
  Visible, AllVisible, filter_page_lem, filter_page_id, list_folder-Visible,
}
use yandex_workspace_mcp.Services.Disk.Roots.{delete_root}
use yandex_workspace_mcp.Services.Disk.Search.{
  DiskCursors, SearchState, search_start, search_rounds, search, batch_size, path_hash,
  identity_hash, scan_items, scan_page, next_cursor,
}
use yandex_workspace_mcp.Services.Disk.Search.Rounds.{search_rounds_enough}
use yandex_workspace_mcp.Services.Disk.Search.Matches.{IsMatch, hash_of, NoRepeats, search-Found}

abbrev unchanged : Text → Text
unchanged t = t

unchanged-SlashBoundary : SlashBoundary unchanged
unchanged-SlashBoundary = record {
  at_nil = refl;
  at_slash = λ s t. ((λ _. (refl, refl)), λ _. refl);
}

abbrev named : Text → Text → ResourceFields
named path name = record {
  path = some path;
  name = name;
  type = file;
  size = some 1;
  mime_type = none;
  md5 = none;
  created_at = none;
  modified_at = none;
  public_url = none;
}

abbrev page_fields : PageFields
page_fields = record { limit = 2; offset = 0; total = none; next_cursor = none }

-- A folder of two files, one of them outside of the root.
abbrev two_files : DiskResourcePage
two_files = record {
  items =
      item (plain (named (text "/Work/a") (text "a")))
        (item (plain (named (text "/b") (text "b"))) no_items);
  fields = page_fields;
}

abbrev work_folder : DiskResource
work_folder = folder (named (text "/Work") (text "Work")) page_fields two_files.items

abbrev shown_folder : DiskResource
shown_folder =
    folder (named (text "/Work") (text "Work")) page_fields
      (item (plain (named (text "/Work/a") (text "a"))) no_items)

abbrev same_client : DiskClient
same_client = record {
  answer_info = λ sent request. err resource_not_found;
  answer_resource = λ sent request. ok work_folder;
  answer_page = λ sent request. ok two_files;
  answer_link = λ sent request. err resource_not_found;
  answer_operation =
      λ sent request. ok (record { status = completed; operation_id = none; path = none });
  answer_trash_page = λ sent request. err resource_not_found;
  answer_trash_entry = λ sent request. err resource_not_found;
  answer_bytes = λ sent request. ok [];
  answer_nothing = λ sent request. ok tt;
}

abbrev work_service : DiskService
work_service = record {
  allowed_roots = rooted (text "Work" ∷ []) ∷ [];
  can_read = true;
  can_write = false;
  can_delete = true;
  max_upload_bytes = 10;
  has_signed_client = false;
  allow_global_destructive = false;
  max_inline_text_bytes = 10;
  upload_allowed_dirs = [];
  upload_url_allowed_hosts = [];
  allowed_public_keys = [];
}

abbrev plain_cursors : DiskCursors
plain_cursors = record {
  casefold = unchanged;
  item_hash = unchanged;
  decode_disk = λ token query principal. ok (3, token ∷ []);
  encode_disk = λ query principal offset seen. ok (text "next");
}

-- Its line lists what a run of the service computes with.
unfoldable runs : Unit {0}
unfolding path_runs list_folder delete authorize_disk_path is_visible filter_embedded
    filter_resource filter_page search batch_size path_hash identity_hash scan_items scan_page
    next_cursor count_items search_rounds
runs = tt

listed :
    (list_folder unchanged same_client work_service (text "/Work") 2 0 by_name []).0
    ≡ ok shown_folder
unfolding runs
listed = refl

list_folder-Visible_example : Visible unchanged work_service shown_folder
list_folder-Visible_example =
    list_folder-Visible unchanged work_service same_client (text "/Work") 2 0 by_name [] listed

filter_page_lem_example :
    AllVisible unchanged work_service (filter_page unchanged work_service two_files).items
    × (filter_page unchanged work_service (filter_page unchanged work_service two_files)
        ≡ filter_page unchanged work_service two_files)
filter_page_lem_example = filter_page_lem unchanged work_service two_files

-- A page of one file, within the root.
abbrev one_file : DiskResourcePage
one_file = record {
  items = item (plain (named (text "/Work/a") (text "a"))) no_items;
  fields = page_fields;
}

filter_page_id_example : filter_page unchanged work_service one_file ≡ one_file
unfolding AllVisible
filter_page_id_example = filter_page_id unchanged work_service one_file (unfold runs in (refl, tt))

abbrev two_requests : List Request
two_requests =
    client_delete_resource (text "/Work/a") false
    ∷ client_list_resources (text "/Work") 2 0 by_name
    ∷ []

two_calls : Run unchanged same_client work_service two_requests []
unfolding runs
two_calls =
    call_of (call_of no_calls (calls_list_folder (text "/Work") 2 0 by_name))
      (calls_delete (text "/Work/x/../a") false)

Run-Permitted_example : All (Permitted unchanged work_service) two_requests
Run-Permitted_example = Run-Permitted unchanged same_client work_service two_calls

abbrev start_state : SearchState
start_state = record {
  matched = [];
  seen = [];
  current_offset = 0;
  scanned = 990;
  exhausted = false;
}

search_rounds_enough_example :
    search_rounds unchanged same_client work_service plain_cursors 10 5
      (text "a")
      none
      start_state
      []
    ≡ search_rounds unchanged same_client work_service plain_cursors 1000 5
        (text "a")
        none
        start_state
        []
search_rounds_enough_example =
    search_rounds_enough unchanged same_client work_service plain_cursors 10 1000 5 (text "a") none
      start_state [] (omega arith) (omega arith)

abbrev one_match : DiskSearchResponse
one_match = record {
  items = plain (named (text "/Work/a") (text "a")) ∷ [];
  query = text "a";
  next_cursor = none;
  truncated_by_upstream = false;
}

searched :
    (search unchanged same_client work_service plain_cursors
      (text "a")
      5
      0
      (some (text "seen"))
      (text "p")
      none
      []).0
    ≡ ok one_match
unfolding runs is_part
searched = refl

search-Found_example :
    (start : ℕ × List Text) × (search_start plain_cursors
        (text "a")
        (text "p")
        (some (text "seen"))
        0
      ≡ ok start)
    × (length one_match.items ≤ 5)
    × All (IsMatch unchanged same_client work_service plain_cursors (text "a")) one_match.items
    × NoRepeats start.1
        (map (hash_of unchanged same_client work_service plain_cursors (text "a")) one_match.items)
search-Found_example =
    search-Found unchanged same_client work_service plain_cursors (text "a") 5 0
      (some (text "seen")) (text "p") none [] searched

work_above-IsDecoded : IsDecoded unchanged (climbing (text "Work" ∷ []))
unfolding path_runs is_plain
work_above-IsDecoded = record { nonempty = λ e. cc; plain = refl; normal = refl }

delete_root_example :
    (delete unchanged same_client work_service (climbing (text "Work" ∷ [])) true []).1
    ≡ client_delete_resource (slash ∷ climbing (text "Work" ∷ [])) true ∷ []
delete_root_example =
    delete_root unchanged unchanged-SlashBoundary same_client work_service (text "Work") []
      (unfold path_runs in (refl, refl, refl)) work_above-IsDecoded refl refl
