-- ===== src/Services/Workspace/Tests.antt =====
-- Runs of the search of the workspace.
use yandex_workspace_mcp.Prelude.{
  ℕ, ◌≡◌, ◌≤◌, refl, false, Text, text, List, [], ◌∷◌, none, some, arith, length, map, text_eq,
  mem_text,
}
use yandex_workspace_mcp.Errors.{ok, err, upstream_timeout, upstream_unavailable}
use yandex_workspace_mcp.Models.Disk.{plain, file, DiskSearchResponse}
use yandex_workspace_mcp.Services.Disk.Search.Matches.{NoRepeats}
use yandex_workspace_mcp.Models.Wiki.Pages.{WikiSearchResponse, page_item, full_text}
use yandex_workspace_mcp.Services.Workspace.{
  wiki, disk, ResourceRef, SearchResult, WorkspaceCursors, wiki_ref, wiki_refs, disk_ref, disk_refs,
  interleave, ref_hash, merge, workspace_start, statuses, finish, search,
}
use yandex_workspace_mcp.Services.Workspace.Merged.{search_lem}

abbrev cursors : WorkspaceCursors
cursors = record {
  item_hash = λ source id. id;
  decode_workspace = λ token query principal. ok (some 2, text "wiki:page:old" ∷ []);
  encode_workspace = λ query principal offset seen. ok (text "next");
  decode_disk = λ token query principal. ok 1;
}

abbrev one_page : WikiSearchResponse
one_page = record {
  results =
      record {
        id = none;
        slug = some (text "a");
        title = none;
        content_excerpt = none;
        type = page_item;
        url = none;
        modified_at = none;
      }
      ∷ [];
  next_cursor = none;
  prev_cursor = none;
  pagination_exhausted = false;
  truncated_by_upstream = false;
  degraded = false;
  search_mode = full_text;
}

abbrev one_file : DiskSearchResponse
one_file = record {
  items =
      plain (record {
        path = some (text "/b");
        name = text "b";
        type = file;
        size = none;
        mime_type = none;
        md5 = none;
        created_at = none;
        modified_at = none;
        public_url = none;
      })
      ∷ [];
  query = text "q";
  next_cursor = some (text "more");
  truncated_by_upstream = false;
}

abbrev page_ref : ResourceRef
page_ref = record {
  id = text "wiki:page:a";
  source = wiki;
  title = text "a";
  url = none;
  type = text "page";
  modified_at = none;
  locator = text "a";
}

abbrev file_ref : ResourceRef
file_ref = record {
  id = text "disk:path:/b";
  source = disk;
  title = text "b";
  url = none;
  type = text "file";
  modified_at = none;
  locator = text "/b";
}

unfoldable runs : Unit {0}
unfolding text_eq mem_text wiki_ref wiki_refs disk_ref disk_refs interleave merge finish search
runs = tt

abbrev both_found : SearchResult
both_found = record {
  results = page_ref ∷ file_ref ∷ [];
  next_cursor = some (text "next");
  partial_failures = [];
  sources = statuses cursors (some (ok one_page)) (some (ok one_file));
}

both :
    search cursors (text "q") 5 none (text "p") (some (ok one_page)) (some (λ offset. ok one_file))
    ≡ ok both_found
unfolding runs
both = refl

both_fail :
    search cursors
      (text "q")
      5
      none
      (text "p")
      (some (err upstream_timeout))
      (some (λ offset. err upstream_timeout))
    ≡ err upstream_unavailable
unfolding runs
both_fail = refl

search_lem_example :
    (start : ℕ × List Text) × (workspace_start cursors (text "q") (text "p") none ≡ ok start)
    × (length both_found.results ≤ 5)
    × NoRepeats start.1 (map (ref_hash cursors) both_found.results)
search_lem_example =
    search_lem cursors (text "q") 5 none (text "p") (some (ok one_page))
      (some (λ offset. ok one_file)) (omega arith) both

-- Where one result fits, the page is it, and the cursor continues the Disk where its search ended.
abbrev page_alone : SearchResult
page_alone = record {
  results = page_ref ∷ [];
  next_cursor = some (text "next");
  partial_failures = [];
  sources = statuses cursors (some (ok one_page)) (some (ok one_file));
}

file_passed_over :
    search cursors (text "q") 1 none (text "p") (some (ok one_page)) (some (λ offset. ok one_file))
    ≡ ok page_alone
unfolding runs
file_passed_over = refl
