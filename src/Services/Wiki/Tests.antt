-- ===== src/Services/Wiki/Tests.antt =====
-- Runs of the Wiki service.
use yandex_workspace_mcp.Prelude.{
  ◌≡◌, refl, true, false, Text, text, List, [], ◌∷◌, none, some, arith, take, filter_by,
}
use yandex_workspace_mcp.Prelude.Int.{pos}
use yandex_workspace_mcp.Errors.{ok, err, resource_not_found, search_unavailable, invalid_path}
use yandex_workspace_mcp.Policies.Paths.{runs as path_runs}
use yandex_workspace_mcp.Models.Wiki.Inputs.{PageLocator, GridUpdateInput, GridGetInput}
use yandex_workspace_mcp.Models.Wiki.Pages.{
  PagedResponse, WikiPage, DescendantItem, WikiSearchResponse, page_item, as_int, as_text,
  descendants,
}
use yandex_workspace_mcp.Models.Wiki.Grids.{WikiGrid}
use yandex_workspace_mcp.Prelude.Int.{int_eq, is_positive}
use yandex_workspace_mcp.Prelude.{is_part}
use yandex_workspace_mcp.Python.Posixpath.{strip_slashes}
use yandex_workspace_mcp.Models.Wiki.Inputs.Checks.{
  set_of, duplicates, is_page_locator, is_grid_get_input, is_descendants_input,
}
use yandex_workspace_mcp.Services.Wiki.{
  Request, client_get_page, client_get_grid, client_update_grid, client_delete_page, recovery_put,
  acquire_lock, release_lock, WikiClient, WikiService, id_locator, slug_locator, owner_locator,
  grid_probe, authorized_slug, authorize_destination,
}
use yandex_workspace_mcp.Services.Wiki.Resolve.{with_lock, resolve_page, resolve_grid_owner}
use yandex_workspace_mcp.Services.Wiki.Reads.{get_page}
use yandex_workspace_mcp.Services.Wiki.Pages.{delete_page}
use yandex_workspace_mcp.Services.Wiki.Grids.{locked_change, update_grid}
use yandex_workspace_mcp.Services.Wiki.Search.{
  cluster_of, failures, successes, gathered, searched_roots, search_each, gather_roots,
  after_search, try_search, search,
}
use yandex_workspace_mcp.Services.Wiki.Search.Results.{Authorized, search-Authorized}
use yandex_workspace_mcp.Services.Wiki.Merging.{
  strip, all_results, same_item, is_authorized_slug, merge_items, merged_response,
}
use yandex_workspace_mcp.Services.Wiki.Merging.Reference.{firsts, merges, merge_items_lem}
use yandex_workspace_mcp.Services.Wiki.Fallback.{
  root_slug, same_descendant, scan_batch, fallback_input, next_page, go_on, next_root,
  fallback_pages, fallback_roots, descendants_fallback,
}
use yandex_workspace_mcp.Services.Wiki.Traces.{Trace, holds_lock}
use yandex_workspace_mcp.Services.Wiki.Authority.{Permitted}
use yandex_workspace_mcp.Services.Wiki.Authority.Offered.{
  Run, no_calls, call_of, calls_delete_page, calls_update_grid, Run-Trace, Run-Unlocked,
}

abbrev unchanged : Text → Text
unchanged t = t

abbrev page_seven : WikiPage
page_seven = record {
  id = pos 7;
  slug = some (text "work/a");
  title = none;
  content = none;
  url = none;
  page_type = none;
  created_at = none;
  modified_at = none;
  attributes = [];
}

abbrev grid_of_seven : WikiGrid
grid_of_seven = record {
  id = as_text (text "g");
  title = none;
  page = record { id = some (as_int (pos 7)); slug = none };
  revision = none;
  columns = [];
  rows = [];
  default_sort = [];
  created_at = none;
}

abbrev descendant_page : PagedResponse DescendantItem
descendant_page = record {
  results =
      record { id = pos 7; slug = some (text "work/a") }
      ∷ (record { id = pos 8; slug = some (text "other/a") }
          ∷ (record { id = pos 7; slug = some (text "work/a") } ∷ []));
  next_cursor = none;
  prev_cursor = none;
  truncated = false;
}

-- An API with one page and one grid, and no search.
abbrev small_wiki : WikiClient
small_wiki = record {
  answer_page = λ sent request. ok page_seven;
  answer_comments = λ sent request. err resource_not_found;
  answer_comment = λ sent request. err resource_not_found;
  answer_descendants = λ sent request. ok descendant_page;
  answer_resources = λ sent request. err resource_not_found;
  answer_attachments = λ sent request. err resource_not_found;
  answer_grids = λ sent request. err resource_not_found;
  answer_grid = λ sent request. ok grid_of_seven;
  answer_search = λ sent request. err search_unavailable;
  answer_clone = λ sent request. err resource_not_found;
  answer_token = λ sent request. ok (text "token");
  answer_recovered = λ sent request. err resource_not_found;
  answer_uploaded = λ sent request. err resource_not_found;
  answer_grid_update = λ sent request. ok (record { grid = grid_of_seven; warnings = [] });
  answer_operation = λ sent request. err resource_not_found;
  answer_grid_delete = λ sent request. err resource_not_found;
  answer_mutation = λ sent request. err resource_not_found;
  answer_cells = λ sent request. err resource_not_found;
  answer_record = λ sent request. err resource_not_found;
}

abbrev work_wiki : WikiService
work_wiki = record {
  allowed_roots = text "/work" ∷ [];
  can_read = true;
  can_write = true;
  can_delete = true;
  has_recovery_store = true;
  upload_allowed_dirs = [];
  max_attachment_bytes = 100;
}

abbrev by_id : PageLocator
by_id = record { page_id = some (pos 7); slug = none; url = none }

abbrev by_slug : PageLocator
by_slug = record { page_id = none; slug = some (text "work/a"); url = none }

abbrev new_title : GridUpdateInput
new_title = record {
  grid_id = text "g";
  revision = 1;
  title = some (text "t");
  default_sort = none;
}

abbrev probe : GridGetInput
probe = record { grid_id = text "g"; revision = none; row_ids = none; column_slugs = none }

-- Its line lists what a run of the service computes with.
runs : Unit {0}
unfolding path_runs is_positive is_page_locator is_grid_get_input is_descendants_input set_of
    duplicates id_locator slug_locator owner_locator grid_probe with_lock resolve_page
    resolve_grid_owner authorized_slug authorize_destination get_page delete_page locked_change
    update_grid search cluster_of failures successes gathered searched_roots search_each
    gather_roots after_search try_search strip strip_slashes root_slug same_item same_descendant
    is_authorized_slug merge_items merged_response all_results scan_batch fallback_input next_page
    go_on next_root fallback_pages fallback_roots descendants_fallback int_eq is_part
runs = tt

-- A page is deleted, and then a grid is changed; the last request first.
abbrev two_calls_sent : List Request
two_calls_sent =
    release_lock (text "g")
    ∷ client_update_grid new_title
    ∷ client_get_page by_id
    ∷ client_get_grid probe
    ∷ acquire_lock (text "g")
    ∷ recovery_put (text "token") (text "me") (text "work/a")
    ∷ client_delete_page (pos 7)
    ∷ client_get_page by_slug
    ∷ []

two_calls : Run unchanged unchanged small_wiki work_wiki two_calls_sent
unfolding runs
two_calls =
    call_of (call_of no_calls (calls_delete_page (record { locator = by_slug }) (text "me")))
      (calls_update_grid new_title)

Run-Trace_example : Trace (Permitted unchanged small_wiki work_wiki) two_calls_sent
Run-Trace_example = Run-Trace unchanged unchanged small_wiki work_wiki two_calls

Run-Unlocked_example : holds_lock (text "g") two_calls_sent ≡ false
Run-Unlocked_example = Run-Unlocked unchanged unchanged small_wiki work_wiki two_calls (text "g")

-- A page outside of the roots is not shown.
outside : (get_page unchanged small_wiki work_wiki (text "other/a") []).0 ≡ err invalid_path
unfolding runs
outside = refl

-- The fallback finds the page within the root, once.
abbrev one_found : WikiSearchResponse
one_found = record {
  results =
      record {
        id = some (pos 7);
        slug = some (text "work/a");
        title = none;
        content_excerpt = none;
        type = page_item;
        url = none;
        modified_at = none;
      }
      ∷ [];
  next_cursor = none;
  prev_cursor = none;
  pagination_exhausted = false;
  truncated_by_upstream = false;
  degraded = true;
  search_mode = descendants;
}

found : (search unchanged unchanged small_wiki work_wiki 0 (text "a") 5 1 []).0 ≡ ok one_found
unfolding runs
found = refl

search-Authorized_example : Authorized unchanged unchanged small_wiki work_wiki 5 one_found
search-Authorized_example =
    search-Authorized unchanged unchanged small_wiki work_wiki 0 (text "a") 5 1 [] one_found found

merge_items_lem_example :
    merge_items unchanged work_wiki 2 one_found.results []
    ≡ take 2 (firsts [] (filter_by (merges unchanged work_wiki) one_found.results))
merge_items_lem_example = merge_items_lem unchanged work_wiki 2 one_found.results (omega arith)
