-- ===== src/Services/Wiki/Fallback.antt =====
-- services/wiki.py: the search by the descendants of the roots, where the API has no search.
pub mod Found
use yandex_workspace_mcp.Prelude.{
  ℕ, zero, suc, Bool, true, false, not, ◌&&◌, ◌||◌, Text, text, List, [], ◌∷◌, ◌++◌, Option, none,
  some, length, take, leb, any, text_eq, mem_text, is_part, remove_prefix, if◌then◌else◌,
}
use yandex_workspace_mcp.Errors.{Result, ok, err, goes_on}
use yandex_workspace_mcp.Prelude.Int.{int_eq}
use yandex_workspace_mcp.Models.Wiki.Inputs.{DescendantsInput}
use yandex_workspace_mcp.Models.Wiki.Inputs.Checks.{validated, is_descendants_input}
use yandex_workspace_mcp.Models.Wiki.Pages.{
  page_item, WikiSearchItem, descendants, WikiSearchResponse, DescendantItem,
}
use yandex_workspace_mcp.Services.Calls.{Call, returned, of_result, ask, ◌>>=◌}
use yandex_workspace_mcp.Services.Wiki.{
  Request, client_get_descendants, WikiClient, WikiService, slug_locator,
}
use yandex_workspace_mcp.Services.Wiki.Merging.{is_authorized_slug}

-- root.removeprefix("/") or "/"
unfoldable pub root_slug : Text → Text
unfolding text_eq remove_prefix
root_slug root =
    let slug = remove_prefix (text "/") root in if text_eq slug [] then text "/" else slug

-- What the fallback has found, and the items that it has met.
pub record Fallback : Type 0 where
  pub results : List WikiSearchItem
  pub seen_ids : List DescendantItem

abbrev pub slug_eq : Option Text → Option Text → Bool
slug_eq none none = true
slug_eq (some a) (some b) = text_eq a b
slug_eq _ _ = false

unfoldable pub same_descendant : DescendantItem → DescendantItem → Bool
unfolding int_eq text_eq
same_descendant a b = int_eq a.id b.id && slug_eq a.slug b.slug

-- A result of the fallback.
abbrev pub descendant_result : DescendantItem → WikiSearchItem
descendant_result item = record {
  id = some item.id;
  slug = item.slug;
  title = none;
  content_excerpt = none;
  type = page_item;
  url = none;
  modified_at = none;
}

abbrev pub degraded_response : List WikiSearchItem → WikiSearchResponse
degraded_response results = record {
  results = results;
  next_cursor = none;
  prev_cursor = none;
  pagination_exhausted = false;
  truncated_by_upstream = false;
  degraded = true;
  search_mode = descendants;
}

-- `item.slug` is neither None nor empty.
abbrev pub has_slug : Option Text → Bool
has_slug none = false
has_slug (some slug) = not (text_eq slug [])

module _ (nfkc casefold : Text → Text) (s : WikiService) where
  -- Whether the fallback returns an item: its slug is authorized and holds the query.
  abbrev pub is_wanted : Text → Option Text → Bool
  is_wanted query none = false
  is_wanted query (some slug) = is_authorized_slug nfkc s slug && is_part query (casefold slug)

  -- The loop over a batch, and whether the limit was reached in it.
  unfoldable pub scan_batch : ℕ → Text → List DescendantItem → Fallback → Fallback × Bool
  unfolding is_authorized_slug same_descendant is_part
  scan_batch limit query [] st = (st, false)
  scan_batch limit query (item ∷ items) st =
      let skipped = scan_batch limit query items st in
      let met = record st { seen_ids = item ∷ st.seen_ids } in
      let passed = scan_batch limit query items met in
      let found = record met { results = st.results ++ descendant_result item ∷ [] } in
      let rest = scan_batch limit query items found in
      let taken = if leb limit (length found.results) then (found, true) else rest in
      let fresh = if is_wanted query item.slug then taken else passed in
      if any (same_descendant item) st.seen_ids || not (has_slug item.slug) then skipped else fresh

-- DescendantsInput(locator=PageLocator(slug=...), page_size=100, cursor=cursor)
unfoldable pub fallback_input : Text → Option Text → Result DescendantsInput
fallback_input root cursor =
    goes_on
      (λ locator.
        validated is_descendants_input
          (record { locator = locator; include_self = false; page_size = 100; cursor = cursor }))
      (slug_locator (root_slug root))

-- The cursor of the next page: none where there is none, or where it was met before.
unfoldable pub next_page : Option Text → List Text → Option Text
unfolding mem_text
next_page none seen_cursors = none
next_page (some next) seen_cursors =
    if text_eq next [] || mem_text next seen_cursors then none else some next

-- After a batch: the loop over the pages ends where the limit is reached or no page follows.
unfoldable pub go_on :
    Fallback × Bool
    → (Text → Call Request (Fallback × Bool))
    → Option Text
    → Call Request (Fallback × Bool)
go_on (st, true) rest next = returned (st, true)
go_on (st, false) rest none = returned (st, false)
go_on (st, false) rest (some next) = rest next

-- After a root: the search ends where the limit is reached.
unfoldable pub next_root :
    Fallback × Bool → (Fallback → Call Request WikiSearchResponse) → Call Request WikiSearchResponse
next_root (st, true) rest = returned (degraded_response st.results)
next_root (st, false) rest = rest st

module _ (nfkc casefold : Text → Text) (client : WikiClient) (s : WikiService) where
  -- The pages of a root, at most as many as there are rounds.
  unfoldable pub fallback_pages :
      (rounds : ℕ)
      → ℕ
      → Text
      → Text
      → Option Text
      → List Text
      → Fallback
      → Call Request (Fallback × Bool)
  unfolding scan_batch fallback_input next_page go_on
  fallback_pages zero limit query root cursor seen_cursors st = returned (st, false)
  fallback_pages (suc rounds) limit query root cursor seen_cursors st = do
    page_input ← of_result (fallback_input root cursor)
    batch ← ask client.answer_descendants (client_get_descendants page_input)
    let scanned = scan_batch nfkc casefold s limit query batch.results st
    go_on scanned
        (λ next. fallback_pages rounds limit query root (some next) (next ∷ seen_cursors) scanned.0)
        (next_page batch.next_cursor seen_cursors)

  unfoldable pub fallback_roots : ℕ → Text → List Text → Fallback → Call Request WikiSearchResponse
  unfolding fallback_pages next_root
  fallback_roots limit query [] st = returned (degraded_response st.results)
  fallback_roots limit query (root ∷ roots) st = do
    searched ← fallback_pages 20 limit query root none [] st
    next_root searched (fallback_roots limit query roots)

  -- _descendants_fallback
  unfoldable pub descendants_fallback : Text → ℕ → Call Request WikiSearchResponse
  unfolding fallback_roots
  descendants_fallback query limit =
      fallback_roots limit (casefold query) (take 20 s.allowed_roots)
        (record { results = []; seen_ids = [] })
