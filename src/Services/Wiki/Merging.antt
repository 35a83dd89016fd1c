-- ===== src/Services/Wiki/Merging.antt =====
-- services/wiki.py: how the results of the searches of the roots are merged.
pub mod Reference
pub mod Shown
use yandex_workspace_mcp.Prelude.{
  ℕ, Bool, true, false, not, ◌&&◌, Text, text, List, [], ◌∷◌, ◌++◌, reverse, Option, none, some,
  length, leb, ltb, any, text_eq, if◌then◌else◌,
}
use yandex_workspace_mcp.Prelude.Int.{ℤ, int_eq}
use yandex_workspace_mcp.Errors.{ok, err}
use yandex_workspace_mcp.Policies.Paths.{validate_path}
use yandex_workspace_mcp.Python.Posixpath.{strip_slashes}
use yandex_workspace_mcp.Models.Wiki.Pages.{
  ItemType, page_item, file_item, WikiSearchItem, full_text, WikiSearchResponse,
}
use yandex_workspace_mcp.Services.Wiki.{WikiService}

-- The identity of a search item: its type, its number or else its slug, and its URL.
abbrev pub type_eq : ItemType → ItemType → Bool
type_eq page_item page_item = true
type_eq file_item file_item = true
type_eq _ _ = false

abbrev pub name_eq : Option ℤ → Text → Option ℤ → Text → Bool
name_eq (some i) slug (some j) slug' = int_eq i j
name_eq none slug none slug' = text_eq slug slug'
name_eq _ slug _ slug' = false

-- `item.url or ""` and the slug of an item that has one.
abbrev pub or_empty : Option Text → Text
or_empty none = []
or_empty (some t) = t

unfoldable pub same_item : WikiSearchItem → WikiSearchItem → Bool
unfolding int_eq text_eq
same_item a b =
    type_eq a.type b.type
    && (name_eq a.id (or_empty a.slug) b.id (or_empty b.slug)
        && text_eq (or_empty a.url) (or_empty b.url))

-- slug.strip("/")
unfoldable pub strip : Text → Text
unfolding strip_slashes
strip slug = reverse (strip_slashes (reverse (strip_slashes slug)))

unfoldable pub all_results : List WikiSearchResponse → List WikiSearchItem
all_results [] = []
all_results (response ∷ responses) = response.results ++ all_results responses

module _ (nfkc : Text → Text) (s : WikiService) where
  -- `validate_path("/" + slug.strip("/"), allowed_roots)` raises no InvalidPath.
  unfoldable pub is_authorized_slug : Text → Bool
  unfolding strip
  is_authorized_slug slug = elim (validate_path nfkc (text "/" ++ strip slug) s.allowed_roots) [
    | ok q ↦ true
    | err e ↦ false
  ]

  -- An item with a slug within the roots.
  abbrev pub is_mergeable : Option Text → Bool
  is_mergeable none = false
  is_mergeable (some slug) = not (text_eq slug []) && is_authorized_slug slug

  -- _merge_authorized_results: `seen` holds the identities of what is merged.
  unfoldable pub merge_items : ℕ → List WikiSearchItem → List WikiSearchItem → List WikiSearchItem
  unfolding is_authorized_slug same_item
  merge_items limit [] merged = merged
  merge_items limit (item ∷ items) merged =
      let skipped = merge_items limit items merged in
      let longer = merged ++ item ∷ [] in
      let rest = merge_items limit items longer in
      let added = if leb limit (length longer) then longer else rest in
      if is_mergeable item.slug && not (any (same_item item) merged) then added else skipped

  unfoldable pub merged_response : ℕ → Bool → List WikiSearchResponse → WikiSearchResponse
  unfolding merge_items all_results
  merged_response limit globally_filtered responses =
      let merged = merge_items limit (all_results responses) [] in
      record {
        results = merged;
        next_cursor = none;
        prev_cursor = none;
        pagination_exhausted = any (λ response. response.pagination_exhausted) responses;
        truncated_by_upstream =
            globally_filtered
            && (ltb (length merged) limit && leb limit (length (all_results responses)));
        degraded = false;
        search_mode = full_text;
      }
