-- ===== src/Services/Wiki/Reads.antt =====
-- services/wiki.py: the methods that read pages and grids. They resolve the page first, and then ask
-- for it by its identity.
use yandex_workspace_mcp.Prelude.{false, Text, none, not}
use yandex_workspace_mcp.Errors.{permission_denied}
use yandex_workspace_mcp.Policies.Paths.{validate_wiki_slug}
use yandex_workspace_mcp.Models.Wiki.Inputs.{
  DescendantsInput, PageListInput, PageResourceListInput, GridGetInput,
}
use yandex_workspace_mcp.Models.Wiki.Inputs.Checks.{validated, is_descendants_input}
use yandex_workspace_mcp.Models.Wiki.Pages.{
  PagedResponse, WikiPage, DescendantItem, PageComment, WikiAttachment,
}
use yandex_workspace_mcp.Models.Wiki.Grids.{WikiGridSummary, WikiGrid, WikiResource}
use yandex_workspace_mcp.Services.Calls.{Call, returned, of_result, ask, guard, ◌>>=◌, ◌>>◌}
use yandex_workspace_mcp.Services.Wiki.{
  Request, client_get_comments, client_get_descendants, client_get_resources,
  client_get_attachments, client_get_grids, client_get_grid, WikiClient, WikiService, id_locator,
  slug_locator,
}
use yandex_workspace_mcp.Services.Wiki.Resolve.{resolve_page, resolve_grid_owner}

module _ (nfkc : Text → Text) (client : WikiClient) (s : WikiService) where
  unfoldable pub get_page : Text → Call Request WikiPage
  get_page slug = do
    guard (not s.can_read) permission_denied
    valid_slug ← of_result (validate_wiki_slug nfkc slug s.allowed_roots)
    locator ← of_result (slug_locator valid_slug)
    authorized ← resolve_page nfkc client s locator
    returned authorized.page

  unfoldable pub get_comments : PageListInput → Call Request (PagedResponse PageComment)
  get_comments page_input = do
    guard (not s.can_read) permission_denied
    authorized ← resolve_page nfkc client s page_input.locator
    locator ← of_result (id_locator authorized.page.id)
    ask client.answer_comments (client_get_comments (record page_input { locator = locator }))

  unfoldable pub get_descendants : DescendantsInput → Call Request (PagedResponse DescendantItem)
  get_descendants descendants_input = do
    guard (not s.can_read) permission_denied
    authorized ← resolve_page nfkc client s descendants_input.locator
    locator ← of_result (id_locator authorized.page.id)
    ask client.answer_descendants
        (client_get_descendants (record descendants_input { locator = locator }))

  unfoldable pub get_resources : PageResourceListInput → Call Request (PagedResponse WikiResource)
  get_resources page_input = do
    guard (not s.can_read) permission_denied
    authorized ← resolve_page nfkc client s page_input.locator
    locator ← of_result (id_locator authorized.page.id)
    ask client.answer_resources (client_get_resources (record page_input { locator = locator }))

  unfoldable pub get_attachments : PageListInput → Call Request (PagedResponse WikiAttachment)
  get_attachments page_input = do
    guard (not s.can_read) permission_denied
    authorized ← resolve_page nfkc client s page_input.locator
    locator ← of_result (id_locator authorized.page.id)
    ask client.answer_attachments (client_get_attachments (record page_input { locator = locator }))

  unfoldable pub get_grids : PageListInput → Call Request (PagedResponse WikiGridSummary)
  get_grids page_input = do
    guard (not s.can_read) permission_denied
    authorized ← resolve_page nfkc client s page_input.locator
    locator ← of_result (id_locator authorized.page.id)
    ask client.answer_grids (client_get_grids (record page_input { locator = locator }))

  unfoldable pub get_grid : GridGetInput → Call Request WikiGrid
  get_grid grid_input = do
    guard (not s.can_read) permission_denied
    owner ← resolve_grid_owner nfkc client s grid_input.grid_id
    ask client.answer_grid (client_get_grid grid_input)

  -- The response, which the method then dumps as JSON.
  unfoldable pub get_tree : Text → Call Request (PagedResponse DescendantItem)
  unfolding get_descendants
  get_tree slug = do
    guard (not s.can_read) permission_denied
    valid_slug ← of_result (validate_wiki_slug nfkc slug s.allowed_roots)
    locator ← of_result (slug_locator valid_slug)
    descendants_input ← of_result (
        validated is_descendants_input
          (record { locator = locator; include_self = false; page_size = 100; cursor = none }))
    get_descendants descendants_input
