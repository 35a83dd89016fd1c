-- ===== src/Services/Wiki/Resolve.antt =====
-- services/wiki.py: how a method finds the page, or the page of the grid, that it is about.
use yandex_workspace_mcp.Prelude.{Text, ◌∷◌}
use yandex_workspace_mcp.Models.Wiki.Inputs.{PageLocator}
use yandex_workspace_mcp.Services.Calls.{Call, of_result, ask, ◌>>=◌}
use yandex_workspace_mcp.Services.Wiki.{
  Request, client_get_page, client_get_grid, acquire_lock, release_lock, WikiClient, WikiService,
  AuthorizedPage, owner_locator, grid_probe, authorized_slug,
}

-- `async with self._grid_mutation_lock(grid_id)`: the lock is released however the body ends.
unfoldable pub with_lock : {A : Type 0} → Text → Call Request A → Call Request A
with_lock grid_id m sent = (
  (m (acquire_lock grid_id ∷ sent)).0,
  release_lock grid_id ∷ (m (acquire_lock grid_id ∷ sent)).1,
)

module _ (nfkc : Text → Text) (client : WikiClient) (s : WikiService) where
  unfoldable pub resolve_page : PageLocator → Call Request AuthorizedPage
  resolve_page locator = do
    page ← ask client.answer_page (client_get_page locator)
    of_result (authorized_slug nfkc s page page.slug)

  unfoldable pub resolve_grid_owner : Text → Call Request AuthorizedPage
  unfolding resolve_page
  resolve_grid_owner grid_id = do
    probe ← of_result (grid_probe grid_id)
    grid ← ask client.answer_grid (client_get_grid probe)
    locator ← of_result (owner_locator grid.page)
    resolve_page locator
