-- ===== src/Services/Wiki/Authority.antt =====
-- What a request of `WikiService` needs: a switch, and a page that was resolved before and lies
-- within the allowed roots.
pub mod Resolving
pub mod Steps
pub mod Reading
pub mod Writing
pub mod Changing
pub mod Searching
pub mod Offered
use yandex_workspace_mcp.Prelude.{
  ℕ, ◌≡◌, ◌⊎◌, Bool, true, false, not, ◌&&◌, ◌||◌, Text, text, List, [], ◌∷◌, Option, none, some,
  starts_with, remove_prefix, if◌then◌else◌, ◌++◌, mem_text, take,
}
use yandex_workspace_mcp.Prelude.Int.{ℤ}
use yandex_workspace_mcp.Errors.{ok, err, search_filter_unsupported}
use yandex_workspace_mcp.Policies.Paths.{normalize_path}
use yandex_workspace_mcp.Policies.Paths.Within.{Within}
use yandex_workspace_mcp.Models.Wiki.Inputs.{PageLocator, GridGetInput, WikiSearchInput}
use yandex_workspace_mcp.Models.Wiki.Pages.{WikiPage}
use yandex_workspace_mcp.Models.Wiki.Grids.{WikiGrid}
use yandex_workspace_mcp.Services.Wiki.{
  Request, client_get_page, client_get_comments, client_get_attachments, client_get_grids,
  client_get_descendants, client_get_resources, client_get_grid, client_search, client_create_page,
  client_update_page, client_append_page, client_clone_page, client_add_comment, client_delete_page,
  client_recover_page, client_upload_attachment, client_create_grid, client_update_grid,
  client_copy_grid, client_delete_grid, client_add_grid_rows, client_update_grid_cells,
  client_delete_grid_rows, client_move_grid_row, client_add_grid_columns,
  client_delete_grid_columns, client_move_grid_column, recovery_put, recovery_consume, acquire_lock,
  release_lock, close_local_file, RecoveryRecord, WikiClient, WikiService, is_empty, id_locator,
  slug_locator, owner_locator, grid_probe,
}
use yandex_workspace_mcp.Services.Wiki.Search.{cluster_of}
use yandex_workspace_mcp.Services.Wiki.Fallback.{root_slug}
use yandex_workspace_mcp.Services.Wiki.Traces.{Before, Trace, Keeps, holds_lock}
use yandex_workspace_mcp.Services.Calls.{Call}

module _ (nfkc : Text → Text) (client : WikiClient) (s : WikiService) where
  -- A slug as it is sent: a path within the roots, without its first slash.
  abbrev pub SlugInside : Text → Type 0
  SlugInside sent_slug =
      (path : Text) × Within nfkc s.allowed_roots path × (sent_slug ≡ remove_prefix (text "/") path)

  -- A slug whose normal form lies within the roots, and that form without its first slash.
  abbrev pub SlugResolved : Text → Text → Type 0
  SlugResolved slug normalized_slug =
      (path : Text) × (normalize_path nfkc
          (if starts_with (text "/") slug then slug else b'/' ∷ remove_prefix (text "/") slug)
        ≡ ok path)
      × Within nfkc s.allowed_roots path
      × (normalized_slug ≡ remove_prefix (text "/") path)

  -- A page was asked for, and the API returned one whose slug lies within the roots.
  abbrev pub Resolves : (WikiPage → Text → Type 0) → List Request → Request → Type 0
  Resolves P sent request =
      (locator : PageLocator) × (page : WikiPage) × (slug : Text) × (normalized_slug : Text)
      × (request ≡ client_get_page locator)
      × (client.answer_page sent request ≡ ok page)
      × (page.slug ≡ some slug)
      × SlugResolved slug normalized_slug
      × P page normalized_slug

  -- The identity is that of a page that was resolved.
  abbrev pub Resolved : ℤ → List Request → Type 0
  Resolved page_id = Before (Resolves (λ page normalized_slug. page.id ≡ page_id))

  -- A locator by such an identity.
  abbrev pub Located : PageLocator → List Request → Type 0
  Located locator sent = (page_id : ℤ) × (id_locator page_id ≡ ok locator) × Resolved page_id sent

  abbrev pub SlugKnown : Text → List Request → Type 0
  SlugKnown slug = Before (Resolves (λ page normalized_slug. normalized_slug ≡ slug))

  -- The grid was asked for, and then the page that it names, which was resolved.
  abbrev pub NamesOwner : Text → PageLocator → List Request → Request → Type 0
  NamesOwner grid_id locator sent request =
      (probe : GridGetInput) × (grid : WikiGrid) × (grid_probe grid_id ≡ ok probe)
      × (request ≡ client_get_grid probe)
      × (client.answer_grid sent request ≡ ok grid)
      × (owner_locator grid.page ≡ ok locator)

  abbrev pub Owned : Text → List Request → Type 0
  Owned grid_id = Before (λ sent request.
      Resolves (λ page normalized_slug. Unit {0}) sent request
      × ((locator : PageLocator) × (request ≡ client_get_page locator)
          × Before (NamesOwner grid_id locator) sent))

  -- A change of a grid: its page was resolved, and the lock of the grid is held.
  abbrev pub Changeable : Text → List Request → Type 0
  Changeable grid_id sent = Owned grid_id sent × (holds_lock grid_id sent ≡ true)

  abbrev pub Switched : Bool → Type 0
  Switched switch = switch ≡ true

  -- Where no root is `/`, a search of the whole Wiki follows one that the API refused.
  abbrev pub Refused : WikiSearchInput → List Request → Type 0
  Refused search_input = Before (λ sent request.
      (cluster : Option Text) × (request ≡ client_search search_input cluster)
      × (client.answer_search sent request ≡ err search_filter_unsupported))

  abbrev pub Permitted : List Request → Request → Type 0
  Permitted sent (client_get_page locator) = Switched (s.can_read || (s.can_write || s.can_delete))
  Permitted sent (client_get_comments page_input) =
      Switched s.can_read × Located page_input.locator sent
  Permitted sent (client_get_attachments page_input) =
      Switched s.can_read × Located page_input.locator sent
  Permitted sent (client_get_grids page_input) =
      Switched s.can_read × Located page_input.locator sent
  Permitted sent (client_get_descendants descendants_input) =
      Switched s.can_read
      × (Located descendants_input.locator sent
          ⊎ ((root : Text) × (mem_text root s.allowed_roots ≡ true)
              × (slug_locator (root_slug root) ≡ ok descendants_input.locator)))
  Permitted sent (client_get_resources page_input) =
      Switched s.can_read × Located page_input.locator sent
  Permitted sent (client_get_grid grid_input) =
      ((grid_probe grid_input.grid_id ≡ ok grid_input)
        × Switched (s.can_read || (s.can_write || s.can_delete)))
      ⊎ (Switched s.can_read × Owned grid_input.grid_id sent)
  Permitted sent (client_search search_input cluster) =
      Switched s.can_read
      × (((root : Text) × (mem_text root s.allowed_roots ≡ true) × (cluster ≡ cluster_of root))
          ⊎ Refused search_input sent)
  Permitted sent (client_create_page page_input) = Switched s.can_write × SlugInside page_input.slug
  Permitted sent (client_update_page page_id page_input) =
      Switched s.can_write × Resolved page_id sent × (id_locator page_id ≡ ok page_input.locator)
  Permitted sent (client_append_page page_id page_input) =
      Switched s.can_write × Resolved page_id sent × (id_locator page_id ≡ ok page_input.locator)
  Permitted sent (client_clone_page page_id page_input) =
      Switched s.can_write
      × Resolved page_id sent
      × (id_locator page_id ≡ ok page_input.source)
      × SlugInside page_input.destination_slug
  Permitted sent (client_add_comment page_id comment_input) =
      Switched s.can_write × Resolved page_id sent × (id_locator page_id ≡ ok comment_input.locator)
  Permitted sent (client_delete_page page_id) =
      Switched s.can_delete × Switched s.has_recovery_store × Resolved page_id sent
  Permitted sent (client_recover_page upstream_token) =
      Switched s.can_delete
      × Before
          (λ earlier request.
            (handle principal_id : Text) × (r : RecoveryRecord) × (request
              ≡ recovery_consume handle principal_id)
            × (client.answer_record earlier request ≡ ok r)
            × (r.upstream_token ≡ upstream_token)
            × ((slug : Text) × SlugResolved r.normalized_locator slug))
          sent
  Permitted sent (client_upload_attachment page_id descriptor upload_input) =
      Switched s.can_write
      × (is_empty s.upload_allowed_dirs ≡ false)
      × Resolved page_id sent
      × (id_locator page_id ≡ ok upload_input.locator)
  Permitted sent (client_create_grid page_id grid_input) =
      Switched s.can_write × Resolved page_id sent × (id_locator page_id ≡ ok grid_input.locator)
  Permitted sent (client_update_grid grid_input) =
      Switched s.can_write × Changeable grid_input.grid_id sent
  Permitted sent (client_copy_grid grid_id destination_slug title) =
      Switched s.can_write × Changeable grid_id sent × SlugKnown destination_slug sent
  Permitted sent (client_delete_grid grid_input) =
      Switched s.can_delete × Changeable grid_input.grid_id sent
  Permitted sent (client_add_grid_rows grid_input) =
      Switched s.can_write × Changeable grid_input.grid_id sent
  Permitted sent (client_update_grid_cells grid_input) =
      Switched s.can_write × Changeable grid_input.grid_id sent
  Permitted sent (client_delete_grid_rows grid_input) =
      Switched s.can_delete × Changeable grid_input.grid_id sent
  Permitted sent (client_move_grid_row grid_input) =
      Switched s.can_write × Changeable grid_input.grid_id sent
  Permitted sent (client_add_grid_columns grid_input) =
      Switched s.can_write × Changeable grid_input.grid_id sent
  Permitted sent (client_delete_grid_columns grid_input) =
      Switched s.can_delete × Changeable grid_input.grid_id sent
  Permitted sent (client_move_grid_column grid_input) =
      Switched s.can_write × Changeable grid_input.grid_id sent
  Permitted sent (recovery_put upstream_token principal_id normalized_locator) =
      Switched s.can_delete
      × SlugKnown normalized_locator sent
      × Before
          (λ earlier request.
            (page_id : ℤ) × (request ≡ client_delete_page page_id)
            × (client.answer_token earlier request ≡ ok upstream_token))
          sent
  Permitted sent (recovery_consume handle principal_id) =
      Switched s.can_delete × Switched s.has_recovery_store
  Permitted sent (acquire_lock grid_id) = holds_lock grid_id sent ≡ false
  Permitted sent (release_lock grid_id) = holds_lock grid_id sent ≡ true
  Permitted sent (close_local_file descriptor) = Unit {0}

  -- A method keeps the trace permitted and gives back the locks that it took.
  abbrev pub Safe : {A : Type 0} → Call Request A → List Request → Type 0
  Safe m sent = Keeps Permitted m (λ a later. Unit {0}) sent
