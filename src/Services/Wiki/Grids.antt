-- ===== src/Services/Wiki/Grids.antt =====
-- services/wiki.py: the methods that change grids, each while it holds the lock of its grid.
use yandex_workspace_mcp.Prelude.{Bool, true, false, not, ◌&&◌, Text}
use yandex_workspace_mcp.Errors.{Result, permission_denied}
use yandex_workspace_mcp.Models.Wiki.Inputs.{
  GridCreateInput, GridUpdateInput, GridCopyInput, GridDeleteInput, GridRowsAddInput,
  GridCellsUpdateInput, GridRowsDeleteInput, GridRowMoveInput, GridColumnsAddInput,
  GridColumnsDeleteInput, GridColumnMoveInput,
}
use yandex_workspace_mcp.Models.Wiki.Grids.{
  WikiGrid, GridUpdateResponse, GridMutationResponse, GridCellsResponse, GridOperationResponse,
  GridDeleteResponse,
}
use yandex_workspace_mcp.Services.Calls.{Call, of_result, ask, guard, ◌>>=◌, ◌>>◌}
use yandex_workspace_mcp.Prelude.{List}
use yandex_workspace_mcp.Services.Wiki.{
  Request, client_create_grid, client_update_grid, client_copy_grid, client_delete_grid,
  client_add_grid_rows, client_update_grid_cells, client_delete_grid_rows, client_move_grid_row,
  client_add_grid_columns, client_delete_grid_columns, client_move_grid_column, WikiClient,
  WikiService, id_locator,
}
use yandex_workspace_mcp.Services.Wiki.Resolve.{with_lock, resolve_page, resolve_grid_owner}

module _ (nfkc : Text → Text) (client : WikiClient) (s : WikiService) where
  unfoldable pub create_grid : GridCreateInput → Call Request WikiGrid
  create_grid grid_input = do
    guard (not s.can_write) permission_denied
    owner ← resolve_page nfkc client s grid_input.locator
    locator ← of_result (id_locator owner.page.id)
    ask client.answer_grid
        (client_create_grid owner.page.id (record grid_input { locator = locator }))

  -- A change of a grid whose page is authorized, under its lock.
  unfoldable pub locked_change :
      {A : Type 0} → Text → (List Request → Request → Result A) → Request → Call Request A
  locked_change grid_id answer request =
      with_lock grid_id (do owner ← resolve_grid_owner nfkc client s grid_id; ask answer request)

  unfoldable pub update_grid : GridUpdateInput → Call Request GridUpdateResponse
  update_grid grid_input = do
    guard (not s.can_write) permission_denied
    locked_change grid_input.grid_id client.answer_grid_update (client_update_grid grid_input)

  unfoldable pub copy_grid : GridCopyInput → Call Request GridOperationResponse
  copy_grid grid_input = do
    guard (not s.can_write) permission_denied
    with_lock grid_input.grid_id (do
      source ← resolve_grid_owner nfkc client s grid_input.grid_id
      destination ← resolve_page nfkc client s grid_input.destination
      ask client.answer_operation
          (client_copy_grid grid_input.grid_id destination.normalized_slug grid_input.title))

  unfoldable pub delete_grid : GridDeleteInput → Call Request GridDeleteResponse
  delete_grid grid_input = do
    guard (not s.can_delete) permission_denied
    locked_change grid_input.grid_id client.answer_grid_delete (client_delete_grid grid_input)

  -- _run_grid_write; its caller says which method of the client it calls.
  unfoldable pub run_grid_write :
      {A : Type 0}
      → (require_write : Bool) (grid_id : Text) → (List Request → Request → Result A)
      → Request
      → Call Request A
  run_grid_write require_write grid_id answer request = do
    guard (require_write && not s.can_write) permission_denied
    locked_change grid_id answer request

  unfoldable pub add_grid_rows : GridRowsAddInput → Call Request GridMutationResponse
  add_grid_rows grid_input =
      run_grid_write true grid_input.grid_id client.answer_mutation
        (client_add_grid_rows grid_input)

  unfoldable pub update_grid_cells : GridCellsUpdateInput → Call Request GridCellsResponse
  update_grid_cells grid_input =
      run_grid_write true grid_input.grid_id client.answer_cells
        (client_update_grid_cells grid_input)

  unfoldable pub delete_grid_rows : GridRowsDeleteInput → Call Request GridMutationResponse
  delete_grid_rows grid_input = do
    guard (not s.can_delete) permission_denied
    run_grid_write false grid_input.grid_id client.answer_mutation
        (client_delete_grid_rows grid_input)

  unfoldable pub move_grid_row : GridRowMoveInput → Call Request GridMutationResponse
  move_grid_row grid_input =
      run_grid_write true grid_input.grid_id client.answer_mutation
        (client_move_grid_row grid_input)

  unfoldable pub add_grid_columns : GridColumnsAddInput → Call Request GridMutationResponse
  add_grid_columns grid_input =
      run_grid_write true grid_input.grid_id client.answer_mutation
        (client_add_grid_columns grid_input)

  unfoldable pub delete_grid_columns : GridColumnsDeleteInput → Call Request GridMutationResponse
  delete_grid_columns grid_input = do
    guard (not s.can_delete) permission_denied
    run_grid_write false grid_input.grid_id client.answer_mutation
        (client_delete_grid_columns grid_input)

  unfoldable pub move_grid_column : GridColumnMoveInput → Call Request GridMutationResponse
  move_grid_column grid_input =
      run_grid_write true grid_input.grid_id client.answer_mutation
        (client_move_grid_column grid_input)
