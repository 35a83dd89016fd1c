-- ===== src/Services/Wiki/Authority/Changing.antt =====
-- What the methods that change grids send, and that they do it under the lock of the grid.
use yandex_workspace_mcp.Prelude.{◌≡◌, refl, inr, ◌∙◌, true, false, Text, List, ◌∷◌}
use yandex_workspace_mcp.Errors.{Result, permission_denied}
use yandex_workspace_mcp.Models.Wiki.Inputs.{
  GridUpdateInput, GridCopyInput, GridDeleteInput, GridRowsAddInput, GridCellsUpdateInput,
  GridRowsDeleteInput, GridRowMoveInput, GridColumnsAddInput, GridColumnsDeleteInput,
  GridColumnMoveInput,
}
use yandex_workspace_mcp.Services.Calls.{Call}
use yandex_workspace_mcp.Services.Wiki.{
  Request, client_update_grid, client_copy_grid, client_delete_grid, client_add_grid_rows,
  client_update_grid_cells, client_delete_grid_rows, client_move_grid_row, client_add_grid_columns,
  client_delete_grid_columns, client_move_grid_column, acquire_lock, WikiClient, WikiService,
}
use yandex_workspace_mcp.Services.Wiki.Resolve.{with_lock, resolve_grid_owner}
use yandex_workspace_mcp.Services.Wiki.Grids.{
  locked_change, run_grid_write, update_grid, copy_grid, delete_grid, add_grid_rows,
  update_grid_cells, delete_grid_rows, move_grid_row, add_grid_columns, delete_grid_columns,
  move_grid_column,
}
use yandex_workspace_mcp.Services.Wiki.Traces.{holds_lock, is_lock, >>=-Keeps, with_lock-Keeps}
use yandex_workspace_mcp.Services.Wiki.Authority.{Permitted, Safe, Changeable}
use yandex_workspace_mcp.Services.Wiki.Authority.Resolving.{
  AnySwitch, Owner, resolve_grid_owner-Keeps, resolved-Keeps, Resolves-SlugKnown,
}
use yandex_workspace_mcp.Services.Wiki.Authority.Steps.{switch-Safe, ask-Safe}
use yandex_workspace_mcp.Services.Wiki.Authority.Writing.{writes, deletes}

-- The task holds no lock.
abbrev pub Unlocked : List Request → Type 0
Unlocked sent = (grid_id : Text) → holds_lock grid_id sent ≡ false

module _ (nfkc : Text → Text) (client : WikiClient) (s : WikiService) where
  abbrev Nothing : {A : Type 0} → A → List Request → Type 0
  Nothing a later = Unit {0}

  locked-Safe :
      {A : Type 0} (grid_id : Text) (m : Call Request A) (sent : List Request)
      → holds_lock grid_id sent ≡ false
      → ((later : List Request) → holds_lock grid_id later ≡ true → Safe nfkc client s m later)
      → Safe nfkc client s (with_lock grid_id m) sent
  locked-Safe grid_id m sent free h =
      with_lock-Keeps (Permitted nfkc client s) grid_id m Nothing sent free free
        (λ later held. held) (λ later a done. tt) (λ held. h (acquire_lock grid_id ∷ sent) held)

  locked_change-Safe :
      {A : Type 0} (grid_id : Text) (answer : List Request → Request → Result A) (request : Request)
      (sent : List Request)
      → AnySwitch nfkc client s
      → holds_lock grid_id sent ≡ false
      → ((later : List Request)
          → Changeable nfkc client s grid_id later
          → Permitted nfkc client s later request)
      → is_lock request ≡ false
      → Safe nfkc client s (locked_change nfkc client s grid_id answer request) sent
  unfolding locked_change
  locked_change-Safe grid_id answer request sent on free p quiet =
      locked-Safe grid_id _ sent free (λ taken held.
        >>=-Keeps (Permitted nfkc client s) (resolve_grid_owner nfkc client s grid_id) _
          (Owner nfkc client s grid_id) Nothing taken
          (resolve_grid_owner-Keeps nfkc client s grid_id taken on)
          (λ owner later same owned.
            ask-Safe nfkc client s answer request later (p later (owned, same grid_id ∙ held))
              quiet))

  pub update_grid-Safe :
      (grid_input : GridUpdateInput) (sent : List Request)
      → Unlocked sent
      → Safe nfkc client s (update_grid nfkc client s grid_input) sent
  unfolding update_grid
  update_grid-Safe grid_input sent free =
      switch-Safe nfkc client s s.can_write permission_denied _ sent (λ on.
        locked_change-Safe grid_input.grid_id client.answer_grid_update
          (client_update_grid grid_input) sent (writes nfkc client s on) (free _)
          (λ later c. (on, c)) refl)

  pub delete_grid-Safe :
      (grid_input : GridDeleteInput) (sent : List Request)
      → Unlocked sent
      → Safe nfkc client s (delete_grid nfkc client s grid_input) sent
  unfolding delete_grid
  delete_grid-Safe grid_input sent free =
      switch-Safe nfkc client s s.can_delete permission_denied _ sent (λ on.
        locked_change-Safe grid_input.grid_id client.answer_grid_delete
          (client_delete_grid grid_input) sent (deletes nfkc client s on) (free _)
          (λ later c. (on, c)) refl)

  pub copy_grid-Safe :
      (grid_input : GridCopyInput) (sent : List Request)
      → Unlocked sent
      → Safe nfkc client s (copy_grid nfkc client s grid_input) sent
  unfolding copy_grid
  copy_grid-Safe grid_input sent free =
      switch-Safe nfkc client s s.can_write permission_denied _ sent (λ on.
        locked-Safe grid_input.grid_id _ sent (free _) (λ taken held.
          >>=-Keeps (Permitted nfkc client s) (resolve_grid_owner nfkc client s grid_input.grid_id)
            _ (Owner nfkc client s grid_input.grid_id) Nothing taken
            (resolve_grid_owner-Keeps nfkc client s grid_input.grid_id taken
              (writes nfkc client s on))
            (λ source later same owned.
              resolved-Keeps nfkc client s grid_input.destination _ Nothing later
                (writes nfkc client s on)
                (λ destination same1 known.
                  ask-Safe nfkc client s client.answer_operation
                    (client_copy_grid grid_input.grid_id destination.normalized_slug
                      grid_input.title)
                    _
                    (
                      on,
                      (inr owned, same1 grid_input.grid_id ∙ same grid_input.grid_id ∙ held),
                      Resolves-SlugKnown nfkc client s destination later _ known,
                    )
                    refl))))

  write-Safe :
      {A : Type 0} (grid_id : Text) (answer : List Request → Request → Result A) (request : Request)
      (sent : List Request)
      → Unlocked sent
      → ((later : List Request)
          → s.can_write ≡ true
          → Changeable nfkc client s grid_id later
          → Permitted nfkc client s later request)
      → is_lock request ≡ false
      → Safe nfkc client s (run_grid_write nfkc client s true grid_id answer request) sent
  unfolding run_grid_write
  write-Safe grid_id answer request sent free p quiet =
      switch-Safe nfkc client s s.can_write permission_denied _ sent (λ on.
        locked_change-Safe grid_id answer request sent (writes nfkc client s on) (free grid_id)
          (λ later c. p later on c) quiet)

  -- A deletion within a grid needs no write switch, but its own.
  erase-Safe :
      {A : Type 0} (grid_id : Text) (answer : List Request → Request → Result A) (request : Request)
      (sent : List Request)
      → s.can_delete ≡ true
      → Unlocked sent
      → ((later : List Request)
          → Changeable nfkc client s grid_id later
          → Permitted nfkc client s later request)
      → is_lock request ≡ false
      → Safe nfkc client s (run_grid_write nfkc client s false grid_id answer request) sent
  unfolding run_grid_write
  erase-Safe grid_id answer request sent on free p quiet =
      locked_change-Safe grid_id answer request sent (deletes nfkc client s on) (free grid_id) p
        quiet

  pub add_grid_rows-Safe :
      (grid_input : GridRowsAddInput) (sent : List Request)
      → Unlocked sent
      → Safe nfkc client s (add_grid_rows nfkc client s grid_input) sent
  unfolding add_grid_rows
  add_grid_rows-Safe grid_input sent free =
      write-Safe grid_input.grid_id client.answer_mutation (client_add_grid_rows grid_input) sent
        free (λ later on c. (on, c)) refl

  pub update_grid_cells-Safe :
      (grid_input : GridCellsUpdateInput) (sent : List Request)
      → Unlocked sent
      → Safe nfkc client s (update_grid_cells nfkc client s grid_input) sent
  unfolding update_grid_cells
  update_grid_cells-Safe grid_input sent free =
      write-Safe grid_input.grid_id client.answer_cells (client_update_grid_cells grid_input) sent
        free (λ later on c. (on, c)) refl

  pub delete_grid_rows-Safe :
      (grid_input : GridRowsDeleteInput) (sent : List Request)
      → Unlocked sent
      → Safe nfkc client s (delete_grid_rows nfkc client s grid_input) sent
  unfolding delete_grid_rows
  delete_grid_rows-Safe grid_input sent free =
      switch-Safe nfkc client s s.can_delete permission_denied _ sent (λ on.
        erase-Safe grid_input.grid_id client.answer_mutation (client_delete_grid_rows grid_input)
          sent on free (λ later c. (on, c)) refl)

  pub move_grid_row-Safe :
      (grid_input : GridRowMoveInput) (sent : List Request)
      → Unlocked sent
      → Safe nfkc client s (move_grid_row nfkc client s grid_input) sent
  unfolding move_grid_row
  move_grid_row-Safe grid_input sent free =
      write-Safe grid_input.grid_id client.answer_mutation (client_move_grid_row grid_input) sent
        free (λ later on c. (on, c)) refl

  pub add_grid_columns-Safe :
      (grid_input : GridColumnsAddInput) (sent : List Request)
      → Unlocked sent
      → Safe nfkc client s (add_grid_columns nfkc client s grid_input) sent
  unfolding add_grid_columns
  add_grid_columns-Safe grid_input sent free =
      write-Safe grid_input.grid_id client.answer_mutation (client_add_grid_columns grid_input) sent
        free (λ later on c. (on, c)) refl

  pub delete_grid_columns-Safe :
      (grid_input : GridColumnsDeleteInput) (sent : List Request)
      → Unlocked sent
      → Safe nfkc client s (delete_grid_columns nfkc client s grid_input) sent
  unfolding delete_grid_columns
  delete_grid_columns-Safe grid_input sent free =
      switch-Safe nfkc client s s.can_delete permission_denied _ sent (λ on.
        erase-Safe grid_input.grid_id client.answer_mutation (client_delete_grid_columns grid_input)
          sent on free (λ later c. (on, c)) refl)

  pub move_grid_column-Safe :
      (grid_input : GridColumnMoveInput) (sent : List Request)
      → Unlocked sent
      → Safe nfkc client s (move_grid_column nfkc client s grid_input) sent
  unfolding move_grid_column
  move_grid_column-Safe grid_input sent free =
      write-Safe grid_input.grid_id client.answer_mutation (client_move_grid_column grid_input) sent
        free (λ later on c. (on, c)) refl
