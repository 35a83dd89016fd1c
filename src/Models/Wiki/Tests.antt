-- ===== src/Models/Wiki/Tests.antt =====
-- Models of the Wiki at concrete values.
use yandex_workspace_mcp.Prelude.{
  ◌≤◌, ◌≡◌, refl, ◌↔◌, false, Text, text, List, [], ◌∷◌, Option, none, some, All, length,
}
use yandex_workspace_mcp.Prelude.Int.{pos}
use yandex_workspace_mcp.Errors.{ok}
use yandex_workspace_mcp.Models.Wiki.Json.{
  Json, json_text, json_int, json_list, no_values, int_scalar,
}
use yandex_workspace_mcp.Models.Wiki.Inputs.Checks.{duplicates}
use yandex_workspace_mcp.Models.Wiki.Inputs.Unique.{AllDistinct, duplicates_lem}
use yandex_workspace_mcp.Models.Wiki.Pages.{as_int, get_scalar}
use yandex_workspace_mcp.Models.Wiki.Grids.{
  WikiGridColumn, GridCellWire, GridCellsWire, GridCellsResponse, cells_by_position, map_grid_cells,
  number_text,
}
use yandex_workspace_mcp.Models.Wiki.Grids.Cells.{
  NamesColumn, map_grid_cells_total, last_scalar, cells_by_position_lem,
}

abbrev named : Text → WikiGridColumn
named slug = record {
  id = none;
  slug = some slug;
  title = none;
  type = none;
  required = none;
  multiple = none;
  select_options = none;
}

abbrev cell_at : Option Text → Option Text → Json → GridCellWire
cell_at column_id column_slug value = record {
  row_id = as_int (pos 1);
  column_id = column_id;
  column_slug = column_slug;
  value = value;
}

-- Of three cells one names its column twice, and one holds a list.
abbrev three_cells : GridCellsWire
three_cells = record {
  revision = some (as_int (pos 120));
  cells =
      cell_at (some (text "c")) none (json_text (text "x"))
      ∷ cell_at (some (text "c")) (some (text "c")) (json_text (text "x"))
      ∷ cell_at (some (text "c")) none (json_list no_values)
      ∷ [];
  warnings = [];
}

map_grid_cells_total_example :
    (response : GridCellsResponse) × (map_grid_cells three_cells ≡ ok response)
    × All NamesColumn response.cells
    × (length response.cells ≤ length three_cells.cells)
map_grid_cells_total_example = map_grid_cells_total three_cells

abbrev two_columns : List WikiGridColumn
two_columns = named (text "a") ∷ named (text "a") ∷ named (text "b") ∷ []

abbrev two_values : List Json
two_values = json_int (pos 1) ∷ json_int (pos 2) ∷ []

by_position : cells_by_position two_columns two_values [] ≡ (text "a", int_scalar (pos 2)) ∷ []
unfolding cells_by_position
by_position = refl

cells_by_position_lem_example :
    get_scalar (text "a") (cells_by_position two_columns two_values [])
    ≡ last_scalar (text "a") two_columns two_values
cells_by_position_lem_example = cells_by_position_lem (text "a") two_columns two_values

duplicates_lem_example :
    (duplicates (text "a" ∷ text "b" ∷ []) ≡ false) ↔ AllDistinct (text "a" ∷ text "b" ∷ [])
duplicates_lem_example = duplicates_lem (text "a" ∷ text "b" ∷ [])

revision_digits : number_text (as_int (pos 120)) ≡ text "120"
unfolding number_text
revision_digits = refl
