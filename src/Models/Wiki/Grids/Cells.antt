-- ===== src/Models/Wiki/Grids/Cells.antt =====
-- What the mapping of grids keeps: the cells of an answer to a change, and the cells of a row that is
-- sent by position.
use yandex_workspace_mcp.Prelude.{
  ℕ, suc, ◌≤◌, ◌≡◌, refl, ap, ◌∙◌, inl, inr, true, Text, List, [], ◌∷◌, Option, none, some, All,
  length, text_eq, text_eq_iff, if◌then◌else◌, Bool-cases, arith,
}
use yandex_workspace_mcp.Errors.{Result, ok}
use yandex_workspace_mcp.Models.Wiki.Json.{Json, JsonScalar, scalar_of}
use yandex_workspace_mcp.Models.Wiki.Inputs.Checks.{one_of}
use yandex_workspace_mcp.Models.Wiki.Pages.{get_scalar}
use yandex_workspace_mcp.Models.Wiki.Grids.{
  WikiGridColumn, GridCellWire, GridCell, GridCellsWire, GridCellsResponse, set_cell, add_cell,
  cells_by_position, add_grid_cell, map_cells, map_grid_cells, revision_text,
}

-- A cell that names its column in exactly one way.
abbrev pub NamesColumn : GridCell → Type 0
NamesColumn cell = one_of cell.column_id cell.column_slug ≡ true

-- The cells that are mapped: all of these are read, and there are no more than were sent.
abbrev Mapped : ℕ → Result (List GridCell) → Type 0
Mapped most r =
    (cells : List GridCell) × (r ≡ ok cells) × All NamesColumn cells × (length cells ≤ most)

add_grid_cell-Mapped :
    (item : GridCellWire) (scalar : Option JsonScalar) (most : ℕ) (rest : Result (List GridCell))
    → Mapped most rest
    → Mapped (suc most) (add_grid_cell item scalar rest)
add_grid_cell-Mapped item none most rest (cells, e, named, few) =
    (cells, e, named, omega (arith, few))
add_grid_cell-Mapped item (some value) most rest (cells, e, named, few) =
    elim (Bool-cases (one_of item.column_id item.column_slug)) [
      | inr other ↦ rw other (cells, e, named, omega (arith, few))
      | inl one ↦
          rw (one, e)
            (
              record {
                row_id = item.row_id;
                column_id = item.column_id;
                column_slug = item.column_slug;
                value = value;
              }
                  ∷ cells,
              refl,
              (one, named),
              omega (arith, few),
            )
    ]

map_cells-Mapped : (wires : List GridCellWire) → Mapped (length wires) (map_cells wires)
unfolding map_cells
map_cells-Mapped [] = ([], refl, tt, omega arith)
map_cells-Mapped (item ∷ wires) =
    add_grid_cell-Mapped item (scalar_of item.value) (length wires) (map_cells wires)
      (map_cells-Mapped wires)

-- Whatever cells the API sends, mapping the answer to a change of cells raises nothing, and each cell
-- that it returns names its column in exactly one way.
pub map_grid_cells_total :
    (wire : GridCellsWire)
    → (response : GridCellsResponse) × (map_grid_cells wire ≡ ok response)
      × All NamesColumn response.cells
      × (length response.cells ≤ length wire.cells)
unfolding map_grid_cells
map_grid_cells_total wire =
    let (cells, e, named, few) = map_cells-Mapped wire.cells in
    (
      record { revision = revision_text wire.revision; cells = cells; warnings = wire.warnings },
      rw e refl,
      named,
      few,
    )

get_scalar-set_cell :
    (key j : Text) (scalar : JsonScalar) (cells : List (Text × JsonScalar))
    → get_scalar j (set_cell key scalar cells)
      ≡ (if text_eq key j then some scalar else get_scalar j cells)
unfolding get_scalar set_cell
get_scalar-set_cell key j scalar [] = refl
get_scalar-set_cell key j scalar ((k, v) ∷ cells) = ground (
  arith,
  text_eq_iff key j,
  text_eq_iff k key,
  text_eq_iff k j,
  get_scalar-set_cell key j scalar cells,
)

-- The first of two options that is there.
abbrev pub first_some : Option JsonScalar → Option JsonScalar → Option JsonScalar
first_some none second = second
first_some (some a) second = some a

-- What a column holds under a name.
abbrev pub under_name : Text → Option Text → Option JsonScalar → Option JsonScalar
under_name key none scalar = none
under_name key (some slug) scalar = if text_eq slug key then scalar else none

-- The last scalar of a row that stands in a column of the name.
abbrev pub last_scalar : Text → List WikiGridColumn → List Json → Option JsonScalar
last_scalar key [] row = none
last_scalar key (column ∷ columns) [] = none
last_scalar key (column ∷ columns) (json ∷ row) =
    first_some (last_scalar key columns row) (under_name key column.slug (scalar_of json))

get_scalar-add_cell :
    (key : Text) (slug : Option Text) (scalar : Option JsonScalar)
    (cells : List (Text × JsonScalar))
    → get_scalar key (add_cell slug scalar cells)
      ≡ first_some (under_name key slug scalar) (get_scalar key cells)
get_scalar-add_cell key none scalar cells = refl
get_scalar-add_cell key (some slug) none cells = ground arith
get_scalar-add_cell key (some slug) (some scalar) cells =
    ground (arith, get_scalar-set_cell slug key scalar cells)

first_some_assoc :
    (a b c : Option JsonScalar) → first_some a (first_some b c) ≡ first_some (first_some a b) c
first_some_assoc none b c = refl
first_some_assoc (some a) b c = refl

from_cells :
    (key : Text) (columns : List WikiGridColumn) (row : List Json)
    (cells : List (Text × JsonScalar))
    → get_scalar key (cells_by_position columns row cells)
      ≡ first_some (last_scalar key columns row) (get_scalar key cells)
unfolding cells_by_position
from_cells key [] row cells = refl
from_cells key (column ∷ columns) [] cells = refl
from_cells key (column ∷ columns) (json ∷ row) cells =
    from_cells key columns row (add_cell column.slug (scalar_of json) cells)
    ∙ ap (first_some (last_scalar key columns row))
        (get_scalar-add_cell key column.slug (scalar_of json) cells)
    ∙ first_some_assoc (last_scalar key columns row) (under_name key column.slug (scalar_of json))
        (get_scalar key cells)

-- A row that is sent by position has under a name the last scalar that stands in a column of that
-- name, and nothing where there is none: a value that is no scalar, a value past the last column and
-- a column past the last value leave no cell.
pub cells_by_position_lem :
    (key : Text) (columns : List WikiGridColumn) (row : List Json)
    → get_scalar key (cells_by_position columns row []) ≡ last_scalar key columns row
cells_by_position_lem key columns row =
    from_cells key columns row [] ∙ none_second (last_scalar key columns row)
  where
    none_second : (o : Option JsonScalar) → first_some o (get_scalar key []) ≡ o
    none_second none = unfold get_scalar in refl
    none_second (some a) = refl
