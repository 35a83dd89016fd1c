-- ===== src/Models/Wiki/Grids.antt =====
-- models/wiki.py: grids, as the API sends them and as the tools return them, and the functions that
-- map the first to the second.
pub mod Cells
use yandex_workspace_mcp.Prelude.{
  ℕ, zero, suc, ◌+◌, ◌/◌, ◌%◌, Bool, true, false, not, ◌&&◌, ◌||◌, Text, text, List, [], ◌∷◌, ◌++◌,
  Option, none, some, length, ltb, leb, ◌==◌, if◌then◌else◌, text_eq, map,
}
use yandex_workspace_mcp.Prelude.Int.{ℤ, pos, negsuc}
use yandex_workspace_mcp.Errors.{Result, ok, err, value_error, ◌>>=◌}
use yandex_workspace_mcp.Models.Wiki.Json.{Json, JsonScalar, scalar_of, scalar_dict}
use yandex_workspace_mcp.Models.Wiki.Inputs.{
  ColumnType, string, number, checkbox, date, select, staff, GridSort, Direction, asc, desc,
}
use yandex_workspace_mcp.Models.Wiki.Inputs.Checks.{validated, is_given, is_opaque_id, one_of}
use yandex_workspace_mcp.Models.Wiki.Pages.{
  Number, as_int, as_text, PagedWire, PagedResponse, WikiAttachment, paged,
}

-- WikiGridSummary and WikiGridSummaryWire
pub record WikiGridSummary : Type 0 where
  pub id : Number
  pub title : Option Text
  pub created_at : Option Text

pub record GridSortWire : Type 0 where
  pub column_slug : Text
  pub direction : Text

pub record WikiGridColumnWire : Type 0 where
  pub id : Option Text
  pub slug : Option Text
  pub title : Option Text
  pub type : Option Text
  pub required : Option Bool
  pub multiple : Option Bool
  pub select_options : Option (List Text)

pub record WikiGridColumn : Type 0 where
  pub id : Option Text
  pub slug : Option Text
  pub title : Option Text
  pub type : Option ColumnType
  pub required : Option Bool
  pub multiple : Option Bool
  pub select_options : Option (List Text)

pub record WikiGridRowWire : Type 0 where
  pub id : Option Number
  pub cells : Option (List (Text × Json))
  pub row : Option (List Json)
  pub pinned : Option Bool
  pub color : Option Text

pub record WikiGridRow : Type 0 where
  pub id : Option Number
  pub cells : List (Text × JsonScalar)
  pub pinned : Option Bool
  pub color : Option Text

-- WikiGridPage and WikiGridPageWire
pub record WikiGridPage : Type 0 where
  pub id : Option Number
  pub slug : Option Text

pub record WikiGridStructureWire : Type 0 where
  pub columns : List WikiGridColumnWire
  pub default_sort : List GridSortWire

pub record WikiGridWire : Type 0 where
  pub id : Number
  pub title : Option Text
  pub page : WikiGridPage
  pub revision : Option Number
  pub structure : Option WikiGridStructureWire
  pub columns : List WikiGridColumnWire
  pub rows : List WikiGridRowWire
  pub default_sort : List GridSortWire
  pub created_at : Option Text

pub record WikiGrid : Type 0 where
  pub id : Number
  pub title : Option Text
  pub page : WikiGridPage
  pub revision : Option Text
  pub columns : List WikiGridColumn
  pub rows : List WikiGridRow
  pub default_sort : List GridSort
  pub created_at : Option Text

pub record GridUpdateResponse : Type 0 where
  pub grid : WikiGrid
  pub warnings : List Text

pub record GridMutationWire : Type 0 where
  pub revision : Option Number
  pub results : List WikiGridRowWire
  pub warnings : List Text

pub record GridMutationResponse : Type 0 where
  pub revision : Option Text
  pub results : List WikiGridRow
  pub warnings : List Text

pub record GridCellWire : Type 0 where
  pub row_id : Number
  pub column_id : Option Text
  pub column_slug : Option Text
  pub value : Json

pub record GridCell : Type 0 where
  pub row_id : Number
  pub column_id : Option Text
  pub column_slug : Option Text
  pub value : JsonScalar

pub record GridCellsWire : Type 0 where
  pub revision : Option Number
  pub cells : List GridCellWire
  pub warnings : List Text

pub record GridCellsResponse : Type 0 where
  pub revision : Option Text
  pub cells : List GridCell
  pub warnings : List Text

pub data OperationState : Type 0 where
  completed pending : OperationState

pub record GridOperationResponse : Type 0 where
  pub status : OperationState
  pub operation_id : Option Text
  pub grid : Option WikiGridSummary
  pub warnings : List Text

pub record GridDeleteResponse : Type 0 where
  pub grid_id : Text

-- str(n): the decimal digits, of which n has at most n + 1.
unfoldable pub digits : ℕ → ℕ → Text
digits zero n = []
digits (suc fuel) n =
    let rest = digits fuel (n / 10) in
    let last = (b'0' + n % 10) ∷ [] in if ltb n 10 then last else rest ++ last

-- str(wire.revision)
unfoldable pub number_text : Number → Text
unfolding digits
number_text (as_text t) = t
number_text (as_int (pos n)) = digits (n + 1) n
number_text (as_int (negsuc n)) = b'-' ∷ digits (n + 2) (n + 1)

abbrev pub revision_text : Option Number → Option Text
revision_text none = none
revision_text (some revision) = some (number_text revision)

-- `item.type if item.type in valid_types else None`
unfoldable pub column_type : Option Text → Option ColumnType
unfolding text_eq
column_type none = none
column_type (some t) =
    if text_eq t (text "string")
    then some string
    else if text_eq t (text "number")
    then some number
    else if text_eq t (text "checkbox")
    then some checkbox
    else if text_eq t (text "date")
    then some date
    else if text_eq t (text "select")
    then some select
    else if text_eq t (text "staff")
    then some staff
    else none

unfoldable pub map_column : WikiGridColumnWire → WikiGridColumn
unfolding column_type
map_column item = record {
  id = item.id;
  slug = item.slug;
  title = item.title;
  type = column_type item.type;
  required = item.required;
  multiple = item.multiple;
  select_options = item.select_options;
}

unfoldable pub map_grid_row : WikiGridRowWire → WikiGridRow
unfolding scalar_dict
map_grid_row wire = record {
  id = wire.id;
  cells = scalar_dict wire.cells;
  pinned = wire.pinned;
  color = wire.color;
}

-- cells[key] = scalar: a key that is there keeps its place.
unfoldable pub set_cell : Text → JsonScalar → List (Text × JsonScalar) → List (Text × JsonScalar)
unfolding text_eq
set_cell key scalar [] = (key, scalar) ∷ []
set_cell key scalar ((k, v) ∷ cells) =
    if text_eq k key then (key, scalar) ∷ cells else (k, v) ∷ set_cell key scalar cells

-- The cells of a row that is sent by position.
abbrev pub add_cell :
    Option Text → Option JsonScalar → List (Text × JsonScalar) → List (Text × JsonScalar)
add_cell none scalar cells = cells
add_cell (some slug) none cells = cells
add_cell (some slug) (some scalar) cells = set_cell slug scalar cells

unfoldable pub cells_by_position :
    List WikiGridColumn → List Json → List (Text × JsonScalar) → List (Text × JsonScalar)
unfolding set_cell scalar_of
cells_by_position [] row cells = cells
cells_by_position (column ∷ columns) [] cells = cells
cells_by_position (column ∷ columns) (json ∷ row) cells =
    cells_by_position columns row (add_cell column.slug (scalar_of json) cells)

abbrev pub values_of : Option (List Json) → List Json
values_of none = []
values_of (some row) = row

unfoldable pub map_row : List WikiGridColumn → WikiGridRowWire → WikiGridRow
unfolding map_grid_row cells_by_position
map_row columns row = if is_given row.cells then map_grid_row row else record {
  id = row.id;
  cells = cells_by_position columns (values_of row.row) [];
  pinned = row.pinned;
  color = row.color;
}

-- The sorts that the tools know; a column's name must keep the bounds of an identifier.
abbrev pub direction_of : Text → Option Direction
direction_of t =
    if text_eq t (text "asc") then some asc else if text_eq t (text "desc") then some desc else none

abbrev pub add_sort : Text → Option Direction → Result (List GridSort) → Result (List GridSort)
add_sort column_slug none rest = rest
add_sort column_slug (some direction) rest = do
  sort ←
      validated {A = GridSort} (λ s. is_opaque_id s.column_slug)
        (record { column_slug = column_slug; direction = direction })
  sorts ← rest
  ok (sort ∷ sorts)

unfoldable pub map_sorts : List GridSortWire → Result (List GridSort)
unfolding text_eq
map_sorts [] = ok []
map_sorts (item ∷ sorts) = add_sort item.column_slug (direction_of item.direction) (map_sorts sorts)

-- The structure's columns and sorts, where the API sends a structure.
abbrev pub columns_of : WikiGridWire → Option WikiGridStructureWire → List WikiGridColumnWire
columns_of wire none = wire.columns
columns_of wire (some structure) = structure.columns

abbrev pub sorts_of : WikiGridWire → Option WikiGridStructureWire → List GridSortWire
sorts_of wire none = wire.default_sort
sorts_of wire (some structure) = structure.default_sort

unfoldable pub map_grid : WikiGridWire → Result WikiGrid
unfolding map_column map_row map_sorts number_text
map_grid wire =
    let columns = map map_column (columns_of wire wire.structure) in
    do
      sorts ← map_sorts (sorts_of wire wire.structure)
      ok (record {
        id = wire.id;
        title = wire.title;
        page = wire.page;
        revision = revision_text wire.revision;
        columns = columns;
        rows = map (map_row columns) wire.rows;
        default_sort = sorts;
        created_at = wire.created_at;
      })

unfoldable pub map_grids : PagedWire WikiGridSummary → Result (PagedResponse WikiGridSummary)
unfolding paged
map_grids wire = paged wire.results wire.next_cursor wire.prev_cursor

unfoldable pub map_grid_mutation : GridMutationWire → GridMutationResponse
unfolding map_grid_row number_text
map_grid_mutation wire = record {
  revision = revision_text wire.revision;
  results = map map_grid_row wire.results;
  warnings = wire.warnings;
}

-- GridCell(...), which checks the cell.
abbrev pub grid_cell : GridCellWire → JsonScalar → Result GridCell
grid_cell item value =
    validated (λ cell. one_of cell.column_id cell.column_slug)
      (record {
        row_id = item.row_id;
        column_id = item.column_id;
        column_slug = item.column_slug;
        value = value;
      })

abbrev pub add_grid_cell :
    GridCellWire → Option JsonScalar → Result (List GridCell) → Result (List GridCell)
add_grid_cell item none rest = rest
add_grid_cell item (some value) rest =
    if not (one_of item.column_id item.column_slug)
    then rest
    else do cell ← grid_cell item value; cells ← rest; ok (cell ∷ cells)

unfoldable pub map_cells : List GridCellWire → Result (List GridCell)
unfolding scalar_of
map_cells [] = ok []
map_cells (item ∷ cells) = add_grid_cell item (scalar_of item.value) (map_cells cells)

unfoldable pub map_grid_cells : GridCellsWire → Result GridCellsResponse
unfolding map_cells number_text
map_grid_cells wire = do
  cells ← map_cells wire.cells
  ok (record { revision = revision_text wire.revision; cells = cells; warnings = wire.warnings })

-- An item of WikiResource is of its type.
pub data WikiResource : Type 0 where
  attachment_resource : WikiAttachment → WikiResource
  grid_resource : WikiGridSummary → WikiResource
