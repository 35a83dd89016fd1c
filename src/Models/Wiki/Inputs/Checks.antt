-- ===== src/Models/Wiki/Inputs/Checks.antt =====
-- models/wiki.py: what pydantic checks of an input, the bounds of its fields and its validators. A
-- ValidationError is a ValueError. A field that is a natural number here is not negative.
use yandex_workspace_mcp.Prelude.{
  ℕ, ◌+◌, ◌≡◌, arith, Bool, true, false, not, ◌&&◌, ◌||◌, Text, List, [], ◌∷◌, Option, none, some,
  length, leb, ◌==◌, if◌then◌else◌, all, map, mem_text,
}
use yandex_workspace_mcp.Prelude.Int.{is_positive}
use yandex_workspace_mcp.Errors.{Result, ok, err, value_error}
use yandex_workspace_mcp.Models.Wiki.Inputs.{
  WikiSearchInput, PageLocator, DescendantsInput, PageListInput, ResourceKind, attachment, grid,
  PageResourceListInput, GridGetInput, PageCreateInput, PageUpdateInput, PageAppendInput, top,
  bottom, PageCloneInput, CommentCreateInput, GridUpdateInput, GridCopyInput, GridRowsAddInput,
  GridCellUpdate, GridCellsUpdateInput, GridRowsDeleteInput, GridRowMoveInput, ColumnType, select,
  staff, GridColumnCreate, GridColumnsAddInput, GridColumnsDeleteInput, Location,
}

-- Field(min_length=low, max_length=high)
abbrev pub sized {ℓ} : {A : Type ℓ} → ℕ → ℕ → List A → Bool
sized low high xs = leb low (length xs) && leb (length xs) high

-- A check of a field that may be None.
abbrev pub if_given {ℓ} : {A : Type ℓ} → (A → Bool) → Option A → Bool
if_given check none = true
if_given check (some a) = check a

abbrev pub is_given {ℓ} : {A : Type ℓ} → Option A → Bool
is_given none = false
is_given (some a) = true

-- Slug, Cursor and OpaqueID
abbrev pub is_slug : Text → Bool
is_slug t = sized 1 1024 t

abbrev pub is_cursor : Text → Bool
is_cursor t = sized 1 4096 t

abbrev pub is_opaque_id : Text → Bool
is_opaque_id t = sized 1 2048 t

-- set(values): a set holds a value once.
unfoldable pub set_of : List Text → List Text
set_of [] = []
set_of (v ∷ values) = let rest = set_of values in if mem_text v rest then rest else v ∷ rest

-- _duplicates
unfoldable pub duplicates : List Text → Bool
unfolding set_of
duplicates values = not (length values == length (set_of values))

-- A model is read, or its validation fails.
abbrev pub validated {ℓ} : {A : Type ℓ} → (A → Bool) → A → Result A
validated check a = if check a then ok a else err value_error

abbrev pub is_search_input : WikiSearchInput → Bool
is_search_input i = sized 1 1000 i.query && (leb 1 i.limit && (leb i.limit 50 && leb 1 i.page))

-- sum(value is not None for value in ...)
abbrev pub given {ℓ} : {A : Type ℓ} → Option A → ℕ
given none = 0
given (some a) = 1

unfoldable pub is_page_locator : PageLocator → Bool
unfolding is_positive
is_page_locator l =
    if_given is_positive l.page_id
    && (if_given is_slug l.slug
        && (if_given (λ url. sized 1 2048 url) l.url
            && given l.page_id + given l.slug + given l.url == 1))

-- The fields of a page of a list: PageListInput and DescendantsInput.
abbrev pub is_page_of : PageLocator → ℕ → Option Text → Bool
is_page_of locator page_size cursor =
    is_page_locator locator && (leb 1 page_size && (leb page_size 100 && if_given is_cursor cursor))

unfoldable pub is_descendants_input : DescendantsInput → Bool
unfolding is_page_locator
is_descendants_input i = is_page_of i.locator i.page_size i.cursor

unfoldable pub is_page_list_input : PageListInput → Bool
unfolding is_page_locator
is_page_list_input i = is_page_of i.locator i.page_size i.cursor

-- `self.resource_types and _duplicates(self.resource_types)` of a list of one or two kinds.
abbrev pub kinds_repeat : List ResourceKind → Bool
kinds_repeat (attachment ∷ (attachment ∷ [])) = true
kinds_repeat (grid ∷ (grid ∷ [])) = true
kinds_repeat _ = false

unfoldable pub is_page_resource_list_input : PageResourceListInput → Bool
unfolding is_page_locator
is_page_resource_list_input i =
    is_page_of i.locator i.page_size i.cursor
    && if_given (λ kinds. sized 1 2 kinds && not (kinds_repeat kinds)) i.resource_types

-- A list of identifiers without repetition.
abbrev pub unique_ids : ℕ → List Text → Bool
unique_ids most ids = sized 1 most ids && (all is_opaque_id ids && not (duplicates ids))

unfoldable pub is_grid_get_input : GridGetInput → Bool
is_grid_get_input i =
    is_opaque_id i.grid_id
    && (if_given (unique_ids 100) i.row_ids && if_given (unique_ids 100) i.column_slugs)

-- Titles of pages, and content: WIKI_MAX_CONTENT_CHARS
abbrev pub is_title : Text → Bool
is_title t = sized 1 500 t

abbrev pub is_content : Text → Bool
is_content t = leb (length t) 2000000

unfoldable pub is_page_create_input : PageCreateInput → Bool
is_page_create_input i = is_slug i.slug && (is_title i.title && is_content i.content)

unfoldable pub is_page_update_input : PageUpdateInput → Bool
unfolding is_page_locator
is_page_update_input i =
    is_page_locator i.locator
    && (if_given is_title i.title
        && (if_given is_content i.content && (is_given i.title || is_given i.content)))

abbrev pub is_bottom : Location → Bool
is_bottom bottom = true
is_bottom top = false

unfoldable pub is_page_append_input : PageAppendInput → Bool
unfolding is_page_locator
is_page_append_input i =
    is_page_locator i.locator
    && (sized 1 2000000 i.content
        && (if_given (λ anchor. sized 1 1024 anchor) i.anchor
            && (not (is_given i.anchor) || is_bottom i.location)))

unfoldable pub is_page_clone_input : PageCloneInput → Bool
unfolding is_page_locator
is_page_clone_input i =
    is_page_locator i.source && (is_slug i.destination_slug && if_given is_title i.title)

-- WIKI_MAX_COMMENT_CHARS
unfoldable pub is_comment_create_input : CommentCreateInput → Bool
unfolding is_page_locator
is_comment_create_input i =
    is_page_locator i.locator
    && (sized 1 100000 i.body && if_given is_opaque_id i.parent_comment_id)

-- Titles of grids and of their columns.
abbrev pub is_grid_title : Text → Bool
is_grid_title t = sized 1 255 t

unfoldable pub is_grid_update_input : GridUpdateInput → Bool
is_grid_update_input i =
    is_opaque_id i.grid_id
    && (if_given is_grid_title i.title
        && ((is_given i.title || is_given i.default_sort)
            && if_given
                (λ sorts.
                  sized 1 16 sorts
                  && (all (λ sort. is_opaque_id sort.column_slug) sorts
                      && not (duplicates (map (λ sort. sort.column_slug) sorts))))
                i.default_sort))

unfoldable pub is_grid_copy_input : GridCopyInput → Bool
unfolding is_page_locator
is_grid_copy_input i =
    is_opaque_id i.grid_id && (is_page_locator i.destination && if_given is_grid_title i.title)

unfoldable pub is_grid_rows_add_input : GridRowsAddInput → Bool
is_grid_rows_add_input i =
    is_opaque_id i.grid_id
    && (sized 1 1000 i.rows
        && (all (λ row. all (λ cell. is_opaque_id cell.0) row) i.rows
            && (if_given is_opaque_id i.after_row_id
                && not (is_given i.position && is_given i.after_row_id))))

-- Exactly one column locator.
abbrev pub one_of : Option Text → Option Text → Bool
one_of column_id column_slug = given column_id + given column_slug == 1

unfoldable pub is_grid_cell_update : GridCellUpdate → Bool
is_grid_cell_update c =
    is_opaque_id c.row_id
    && (if_given is_opaque_id c.column_id
        && (if_given is_opaque_id c.column_slug && one_of c.column_id c.column_slug))

unfoldable pub is_grid_cells_update_input : GridCellsUpdateInput → Bool
unfolding is_grid_cell_update
is_grid_cells_update_input i =
    is_opaque_id i.grid_id && (sized 1 1000 i.cells && all is_grid_cell_update i.cells)

unfoldable pub is_grid_rows_delete_input : GridRowsDeleteInput → Bool
is_grid_rows_delete_input i = is_opaque_id i.grid_id && unique_ids 1000 i.row_ids

unfoldable pub is_grid_row_move_input : GridRowMoveInput → Bool
is_grid_row_move_input i =
    is_opaque_id i.grid_id
    && (is_opaque_id i.row_id
        && (if_given is_opaque_id i.after_row_id && given i.position + given i.after_row_id == 1))

-- ^[a-z0-9][a-z0-9_-]*$
abbrev pub is_low_or_digit : ℕ → Bool
is_low_or_digit c = leb b'a' c && leb c b'z' || leb b'0' c && leb c b'9'

abbrev pub is_column_slug : Text → Bool
is_column_slug [] = false
is_column_slug (c ∷ t) =
    is_low_or_digit c && all (λ d. is_low_or_digit d || (d == b'_' || d == b'-')) t

abbrev pub is_select : ColumnType → Bool
is_select select = true
is_select _ = false

abbrev pub is_staff : ColumnType → Bool
is_staff staff = true
is_staff _ = false

abbrev pub are_options : Option (List Text) → Bool
are_options none = false
are_options (some options) = sized 1 100 options && not (duplicates options)

unfoldable pub is_grid_column_create : GridColumnCreate → Bool
is_grid_column_create c =
    is_grid_title c.title
    && (sized 1 128 c.slug
        && (is_column_slug c.slug
            && ((if is_select c.type
                  then are_options c.select_options
                  else not (is_given c.select_options))
                && (is_staff c.type || not (is_given c.multiple)))))

-- The validator of a staff column sets a flag that is missing.
unfoldable pub column_read : GridColumnCreate → GridColumnCreate
column_read c =
    if is_staff c.type && not (is_given c.multiple) then record c { multiple = some false } else c

unfoldable pub is_grid_columns_add_input : GridColumnsAddInput → Bool
unfolding is_grid_column_create
is_grid_columns_add_input i =
    is_opaque_id i.grid_id
    && (sized 1 100 i.columns
        && (all is_grid_column_create i.columns
            && not (duplicates (map (λ column. column.slug) i.columns))))

unfoldable pub is_grid_columns_delete_input : GridColumnsDeleteInput → Bool
is_grid_columns_delete_input i = is_opaque_id i.grid_id && unique_ids 100 i.column_slugs

-- A model that is read is the one that was given.
pub validated-ok {ℓ} :
    {A : Type ℓ} (check : A → Bool) (a : A) {b : A} → validated check a ≡ ok b → a ≡ b
validated-ok check a h = ground arith
