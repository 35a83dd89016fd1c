-- ===== src/Models/Wiki/Inputs.antt =====
-- models/wiki.py: what the tools of the Wiki take. A record is the model as it stands after pydantic
-- has read it; what pydantic checks there stands in the child module.
pub mod Checks
pub mod Unique
use yandex_workspace_mcp.Prelude.{ℕ, Bool, Text, List, Option}
use yandex_workspace_mcp.Prelude.Int.{ℤ}
use yandex_workspace_mcp.Models.Wiki.Json.{JsonScalar}

pub record WikiSearchInput : Type 0 where
  pub query : Text
  pub limit : ℕ
  pub page : ℕ

pub record PageLocator : Type 0 where
  pub page_id : Option ℤ
  pub slug : Option Text
  pub url : Option Text

pub record PageDeleteInput : Type 0 where
  pub locator : PageLocator

pub record DescendantsInput : Type 0 where
  pub locator : PageLocator
  pub include_self : Bool
  pub page_size : ℕ
  pub cursor : Option Text

pub record PageListInput : Type 0 where
  pub locator : PageLocator
  pub page_size : ℕ
  pub cursor : Option Text

pub data ResourceKind : Type 0 where
  attachment grid : ResourceKind

pub record PageResourceListInput : Type 0 where
  pub locator : PageLocator
  pub page_size : ℕ
  pub cursor : Option Text
  pub resource_types : Option (List ResourceKind)

pub record GridGetInput : Type 0 where
  pub grid_id : Text
  pub revision : Option ℕ
  pub row_ids : Option (List Text)
  pub column_slugs : Option (List Text)

pub record PageCreateInput : Type 0 where
  pub slug : Text
  pub title : Text
  pub content : Text

pub record PageUpdateInput : Type 0 where
  pub locator : PageLocator
  pub title : Option Text
  pub content : Option Text
  pub allow_merge : Bool
  pub is_silent : Bool

pub data Location : Type 0 where
  top bottom : Location

pub record PageAppendInput : Type 0 where
  pub locator : PageLocator
  pub content : Text
  pub location : Location
  pub anchor : Option Text

pub record PageCloneInput : Type 0 where
  pub source : PageLocator
  pub destination_slug : Text
  pub title : Option Text

pub record CommentCreateInput : Type 0 where
  pub locator : PageLocator
  pub body : Text
  pub parent_comment_id : Option Text

pub record PageRecoverInput : Type 0 where
  pub recovery_token : Text

pub record WikiAttachmentUploadInput : Type 0 where
  pub locator : PageLocator
  pub file_path : Text
  pub append_markup : Bool
  pub append_location : Location

pub data Direction : Type 0 where
  asc desc : Direction

pub record GridSort : Type 0 where
  pub column_slug : Text
  pub direction : Direction

pub record GridCreateInput : Type 0 where
  pub locator : PageLocator
  pub title : Text

pub record GridUpdateInput : Type 0 where
  pub grid_id : Text
  pub revision : ℕ
  pub title : Option Text
  pub default_sort : Option (List GridSort)

pub record GridCopyInput : Type 0 where
  pub grid_id : Text
  pub destination : PageLocator
  pub title : Option Text

pub record GridDeleteInput : Type 0 where
  pub grid_id : Text
  pub revision : Option ℕ

pub record GridRowsAddInput : Type 0 where
  pub grid_id : Text
  pub revision : ℕ
  pub rows : List (List (Text × JsonScalar))
  pub position : Option ℕ
  pub after_row_id : Option Text

pub record GridCellUpdate : Type 0 where
  pub row_id : Text
  pub column_id : Option Text
  pub column_slug : Option Text
  pub value : JsonScalar

pub record GridCellsUpdateInput : Type 0 where
  pub grid_id : Text
  pub revision : ℕ
  pub cells : List GridCellUpdate

pub record GridRowsDeleteInput : Type 0 where
  pub grid_id : Text
  pub revision : ℕ
  pub row_ids : List Text

pub record GridRowMoveInput : Type 0 where
  pub grid_id : Text
  pub revision : ℕ
  pub row_id : Text
  pub position : Option ℕ
  pub after_row_id : Option Text

pub data ColumnType : Type 0 where
  string number checkbox date select staff : ColumnType

pub record GridColumnCreate : Type 0 where
  pub title : Text
  pub slug : Text
  pub type : ColumnType
  pub required : Bool
  pub select_options : Option (List Text)
  pub multiple : Option Bool

pub record GridColumnsAddInput : Type 0 where
  pub grid_id : Text
  pub revision : ℕ
  pub columns : List GridColumnCreate
  pub position : Option ℕ

pub record GridColumnsDeleteInput : Type 0 where
  pub grid_id : Text
  pub revision : ℕ
  pub column_slugs : List Text

pub record GridColumnMoveInput : Type 0 where
  pub grid_id : Text
  pub revision : ℕ
  pub column_slug : Text
  pub position : ℕ
