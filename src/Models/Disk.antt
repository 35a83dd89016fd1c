-- ===== src/Models/Disk.antt =====
-- models/disk.py: the public models of the Disk API. The bounds that pydantic checks on a field are
-- left out, and sizes are natural numbers.
use yandex_workspace_mcp.Prelude.{ℕ, suc, Bool, Text, List, Option}

pub data DiskSort : Type 0 where
  by_name by_name_down by_created by_created_down by_modified by_modified_down : DiskSort

pub data TrashSort : Type 0 where
  name name_down deleted deleted_down : TrashSort

pub data ResourceType : Type 0 where
  file dir : ResourceType

pub record DiskInfo : Type 0 where
  pub total_space : ℕ
  pub used_space : ℕ
  pub trash_size : ℕ
  pub max_file_size : ℕ
  pub paid_max_file_size : Option ℕ
  pub system_folders : List (Text × Text)

-- The fields of a DiskResource other than `embedded`.
pub record ResourceFields : Type 0 where
  pub path : Option Text
  pub name : Text
  pub type : ResourceType
  pub size : Option ℕ
  pub mime_type : Option Text
  pub md5 : Option Text
  pub created_at : Option Text
  pub modified_at : Option Text
  pub public_url : Option Text

-- The fields of a DiskResourcePage other than `items`.
pub record PageFields : Type 0 where
  pub limit : ℕ
  pub offset : ℕ
  pub total : Option ℕ
  pub next_cursor : Option Text

-- A DiskResource without and with an embedded page, and the items of a page.
mutual
  pub data DiskResource : Type 0 where
    plain : ResourceFields → DiskResource
    folder : ResourceFields → PageFields → Items → DiskResource

  pub data Items : Type 0 where
    no_items : Items
    item : DiskResource → Items → Items

pub record DiskResourcePage : Type 0 where
  pub items : Items
  pub fields : PageFields

abbrev pub fields_of : DiskResource → ResourceFields
fields_of (plain fields) = fields
fields_of (folder fields page items) = fields

-- len(page.items)
unfoldable pub count_items : Items → ℕ
count_items no_items = 0
count_items (item resource items) = suc (count_items items)

pub record DiskTrashEntry : Type 0 where
  pub resource : DiskResource
  pub origin_path : Option Text

pub record DiskTrashPage : Type 0 where
  pub items : List DiskTrashEntry
  pub limit : ℕ
  pub offset : ℕ
  pub total : Option ℕ

pub record DiskSearchResponse : Type 0 where
  pub items : List DiskResource
  pub query : Text
  pub next_cursor : Option Text
  pub truncated_by_upstream : Bool

pub data OperationStatus : Type 0 where
  completed pending : OperationStatus

pub record DiskOperationResponse : Type 0 where
  pub status : OperationStatus
  pub operation_id : Option Text
  pub path : Option Text

pub record DiskLinkResponse : Type 0 where
  pub download_url : Text
  pub expires_at : Option Text
