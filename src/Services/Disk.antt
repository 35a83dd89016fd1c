-- ===== src/Services/Disk.antt =====
-- services/disk.py: `DiskService`, without its log lines. The client of the Disk API and the
-- client for signed links are a `DiskClient`, the codec of the search cursors is a `DiskCursors`;
-- the credentials, which the methods hand on to the client, are left out.
pub mod Reads
pub mod Writes
pub mod Trash
pub mod Uploads
pub mod Search
pub mod Permitted
pub mod Offered
pub mod Filtered
pub mod Roots
pub mod Background
mod Tests
use yandex_workspace_mcp.Prelude.{
  ℕ, Bool, true, false, not, ◌||◌, ◌&&◌, Text, text, List, [], ◌∷◌, Option, none, some, text_eq,
  if◌then◌else◌, mem_text,
}
use yandex_workspace_mcp.Errors.{Result, ok, err, invalid_path, raise_if, ◌>>=◌, ◌>>◌}
use yandex_workspace_mcp.Policies.Paths.{validate_path, normalized_roots}
use yandex_workspace_mcp.Services.Calls.{Call}
use yandex_workspace_mcp.Models.Disk.{
  DiskSort, TrashSort, DiskInfo, ResourceFields, PageFields, DiskResource, plain, folder, Items,
  no_items, item, DiskResourcePage, fields_of, DiskTrashEntry, DiskTrashPage, DiskOperationResponse,
  DiskLinkResponse,
}

-- The calls of YandexDiskClient and of SignedTransferClient, and the closing of a local file.
pub data Request : Type 0 where
  client_info : Request
  client_list_resources : (path : Text) (limit offset : ℕ) (sort : DiskSort) → Request
  client_recent : (limit : ℕ) (media_type : Option Text) → Request
  client_list_files : (limit offset : ℕ) (media_type : Option Text) → Request
  client_get_metadata : (path : Text) (limit : ℕ) → Request
  client_get_download_link : (path : Text) → Request
  client_create_folder : (path : Text) → Request
  client_copy_resource client_move_resource :
      (source_path destination_path : Text) (overwrite : Bool) → Request
  client_delete_resource : (path : Text) (permanently : Bool) → Request
  client_upload_inline_text : (path content : Text) (overwrite : Bool) → Request
  client_publish_resource client_unpublish_resource : (path : Text) → Request
  client_list_trash : (limit offset : ℕ) (sort : TrashSort) → Request
  client_get_trash_resource : (path : Text) → Request
  client_restore_from_trash :
      (path : Text) (destination_path : Option Text) (overwrite : Bool) → Request
  client_empty_trash : Request
  signed_download : (url : Text) (max_bytes : ℕ) → Request
  signed_validate : (url : Text) → Request
  client_upload_local_file : (path : Text) (descriptor : ℕ) (overwrite : Bool) → Request
  client_upload_from_url : (url path : Text) (overwrite : Bool) → Request
  client_get_public_resource :
      (public_key public_url path : Option Text) (limit offset : ℕ) → Request
  close_local_file : (descriptor : ℕ) → Request

-- What the clients return for a request, after the requests before it.
pub record DiskClient : Type 0 where
  pub answer_info : List Request → Request → Result DiskInfo
  pub answer_resource : List Request → Request → Result DiskResource
  pub answer_page : List Request → Request → Result DiskResourcePage
  pub answer_link : List Request → Request → Result DiskLinkResponse
  pub answer_operation : List Request → Request → Result DiskOperationResponse
  pub answer_trash_page : List Request → Request → Result DiskTrashPage
  pub answer_trash_entry : List Request → Request → Result DiskTrashEntry
  pub answer_bytes : List Request → Request → Result (List ℕ)
  pub answer_nothing : List Request → Request → Result (Unit {0})

pub record DiskService : Type 0 where
  pub allowed_roots : List Text
  pub can_read : Bool
  pub can_write : Bool
  pub can_delete : Bool
  pub max_upload_bytes : ℕ
  pub has_signed_client : Bool
  pub allow_global_destructive : Bool
  pub max_inline_text_bytes : ℕ
  pub upload_allowed_dirs : List Text
  pub upload_url_allowed_hosts : List Text
  pub allowed_public_keys : List Text

-- `not allowed_roots`
abbrev pub no_roots : List Text → Bool
no_roots [] = true
no_roots (root ∷ roots) = false

module _ (nfkc : Text → Text) where
  -- __init__
  unfoldable pub disk_service :
      List Text
      → Bool
      → Bool
      → Bool
      → ℕ
      → Bool
      → Bool
      → ℕ
      → List Text
      → List Text
      → List Text
      → Result DiskService
  disk_service allowed_roots can_read can_write can_delete max_upload_bytes has_signed_client
        allow_global_destructive max_inline_text_bytes upload_allowed_dirs upload_url_allowed_hosts
        allowed_public_keys =
      do
        raise_if ((can_read || (can_write || can_delete)) && no_roots allowed_roots) invalid_path
        roots ← normalized_roots nfkc allowed_roots
        ok (record {
          allowed_roots = roots;
          can_read = can_read;
          can_write = can_write;
          can_delete = can_delete;
          max_upload_bytes = max_upload_bytes;
          has_signed_client = has_signed_client;
          allow_global_destructive = allow_global_destructive;
          max_inline_text_bytes = max_inline_text_bytes;
          upload_allowed_dirs = upload_allowed_dirs;
          upload_url_allowed_hosts = upload_url_allowed_hosts;
          allowed_public_keys = allowed_public_keys;
        })

  module _ (s : DiskService) where
    unfoldable pub authorize_disk_path : Text → Result Text
    authorize_disk_path path = validate_path nfkc path s.allowed_roots

    -- Whether `_filter_resource` keeps a resource with this path.
    unfoldable pub is_visible : Option Text → Bool
    is_visible none = false
    is_visible (some path) = elim (authorize_disk_path path) [ ok _ ↦ true | err _ ↦ false ]

    -- _filter_resource, on a resource that it keeps, and the loop of _filter_page.
    unfoldable mutual
      pub filter_embedded : DiskResource → DiskResource
      filter_embedded (plain fields) = plain fields
      filter_embedded (folder fields page items) = folder fields page (filter_items items)

      pub filter_items : Items → Items
      filter_items no_items = no_items
      filter_items (item resource items) =
          let rest = filter_items items in
          let kept = item (filter_embedded resource) rest in
          if is_visible (fields_of resource).path then kept else rest

    unfoldable pub filter_resource : DiskResource → Option DiskResource
    filter_resource resource =
        if is_visible (fields_of resource).path then some (filter_embedded resource) else none

    unfoldable pub filter_page : DiskResourcePage → DiskResourcePage
    filter_page page = record page { items = filter_items page.items }
