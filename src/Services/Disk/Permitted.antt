-- ===== src/Services/Disk/Permitted.antt =====
-- What a request of `DiskService` needs.
pub mod Reading
pub mod Writing
pub mod Searching
pub mod Uploading
use yandex_workspace_mcp.Prelude.{
  ℕ, zero, suc, ◌≡◌, ◌≤◌, refl, ◌⊎◌, inl, inr, Bool, true, false, not, ◌&&◌, ◌||◌, Text, text, List,
  [], ◌∷◌, Option, none, some, All, leb, ltb, ◌==◌, any, length, mem_text, arith,
}
use yandex_workspace_mcp.Errors.{Result, ok, err, invalid_path, permission_denied, value_error}
use yandex_workspace_mcp.Python.Posixpath.{dirname, join_path}
use yandex_workspace_mcp.Policies.Paths.{normalize_path}
use yandex_workspace_mcp.Policies.Paths.Within.{Within, validate_path-Within}
use yandex_workspace_mcp.Models.Disk.{DiskSort, TrashSort, DiskResource, fields_of, count_items}
use yandex_workspace_mcp.Services.Calls.{
  Call, Sends, returned, of_result, ask, guard, ◌>>=◌, ◌>>◌, ask-Sends, >>=-Sends, of_result-Sends,
  guard-Sends,
}
use yandex_workspace_mcp.Services.Disk.{
  Request, DiskClient, DiskService, client_info, client_list_resources, client_recent,
  client_list_files, client_get_metadata, client_get_download_link, client_create_folder,
  client_copy_resource, client_move_resource, client_delete_resource, client_upload_inline_text,
  client_publish_resource, client_unpublish_resource, client_list_trash, client_get_trash_resource,
  client_restore_from_trash, client_empty_trash, signed_download, signed_validate,
  client_upload_local_file, client_upload_from_url, client_get_public_resource, close_local_file,
  no_roots, authorize_disk_path, filter_resource, filter_page,
}
use yandex_workspace_mcp.Services.Disk.Reads.{
  visible_or_fail, is_binary, info, list_folder, recent, list_page, get_metadata, read_file,
  get_download_url, page_of,
}
use yandex_workspace_mcp.Services.Disk.Writes.{
  is_bad_name, encoded_length, create_folder, copy, move, delete, rename, upload, publish,
  unpublish,
}
use yandex_workspace_mcp.Services.Disk.Trash.{
  list_trash, restore_from_trash, empty_trash, origin_or_fail, destination_or, sent_destination,
}
use yandex_workspace_mcp.Services.Disk.Search.{
  DiskCursors, SearchState, max_scans, batch_size, search_start, next_cursor, scan_page,
  search_rounds, search,
}

module _ (nfkc : Text → Text) (s : DiskService) where
  abbrev Inside : Text → Type 0
  Inside = Within nfkc s.allowed_roots

  -- What a request needs: the switch of its kind, and paths within the allowed roots.
  abbrev pub Permitted : Request → Type 0
  Permitted client_info = s.can_read ≡ true
  Permitted (client_list_resources path limit offset sort) = (s.can_read ≡ true) × Inside path
  Permitted (client_recent limit media_type) = s.can_read ≡ true
  Permitted (client_list_files limit offset media_type) =
      (s.can_read ≡ true) × (1 ≤ limit) × (limit ≤ 100)
  Permitted (client_get_metadata path limit) = ((s.can_read || s.can_write) ≡ true) × Inside path
  Permitted (client_get_download_link path) = (s.can_read ≡ true) × Inside path
  Permitted (client_create_folder path) = (s.can_write ≡ true) × Inside path
  Permitted (client_copy_resource source_path destination_path overwrite) =
      (s.can_write ≡ true) × Inside source_path × Inside destination_path
  Permitted (client_move_resource source_path destination_path overwrite) =
      (s.can_write ≡ true) × Inside source_path × Inside destination_path
  Permitted (client_delete_resource path permanently) =
      (s.can_delete ≡ true) × Inside path × ((permanently && mem_text path s.allowed_roots) ≡ false)
  Permitted (client_upload_inline_text path content overwrite) =
      (s.can_write ≡ true)
      × Inside path
      × (s.has_signed_client ≡ true)
      × (encoded_length content ≤ s.max_upload_bytes)
  Permitted (client_publish_resource path) = (s.can_write ≡ true) × Inside path
  Permitted (client_unpublish_resource path) = (s.can_write ≡ true) × Inside path
  Permitted (client_list_trash limit offset sort) = s.can_read ≡ true
  Permitted (client_get_trash_resource path) = s.can_delete ≡ true
  Permitted (client_restore_from_trash path none overwrite) = s.can_delete ≡ true
  Permitted (client_restore_from_trash path (some destination_path) overwrite) =
      (s.can_delete ≡ true) × Inside destination_path
  Permitted client_empty_trash =
      (s.can_delete ≡ true)
      × (mem_text (text "/") s.allowed_roots ≡ true)
      × (s.allow_global_destructive ≡ true)
  Permitted (signed_download url max_bytes) =
      (s.can_read ≡ true) × (s.has_signed_client ≡ true) × (max_bytes ≡ s.max_inline_text_bytes)
  Permitted (signed_validate url) = (s.can_read ≡ true) × (s.has_signed_client ≡ true)
  Permitted (client_upload_local_file path descriptor overwrite) =
      (s.can_write ≡ true)
      × Inside path
      × (s.has_signed_client ≡ true)
      × (no_roots s.upload_allowed_dirs ≡ false)
  Permitted (client_upload_from_url url path overwrite) =
      (s.can_write ≡ true) × Inside path × (no_roots s.upload_url_allowed_hosts ≡ false)
  Permitted (client_get_public_resource public_key public_url path limit offset) = s.can_read ≡ true
  Permitted (close_local_file descriptor) = Unit {0}

  abbrev pub Safe : {A : Type 0} → Call Request A → Type 0
  Safe m = Sends Permitted m

  -- After a switch that is on.
  pub switch-Safe :
      {B : Type 0} (switch : Bool) (k : Call Request B)
      → (switch ≡ true → Safe k)
      → Safe (guard (not switch) permission_denied >> k)
  switch-Safe switch k h =
      guard-Sends Permitted (not switch) permission_denied k (λ e. h (ground arith))

  pub authorized-Safe :
      {B : Type 0} (path : Text) (f : Text → Call Request B)
      → ((q : Text) → Inside q → Safe (f q))
      → Safe (of_result (authorize_disk_path nfkc s path) >>= f)
  unfolding authorize_disk_path
  authorized-Safe path f h =
      of_result-Sends Permitted (authorize_disk_path nfkc s path) f
        (λ q e. h q (validate_path-Within nfkc path s.allowed_roots e).1)

  -- A request, and what is done with its answer.
  pub ask-then-Safe :
      {A B : Type 0} (answer : List Request → Request → Result A) (request : Request)
      (f : A → Call Request B)
      → Permitted request
      → ((a : A) → Safe (f a))
      → Safe (ask answer request >>= f)
  ask-then-Safe answer request f p h =
      >>=-Sends Permitted (ask answer request) f (ask-Sends Permitted answer request p) h

  pub quiet-Safe : {A : Type 0} (r : Result A) → Safe (of_result r)
  quiet-Safe r = λ sent h. h
