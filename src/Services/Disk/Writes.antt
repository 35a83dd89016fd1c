-- ===== src/Services/Disk/Writes.antt =====
-- services/disk.py: the methods that change the Disk. What the audit log gets is left out; a failure
-- is raised again after it is logged.
use yandex_workspace_mcp.Prelude.{
  ℕ, ◌+◌, Bool, not, ◌||◌, ◌&&◌, Text, text, [], ◌∷◌, ltb, leb, any, if◌then◌else◌, text_eq,
  has_char, mem_text,
}
use yandex_workspace_mcp.Errors.{invalid_path, permission_denied, value_error}
use yandex_workspace_mcp.Python.Posixpath.{dirname, join_path}
use yandex_workspace_mcp.Models.Disk.{DiskOperationResponse, DiskResource}
use yandex_workspace_mcp.Services.Calls.{Call, of_result, ask, guard, ◌>>=◌, ◌>>◌}
use yandex_workspace_mcp.Services.Disk.{
  Request, DiskClient, DiskService, client_create_folder, client_copy_resource,
  client_move_resource, client_delete_resource, client_upload_inline_text, client_publish_resource,
  client_unpublish_resource, client_get_metadata, authorize_disk_path,
}

abbrev pub is_surrogate : ℕ → Bool
is_surrogate c = leb 0xd800 c && leb c 0xdfff

-- len(content.encode("utf-8"))
unfoldable pub encoded_length : Text → ℕ
encoded_length [] = 0
encoded_length (c ∷ content) =
    (if ltb c 0x80 then 1 else if ltb c 0x800 then 2 else if ltb c 0x10000 then 3 else 4)
    + encoded_length content

-- The names that `rename` refuses.
unfoldable pub is_bad_name : Text → Bool
is_bad_name new_name =
    text_eq new_name []
    || text_eq new_name (text ".")
    || text_eq new_name (text "..")
    || has_char b'/' new_name
    || has_char b'\\' new_name

module _ (nfkc : Text → Text) (client : DiskClient) (s : DiskService) where
  unfoldable pub create_folder : Text → Call Request DiskOperationResponse
  create_folder path = do
    guard (not s.can_write) permission_denied
    valid_path ← of_result (authorize_disk_path nfkc s path)
    ask client.answer_operation (client_create_folder valid_path)

  unfoldable pub copy : Text → Text → Bool → Call Request DiskOperationResponse
  copy from_path to_path overwrite = do
    guard (not s.can_write) permission_denied
    valid_from ← of_result (authorize_disk_path nfkc s from_path)
    valid_to ← of_result (authorize_disk_path nfkc s to_path)
    ask client.answer_operation (client_copy_resource valid_from valid_to overwrite)

  unfoldable pub move : Text → Text → Bool → Call Request DiskOperationResponse
  move from_path to_path overwrite = do
    guard (not s.can_write) permission_denied
    valid_from ← of_result (authorize_disk_path nfkc s from_path)
    valid_to ← of_result (authorize_disk_path nfkc s to_path)
    ask client.answer_operation (client_move_resource valid_from valid_to overwrite)

  unfoldable pub delete : Text → Bool → Call Request DiskOperationResponse
  delete path permanently = do
    guard (not s.can_delete) permission_denied
    valid_path ← of_result (authorize_disk_path nfkc s path)
    guard (permanently && mem_text valid_path s.allowed_roots) invalid_path
    ask client.answer_operation (client_delete_resource valid_path permanently)

  unfoldable pub rename : Text → Text → Bool → Call Request DiskOperationResponse
  rename path new_name overwrite = do
    guard (not s.can_write) permission_denied
    valid_path ← of_result (authorize_disk_path nfkc s path)
    guard (is_bad_name new_name) invalid_path
    destination ← of_result (authorize_disk_path nfkc s (join_path (dirname valid_path) new_name))
    ask client.answer_operation (client_move_resource valid_path destination overwrite)

  -- A lone surrogate has no UTF-8 encoding.
  unfoldable pub upload : Text → Text → Bool → Call Request DiskOperationResponse
  upload path content overwrite = do
    guard (not s.can_write) permission_denied
    valid_path ← of_result (authorize_disk_path nfkc s path)
    guard (any is_surrogate content) value_error
    guard (ltb s.max_upload_bytes (encoded_length content)) permission_denied
    guard (not s.has_signed_client) permission_denied
    ask client.answer_operation (client_upload_inline_text valid_path content overwrite)

  unfoldable pub publish : Text → Call Request DiskResource
  publish path = do
    guard (not s.can_write) permission_denied
    valid_path ← of_result (authorize_disk_path nfkc s path)
    published ← ask client.answer_operation (client_publish_resource valid_path)
    ask client.answer_resource (client_get_metadata valid_path 50)

  unfoldable pub unpublish : Text → Call Request DiskOperationResponse
  unpublish path = do
    guard (not s.can_write) permission_denied
    valid_path ← of_result (authorize_disk_path nfkc s path)
    ask client.answer_operation (client_unpublish_resource valid_path)
