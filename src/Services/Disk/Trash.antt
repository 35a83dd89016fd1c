-- ===== src/Services/Disk/Trash.antt =====
-- services/disk.py: the methods on the trash.
use yandex_workspace_mcp.Prelude.{
  ℕ, Bool, not, ◌||◌, Text, text, List, [], ◌∷◌, Option, none, some, mem_text, if◌then◌else◌,
  text_eq,
}
use yandex_workspace_mcp.Errors.{Result, ok, err, invalid_path, permission_denied}
use yandex_workspace_mcp.Policies.Paths.{normalize_path}
use yandex_workspace_mcp.Models.Disk.{
  TrashSort, Items, no_items, item, DiskResourcePage, DiskTrashEntry, DiskOperationResponse,
}
use yandex_workspace_mcp.Services.Calls.{Call, returned, of_result, ask, guard, ◌>>=◌, ◌>>◌}
use yandex_workspace_mcp.Services.Disk.{
  Request, DiskClient, DiskService, client_list_trash, client_get_trash_resource,
  client_restore_from_trash, client_empty_trash, authorize_disk_path, is_visible,
}

-- `if entry.origin_path is None: raise InvalidPath()`
abbrev pub origin_or_fail : Option Text → Result Text
origin_or_fail none = err invalid_path
origin_or_fail (some path) = ok path

-- `destination_path or entry.origin_path`
abbrev pub destination_or : Option Text → Text → Text
destination_or none origin_path = origin_path
destination_or (some destination_path) origin_path =
    if text_eq destination_path [] then origin_path else destination_path

-- `effective_destination if destination_path is not None else None`
abbrev pub sent_destination : Option Text → Text → Option Text
sent_destination none effective = none
sent_destination (some destination_path) effective = some effective

module _ (nfkc : Text → Text) (client : DiskClient) (s : DiskService) where
  -- The loop of list_trash.
  unfoldable pub restorable : List DiskTrashEntry → Items
  restorable [] = no_items
  restorable (entry ∷ entries) =
      let rest = restorable entries in
      if is_visible nfkc s entry.origin_path then item entry.resource rest else rest

  unfoldable pub list_trash : ℕ → ℕ → TrashSort → Call Request DiskResourcePage
  list_trash limit offset sort = do
    guard (not s.can_read) permission_denied
    page ← ask client.answer_trash_page (client_list_trash limit offset sort)
    returned (record {
      items = restorable page.items;
      fields = record {
        limit = page.limit;
        offset = page.offset;
        total = page.total;
        next_cursor = none;
      };
    })

  unfoldable pub restore_from_trash : Text → Option Text → Bool → Call Request DiskOperationResponse
  restore_from_trash trash_path destination_path overwrite = do
    guard (not s.can_delete) permission_denied
    normalized_trash_path ← of_result (normalize_path nfkc trash_path)
    entry ← ask client.answer_trash_entry (client_get_trash_resource normalized_trash_path)
    origin_path ← of_result (origin_or_fail entry.origin_path)
    valid_origin ← of_result (authorize_disk_path nfkc s origin_path)
    effective_destination ←
        of_result (authorize_disk_path nfkc s (destination_or destination_path origin_path))
    ask client.answer_operation (
        client_restore_from_trash normalized_trash_path
          (sent_destination destination_path effective_destination) overwrite)

  unfoldable pub empty_trash : Bool → Call Request DiskOperationResponse
  empty_trash confirm = do
    guard
        (not s.can_delete
          || not (mem_text (text "/") s.allowed_roots)
          || not s.allow_global_destructive
          || not confirm)
        invalid_path
    ask client.answer_operation client_empty_trash
