-- ===== src/Services/Disk/Reads.antt =====
-- services/disk.py: the methods that read.
use yandex_workspace_mcp.Prelude.{
  ℕ, Bool, false, not, ◌&&◌, Text, text, List, [], Option, none, some, text_eq, starts_with,
  is_part,
}
use yandex_workspace_mcp.Errors.{Result, ok, err, invalid_path, permission_denied}
use yandex_workspace_mcp.Models.Disk.{
  DiskSort, DiskInfo, DiskResource, plain, folder, no_items, item, DiskResourcePage, fields_of,
  DiskLinkResponse,
}
use yandex_workspace_mcp.Services.Calls.{Call, returned, of_result, ask, guard, ◌>>=◌, ◌>>◌}
use yandex_workspace_mcp.Services.Disk.{
  Request, DiskClient, DiskService, client_info, client_list_resources, client_recent,
  client_get_metadata, client_get_download_link, signed_download, signed_validate,
  authorize_disk_path, filter_resource, filter_page,
}

-- `filtered`, or `InvalidPath` where the filter kept nothing.
abbrev pub visible_or_fail : Option DiskResource → Result DiskResource
visible_or_fail none = err invalid_path
visible_or_fail (some filtered) = ok filtered

-- `meta.mime_type` of a file that `read_file` does not take for text.
unfoldable pub is_binary : Option Text → Bool
is_binary none = false
is_binary (some mime) =
    not (text_eq mime [])
    && not (starts_with (text "text/") mime)
    && not (is_part (text "json") mime)
    && not (is_part (text "xml") mime)
    && not (text_eq mime (text "application/x-empty"))

-- `resource.embedded`, or a page with the resource alone.
unfoldable pub page_of : ℕ → ℕ → DiskResource → DiskResourcePage
page_of limit offset (folder fields page items) = record { items = items; fields = page }
page_of limit offset (plain fields) = record {
  items = item (plain fields) no_items;
  fields = record { limit = limit; offset = offset; total = some 1; next_cursor = none };
}

module _ (nfkc : Text → Text) (client : DiskClient) (s : DiskService) where
  unfoldable pub info : Call Request DiskInfo
  info = do guard (not s.can_read) permission_denied; ask client.answer_info client_info

  unfoldable pub list_folder : Text → ℕ → ℕ → DiskSort → Call Request DiskResource
  list_folder path limit offset sort = do
    guard (not s.can_read) permission_denied
    valid_path ← of_result (authorize_disk_path nfkc s path)
    resource ← ask client.answer_resource (client_list_resources valid_path limit offset sort)
    of_result (visible_or_fail (filter_resource nfkc s resource))

  unfoldable pub recent : ℕ → Option Text → Call Request DiskResourcePage
  recent limit media_type = do
    guard (not s.can_read) permission_denied
    page ← ask client.answer_page (client_recent limit media_type)
    returned (filter_page nfkc s page)

  unfoldable pub list_page : Text → ℕ → ℕ → DiskSort → Call Request DiskResourcePage
  list_page path limit offset sort = do
    resource ← list_folder path limit offset sort
    returned (page_of limit offset resource)

  unfoldable pub get_metadata : Text → Call Request DiskResource
  get_metadata path = do
    guard (not s.can_read) permission_denied
    valid_path ← of_result (authorize_disk_path nfkc s path)
    resource ← ask client.answer_resource (client_get_metadata valid_path 1)
    of_result (visible_or_fail (filter_resource nfkc s resource))

  -- `decode` is `bytes.decode("utf-8", errors="replace")`.
  unfoldable pub read_file : (decode : List ℕ → Text) → Text → Call Request Text
  read_file decode path = do
    guard (not s.can_read) permission_denied
    valid_path ← of_result (authorize_disk_path nfkc s path)
    meta ← ask client.answer_resource (client_get_metadata valid_path 1)
    guard (is_binary (fields_of meta).mime_type) permission_denied
    guard (not s.has_signed_client) permission_denied
    link ← ask client.answer_link (client_get_download_link valid_path)
    content ← ask client.answer_bytes (signed_download link.download_url s.max_inline_text_bytes)
    returned (decode content)

  unfoldable pub get_download_url : Text → Call Request DiskLinkResponse
  get_download_url path = do
    guard (not s.can_read) permission_denied
    valid_path ← of_result (authorize_disk_path nfkc s path)
    guard (not s.has_signed_client) permission_denied
    link ← ask client.answer_link (client_get_download_link valid_path)
    ask client.answer_nothing (signed_validate link.download_url)
    returned link
