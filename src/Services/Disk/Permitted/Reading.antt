-- ===== src/Services/Disk/Permitted/Reading.antt =====
-- What the methods that read, and those on the trash, send upstream.
use yandex_workspace_mcp.Prelude.{
  ℕ, ◌≡◌, refl, Bool, true, not, ◌||◌, Text, text, List, Option, none, some, mem_text, arith,
}
use yandex_workspace_mcp.Errors.{invalid_path, permission_denied}
use yandex_workspace_mcp.Policies.Paths.{normalize_path}
use yandex_workspace_mcp.Policies.Paths.Within.{Within}
use yandex_workspace_mcp.Models.Disk.{DiskSort, TrashSort, fields_of}
use yandex_workspace_mcp.Services.Calls.{ask-Sends, >>=-Sends, of_result-Sends, guard-Sends}
use yandex_workspace_mcp.Services.Disk.{
  DiskClient, DiskService, client_info, client_list_resources, client_recent, client_get_metadata,
  client_get_download_link, client_list_trash, client_get_trash_resource, client_restore_from_trash,
  client_empty_trash, signed_download, signed_validate,
}
use yandex_workspace_mcp.Services.Disk.Permitted.{
  Permitted, Safe, switch-Safe, authorized-Safe, ask-then-Safe,
}
use yandex_workspace_mcp.Services.Disk.Reads.{
  is_binary, info, list_folder, recent, list_page, get_metadata, read_file, get_download_url,
}
use yandex_workspace_mcp.Services.Disk.Trash.{
  list_trash, restore_from_trash, empty_trash, origin_or_fail, destination_or, sent_destination,
}

module _ (nfkc : Text → Text) (client : DiskClient) (s : DiskService) where
  pub info-Safe : Safe nfkc s (info nfkc client s)
  unfolding info
  info-Safe =
      switch-Safe nfkc s s.can_read _
        (λ on. ask-Sends (Permitted nfkc s) client.answer_info client_info on)

  pub list_folder-Safe :
      (path : Text) (limit offset : ℕ) (sort : DiskSort)
      → Safe nfkc s (list_folder nfkc client s path limit offset sort)
  unfolding list_folder
  list_folder-Safe path limit offset sort = switch-Safe nfkc s s.can_read _ (λ on.
      authorized-Safe nfkc s path _ (λ q inside.
        ask-then-Safe nfkc s client.answer_resource (client_list_resources q limit offset sort) _
          (on, inside) (λ a sent h. h)))

  pub recent-Safe :
      (limit : ℕ) (media_type : Option Text) → Safe nfkc s (recent nfkc client s limit media_type)
  unfolding recent
  recent-Safe limit media_type = switch-Safe nfkc s s.can_read _ (λ on.
      ask-then-Safe nfkc s client.answer_page (client_recent limit media_type) _ on (λ a sent h. h))

  pub list_page-Safe :
      (path : Text) (limit offset : ℕ) (sort : DiskSort)
      → Safe nfkc s (list_page nfkc client s path limit offset sort)
  unfolding list_page
  list_page-Safe path limit offset sort =
      >>=-Sends (Permitted nfkc s) (list_folder nfkc client s path limit offset sort) _
        (list_folder-Safe path limit offset sort) (λ a sent h. h)

  pub get_metadata-Safe : (path : Text) → Safe nfkc s (get_metadata nfkc client s path)
  unfolding get_metadata
  get_metadata-Safe path = switch-Safe nfkc s s.can_read _ (λ on.
      authorized-Safe nfkc s path _ (λ q inside.
        ask-then-Safe nfkc s client.answer_resource (client_get_metadata q 1) _
          (ground arith, inside) (λ a sent h. h)))

  pub read_file-Safe :
      (decode : List ℕ → Text) (path : Text) → Safe nfkc s (read_file nfkc client s decode path)
  unfolding read_file
  read_file-Safe decode path = switch-Safe nfkc s s.can_read _ (λ on.
      authorized-Safe nfkc s path _ (λ q inside.
        ask-then-Safe nfkc s client.answer_resource (client_get_metadata q 1) _
          (ground arith, inside)
          (λ meta.
            guard-Sends (Permitted nfkc s) (is_binary (fields_of meta).mime_type) permission_denied
              _
              (λ is_text. switch-Safe nfkc s s.has_signed_client _ (λ signed.
                ask-then-Safe nfkc s client.answer_link (client_get_download_link q) _ (on, inside)
                  (λ link.
                    ask-then-Safe nfkc s client.answer_bytes
                      (signed_download link.download_url s.max_inline_text_bytes) _
                      (on, signed, refl) (λ content sent h. h)))))))

  pub get_download_url-Safe : (path : Text) → Safe nfkc s (get_download_url nfkc client s path)
  unfolding get_download_url
  get_download_url-Safe path = switch-Safe nfkc s s.can_read _ (λ on.
      authorized-Safe nfkc s path _ (λ q inside. switch-Safe nfkc s s.has_signed_client _ (λ signed.
        ask-then-Safe nfkc s client.answer_link (client_get_download_link q) _ (on, inside)
          (λ link.
            ask-then-Safe nfkc s client.answer_nothing (signed_validate link.download_url) _
              (on, signed) (λ done sent h. h)))))

  pub list_trash-Safe :
      (limit offset : ℕ) (sort : TrashSort)
      → Safe nfkc s (list_trash nfkc client s limit offset sort)
  unfolding list_trash
  list_trash-Safe limit offset sort = switch-Safe nfkc s s.can_read _ (λ on.
      ask-then-Safe nfkc s client.answer_trash_page (client_list_trash limit offset sort) _ on
        (λ a sent h. h))

  restored-Permitted :
      (path effective : Text) (destination_path : Option Text) (overwrite : Bool)
      → s.can_delete ≡ true
      → Within nfkc s.allowed_roots effective
      → Permitted nfkc s
          (client_restore_from_trash path (sent_destination destination_path effective) overwrite)
  restored-Permitted path effective none overwrite on inside = on
  restored-Permitted path effective (some _) overwrite on inside = (on, inside)

  pub restore_from_trash-Safe :
      (trash_path : Text) (destination_path : Option Text) (overwrite : Bool)
      → Safe nfkc s (restore_from_trash nfkc client s trash_path destination_path overwrite)
  unfolding restore_from_trash
  restore_from_trash-Safe trash_path destination_path overwrite =
      switch-Safe nfkc s s.can_delete _ (λ on.
        of_result-Sends (Permitted nfkc s) (normalize_path nfkc trash_path) _ (λ q e.
          ask-then-Safe nfkc s client.answer_trash_entry (client_get_trash_resource q) _ on
            (λ entry.
              of_result-Sends (Permitted nfkc s) (origin_or_fail entry.origin_path) _ (λ origin e1.
                authorized-Safe nfkc s origin _ (λ valid_origin at_origin.
                  authorized-Safe nfkc s (destination_or destination_path origin) _
                    (λ effective inside.
                      ask-Sends (Permitted nfkc s) client.answer_operation
                        (client_restore_from_trash q (sent_destination destination_path effective)
                          overwrite)
                        (restored-Permitted q effective destination_path overwrite on inside)))))))

  pub empty_trash-Safe : (confirm : Bool) → Safe nfkc s (empty_trash nfkc client s confirm)
  unfolding empty_trash
  empty_trash-Safe confirm =
      guard-Sends (Permitted nfkc s)
        (not s.can_delete
          || not (mem_text (text "/") s.allowed_roots)
          || not s.allow_global_destructive
          || not confirm)
        invalid_path _
        (λ passed.
          ask-Sends (Permitted nfkc s) client.answer_operation client_empty_trash
            (ground arith, ground arith, ground arith))
