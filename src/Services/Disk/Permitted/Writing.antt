-- ===== src/Services/Disk/Permitted/Writing.antt =====
-- What the methods that change the Disk send upstream.
use yandex_workspace_mcp.Prelude.{Bool, ◌&&◌, Text, ltb, any, mem_text, arith}
use yandex_workspace_mcp.Errors.{invalid_path, permission_denied, value_error}
use yandex_workspace_mcp.Policies.Paths.Within.{Within}
use yandex_workspace_mcp.Python.Posixpath.{dirname, join_path}
use yandex_workspace_mcp.Services.Calls.{of_result, ask, ◌>>=◌, ask-Sends, guard-Sends}
use yandex_workspace_mcp.Services.Disk.{
  Request, DiskClient, DiskService, client_get_metadata, client_create_folder, client_copy_resource,
  client_move_resource, client_delete_resource, client_upload_inline_text, client_publish_resource,
  client_unpublish_resource, authorize_disk_path,
}
use yandex_workspace_mcp.Services.Disk.Permitted.{
  Permitted, Safe, switch-Safe, authorized-Safe, ask-then-Safe,
}
use yandex_workspace_mcp.Services.Disk.Writes.{
  is_bad_name, is_surrogate, encoded_length, create_folder, copy, move, delete, rename, upload,
  publish, unpublish,
}

module _ (nfkc : Text → Text) (client : DiskClient) (s : DiskService) where
  pub create_folder-Safe : (path : Text) → Safe nfkc s (create_folder nfkc client s path)
  unfolding create_folder
  create_folder-Safe path = switch-Safe nfkc s s.can_write _ (λ on.
      authorized-Safe nfkc s path _ (λ q inside.
        ask-Sends (Permitted nfkc s) client.answer_operation (client_create_folder q) (on, inside)))

  -- A request that takes two authorized paths.
  two_paths-Safe :
      (request : Text → Text → Request) (from_path to_path : Text)
      → ((a b : Text)
          → Within nfkc s.allowed_roots a
          → Within nfkc s.allowed_roots b
          → Permitted nfkc s (request a b))
      → Safe nfkc s (
          of_result (authorize_disk_path nfkc s from_path) >>= λ valid_from.
          of_result (authorize_disk_path nfkc s to_path) >>= λ valid_to.
          ask client.answer_operation (request valid_from valid_to))
  two_paths-Safe request from_path to_path h = authorized-Safe nfkc s from_path _ (λ a inside_a.
      authorized-Safe nfkc s to_path _ (λ b inside_b.
        ask-Sends (Permitted nfkc s) client.answer_operation (request a b)
          (h a b inside_a inside_b)))

  pub copy-Safe :
      (from_path to_path : Text) (overwrite : Bool)
      → Safe nfkc s (copy nfkc client s from_path to_path overwrite)
  unfolding copy
  copy-Safe from_path to_path overwrite = switch-Safe nfkc s s.can_write _ (λ on.
      two_paths-Safe (λ a b. client_copy_resource a b overwrite) from_path to_path
        (λ a b p q. (on, p, q)))

  pub move-Safe :
      (from_path to_path : Text) (overwrite : Bool)
      → Safe nfkc s (move nfkc client s from_path to_path overwrite)
  unfolding move
  move-Safe from_path to_path overwrite = switch-Safe nfkc s s.can_write _ (λ on.
      two_paths-Safe (λ a b. client_move_resource a b overwrite) from_path to_path
        (λ a b p q. (on, p, q)))

  pub delete-Safe :
      (path : Text) (permanently : Bool) → Safe nfkc s (delete nfkc client s path permanently)
  unfolding delete
  delete-Safe path permanently = switch-Safe nfkc s s.can_delete _ (λ on.
      authorized-Safe nfkc s path _ (λ q inside.
        guard-Sends (Permitted nfkc s) (permanently && mem_text q s.allowed_roots) invalid_path _
          (λ kept.
            ask-Sends (Permitted nfkc s) client.answer_operation
              (client_delete_resource q permanently) (on, inside, kept))))

  pub rename-Safe :
      (path new_name : Text) (overwrite : Bool)
      → Safe nfkc s (rename nfkc client s path new_name overwrite)
  unfolding rename
  rename-Safe path new_name overwrite = switch-Safe nfkc s s.can_write _ (λ on.
      authorized-Safe nfkc s path _ (λ q inside.
        guard-Sends (Permitted nfkc s) (is_bad_name new_name) invalid_path _ (λ good.
          authorized-Safe nfkc s (join_path (dirname q) new_name) _ (λ d inside_d.
            ask-Sends (Permitted nfkc s) client.answer_operation
              (client_move_resource q d overwrite) (on, inside, inside_d)))))

  pub upload-Safe :
      (path content : Text) (overwrite : Bool)
      → Safe nfkc s (upload nfkc client s path content overwrite)
  unfolding upload
  upload-Safe path content overwrite = switch-Safe nfkc s s.can_write _ (λ on.
      authorized-Safe nfkc s path _ (λ q inside.
        guard-Sends (Permitted nfkc s) (any is_surrogate content) value_error _ (λ encodable.
          guard-Sends (Permitted nfkc s) (ltb s.max_upload_bytes (encoded_length content))
            permission_denied _
            (λ small. switch-Safe nfkc s s.has_signed_client _ (λ signed.
              ask-Sends (Permitted nfkc s) client.answer_operation
                (client_upload_inline_text q content overwrite)
                (on, inside, signed, ground arith))))))

  pub publish-Safe : (path : Text) → Safe nfkc s (publish nfkc client s path)
  unfolding publish
  publish-Safe path = switch-Safe nfkc s s.can_write _ (λ on.
      authorized-Safe nfkc s path _ (λ q inside.
        ask-then-Safe nfkc s client.answer_operation (client_publish_resource q) _ (on, inside)
          (λ published.
            ask-Sends (Permitted nfkc s) client.answer_resource (client_get_metadata q 50)
              (ground arith, inside))))

  pub unpublish-Safe : (path : Text) → Safe nfkc s (unpublish nfkc client s path)
  unfolding unpublish
  unpublish-Safe path = switch-Safe nfkc s s.can_write _ (λ on.
      authorized-Safe nfkc s path _ (λ q inside.
        ask-Sends (Permitted nfkc s) client.answer_operation (client_unpublish_resource q)
          (on, inside)))
