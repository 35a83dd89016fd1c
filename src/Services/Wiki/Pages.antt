-- ===== src/Services/Wiki/Pages.antt =====
-- services/wiki.py: the methods that change pages.
use yandex_workspace_mcp.Prelude.{ℕ, false, not, ◌||◌, Text, List, ◌∷◌, Option, none, some}
use yandex_workspace_mcp.Errors.{
  Result, ok, err, invalid_path, permission_denied, configuration_error, value_error,
}
use yandex_workspace_mcp.Models.Wiki.Inputs.{
  PageLocator, PageCreateInput, PageUpdateInput, PageAppendInput, PageCloneInput,
  CommentCreateInput, PageDeleteInput, PageRecoverInput, WikiAttachmentUploadInput,
}
use yandex_workspace_mcp.Models.Wiki.Inputs.Checks.{
  validated, is_page_create_input, is_page_update_input,
}
use yandex_workspace_mcp.Models.Wiki.Pages.{
  WikiPage, PageComment, PageCloneResponse, PageDeleteResponse, PageRecoverResponse,
  AttachmentUploadResponse,
}
use yandex_workspace_mcp.Jobs.Models.{OpenedFile}
use yandex_workspace_mcp.Services.Calls.{Call, returned, of_result, ask, guard, ◌>>=◌, ◌>>◌}
use yandex_workspace_mcp.Services.Wiki.{
  Request, client_create_page, client_update_page, client_append_page, client_clone_page,
  client_add_comment, client_delete_page, client_recover_page, client_upload_attachment,
  recovery_put, recovery_consume, close_local_file, WikiClient, WikiService, is_empty, id_locator,
  slug_locator, authorize_destination,
}
use yandex_workspace_mcp.Services.Wiki.Resolve.{resolve_page}

-- What `create_page` and `update_page` take: a model, or a slug with the other arguments.
pub data CreateArgument : Type 0 where
  create_input : PageCreateInput → CreateArgument
  create_slug : Text → (title body : Option Text) → CreateArgument

pub data UpdateArgument : Type 0 where
  update_input : PageUpdateInput → UpdateArgument
  update_slug : Text → (body title : Option Text) → UpdateArgument

unfoldable pub page_create_input : CreateArgument → Result PageCreateInput
unfolding is_page_create_input
page_create_input (create_input page_input) = ok page_input
page_create_input (create_slug slug none body) = err value_error
page_create_input (create_slug slug (some title) none) = err value_error
page_create_input (create_slug slug (some title) (some body)) =
    validated is_page_create_input (record { slug = slug; title = title; content = body })

abbrev pub update_at : Option Text → Text → Result PageLocator → Result PageUpdateInput
update_at title body (err e) = err e
update_at title body (ok locator) = validated is_page_update_input (record {
  locator = locator;
  title = title;
  content = some body;
  allow_merge = false;
  is_silent = false;
})

unfoldable pub page_update_input : UpdateArgument → Result PageUpdateInput
unfolding is_page_update_input
page_update_input (update_input page_input) = ok page_input
page_update_input (update_slug slug none title) = err value_error
page_update_input (update_slug slug (some body) title) = update_at title body (slug_locator slug)

-- `except InvalidPath as exc: raise PermissionDenied() from exc`
abbrev pub path_denied : Result Text → Result Text
path_denied (ok destination) = ok destination
path_denied (err invalid_path) = err permission_denied
path_denied (err e) = err e

-- `try: ... finally: opened.close()`
unfoldable pub finally_close : {A : Type 0} → ℕ → Call Request A → Call Request A
finally_close descriptor m sent = ((m sent).0, close_local_file descriptor ∷ (m sent).1)

module _ (nfkc : Text → Text) (client : WikiClient) (s : WikiService) where
  unfoldable pub create_page : CreateArgument → Call Request WikiPage
  create_page argument = do
    guard (not s.can_write) permission_denied
    page_input ← of_result (page_create_input argument)
    valid_slug ← of_result (authorize_destination nfkc s page_input.slug)
    ask client.answer_page (client_create_page (record page_input { slug = valid_slug }))

  unfoldable pub update_page : UpdateArgument → Call Request WikiPage
  update_page argument = do
    guard (not s.can_write) permission_denied
    page_input ← of_result (page_update_input argument)
    authorized ← resolve_page nfkc client s page_input.locator
    locator ← of_result (id_locator authorized.page.id)
    ask client.answer_page
        (client_update_page authorized.page.id (record page_input { locator = locator }))

  unfoldable pub append_page : PageAppendInput → Call Request WikiPage
  append_page page_input = do
    guard (not s.can_write) permission_denied
    authorized ← resolve_page nfkc client s page_input.locator
    locator ← of_result (id_locator authorized.page.id)
    ask client.answer_page
        (client_append_page authorized.page.id (record page_input { locator = locator }))

  unfoldable pub clone_page : PageCloneInput → Call Request PageCloneResponse
  clone_page page_input = do
    guard (not s.can_write) permission_denied
    source ← resolve_page nfkc client s page_input.source
    destination ← of_result (path_denied (authorize_destination nfkc s page_input.destination_slug))
    locator ← of_result (id_locator source.page.id)
    ask client.answer_clone (
        client_clone_page source.page.id
          (record page_input { source = locator; destination_slug = destination }))

  unfoldable pub add_comment : CommentCreateInput → Call Request PageComment
  add_comment comment_input = do
    guard (not s.can_write) permission_denied
    authorized ← resolve_page nfkc client s comment_input.locator
    locator ← of_result (id_locator authorized.page.id)
    ask client.answer_comment
        (client_add_comment authorized.page.id (record comment_input { locator = locator }))

  -- The upstream token goes to the store, which gives a handle for it.
  unfoldable pub delete_page :
      PageDeleteInput → (principal_id : Text) → Call Request PageDeleteResponse
  delete_page page_input principal_id = do
    guard (not s.can_delete) permission_denied
    guard (not s.has_recovery_store) configuration_error
    authorized ← resolve_page nfkc client s page_input.locator
    upstream_token ← ask client.answer_token (client_delete_page authorized.page.id)
    handle ←
        ask client.answer_token
          (recovery_put upstream_token principal_id authorized.normalized_slug)
    returned {A = PageDeleteResponse} (record { recovery_token = some handle })

  unfoldable pub recover_page :
      PageRecoverInput → (principal_id : Text) → Call Request PageRecoverResponse
  recover_page page_input principal_id = do
    guard (not s.can_delete) permission_denied
    guard (not s.has_recovery_store) configuration_error
    recovered ← ask client.answer_record (recovery_consume page_input.recovery_token principal_id)
    destination ← of_result (authorize_destination nfkc s recovered.normalized_locator)
    ask client.answer_recovered (client_recover_page recovered.upstream_token)

  -- `open_allowed_local_file` is that of policies/local_files.py.
  unfoldable pub upload_attachment :
      (open_allowed_local_file : Text → List Text → ℕ → Result OpenedFile)
      → WikiAttachmentUploadInput
      → Call Request AttachmentUploadResponse
  upload_attachment open_allowed_local_file upload_input = do
    guard (not s.can_write || is_empty s.upload_allowed_dirs) permission_denied
    authorized ← resolve_page nfkc client s upload_input.locator
    opened ← of_result (
        open_allowed_local_file upload_input.file_path s.upload_allowed_dirs s.max_attachment_bytes)
    finally_close opened.descriptor (do
      locator ← of_result (id_locator authorized.page.id)
      ask client.answer_uploaded (
          client_upload_attachment authorized.page.id opened.descriptor
            (record upload_input { locator = locator })))
