-- ===== src/Services/Wiki/Authority/Writing.antt =====
-- What the methods that change pages send.
use yandex_workspace_mcp.Prelude.{ℕ, ◌≡◌, refl, inl, inr, true, not, ◌||◌, Text, List, some, arith}
use yandex_workspace_mcp.Errors.{
  Result, ok, err, invalid_path, permission_denied, configuration_error,
}
use yandex_workspace_mcp.Models.Wiki.Inputs.{
  PageAppendInput, PageCloneInput, CommentCreateInput, PageDeleteInput, PageRecoverInput,
  WikiAttachmentUploadInput, GridCreateInput,
}
use yandex_workspace_mcp.Models.Wiki.Pages.{PageDeleteResponse}
use yandex_workspace_mcp.Jobs.Models.{OpenedFile}
use yandex_workspace_mcp.Services.Calls.{Call}
use yandex_workspace_mcp.Services.Wiki.{
  Request, client_delete_page, client_recover_page, recovery_put, recovery_consume, WikiClient,
  WikiService, is_empty, id_locator, authorize_destination,
}
use yandex_workspace_mcp.Services.Wiki.Pages.{
  CreateArgument, UpdateArgument, page_create_input, page_update_input, path_denied, finally_close,
  create_page, update_page, append_page, clone_page, add_comment, delete_page, recover_page,
  upload_attachment,
}
use yandex_workspace_mcp.Services.Wiki.Grids.{create_grid}
use yandex_workspace_mcp.Services.Wiki.Traces.{holds_lock, guard-Keeps}
use yandex_workspace_mcp.Services.Wiki.Authority.{Permitted, Safe}
use yandex_workspace_mcp.Services.Wiki.Authority.Resolving.{
  AnySwitch, authorize_destination-SlugInside, validate_wiki_slug-SlugResolved, Resolves-Resolved,
  Resolves-SlugKnown,
}
use yandex_workspace_mcp.Services.Wiki.Authority.Steps.{
  switch-Safe, check-Safe, ask-Safe, ask-then-Safe, returned-Safe, resolved-Safe, by_id-Safe,
}

path_denied-ok : (r : Result Text) {q : Text} → path_denied r ≡ ok q → r ≡ ok q
path_denied-ok (ok destination) h = h
path_denied-ok (err invalid_path) h = absurd (ground arith)
path_denied-ok (err _) h = absurd (ground arith)

module _ (nfkc : Text → Text) (client : WikiClient) (s : WikiService) where
  pub writes : s.can_write ≡ true → AnySwitch nfkc client s
  writes on = ground arith

  pub deletes : s.can_delete ≡ true → AnySwitch nfkc client s
  deletes on = ground arith

  pub create_page-Safe :
      (argument : CreateArgument) (sent : List Request)
      → Safe nfkc client s (create_page nfkc client s argument) sent
  unfolding create_page
  create_page-Safe argument sent =
      switch-Safe nfkc client s s.can_write permission_denied _ sent (λ on.
        check-Safe nfkc client s (page_create_input argument) _ sent (λ page_input e.
          check-Safe nfkc client s (authorize_destination nfkc s page_input.slug) _ sent (λ q e1.
            ask-Safe nfkc client s client.answer_page _ sent
              (on, authorize_destination-SlugInside nfkc client s page_input.slug e1) refl)))

  pub update_page-Safe :
      (argument : UpdateArgument) (sent : List Request)
      → Safe nfkc client s (update_page nfkc client s argument) sent
  unfolding update_page
  update_page-Safe argument sent =
      switch-Safe nfkc client s s.can_write permission_denied _ sent (λ on.
        check-Safe nfkc client s (page_update_input argument) _ sent (λ page_input e.
          by_id-Safe nfkc client s page_input.locator _ sent (writes on) (λ found by_id e1 resolved.
            ask-Safe nfkc client s client.answer_page _ _ (on, resolved, e1) refl)))

  pub append_page-Safe :
      (page_input : PageAppendInput) (sent : List Request)
      → Safe nfkc client s (append_page nfkc client s page_input) sent
  unfolding append_page
  append_page-Safe page_input sent =
      switch-Safe nfkc client s s.can_write permission_denied _ sent (λ on.
        by_id-Safe nfkc client s page_input.locator _ sent (writes on) (λ found by_id e resolved.
          ask-Safe nfkc client s client.answer_page _ _ (on, resolved, e) refl))

  pub clone_page-Safe :
      (page_input : PageCloneInput) (sent : List Request)
      → Safe nfkc client s (clone_page nfkc client s page_input) sent
  unfolding clone_page
  clone_page-Safe page_input sent =
      switch-Safe nfkc client s s.can_write permission_denied _ sent (λ on.
        resolved-Safe nfkc client s page_input.source _ sent (writes on) (λ found known.
          check-Safe nfkc client s
            (path_denied (authorize_destination nfkc s page_input.destination_slug)) _ _
            (λ destination e. check-Safe nfkc client s (id_locator found.page.id) _ _ (λ by_id e1.
              ask-Safe nfkc client s client.answer_clone _ _
                (
                  on,
                  Resolves-Resolved nfkc client s found sent _ known,
                  e1,
                  authorize_destination-SlugInside nfkc client s page_input.destination_slug
                      (path_denied-ok _ e),
                )
                refl))))

  pub add_comment-Safe :
      (comment_input : CommentCreateInput) (sent : List Request)
      → Safe nfkc client s (add_comment nfkc client s comment_input) sent
  unfolding add_comment
  add_comment-Safe comment_input sent =
      switch-Safe nfkc client s s.can_write permission_denied _ sent (λ on.
        by_id-Safe nfkc client s comment_input.locator _ sent (writes on) (λ found by_id e resolved.
          ask-Safe nfkc client s client.answer_comment _ _ (on, resolved, e) refl))

  pub create_grid-Safe :
      (grid_input : GridCreateInput) (sent : List Request)
      → Safe nfkc client s (create_grid nfkc client s grid_input) sent
  unfolding create_grid
  create_grid-Safe grid_input sent =
      switch-Safe nfkc client s s.can_write permission_denied _ sent (λ on.
        by_id-Safe nfkc client s grid_input.locator _ sent (writes on) (λ found by_id e resolved.
          ask-Safe nfkc client s client.answer_grid _ _ (on, resolved, e) refl))

  pub delete_page-Safe :
      (page_input : PageDeleteInput) (principal_id : Text) (sent : List Request)
      → Safe nfkc client s (delete_page nfkc client s page_input principal_id) sent
  unfolding delete_page
  delete_page-Safe page_input principal_id sent =
      switch-Safe nfkc client s s.can_delete permission_denied _ sent (λ on.
        switch-Safe nfkc client s s.has_recovery_store configuration_error _ sent (λ stores.
          resolved-Safe nfkc client s page_input.locator _ sent (deletes on) (λ found known.
            ask-then-Safe nfkc client s client.answer_token (client_delete_page found.page.id) _ _
              (on, stores, Resolves-Resolved nfkc client s found sent _ known) refl
              (λ upstream_token e.
                ask-then-Safe nfkc client s client.answer_token
                  (recovery_put upstream_token principal_id found.normalized_slug) _ _
                  (
                    on,
                    inr (Resolves-SlugKnown nfkc client s found sent _ known),
                    inl (found.page.id, refl, e),
                  )
                  refl
                  (λ handle e1.
                    returned-Safe nfkc client s {A = PageDeleteResponse}
                      (record { recovery_token = some handle }) _)))))

  pub recover_page-Safe :
      (page_input : PageRecoverInput) (principal_id : Text) (sent : List Request)
      → Safe nfkc client s (recover_page nfkc client s page_input principal_id) sent
  unfolding recover_page authorize_destination
  recover_page-Safe page_input principal_id sent =
      switch-Safe nfkc client s s.can_delete permission_denied _ sent (λ on.
        switch-Safe nfkc client s s.has_recovery_store configuration_error _ sent (λ stores.
          ask-then-Safe nfkc client s client.answer_record
            (recovery_consume page_input.recovery_token principal_id) _ sent (on, stores) refl
            (λ recovered e.
              check-Safe nfkc client s (authorize_destination nfkc s recovered.normalized_locator) _
                _
                (λ destination e1.
                  ask-Safe nfkc client s client.answer_recovered
                    (client_recover_page recovered.upstream_token) _
                    (
                      on,
                      inl (
                        page_input.recovery_token,
                        principal_id,
                        recovered,
                        refl,
                        e,
                        refl,
                        (
                          destination,
                          validate_wiki_slug-SlugResolved nfkc client s recovered.normalized_locator
                              e1,
                        ),
                      ),
                    )
                    refl))))

  finally_close-Safe :
      {A : Type 0} (descriptor : ℕ) (m : Call Request A) (sent : List Request)
      → Safe nfkc client s m sent
      → Safe nfkc client s (finally_close descriptor m) sent
  unfolding finally_close holds_lock
  finally_close-Safe descriptor m sent h trace =
      let (trace1, same, done) = h trace in ((tt, trace1), same, λ a e. tt)

  pub upload_attachment-Safe :
      (open_allowed_local_file : Text → List Text → ℕ → Result OpenedFile)
      (upload_input : WikiAttachmentUploadInput) (sent : List Request)
      → Safe nfkc client s
          (upload_attachment nfkc client s open_allowed_local_file upload_input)
          sent
  unfolding upload_attachment
  upload_attachment-Safe open_allowed_local_file upload_input sent =
      guard-Keeps (Permitted nfkc client s) (not s.can_write || is_empty s.upload_allowed_dirs)
        permission_denied _ (λ a later. Unit {0}) sent
        (λ passed.
          resolved-Safe nfkc client s upload_input.locator _ sent (writes (ground (arith, passed)))
            (λ found known.
              check-Safe nfkc client s
                (open_allowed_local_file upload_input.file_path s.upload_allowed_dirs
                  s.max_attachment_bytes)
                _ _
                (λ opened e. finally_close-Safe opened.descriptor _ _ (
                  check-Safe nfkc client s (id_locator found.page.id) _ _ (λ by_id e1.
                    ask-Safe nfkc client s client.answer_uploaded _ _
                      (
                        ground (arith, passed),
                        ground (arith, passed),
                        Resolves-Resolved nfkc client s found sent _ known,
                        e1,
                      )
                      refl)))))
