-- ===== src/Services/Wiki/Authority/Reading.antt =====
-- What the methods that read send.
use yandex_workspace_mcp.Prelude.{◌≡◌, refl, inl, inr, true, false, Text, List, none, arith}
use yandex_workspace_mcp.Errors.{permission_denied}
use yandex_workspace_mcp.Policies.Paths.{validate_wiki_slug}
use yandex_workspace_mcp.Models.Wiki.Inputs.{
  DescendantsInput, PageListInput, PageResourceListInput, GridGetInput,
}
use yandex_workspace_mcp.Models.Wiki.Inputs.Checks.{validated, is_descendants_input}
use yandex_workspace_mcp.Services.Wiki.{
  Request, client_get_grid, WikiClient, WikiService, slug_locator,
}
use yandex_workspace_mcp.Services.Wiki.Resolve.{resolve_grid_owner}
use yandex_workspace_mcp.Services.Wiki.Reads.{
  get_page, get_comments, get_descendants, get_resources, get_attachments, get_grids, get_grid,
  get_tree,
}
use yandex_workspace_mcp.Services.Wiki.Traces.{>>=-Keeps}
use yandex_workspace_mcp.Services.Wiki.Authority.{Permitted, Safe}
use yandex_workspace_mcp.Services.Wiki.Authority.Resolving.{
  AnySwitch, Owner, resolve_grid_owner-Keeps,
}
use yandex_workspace_mcp.Services.Wiki.Authority.Steps.{
  switch-Safe, check-Safe, ask-Safe, returned-Safe, resolved-Safe, by_id-Safe,
}

module _ (nfkc : Text → Text) (client : WikiClient) (s : WikiService) where
  reads : s.can_read ≡ true → AnySwitch nfkc client s
  reads on = ground arith

  pub get_page-Safe :
      (slug : Text) (sent : List Request) → Safe nfkc client s (get_page nfkc client s slug) sent
  unfolding get_page
  get_page-Safe slug sent = switch-Safe nfkc client s s.can_read permission_denied _ sent (λ on.
      check-Safe nfkc client s (validate_wiki_slug nfkc slug s.allowed_roots) _ sent (λ q e.
        check-Safe nfkc client s (slug_locator q) _ sent (λ locator e1.
          resolved-Safe nfkc client s locator _ sent (reads on)
            (λ found known. returned-Safe nfkc client s found.page _))))

  pub get_comments-Safe :
      (page_input : PageListInput) (sent : List Request)
      → Safe nfkc client s (get_comments nfkc client s page_input) sent
  unfolding get_comments
  get_comments-Safe page_input sent =
      switch-Safe nfkc client s s.can_read permission_denied _ sent (λ on.
        by_id-Safe nfkc client s page_input.locator _ sent (reads on) (λ found by_id e resolved.
          ask-Safe nfkc client s client.answer_comments _ _ (on, (found.page.id, e, resolved))
            refl))

  pub get_descendants-Safe :
      (descendants_input : DescendantsInput) (sent : List Request)
      → Safe nfkc client s (get_descendants nfkc client s descendants_input) sent
  unfolding get_descendants
  get_descendants-Safe descendants_input sent =
      switch-Safe nfkc client s s.can_read permission_denied _ sent (λ on.
        by_id-Safe nfkc client s descendants_input.locator _ sent (reads on)
          (λ found by_id e resolved.
            ask-Safe nfkc client s client.answer_descendants _ _
              (on, inl (found.page.id, e, resolved)) refl))

  pub get_resources-Safe :
      (page_input : PageResourceListInput) (sent : List Request)
      → Safe nfkc client s (get_resources nfkc client s page_input) sent
  unfolding get_resources
  get_resources-Safe page_input sent =
      switch-Safe nfkc client s s.can_read permission_denied _ sent (λ on.
        by_id-Safe nfkc client s page_input.locator _ sent (reads on) (λ found by_id e resolved.
          ask-Safe nfkc client s client.answer_resources _ _ (on, (found.page.id, e, resolved))
            refl))

  pub get_attachments-Safe :
      (page_input : PageListInput) (sent : List Request)
      → Safe nfkc client s (get_attachments nfkc client s page_input) sent
  unfolding get_attachments
  get_attachments-Safe page_input sent =
      switch-Safe nfkc client s s.can_read permission_denied _ sent (λ on.
        by_id-Safe nfkc client s page_input.locator _ sent (reads on) (λ found by_id e resolved.
          ask-Safe nfkc client s client.answer_attachments _ _ (on, (found.page.id, e, resolved))
            refl))

  pub get_grids-Safe :
      (page_input : PageListInput) (sent : List Request)
      → Safe nfkc client s (get_grids nfkc client s page_input) sent
  unfolding get_grids
  get_grids-Safe page_input sent =
      switch-Safe nfkc client s s.can_read permission_denied _ sent (λ on.
        by_id-Safe nfkc client s page_input.locator _ sent (reads on) (λ found by_id e resolved.
          ask-Safe nfkc client s client.answer_grids _ _ (on, (found.page.id, e, resolved)) refl))

  pub get_grid-Safe :
      (grid_input : GridGetInput) (sent : List Request)
      → Safe nfkc client s (get_grid nfkc client s grid_input) sent
  unfolding get_grid
  get_grid-Safe grid_input sent =
      switch-Safe nfkc client s s.can_read permission_denied _ sent (λ on.
        >>=-Keeps (Permitted nfkc client s) (resolve_grid_owner nfkc client s grid_input.grid_id) _
          (Owner nfkc client s grid_input.grid_id) (λ a later. Unit {0}) sent
          (resolve_grid_owner-Keeps nfkc client s grid_input.grid_id sent (reads on))
          (λ owner later same owned.
            ask-Safe nfkc client s client.answer_grid (client_get_grid grid_input) later
              (inr (on, owned)) refl))

  pub get_tree-Safe :
      (slug : Text) (sent : List Request) → Safe nfkc client s (get_tree nfkc client s slug) sent
  unfolding get_tree
  get_tree-Safe slug sent = switch-Safe nfkc client s s.can_read permission_denied _ sent (λ on.
      check-Safe nfkc client s (validate_wiki_slug nfkc slug s.allowed_roots) _ sent (λ q e.
        check-Safe nfkc client s (slug_locator q) _ sent (λ locator e1.
          check-Safe nfkc client s
            (validated is_descendants_input
              (record { locator = locator; include_self = false; page_size = 100; cursor = none }))
            _ sent (λ descendants_input e2. get_descendants-Safe descendants_input sent))))
