-- ===== src/Services/Disk/Filtered.antt =====
-- What the filters of `DiskService` leave.
use yandex_workspace_mcp.Prelude.{
  ℕ, ◌≡◌, refl, ap, subst, inl, inr, true, not, Text, List, some, Bool-cases, arith,
}
use yandex_workspace_mcp.Errors.{ok, permission_denied, Result-cases, ok-injective}
use yandex_workspace_mcp.Models.Disk.{
  DiskSort, DiskResource, plain, folder, Items, no_items, item, DiskResourcePage, fields_of,
}
use yandex_workspace_mcp.Services.Calls.{of_result, ask, >>=-ok, guard-ok}
use yandex_workspace_mcp.Policies.Paths.Within.{Within, validate_path-Within}
use yandex_workspace_mcp.Services.Disk.{
  Request, DiskClient, DiskService, client_list_resources, authorize_disk_path, is_visible,
  filter_embedded, filter_items, filter_resource, filter_page,
}
use yandex_workspace_mcp.Services.Disk.Reads.{visible_or_fail, list_folder}

module _ (nfkc : Text → Text) (s : DiskService) where
  -- A resource, and all that is embedded in it at any depth, has a path within the allowed roots.
  unfoldable mutual
    pub Visible : DiskResource → Type 0
    Visible (plain fields) = is_visible nfkc s fields.path ≡ true
    Visible (folder fields page items) = (is_visible nfkc s fields.path ≡ true) × AllVisible items

    pub AllVisible : Items → Type 0
    AllVisible no_items = Unit {0}
    AllVisible (item resource items) = Visible resource × AllVisible items

  mutual
    unfolding Visible filter_embedded

    filter_embedded-Visible :
        (resource : DiskResource)
        → is_visible nfkc s (fields_of resource).path ≡ true
        → Visible (filter_embedded nfkc s resource)
    filter_embedded-Visible (plain fields) h = h
    filter_embedded-Visible (folder fields page items) h = (h, filter_items-AllVisible items)

    filter_items-AllVisible : (items : Items) → AllVisible (filter_items nfkc s items)
    filter_items-AllVisible no_items = tt
    filter_items-AllVisible (item resource items) =
        elim (Bool-cases (is_visible nfkc s (fields_of resource).path)) [
          | inl seen ↦
              rw (seen, filter_items)
                (filter_embedded-Visible resource seen, filter_items-AllVisible items)
          | inr hidden ↦ rw (hidden, filter_items) (filter_items-AllVisible items)
        ]

  mutual
    unfolding Visible filter_embedded

    filter_embedded_id :
        (resource : DiskResource) → Visible resource → filter_embedded nfkc s resource ≡ resource
    filter_embedded_id (plain fields) h = refl
    filter_embedded_id (folder fields page items) h =
        ap (folder fields page) (filter_items_id items h.1)

    filter_items_id : (items : Items) → AllVisible items → filter_items nfkc s items ≡ items
    filter_items_id no_items h = refl
    filter_items_id (item resource items) h =
        rw (Visible-path resource h.0, filter_embedded_id resource h.0, filter_items_id items h.1)
          refl

    Visible-path :
        (resource : DiskResource)
        → Visible resource
        → is_visible nfkc s (fields_of resource).path ≡ true
    Visible-path (plain fields) h = h
    Visible-path (folder fields page items) h = h.0

  -- A path that the filters keep lies within the roots once it is normalized.
  pub is_visible-Within :
      (path : Text)
      → is_visible nfkc s (some path) ≡ true
      → (q : Text) × (authorize_disk_path nfkc s path ≡ ok q) × Within nfkc s.allowed_roots q
  unfolding is_visible authorize_disk_path
  is_visible-Within path h = elim (Result-cases (authorize_disk_path nfkc s path)) [
    | inl (q, e) ↦ (q, e, (validate_path-Within nfkc path s.allowed_roots e).1)
    | inr (x, e) ↦ absurd (ground arith)
  ]

  -- The filter of a page leaves nothing, at any depth, outside of the allowed roots, and filtering
  -- again changes nothing.
  pub filter_page_lem :
      (page : DiskResourcePage)
      → AllVisible (filter_page nfkc s page).items
        × (filter_page nfkc s (filter_page nfkc s page) ≡ filter_page nfkc s page)
  unfolding filter_page
  filter_page_lem page =
      let visible = filter_items-AllVisible page.items in
      (visible, ap (λ items. record page { items = items }) (filter_items_id _ visible))

  -- A page that has nothing outside of the allowed roots the filter leaves as it is.
  pub filter_page_id :
      (page : DiskResourcePage) → AllVisible page.items → filter_page nfkc s page ≡ page
  unfolding filter_page
  filter_page_id page h = ap (λ items. record page { items = items }) (filter_items_id page.items h)

  filter_resource-Visible :
      (resource : DiskResource) {r : DiskResource}
      → visible_or_fail (filter_resource nfkc s resource) ≡ ok r
      → Visible r
  unfolding filter_resource
  filter_resource-Visible resource {r} h =
      elim (Bool-cases (is_visible nfkc s (fields_of resource).path)) [
        | inl seen ↦
            subst Visible (ok-injective (rw seen at h)) (filter_embedded-Visible resource seen)
        | inr hidden ↦ absurd (ground arith)
      ]

  module _ (client : DiskClient) where
    -- What `list_folder` returns has, at every depth, paths within the allowed roots, whatever the API
    -- answered.
    pub list_folder-Visible :
        (path : Text) (limit offset : ℕ) (sort : DiskSort) (sent : List Request) {r : DiskResource}
        → (list_folder nfkc client s path limit offset sort sent).0 ≡ ok r
        → Visible r
    unfolding list_folder
    list_folder-Visible path limit offset sort sent {r} h =
        let (on, h1) = guard-ok (not s.can_read) permission_denied _ sent h in
        let (q, e, h2) = >>=-ok (of_result (authorize_disk_path nfkc s path)) _ sent h1 in
        let (resource, answered, h3) =
          >>=-ok (ask client.answer_resource (client_list_resources q limit offset sort)) _ sent
            h2 in
        filter_resource-Visible resource h3
