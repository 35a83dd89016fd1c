-- ===== src/Services/Wiki/Authority/Resolving.antt =====
-- Resolving a page, and the page of a grid.
use yandex_workspace_mcp.Prelude.{
  ◌≡◌, refl, sym, ap, subst, inl, Text, text, List, [], ◌∷◌, Option, none, some, starts_with,
  remove_prefix, if◌then◌else◌, arith, ◌||◌,
}
use yandex_workspace_mcp.Errors.{ok, >>=-ok, ok-injective}
use yandex_workspace_mcp.Policies.Paths.{validate_path, validate_wiki_slug}
use yandex_workspace_mcp.Policies.Paths.Within.{validate_path-Within}
use yandex_workspace_mcp.Models.Wiki.Inputs.{PageLocator, GridGetInput}
use yandex_workspace_mcp.Models.Wiki.Inputs.Checks.{validated-ok, is_grid_get_input}
use yandex_workspace_mcp.Models.Wiki.Pages.{WikiPage}
use yandex_workspace_mcp.Services.Calls.{Call, ◌>>=◌}
use yandex_workspace_mcp.Services.Wiki.{
  Request, client_get_page, client_get_grid, WikiClient, WikiService, AuthorizedPage,
  authorized_slug, authorize_destination, owner_locator, grid_probe,
}
use yandex_workspace_mcp.Services.Wiki.Resolve.{resolve_page, resolve_grid_owner}
use yandex_workspace_mcp.Services.Wiki.Traces.{
  SameLocks, Keeps, Before, ask-then-Keeps, of_result-Keeps, >>=-Keeps, check-Keeps,
}
use yandex_workspace_mcp.Services.Wiki.Authority.{
  SlugInside, SlugResolved, Resolves, Resolved, SlugKnown, Owned, NamesOwner, Switched, Permitted,
}

module _ (nfkc : Text → Text) (client : WikiClient) (s : WikiService) where
  pub validate_wiki_slug-SlugResolved :
      (slug : Text) {q : Text}
      → validate_wiki_slug nfkc slug s.allowed_roots ≡ ok q
      → SlugResolved nfkc client s slug q
  unfolding validate_wiki_slug
  validate_wiki_slug-SlugResolved slug h =
      let given =
        if starts_with (text "/") slug then slug else b'/' ∷ remove_prefix (text "/") slug in
      let (path, e, h1) = >>=-ok (validate_path nfkc given s.allowed_roots) _ h in
      let (normal, inside) = validate_path-Within nfkc given s.allowed_roots e in
      (path, normal, inside, sym (ok-injective h1))

  pub authorize_destination-SlugInside :
      (slug : Text) {q : Text}
      → authorize_destination nfkc s slug ≡ ok q
      → SlugInside nfkc client s q
  unfolding authorize_destination
  authorize_destination-SlugInside slug h =
      let (path, normal, inside, e) = validate_wiki_slug-SlugResolved slug h in (path, inside, e)

  authorized_slug-SlugResolved :
      (page : WikiPage) (given : Option Text) (found : AuthorizedPage)
      → authorized_slug nfkc s page given ≡ ok found
      → (slug : Text) × (given ≡ some slug)
        × SlugResolved nfkc client s slug found.normalized_slug
        × (page ≡ found.page)
  unfolding authorized_slug
  authorized_slug-SlugResolved page none found h = absurd (ground arith)
  authorized_slug-SlugResolved page (some []) found h = absurd (ground arith)
  authorized_slug-SlugResolved page (some (c ∷ slug)) found h =
      let (normalized_slug, e, h1) =
        >>=-ok (validate_wiki_slug nfkc (c ∷ slug) s.allowed_roots) _ h in
      let same = ok-injective h1 in
      (
        c ∷ slug,
        refl,
        subst (λ q. SlugResolved nfkc client s (c ∷ slug) q) (ap (λ f. f.normalized_slug) same)
            (validate_wiki_slug-SlugResolved (c ∷ slug) e),
        ap (λ f. f.page) same,
      )

  -- What is known of a page that was resolved.
  abbrev pub Known : AuthorizedPage → WikiPage → Text → Type 0
  Known found page normalized_slug =
      (page.id ≡ found.page.id) × (normalized_slug ≡ found.normalized_slug)

  abbrev pub AnySwitch : Type 0
  AnySwitch = Switched nfkc client s (s.can_read || (s.can_write || s.can_delete))

  -- The page was resolved by the last request.
  abbrev pub ResolvedNow : PageLocator → List Request → AuthorizedPage → List Request → Type 0
  ResolvedNow locator sent found later =
      (later ≡ client_get_page locator ∷ sent)
      × Resolves nfkc client s (Known found) sent (client_get_page locator)

  pub resolve_page-Keeps :
      (locator : PageLocator) (sent : List Request)
      → AnySwitch
      → Keeps
          (Permitted nfkc client s)
          (resolve_page nfkc client s locator)
          (ResolvedNow locator sent)
          sent
  unfolding resolve_page
  resolve_page-Keeps locator sent on =
      ask-then-Keeps (Permitted nfkc client s) client.answer_page (client_get_page locator) _
        (ResolvedNow locator sent) sent on refl
        (λ page e same.
          of_result-Keeps (Permitted nfkc client s) (authorized_slug nfkc s page page.slug)
            (ResolvedNow locator sent) _
            (λ found e0.
              let (slug, e1, inside, e2) = authorized_slug-SlugResolved page page.slug found e0 in
              (
                refl,
                (
                  locator,
                  page,
                  slug,
                  found.normalized_slug,
                  refl,
                  e,
                  e1,
                  inside,
                  (ap (λ p. p.id) e2, refl),
                ),
              )))

  -- What a method does with the page that it has resolved.
  pub resolved-Keeps :
      {B : Type 0} (locator : PageLocator) (f : AuthorizedPage → Call Request B)
      (R : B → List Request → Type 0) (sent : List Request)
      → AnySwitch
      → ((found : AuthorizedPage)
          → SameLocks sent (client_get_page locator ∷ sent)
          → Resolves nfkc client s (Known found) sent (client_get_page locator)
          → Keeps (Permitted nfkc client s) (f found) R (client_get_page locator ∷ sent))
      → Keeps (Permitted nfkc client s) (resolve_page nfkc client s locator >>= f) R sent
  resolved-Keeps locator f R sent on h =
      >>=-Keeps (Permitted nfkc client s) (resolve_page nfkc client s locator) f
        (ResolvedNow locator sent) R sent (resolve_page-Keeps locator sent on)
        (λ found later same known.
          subst (Keeps (Permitted nfkc client s) (f found) R) (sym known.0)
            (h found (subst (SameLocks sent) known.0 same) known.1))

  pub Resolves-Resolved :
      (found : AuthorizedPage) (sent : List Request) (request : Request)
      → Resolves nfkc client s (Known found) sent request
      → Resolved nfkc client s found.page.id (request ∷ sent)
  Resolves-Resolved found sent request
        (locator, page, slug, normalized_slug, e1, e2, e3, inside, (same_id, same_slug)) =
      inl (locator, page, slug, normalized_slug, e1, e2, e3, inside, same_id)

  pub Resolves-SlugKnown :
      (found : AuthorizedPage) (sent : List Request) (request : Request)
      → Resolves nfkc client s (Known found) sent request
      → SlugKnown nfkc client s found.normalized_slug (request ∷ sent)
  Resolves-SlugKnown found sent request
        (locator, page, slug, normalized_slug, e1, e2, e3, inside, (same_id, same_slug)) =
      inl (locator, page, slug, normalized_slug, e1, e2, e3, inside, same_slug)

  -- The page of a grid was resolved, the lock of no grid having changed.
  abbrev NamedBy : Text → PageLocator → List Request → Type 0
  NamedBy grid_id locator = Before (NamesOwner nfkc client s grid_id locator)

  abbrev probe_of : Text → GridGetInput
  probe_of grid_id = record {
    grid_id = grid_id;
    revision = none;
    row_ids = none;
    column_slugs = none;
  }

  -- A probe asks for no more than the grid.
  probe_again :
      (grid_id : Text) (probe : GridGetInput)
      → grid_probe grid_id ≡ ok probe
      → grid_probe probe.grid_id ≡ ok probe
  unfolding grid_probe
  probe_again grid_id probe e =
      subst (λ g. grid_probe g ≡ ok probe)
        (ap (λ p. p.grid_id) (validated-ok is_grid_get_input (probe_of grid_id) e)) e

  owner_found :
      (grid_id : Text) (locator : PageLocator) (sent : List Request)
      → AnySwitch
      → NamedBy grid_id locator sent
      → Keeps
          (Permitted nfkc client s)
          (resolve_page nfkc client s locator)
          (λ found later. Owned nfkc client s grid_id later)
          sent
  owner_found grid_id locator sent on named trace =
      let (trace1, same, post) = resolve_page-Keeps locator sent on trace in
      (trace1, same, λ found e. owned found (post found e))
    where
      owned :
          (found : AuthorizedPage) {later : List Request}
          → ResolvedNow locator sent found later
          → Owned nfkc client s grid_id later
      owned found (e, (l, page, slug, normalized_slug, e1, e2, e3, inside, known)) =
          subst (Owned nfkc client s grid_id) (sym e)
            (inl ((l, page, slug, normalized_slug, e1, e2, e3, inside, tt), (locator, refl, named)))

  abbrev pub Owner : Text → AuthorizedPage → List Request → Type 0
  Owner grid_id found later = Owned nfkc client s grid_id later

  pub resolve_grid_owner-Keeps :
      (grid_id : Text) (sent : List Request)
      → AnySwitch
      → Keeps
          (Permitted nfkc client s)
          (resolve_grid_owner nfkc client s grid_id)
          (Owner grid_id)
          sent
  unfolding resolve_grid_owner
  resolve_grid_owner-Keeps grid_id sent on =
      check-Keeps (Permitted nfkc client s) (grid_probe grid_id) _ (Owner grid_id) sent (λ probe e0.
        ask-then-Keeps (Permitted nfkc client s) client.answer_grid (client_get_grid probe) _
          (Owner grid_id) sent (inl (probe_again grid_id probe e0, on)) refl
          (λ grid e1 same.
            check-Keeps (Permitted nfkc client s) (owner_locator grid.page) _ (Owner grid_id) _
              (λ locator e2.
                owner_found grid_id locator _ on (inl (probe, grid, e0, refl, e1, e2)))))
