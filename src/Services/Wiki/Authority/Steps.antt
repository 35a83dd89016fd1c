-- ===== src/Services/Wiki/Authority/Steps.antt =====
-- The steps of a method of `WikiService` that sends only what is permitted.
use yandex_workspace_mcp.Prelude.{◌≡◌, refl, Bool, true, false, Text, List, ◌∷◌, arith, not}
use yandex_workspace_mcp.Errors.{Error, Result, ok}
use yandex_workspace_mcp.Models.Wiki.Inputs.{PageLocator}
use yandex_workspace_mcp.Services.Calls.{Call, returned, raised, of_result, ask, guard, ◌>>=◌, ◌>>◌}
use yandex_workspace_mcp.Services.Wiki.{
  Request, client_get_page, WikiClient, WikiService, AuthorizedPage, id_locator,
}
use yandex_workspace_mcp.Services.Wiki.Resolve.{resolve_page}
use yandex_workspace_mcp.Services.Wiki.Traces.{
  is_lock, ask-Keeps, guard-Keeps, ask-then-Keeps, check-Keeps,
}
use yandex_workspace_mcp.Services.Wiki.Authority.{Resolves, Resolved, Permitted, Safe}
use yandex_workspace_mcp.Services.Wiki.Authority.Resolving.{
  Known, AnySwitch, resolved-Keeps, Resolves-Resolved,
}

module _ (nfkc : Text → Text) (client : WikiClient) (s : WikiService) where
  -- The steps of a method that has no more to show than that it is safe.
  abbrev Done : {A : Type 0} → A → List Request → Type 0
  Done a later = Unit {0}

  pub switch-Safe :
      {B : Type 0} (switch : Bool) (e : Error) (k : Call Request B) (sent : List Request)
      → (switch ≡ true → Safe nfkc client s k sent)
      → Safe nfkc client s (guard (not switch) e >> k) sent
  switch-Safe switch e k sent h =
      guard-Keeps (Permitted nfkc client s) (not switch) e k Done sent (λ off. h (ground arith))

  pub check-Safe :
      {A B : Type 0} (r : Result A) (f : A → Call Request B) (sent : List Request)
      → ((a : A) → r ≡ ok a → Safe nfkc client s (f a) sent)
      → Safe nfkc client s (of_result r >>= f) sent
  check-Safe r f sent h = check-Keeps (Permitted nfkc client s) r f Done sent h

  pub ask-Safe :
      {A : Type 0} (answer : List Request → Request → Result A) (request : Request)
      (sent : List Request)
      → Permitted nfkc client s sent request
      → is_lock request ≡ false
      → Safe nfkc client s (ask answer request) sent
  ask-Safe answer request sent p free =
      ask-Keeps (Permitted nfkc client s) answer request Done sent p free (λ a e. tt)

  pub ask-then-Safe :
      {A B : Type 0} (answer : List Request → Request → Result A) (request : Request)
      (f : A → Call Request B) (sent : List Request)
      → Permitted nfkc client s sent request
      → is_lock request ≡ false
      → ((a : A) → answer sent request ≡ ok a → Safe nfkc client s (f a) (request ∷ sent))
      → Safe nfkc client s (ask answer request >>= f) sent
  ask-then-Safe answer request f sent p free h =
      ask-then-Keeps (Permitted nfkc client s) answer request f Done sent p free (λ a e same. h a e)

  pub returned-Safe :
      {A : Type 0} (a : A) (sent : List Request) → Safe nfkc client s (returned a) sent
  returned-Safe a sent trace = (trace, (λ grid_id. refl), λ b e. tt)

  pub raised-Safe :
      {A : Type 0} (e : Error) (sent : List Request) → Safe nfkc client s {A = A} (raised e) sent
  raised-Safe e sent trace = (trace, (λ grid_id. refl), λ b failed. tt)

  pub resolved-Safe :
      {B : Type 0} (locator : PageLocator) (f : AuthorizedPage → Call Request B)
      (sent : List Request)
      → AnySwitch nfkc client s
      → ((found : AuthorizedPage)
          → Resolves nfkc client s (Known nfkc client s found) sent (client_get_page locator)
          → Safe nfkc client s (f found) (client_get_page locator ∷ sent))
      → Safe nfkc client s (resolve_page nfkc client s locator >>= f) sent
  resolved-Safe locator f sent on h =
      resolved-Keeps nfkc client s locator f Done sent on (λ found same known. h found known)

  -- The page is resolved, and then asked for, or changed, by its identity.
  pub by_id-Safe :
      {B : Type 0} (locator : PageLocator) (f : AuthorizedPage → PageLocator → Call Request B)
      (sent : List Request)
      → AnySwitch nfkc client s
      → ((found : AuthorizedPage) (by_id : PageLocator)
          → id_locator found.page.id ≡ ok by_id
          → Resolved nfkc client s found.page.id (client_get_page locator ∷ sent)
          → Safe nfkc client s (f found by_id) (client_get_page locator ∷ sent))
      → Safe nfkc client s
          (resolve_page nfkc client s locator >>= λ found.
            of_result (id_locator found.page.id) >>= λ by_id. f found by_id)
          sent
  by_id-Safe locator f sent on h = resolved-Safe locator _ sent on (λ found known.
      check-Safe (id_locator found.page.id) (f found) _
        (λ by_id e. h found by_id e (Resolves-Resolved nfkc client s found sent _ known)))
