-- ===== src/Services/Wiki/Search/Results.antt =====
-- What a search of the Wiki returns, whichever way it went.
use yandex_workspace_mcp.Prelude.{
  ℕ, ◌≤◌, ◌≡◌, subst, Bool, true, false, not, Text, List, [], ◌∷◌, none, All, length, take, arith,
}
use yandex_workspace_mcp.Errors.{
  Result, ok, err, ok-injective, permission_denied, search_filter_unsupported, search_unavailable,
  contract_mismatch,
}
use yandex_workspace_mcp.Models.Wiki.Inputs.{WikiSearchInput}
use yandex_workspace_mcp.Models.Wiki.Inputs.Checks.{validated, is_search_input}
use yandex_workspace_mcp.Models.Wiki.Pages.{WikiSearchItem, WikiSearchResponse}
use yandex_workspace_mcp.Services.Calls.{ask, of_result, >>=-ok, guard-ok}
use yandex_workspace_mcp.Services.Wiki.{Request, client_search, WikiClient, WikiService}
use yandex_workspace_mcp.Services.Wiki.Merging.{all_results, merged_response}
use yandex_workspace_mcp.Services.Wiki.Merging.Shown.{Shown, merge_items-Shown}
use yandex_workspace_mcp.Services.Wiki.Fallback.{descendants_fallback}
use yandex_workspace_mcp.Services.Wiki.Fallback.Found.{Found, fallback_roots-AllFound}
use yandex_workspace_mcp.Services.Wiki.Search.{gather_roots, after_search, try_search, search}

module _ (nfkc casefold : Text → Text) (client : WikiClient) (s : WikiService) where
  -- Items within the roots, and no more than the limit.
  abbrev pub Authorized : ℕ → WikiSearchResponse → Type 0
  Authorized limit response =
      All (Shown nfkc s) response.results × (length response.results ≤ limit)

  merged_response-Authorized :
      (limit : ℕ) (globally_filtered : Bool) (responses : List WikiSearchResponse)
      → 1 ≤ limit
      → Authorized limit (merged_response nfkc s limit globally_filtered responses)
  unfolding merged_response
  merged_response-Authorized limit globally_filtered responses h =
      merge_items-Shown nfkc s limit (all_results responses) h

  -- What is found is shown.
  Found-Shown :
      (query : Text) (items : List WikiSearchItem)
      → All (Found nfkc casefold s query) items
      → All (Shown nfkc s) items
  Found-Shown query [] h = tt
  Found-Shown query (item ∷ items) ((slug, e, inside, holds), h) =
      ((slug, e, inside), Found-Shown query items h)

  fallback-Authorized :
      (query : Text) (limit : ℕ) (sent : List Request) (response : WikiSearchResponse)
      → 1 ≤ limit
      → (descendants_fallback nfkc casefold client s query limit sent).0 ≡ ok response
      → Authorized limit response
  unfolding descendants_fallback
  fallback-Authorized query limit sent response h e =
      let (found, few) =
        fallback_roots-AllFound nfkc casefold s (casefold query) client limit
          (take 20 s.allowed_roots) _ sent response tt (omega (arith, h)) e in
      (Found-Shown (casefold query) response.results found, few)

  after_search-Authorized :
      (query : Text) (limit : ℕ) (search_input : WikiSearchInput)
      (outcome : Result (List WikiSearchResponse)) (sent : List Request)
      (response : WikiSearchResponse)
      → 1 ≤ limit
      → (after_search nfkc casefold client s query limit search_input outcome sent).0 ≡ ok response
      → Authorized limit response
  unfolding after_search
  after_search-Authorized query limit search_input (ok responses) sent response h e =
      subst (Authorized limit) (ok-injective e) (merged_response-Authorized limit false responses h)
  after_search-Authorized query limit search_input (err search_filter_unsupported) sent response h
        e =
      let (whole, e1, e2) =
        >>=-ok (ask client.answer_search (client_search search_input none)) _ sent e in
      subst (Authorized limit) (ok-injective e2)
        (merged_response-Authorized limit true (whole ∷ []) h)
  after_search-Authorized query limit search_input (err search_unavailable) sent response h e =
      fallback-Authorized query limit sent response h e
  after_search-Authorized query limit search_input (err contract_mismatch) sent response h e =
      fallback-Authorized query limit sent response h e
  after_search-Authorized query limit search_input (err _) sent response h e = absurd (ground arith)

  validated-limit :
      (search_input read : WikiSearchInput)
      → validated is_search_input search_input ≡ ok read
      → 1 ≤ search_input.limit
  validated-limit search_input read h = ground arith

  -- When a search returns, whatever the API answered and whichever of the searches of the roots
  -- failed first, each result has a slug whose path lies within the allowed roots, and there are
  -- no more results than the limit.
  pub search-Authorized :
      (first_raised : ℕ) (query : Text) (limit page_number : ℕ) (sent : List Request)
      (response : WikiSearchResponse)
      → (search nfkc casefold client s first_raised query limit page_number sent).0 ≡ ok response
      → Authorized limit response
  unfolding search try_search
  search-Authorized first_raised query limit page_number sent response e =
      let asked : WikiSearchInput = record { query = query; limit = limit; page = page_number } in
      let (readable, e1) = guard-ok (not s.can_read) permission_denied _ sent e in
      let (search_input, e2, e3) = >>=-ok (of_result (validated is_search_input asked)) _ sent e1 in
      after_search-Authorized query limit search_input
        (gather_roots nfkc casefold client s first_raised search_input sent).0
        (gather_roots nfkc casefold client s first_raised search_input sent).1 response
        (validated-limit asked search_input e2) e3
