-- ===== src/Services/Wiki/Search.antt =====
-- services/wiki.py: the search. The searches of the roots run at once in the program, and here one
-- after another; which of their exceptions is raised first is a parameter, `first_raised`.
pub mod Results
use yandex_workspace_mcp.Prelude.{
  ℕ, zero, suc, true, false, not, Text, text, List, [], ◌∷◌, Option, none, some, take, text_eq,
  mem_text, remove_prefix, if◌then◌else◌,
}
use yandex_workspace_mcp.Errors.{
  Error, Result, ok, err, permission_denied, search_filter_unsupported, search_unavailable,
  contract_mismatch,
}
use yandex_workspace_mcp.Models.Wiki.Inputs.{WikiSearchInput}
use yandex_workspace_mcp.Models.Wiki.Inputs.Checks.{validated, is_search_input}
use yandex_workspace_mcp.Models.Wiki.Pages.{WikiSearchResponse}
use yandex_workspace_mcp.Services.Calls.{Call, returned, raised, of_result, ask, guard, ◌>>=◌, ◌>>◌}
use yandex_workspace_mcp.Services.Wiki.{Request, client_search, WikiClient, WikiService}
use yandex_workspace_mcp.Services.Wiki.Merging.{merged_response}
use yandex_workspace_mcp.Services.Wiki.Fallback.{descendants_fallback}

-- None if root == "/" else root.removeprefix("/")
unfoldable pub cluster_of : Text → Option Text
unfolding text_eq remove_prefix
cluster_of root = if text_eq root (text "/") then none else some (remove_prefix (text "/") root)

-- The results of all calls, or the exception that is raised first.
abbrev pub nth_or : Error → List Error → ℕ → Error
nth_or e [] n = e
nth_or e (f ∷ errors) zero = e
nth_or e (f ∷ errors) (suc n) = nth_or f errors n

unfoldable pub failures : {A : Type 0} → List (Result A) → List Error
failures [] = []
failures (ok a ∷ outcomes) = failures outcomes
failures (err e ∷ outcomes) = e ∷ failures outcomes

unfoldable pub successes : {A : Type 0} → List (Result A) → List A
successes [] = []
successes (ok a ∷ outcomes) = a ∷ successes outcomes
successes (err e ∷ outcomes) = successes outcomes

abbrev pub first_or_all : {A : Type 0} → ℕ → List Error → List A → Result (List A)
first_or_all first_raised [] responses = ok responses
first_or_all first_raised (e ∷ errors) responses = err (nth_or e errors first_raised)

unfoldable pub gathered : {A : Type 0} → ℕ → List (Result A) → Result (List A)
unfolding failures successes
gathered first_raised outcomes = first_or_all first_raised (failures outcomes) (successes outcomes)

-- The roots that are searched.
unfoldable pub searched_roots : List Text → List Text
unfolding mem_text
searched_roots allowed_roots =
    if mem_text (text "/") allowed_roots then text "/" ∷ [] else take 20 allowed_roots

module _ (nfkc casefold : Text → Text) (client : WikiClient) (s : WikiService) where
  -- The searches of the roots: what each of them gives.
  unfoldable pub search_each :
      WikiSearchInput → List Text → List Request → List (Result WikiSearchResponse) × List Request
  unfolding cluster_of
  search_each search_input [] sent = ([], sent)
  search_each search_input (root ∷ roots) sent =
      let request = client_search search_input (cluster_of root) in
      let (outcomes, later) = search_each search_input roots (request ∷ sent) in
      (client.answer_search sent request ∷ outcomes, later)

  unfoldable pub gather_roots : ℕ → WikiSearchInput → Call Request (List WikiSearchResponse)
  unfolding search_each searched_roots gathered
  gather_roots first_raised search_input sent =
      let (outcomes, later) = search_each search_input (searched_roots s.allowed_roots) sent in
      (gathered first_raised outcomes, later)

  -- What follows the searches of the roots, the two `except` clauses included.
  unfoldable pub after_search :
      Text
      → ℕ
      → WikiSearchInput
      → Result (List WikiSearchResponse)
      → Call Request WikiSearchResponse
  unfolding merged_response descendants_fallback
  after_search query limit search_input (ok responses) =
      returned (merged_response nfkc s limit false responses)
  after_search query limit search_input (err search_filter_unsupported) = do
    response ← ask client.answer_search (client_search search_input none)
    returned (merged_response nfkc s limit true (response ∷ []))
  after_search query limit search_input (err search_unavailable) =
      descendants_fallback nfkc casefold client s query limit
  after_search query limit search_input (err contract_mismatch) =
      descendants_fallback nfkc casefold client s query limit
  after_search query limit search_input (err e) = raised e

  -- The `try` statement: its body may raise, and what follows then depends on the exception.
  unfoldable pub try_search : ℕ → Text → ℕ → WikiSearchInput → Call Request WikiSearchResponse
  unfolding gather_roots after_search
  try_search first_raised query limit search_input sent =
      after_search query limit search_input (gather_roots first_raised search_input sent).0
        (gather_roots first_raised search_input sent).1

  unfoldable pub search : ℕ → Text → ℕ → ℕ → Call Request WikiSearchResponse
  unfolding try_search
  search first_raised query limit page_number = do
    guard (not s.can_read) permission_denied
    search_input ←
        of_result
          (validated is_search_input (record { query = query; limit = limit; page = page_number }))
    try_search first_raised query limit search_input
