-- ===== src/Services/Wiki/Authority/Searching.antt =====
-- What the search and its fallback send.
use yandex_workspace_mcp.Prelude.{
  ℕ, zero, suc, ◌≡◌, refl, ap, subst, inl, inr, ◌∙◌, Bool, true, false, Text, text, List, [], ◌∷◌,
  Option, none, some, All, take, mem_text, text_eq_refl, arith, if_cases,
}
use yandex_workspace_mcp.Errors.{
  Error, Result, ok, err, permission_denied, search_filter_unsupported, search_unavailable,
  contract_mismatch, >>=-ok, err-injective,
}
use yandex_workspace_mcp.Models.Wiki.Inputs.{WikiSearchInput, DescendantsInput}
use yandex_workspace_mcp.Models.Wiki.Inputs.Checks.{
  validated, validated-ok, is_search_input, is_descendants_input,
}
use yandex_workspace_mcp.Models.Wiki.Pages.{WikiSearchResponse}
use yandex_workspace_mcp.Services.Calls.{Call}
use yandex_workspace_mcp.Services.Wiki.{
  Request, client_search, client_get_descendants, WikiClient, WikiService, slug_locator,
}
use yandex_workspace_mcp.Services.Wiki.Fallback.{
  Fallback, root_slug, fallback_input, next_page, go_on, next_root, scan_batch, fallback_pages,
  fallback_roots, descendants_fallback,
}
use yandex_workspace_mcp.Services.Wiki.Search.{
  cluster_of, failures, gathered, nth_or, first_or_all, searched_roots, search_each, gather_roots,
  after_search, try_search, search,
}
use yandex_workspace_mcp.Services.Wiki.Traces.{Trace, SameLocks, lock_kept, >>=-Keeps}
use yandex_workspace_mcp.Services.Wiki.Authority.{Permitted, Safe, Refused}
use yandex_workspace_mcp.Services.Wiki.Authority.Steps.{
  switch-Safe, check-Safe, ask-then-Safe, returned-Safe, raised-Safe,
}

-- The members of a list are in it.
weaken_members :
    (a : Text) (l xs : List Text)
    → All (λ t. mem_text t l ≡ true) xs
    → All (λ t. mem_text t (a ∷ l) ≡ true) xs
unfolding mem_text
weaken_members a l [] h = tt
weaken_members a l (x ∷ xs) h = (ground (arith, h.0), weaken_members a l xs h.1)

members : (l : List Text) → All (λ t. mem_text t l ≡ true) l
unfolding mem_text
members [] = tt
members (a ∷ l) = (rw (text_eq_refl a) refl, weaken_members a l l (members l))

All-take : (P : Text → Type 0) (n : ℕ) (l : List Text) → All P l → All P (take n l)
All-take P zero l h = tt
All-take P (suc n) [] h = tt
All-take P (suc n) (x ∷ l) h = (h.0, All-take P n l h.1)

searched_roots-members :
    (roots : List Text) → All (λ t. mem_text t roots ≡ true) (searched_roots roots)
unfolding searched_roots
searched_roots-members roots =
    if_cases (All (λ t. mem_text t roots ≡ true)) (mem_text (text "/") roots) _ _
      (λ inside. (inside, tt)) (λ outside. All-take _ 20 roots (members roots))

-- What is raised is one of the failures.
nth_or-All :
    (P : Error → Type 0) (e : Error) (errors : List Error) (n : ℕ)
    → P e
    → All P errors
    → P (nth_or e errors n)
nth_or-All P e [] n h hs = h
nth_or-All P e (f ∷ errors) zero h hs = h
nth_or-All P e (f ∷ errors) (suc n) h hs = nth_or-All P f errors n hs.0 hs.1

failures-cons :
    {A : Type 0} (P : Error → Type 0) (r : Result A) (outcomes : List (Result A))
    → ((e : Error) → r ≡ err e → P e)
    → All P (failures outcomes)
    → All P (failures (r ∷ outcomes))
unfolding failures
failures-cons P (ok a) outcomes h hs = hs
failures-cons P (err e) outcomes h hs = (h e refl, hs)

first_or_all-err :
    {A : Type 0} (P : Error → Type 0) (n : ℕ) (errors : List Error) (responses : List A) (e : Error)
    → All P errors
    → first_or_all n errors responses ≡ err e
    → P e
first_or_all-err P n [] responses e hs h = absurd (ground arith)
first_or_all-err P n (f ∷ errors) responses e hs h =
    subst P (err-injective h) (nth_or-All P f errors n hs.0 hs.1)

module _ (nfkc casefold : Text → Text) (client : WikiClient) (s : WikiService) where
  -- What an exception says of the requests before it.
  abbrev Says : WikiSearchInput → List Request → Error → Type 0
  Says search_input later e =
      e ≡ search_filter_unsupported → Refused nfkc client s search_input later

  -- What the searches of the roots leave.
  abbrev Swept :
      WikiSearchInput → List Request → List (Result WikiSearchResponse) × List Request → Type 0
  Swept search_input sent (outcomes, later) =
      Trace (Permitted nfkc client s) later
      × SameLocks sent later
      × (Refused nfkc client s search_input sent → Refused nfkc client s search_input later)
      × All (Says search_input later) (failures outcomes)

  search_each-Swept :
      (search_input : WikiSearchInput) (roots : List Text) (sent : List Request)
      → s.can_read ≡ true
      → All (λ t. mem_text t s.allowed_roots ≡ true) roots
      → Trace (Permitted nfkc client s) sent
      → Swept search_input sent (search_each nfkc casefold client s search_input roots sent)
  unfolding search_each
  search_each-Swept search_input [] sent on inside trace =
      (trace, (λ grid_id. refl), (λ refused. refused), unfold failures in tt)
  search_each-Swept search_input (root ∷ roots) sent on inside trace =
      let request = client_search search_input (cluster_of root) in
      let (trace1, same, kept, says) =
        search_each-Swept search_input roots (request ∷ sent) on inside.1
          ((on, inl (root, inside.0, refl)), trace) in
      (
        trace1,
        (λ grid_id. same grid_id ∙ lock_kept request sent refl grid_id),
        (λ refused. kept (inr refused)),
        failures-cons (Says search_input _) (client.answer_search sent request) _
            (λ e failed unsupported.
              kept (inl (cluster_of root, refl, failed ∙ ap err unsupported)))
            says,
      )

  fallback_input-locator :
      (root : Text) (cursor : Option Text) (page_input : DescendantsInput)
      → fallback_input root cursor ≡ ok page_input
      → slug_locator (root_slug root) ≡ ok page_input.locator
  unfolding fallback_input
  fallback_input-locator root cursor page_input h =
      let (locator, e, h1) = >>=-ok (slug_locator (root_slug root)) _ h in
      e ∙ ap (λ (i : DescendantsInput). ok i.locator) (validated-ok is_descendants_input _ h1)

  go_on-Safe :
      (scanned : Fallback × Bool) (rest : Text → Call Request (Fallback × Bool))
      (next : Option Text) (sent : List Request)
      → ((cursor : Text) → Safe nfkc client s (rest cursor) sent)
      → Safe nfkc client s (go_on scanned rest next) sent
  unfolding go_on
  go_on-Safe (st, true) rest next sent h = returned-Safe nfkc client s (st, true) sent
  go_on-Safe (st, false) rest none sent h = returned-Safe nfkc client s (st, false) sent
  go_on-Safe (st, false) rest (some next) sent h = h next

  fallback_pages-Safe :
      (rounds limit : ℕ) (query root : Text) (cursor : Option Text) (seen_cursors : List Text)
      (st : Fallback) (sent : List Request)
      → s.can_read ≡ true
      → mem_text root s.allowed_roots ≡ true
      → Safe nfkc client s
          (fallback_pages nfkc casefold client s rounds limit query root cursor seen_cursors st)
          sent
  unfolding fallback_pages
  fallback_pages-Safe zero limit query root cursor seen_cursors st sent on inside =
      returned-Safe nfkc client s (st, false) sent
  fallback_pages-Safe (suc rounds) limit query root cursor seen_cursors st sent on inside =
      check-Safe nfkc client s (fallback_input root cursor) _ sent (λ page_input e.
        ask-then-Safe nfkc client s client.answer_descendants (client_get_descendants page_input) _
          sent (on, inr (root, inside, fallback_input-locator root cursor page_input e)) refl
          (λ batch e1.
            let scanned = scan_batch nfkc casefold s limit query batch.results st in
            go_on-Safe scanned
              (λ next.
                fallback_pages nfkc casefold client s rounds limit query root (some next)
                  (next ∷ seen_cursors) scanned.0)
              (next_page batch.next_cursor seen_cursors) (client_get_descendants page_input ∷ sent)
              (λ next.
                fallback_pages-Safe rounds limit query root (some next) (next ∷ seen_cursors)
                  scanned.0 _ on inside)))

  next_root-Safe :
      (searched : Fallback × Bool) (rest : Fallback → Call Request WikiSearchResponse)
      (sent : List Request)
      → ((st : Fallback) → Safe nfkc client s (rest st) sent)
      → Safe nfkc client s (next_root searched rest) sent
  unfolding next_root
  next_root-Safe (st, true) rest sent h = returned-Safe nfkc client s _ sent
  next_root-Safe (st, false) rest sent h = h st

  fallback_roots-Safe :
      (limit : ℕ) (query : Text) (roots : List Text) (st : Fallback) (sent : List Request)
      → s.can_read ≡ true
      → All (λ t. mem_text t s.allowed_roots ≡ true) roots
      → Safe nfkc client s (fallback_roots nfkc casefold client s limit query roots st) sent
  unfolding fallback_roots
  fallback_roots-Safe limit query [] st sent on inside = returned-Safe nfkc client s _ sent
  fallback_roots-Safe limit query (root ∷ roots) st sent on inside =
      >>=-Keeps (Permitted nfkc client s)
        (fallback_pages nfkc casefold client s 20 limit query root none [] st) _
        (λ searched later. Unit {0}) (λ a later. Unit {0}) sent
        (fallback_pages-Safe 20 limit query root none [] st sent on inside.0)
        (λ searched later same done.
          next_root-Safe searched (fallback_roots nfkc casefold client s limit query roots) later
            (λ st'. fallback_roots-Safe limit query roots st' later on inside.1))

  descendants_fallback-Safe :
      (query : Text) (limit : ℕ) (sent : List Request)
      → s.can_read ≡ true
      → Safe nfkc client s (descendants_fallback nfkc casefold client s query limit) sent
  unfolding descendants_fallback
  descendants_fallback-Safe query limit sent on =
      fallback_roots-Safe limit (casefold query) (take 20 s.allowed_roots) _ sent on
        (All-take _ 20 s.allowed_roots (members s.allowed_roots))

  -- What follows the searches of the roots, for each way in which they end.
  after_search-Safe :
      (query : Text) (limit : ℕ) (search_input : WikiSearchInput)
      (outcome : Result (List WikiSearchResponse)) (sent : List Request)
      → s.can_read ≡ true
      → ((e : Error) → outcome ≡ err e → Says search_input sent e)
      → Safe nfkc client s
          (after_search nfkc casefold client s query limit search_input outcome)
          sent
  unfolding after_search
  after_search-Safe query limit search_input (ok responses) sent on says =
      returned-Safe nfkc client s _ sent
  after_search-Safe query limit search_input (err search_filter_unsupported) sent on says =
      ask-then-Safe nfkc client s client.answer_search (client_search search_input none) _ sent
        (on, inr (says search_filter_unsupported refl refl)) refl
        (λ response e. returned-Safe nfkc client s _ _)
  after_search-Safe query limit search_input (err search_unavailable) sent on says =
      descendants_fallback-Safe query limit sent on
  after_search-Safe query limit search_input (err contract_mismatch) sent on says =
      descendants_fallback-Safe query limit sent on
  after_search-Safe query limit search_input (err _) sent on says = raised-Safe nfkc client s _ sent

  try_search-Safe :
      (first_raised : ℕ) (query : Text) (limit : ℕ) (search_input : WikiSearchInput)
      (sent : List Request)
      → s.can_read ≡ true
      → Safe nfkc client s
          (try_search nfkc casefold client s first_raised query limit search_input)
          sent
  unfolding try_search gather_roots gathered
  try_search-Safe first_raised query limit search_input sent on trace =
      let swept =
        search_each nfkc casefold client s search_input (searched_roots s.allowed_roots) sent in
      let (trace1, same1, kept, says) =
        search_each-Swept search_input (searched_roots s.allowed_roots) sent on
          (searched_roots-members s.allowed_roots) trace in
      let (trace2, same2, done) =
        after_search-Safe query limit search_input _ swept.1 on
          (λ e raised.
            first_or_all-err (Says search_input swept.1) first_raised (failures swept.0) _ e says
              raised)
          trace1 in
      (trace2, (λ grid_id. same2 grid_id ∙ same1 grid_id), λ a e. tt)

  pub search-Safe :
      (first_raised : ℕ) (query : Text) (limit page_number : ℕ) (sent : List Request)
      → Safe nfkc client s (search nfkc casefold client s first_raised query limit page_number) sent
  unfolding search
  search-Safe first_raised query limit page_number sent =
      switch-Safe nfkc client s s.can_read permission_denied _ sent (λ on.
        check-Safe nfkc client s
          (validated is_search_input (record { query = query; limit = limit; page = page_number }))
          _ sent (λ search_input e. try_search-Safe first_raised query limit search_input sent on))
