-- ===== src/Services/Wiki/Fallback/Found.antt =====
-- What the fallback finds: items within the roots that hold the query, no more than the limit.
use yandex_workspace_mcp.Prelude.{
  ℕ, zero, suc, ◌≤◌, ◌<◌, ◌≡◌, refl, subst, Bool, true, false, not, ◌||◌, Text, List, [], ◌∷◌, ◌++◌,
  Option, none, some, All, All-append, length, length-append, any, leb, is_part, if_cases, arith,
}
use yandex_workspace_mcp.Errors.{ok, ok-injective}
use yandex_workspace_mcp.Models.Wiki.Pages.{WikiSearchItem, WikiSearchResponse, DescendantItem}
use yandex_workspace_mcp.Services.Calls.{Call, ask, of_result, >>=-ok}
use yandex_workspace_mcp.Services.Wiki.{Request, client_get_descendants, WikiClient, WikiService}
use yandex_workspace_mcp.Services.Wiki.Merging.Shown.{SlugShown, is_authorized_slug-SlugShown}
use yandex_workspace_mcp.Services.Wiki.Fallback.{
  Fallback, descendant_result, same_descendant, has_slug, is_wanted, scan_batch, fallback_input,
  next_page, go_on, next_root, fallback_pages, fallback_roots,
}

module _ (nfkc casefold : Text → Text) (s : WikiService) (query : Text) where
  -- An item with a slug within the roots that holds the query, letter case aside.
  abbrev pub Found : WikiSearchItem → Type 0
  Found item =
      (slug : Text) × (item.slug ≡ some slug)
      × SlugShown nfkc s slug
      × (is_part query (casefold slug) ≡ true)

  -- What holds after a batch: there is room left unless the limit was reached.
  abbrev pub Fits : ℕ → Fallback × Bool → Type 0
  Fits limit (st, true) = All Found st.results × (length st.results ≤ limit)
  Fits limit (st, false) = All Found st.results × (length st.results < limit)

  wanted-Found :
      (item : DescendantItem) (given : Option Text)
      → item.slug ≡ given
      → is_wanted nfkc casefold s query given ≡ true
      → Found (descendant_result item)
  wanted-Found item none e h = absurd (ground arith)
  wanted-Found item (some slug) e h =
      (slug, e, is_authorized_slug-SlugShown nfkc s slug (ground arith), ground arith)

  pub scan_batch-Fits :
      (limit : ℕ) (items : List DescendantItem) (st : Fallback)
      → All Found st.results
      → length st.results < limit
      → Fits limit (scan_batch nfkc casefold s limit query items st)
  unfolding scan_batch
  scan_batch-Fits limit [] st h room = (h, room)
  scan_batch-Fits limit (item ∷ items) st h room =
      let met = record st { seen_ids = item ∷ st.seen_ids } in
      let found = record met { results = st.results ++ descendant_result item ∷ [] } in
      if_cases (Fits limit) (any (same_descendant item) st.seen_ids || not (has_slug item.slug)) _ _
        (λ old. scan_batch-Fits limit items st h room)
        (λ fresh.
          if_cases (Fits limit) (is_wanted nfkc casefold s query item.slug) _ _
            (λ wanted.
              let all_found =
                All-append Found st.results (descendant_result item ∷ []) h
                  (wanted-Found item item.slug refl wanted, tt) in
              if_cases (Fits limit) (leb limit (length found.results)) _ _
                (λ full. (
                  all_found,
                  omega (arith, length-append st.results (descendant_result item ∷ []), room),
                ))
                (λ more. scan_batch-Fits limit items found all_found (ground arith)))
            (λ unwanted. scan_batch-Fits limit items met h room))

  go_on-Fits :
      (limit : ℕ) (scanned : Fallback × Bool) (rest : Text → Call Request (Fallback × Bool))
      (next : Option Text) (sent : List Request) (r : Fallback × Bool)
      → Fits limit scanned
      → ((cursor : Text)
          → All Found scanned.0.results
          → length scanned.0.results < limit
          → (rest cursor sent).0 ≡ ok r
          → Fits limit r)
      → (go_on scanned rest next sent).0 ≡ ok r
      → Fits limit r
  unfolding go_on
  go_on-Fits limit (st, true) rest next sent r fits later h =
      subst (Fits limit) (ok-injective h) fits
  go_on-Fits limit (st, false) rest none sent r fits later h =
      subst (Fits limit) (ok-injective h) fits
  go_on-Fits limit (st, false) rest (some next) sent r fits later h = later next fits.0 fits.1 h

  module _ (client : WikiClient) where
    fallback_pages-Fits :
        (rounds limit : ℕ) (root : Text) (cursor : Option Text) (seen_cursors : List Text)
        (st : Fallback) (sent : List Request) (r : Fallback × Bool)
        → All Found st.results
        → length st.results < limit
        → (fallback_pages nfkc casefold client s rounds limit query root cursor seen_cursors st
            sent).0
          ≡ ok r
        → Fits limit r
    unfolding fallback_pages
    fallback_pages-Fits zero limit root cursor seen_cursors st sent r h room e =
        subst (Fits limit) (ok-injective e) (h, room)
    fallback_pages-Fits (suc rounds) limit root cursor seen_cursors st sent r h room e =
        let (page_input, e1, e2) = >>=-ok (of_result (fallback_input root cursor)) _ sent e in
        let (batch, e3, e4) =
          >>=-ok (ask client.answer_descendants (client_get_descendants page_input)) _ sent e2 in
        let scanned = scan_batch nfkc casefold s limit query batch.results st in
        go_on-Fits limit scanned
          (λ next.
            fallback_pages nfkc casefold client s rounds limit query root (some next)
              (next ∷ seen_cursors) scanned.0)
          (next_page batch.next_cursor seen_cursors) (client_get_descendants page_input ∷ sent) r
          (scan_batch-Fits limit batch.results st h room)
          (λ next more left.
            fallback_pages-Fits rounds limit root (some next) (next ∷ seen_cursors) scanned.0
              (client_get_descendants page_input ∷ sent) r more left)
          e4

    -- A response with such items.
    abbrev pub AllFound : ℕ → WikiSearchResponse → Type 0
    AllFound limit response = All Found response.results × (length response.results ≤ limit)

    next_root-AllFound :
        (limit : ℕ) (searched : Fallback × Bool) (rest : Fallback → Call Request WikiSearchResponse)
        (sent : List Request) (response : WikiSearchResponse)
        → Fits limit searched
        → ((st : Fallback)
            → All Found st.results
            → length st.results < limit
            → (rest st sent).0 ≡ ok response
            → AllFound limit response)
        → (next_root searched rest sent).0 ≡ ok response
        → AllFound limit response
    unfolding next_root
    next_root-AllFound limit (st, true) rest sent response fits later h =
        subst (AllFound limit) (ok-injective h) fits
    next_root-AllFound limit (st, false) rest sent response fits later h = later st fits.0 fits.1 h

    pub fallback_roots-AllFound :
        (limit : ℕ) (roots : List Text) (st : Fallback) (sent : List Request)
        (response : WikiSearchResponse)
        → All Found st.results
        → length st.results < limit
        → (fallback_roots nfkc casefold client s limit query roots st sent).0 ≡ ok response
        → AllFound limit response
    unfolding fallback_roots
    fallback_roots-AllFound limit [] st sent response h room e =
        subst (AllFound limit) (ok-injective e) (h, omega (arith, room))
    fallback_roots-AllFound limit (root ∷ roots) st sent response h room e =
        let pages = fallback_pages nfkc casefold client s 20 limit query root none [] st in
        let (searched, e1, e2) = >>=-ok pages _ sent e in
        next_root-AllFound limit searched (fallback_roots nfkc casefold client s limit query roots)
          (pages sent).1 response
          (fallback_pages-Fits 20 limit root none [] st sent searched h room e1)
          (λ st'. fallback_roots-AllFound limit roots st' (pages sent).1 response) e2
