-- ===== src/Services/Disk/Search/Matches.antt =====
-- What `search` finds.
use yandex_workspace_mcp.Prelude.{
  ℕ, zero, suc, ◌≡◌, ◌≤◌, ◌<◌, refl, sym, ap, subst, inl, inr, true, false, not, ◌&&◌, Text, List,
  [], ◌∷◌, ◌++◌, Option, none, some, arith, Bool-cases, Option-cases, ltb, leb, ◌==◌, length,
  length-append, mem_text, map, All, All-append,
}
use yandex_workspace_mcp.Errors.{ok, permission_denied, ok-injective}
use yandex_workspace_mcp.Models.Disk.{
  DiskResource, Items, no_items, item, count_items, DiskResourcePage, DiskSearchResponse,
}
use yandex_workspace_mcp.Services.Calls.{of_result, ask, >>=-ok, guard-ok}
use yandex_workspace_mcp.Services.Disk.{DiskClient, DiskService, Request, client_list_files}
use yandex_workspace_mcp.Services.Disk.Search.{
  DiskCursors, SearchState, max_scans, batch_size, search_start, next_cursor, identity_hash,
  add_match, scan_items, scan_page, search_rounds, search,
}

-- No text of the list is among those in front of it, or among `seen`.
abbrev pub NoRepeats : List Text → List Text → Type 0
NoRepeats seen [] = Unit {0}
NoRepeats seen (t ∷ l) = (mem_text t seen ≡ false) × NoRepeats (seen ++ t ∷ []) l

append_assoc : (a : List Text) (t : Text) (b : List Text) → (a ++ t ∷ []) ++ b ≡ a ++ t ∷ b
append_assoc [] t b = refl
append_assoc (x ∷ a) t b = ap (λ l. x ∷ l) (append_assoc a t b)

pub append_nil : (a : List Text) → a ++ [] ≡ a
append_nil [] = refl
append_nil (x ∷ a) = ap (λ l. x ∷ l) (append_nil a)

pub append_twice : (a b c : List Text) → (a ++ b) ++ c ≡ a ++ (b ++ c)
append_twice [] b c = refl
append_twice (x ∷ a) b c = ap (λ l. x ∷ l) (append_twice a b c)

pub NoRepeats-append :
    (seen l : List Text) (t : Text)
    → NoRepeats seen l
    → mem_text t (seen ++ l) ≡ false
    → NoRepeats seen (l ++ t ∷ [])
NoRepeats-append seen [] t h new = (subst (λ l. mem_text t l ≡ false) (append_nil seen) new, tt)
NoRepeats-append seen (x ∷ l) t h new =
    (h.0, NoRepeats-append (seen ++ x ∷ []) l t h.1 (rw (append_assoc seen x l) new))

module _ (nfkc : Text → Text) (client : DiskClient) (s : DiskService) (codec : DiskCursors)
    (query_lower : Text) where
  -- The name holds the query, and the path is authorized.
  abbrev pub IsMatch : DiskResource → Type 0
  IsMatch resource =
      (hash : Text) × (identity_hash nfkc client s codec query_lower resource ≡ some hash)

  abbrev pub hash_of : DiskResource → Text
  hash_of resource = elim (identity_hash nfkc client s codec query_lower resource) [
    | none ↦ []
    | some hash ↦ hash
  ]

  -- The matches are such, no more than the limit, and no two are one resource.
  pub record Found (limit : ℕ) (seen : List Text) (st : SearchState) : Type 0 where
    pub few : length st.matched ≤ limit
    pub all_match : All IsMatch st.matched
    pub all_seen : st.seen ≡ seen ++ map hash_of st.matched
    pub distinct : NoRepeats seen (map hash_of st.matched)

  map-append :
      (l : List DiskResource) (r : DiskResource)
      → map hash_of (l ++ r ∷ []) ≡ map hash_of l ++ hash_of r ∷ []
  map-append [] r = refl
  map-append (x ∷ l) r = ap (λ m. hash_of x ∷ m) (map-append l r)

  add_match-Found :
      (limit : ℕ) (seen : List Text) (resource : DiskResource) (hash : Text) (st : SearchState)
      → identity_hash nfkc client s codec query_lower resource ≡ some hash
      → mem_text hash st.seen ≡ false
      → length st.matched < limit
      → Found limit seen st
      → Found limit seen (add_match nfkc client s codec resource hash st)
  add_match-Found limit seen resource hash st e fresh room v = record {
    few = omega (arith, length-append st.matched (resource ∷ []), room);
    all_match = All-append IsMatch st.matched (resource ∷ []) v.all_match ((hash, e), tt);
    all_seen =
        rw (map-append st.matched resource, e, v.all_seen, hash_of)
          (append_twice seen (map hash_of st.matched) (hash ∷ []));
    distinct =
        rw (map-append st.matched resource, e, hash_of)
          (NoRepeats-append seen (map hash_of st.matched) hash v.distinct
            (rw (← v.all_seen) fresh));
  }

  scan_items-Found :
      (limit : ℕ) (seen : List Text) (items : Items) (st : SearchState)
      → length st.matched < limit
      → Found limit seen st
      → Found limit seen (scan_items nfkc client s codec limit query_lower items st)
  unfolding scan_items
  scan_items-Found limit seen no_items st room v = v
  scan_items-Found limit seen (item resource items) st room v =
      elim (Option-cases (identity_hash nfkc client s codec query_lower resource)) [
        | inl no_match ↦ rw (no_match, scan_items) (scan_items-Found limit seen items st room v)
        | inr (hash, e) ↦ elim (Bool-cases (mem_text hash st.seen)) [
          | inl known ↦ rw (e, known, scan_items) (scan_items-Found limit seen items st room v)
          | inr fresh ↦
              let st' = add_match nfkc client s codec resource hash st in
              let v' : Found limit seen st' =
                add_match-Found limit seen resource hash st e fresh room v in
              elim (Bool-cases (leb limit (length st'.matched))) [
                | inl full ↦ rw (e, fresh, full, scan_items) v'
                | inr more ↦
                    rw (e, fresh, more, scan_items)
                      (scan_items-Found limit seen items st' (ground arith) v')
              ]
        ]
      ]

  scan_page-Found :
      (limit : ℕ) (seen : List Text) (page : DiskResourcePage) (st : SearchState)
      → length st.matched < limit
      → Found limit seen st
      → Found limit seen (scan_page nfkc client s codec limit query_lower page st)
  unfolding scan_page
  scan_page-Found limit seen page st room v =
      scan_items-Found limit seen page.items _ room (record {
        few = v.few;
        all_match = v.all_match;
        all_seen = v.all_seen;
        distinct = v.distinct;
      })

  search_rounds-Found :
      (fuel limit : ℕ) (seen : List Text) (media_type : Option Text) (st : SearchState)
      (sent : List Request) {st' : SearchState}
      → (search_rounds nfkc client s codec fuel limit query_lower media_type st sent).0 ≡ ok st'
      → Found limit seen st
      → Found limit seen st'
  unfolding search_rounds
  search_rounds-Found zero limit seen media_type st sent h v =
      subst (Found limit seen) (ok-injective h) v
  search_rounds-Found (suc fuel) limit seen media_type st sent {st'} h v =
      elim (Bool-cases (ltb (length st.matched) limit && ltb st.scanned max_scans)) [
        | inr done ↦ subst (Found limit seen) (ok-injective (rw (done, search_rounds) at h)) v
        | inl go_on ↦
            let (page, answered, h1) =
              >>=-ok
                (ask client.answer_page
                  (client_list_files (batch_size limit st) st.current_offset media_type))
                _ sent (rw (go_on, search_rounds) at h) in
            let v' = scan_page-Found limit seen page st (ground arith) v in
            elim (Bool-cases (count_items page.items == 0)) [
              | inl empty ↦ subst (Found limit seen) (ok-injective (rw empty at h1)) (ended v)
              | inr some_items ↦
                  elim (Bool-cases (ltb (count_items page.items) (batch_size limit st))) [
                    | inl last ↦
                        subst (Found limit seen) (ok-injective (rw (some_items, last) at h1))
                          (ended v')
                    | inr full ↦
                        search_rounds-Found fuel limit seen media_type _ _
                          (rw (some_items, full) at h1) v'
                  ]
            ]
      ]
    where
      ended :
          {t : SearchState} → Found limit seen t → Found limit seen (record t { exhausted = true })
      ended w = record {
        few = w.few;
        all_match = w.all_match;
        all_seen = w.all_seen;
        distinct = w.distinct;
      }

module _ (nfkc : Text → Text) (client : DiskClient) (s : DiskService) (codec : DiskCursors) where
  -- What a search returns has a name that holds the query and an authorized path; there are no more
  -- such resources than the limit, and no two of them have one identity, nor has one of them the
  -- identity of a resource that the cursor says was seen.
  pub search-Found :
      (query : Text) (limit offset : ℕ) (cursor : Option Text) (principal : Text)
      (media_type : Option Text) (sent : List Request) {response : DiskSearchResponse}
      → (search nfkc client s codec query limit offset cursor principal media_type sent).0
        ≡ ok response
      → (start : ℕ × List Text) × (search_start codec query principal cursor offset ≡ ok start)
        × (length response.items ≤ limit)
        × All (IsMatch nfkc client s codec (codec.casefold query)) response.items
        × NoRepeats start.1
            (map (hash_of nfkc client s codec (codec.casefold query)) response.items)
  unfolding search
  search-Found query limit offset cursor principal media_type sent {response} h =
      let (on, h1) = guard-ok (not s.can_read) permission_denied _ sent h in
      let (start, started, h2) =
        >>=-ok (of_result (search_start codec query principal cursor offset)) _ sent h1 in
      let (st, ended, h3) =
        >>=-ok
          (search_rounds nfkc client s codec max_scans limit (codec.casefold query) media_type _) _
          _ h2 in
      let (token, made, h4) =
        >>=-ok (of_result (next_cursor codec query principal limit st)) _ _ h3 in
      let v =
        search_rounds-Found nfkc client s codec (codec.casefold query) max_scans limit start.1
          media_type _ _ ended
          (record {
            few = omega arith;
            all_match = tt;
            all_seen = sym (append_nil start.1);
            distinct = tt;
          }) in
      let same = ok-injective h4 in
      let fits =
        subst
          (λ r.
            (length r.items ≤ limit)
            × All (IsMatch nfkc client s codec (codec.casefold query)) r.items
            × NoRepeats start.1 (map (hash_of nfkc client s codec (codec.casefold query)) r.items))
          same (v.few, v.all_match, v.distinct) in
      (start, started, fits.0, fits.1, fits.2)
