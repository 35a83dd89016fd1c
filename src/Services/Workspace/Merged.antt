-- ===== src/Services/Workspace/Merged.antt =====
-- What the search of the workspace returns.
use yandex_workspace_mcp.Prelude.{
  ℕ, ◌≡◌, ◌≤◌, ◌<◌, refl, sym, ap, subst, inl, inr, false, Text, List, [], ◌∷◌, ◌++◌, Option, arith,
  leb, mem_text, length, length-append, map, Bool-cases,
}
use yandex_workspace_mcp.Errors.{Result, ok, >>=-ok, ok-injective}
use yandex_workspace_mcp.Models.Disk.{DiskSearchResponse}
use yandex_workspace_mcp.Services.Disk.Search.Matches.{
  NoRepeats, NoRepeats-append, append_twice, append_nil,
}
use yandex_workspace_mcp.Models.Wiki.Pages.{WikiSearchResponse}
use yandex_workspace_mcp.Services.Workspace.{
  ResourceRef, SearchResult, WorkspaceCursors, interleave, Merge, ref_hash, add_ref, merge,
  workspace_start, next_workspace, all_failed, wiki_found, disk_found, disk_cursor, finish, search,
}

module _ (codec : WorkspaceCursors) where
  map-append :
      (l : List ResourceRef) (r : ResourceRef)
      → map (ref_hash codec) (l ++ r ∷ []) ≡ map (ref_hash codec) l ++ ref_hash codec r ∷ []
  map-append [] r = refl
  map-append (x ∷ l) r = ap (λ m. ref_hash codec x ∷ m) (map-append l r)

  -- No more results than the limit, and none twice.
  record Fits (limit : ℕ) (seen : List Text) (st : Merge) : Type 0 where
    pub few : length st.results ≤ limit
    pub all_seen : st.seen ≡ seen ++ map (ref_hash codec) st.results
    pub distinct : NoRepeats seen (map (ref_hash codec) st.results)

  add_ref-Fits :
      (limit : ℕ) (seen : List Text) (r : ResourceRef) (st : Merge)
      → mem_text (ref_hash codec r) st.seen ≡ false
      → length st.results < limit
      → Fits limit seen st
      → Fits limit seen (add_ref codec r st)
  add_ref-Fits limit seen r st fresh room v = record {
    few = omega (arith, length-append st.results (r ∷ []), room);
    all_seen =
        rw (map-append st.results r, v.all_seen)
          (append_twice seen (map (ref_hash codec) st.results) (ref_hash codec r ∷ []));
    distinct = rw (map-append st.results r) (
        NoRepeats-append seen (map (ref_hash codec) st.results) (ref_hash codec r) v.distinct
          (rw (← v.all_seen) fresh));
  }

  merge-Fits :
      (limit : ℕ) (seen : List Text) (refs : List ResourceRef) (st : Merge)
      → length st.results < limit
      → Fits limit seen st
      → Fits limit seen (merge codec limit refs st)
  unfolding merge
  merge-Fits limit seen [] st room v = v
  merge-Fits limit seen (r ∷ refs) st room v =
      elim (Bool-cases (mem_text (ref_hash codec r) st.seen)) [
        | inl known ↦ rw (known, merge) (merge-Fits limit seen refs st room v)
        | inr fresh ↦
            let v' = add_ref-Fits limit seen r st fresh room v in
            elim (Bool-cases (leb limit (length (add_ref codec r st).results))) [
              | inl full ↦ rw (fresh, full, merge) v'
              | inr more ↦
                  rw (fresh, more, merge)
                    (merge-Fits limit seen refs (add_ref codec r st) (ground arith) v')
            ]
      ]

  finish-Fits :
      (query : Text) (limit : ℕ) (principal : Text) (seen : List Text)
      (wiki_outcome : Option (Result WikiSearchResponse))
      (disk_outcome : Option (Result DiskSearchResponse)) {result : SearchResult}
      → 1 ≤ limit
      → finish codec query limit principal seen wiki_outcome disk_outcome ≡ ok result
      → (length result.results ≤ limit) × NoRepeats seen (map (ref_hash codec) result.results)
  unfolding finish
  finish-Fits query limit principal seen wiki_outcome disk_outcome positive h =
      let refs = interleave (wiki_found codec wiki_outcome) (disk_found codec disk_outcome) in
      let empty : Merge = record { results = []; seen = seen } in
      let v =
        merge-Fits limit seen refs empty (omega (arith, positive))
          (record { few = omega arith; all_seen = sym (append_nil seen); distinct = tt }) in
      elim (Bool-cases (all_failed codec wiki_outcome disk_outcome)) [
        | inl bad ↦ absurd (ground (arith, rw bad at h))
        | inr good ↦
            let (next, made, h2) =
              >>=-ok
                (next_workspace codec query principal (disk_cursor codec disk_outcome)
                  (merge codec limit refs empty).seen)
                _ (rw good at h) in
            subst
              (λ r. (length r.results ≤ limit) × NoRepeats seen (map (ref_hash codec) r.results))
              (ok-injective h2) (v.few, v.distinct)
      ]

  -- A search of the workspace that returns has no more results than its limit, no two of them with one
  -- identity, and none with an identity that the cursor says was seen.
  pub search_lem :
      (query : Text) (limit : ℕ) (cursor : Option Text) (principal : Text)
      (wiki_outcome : Option (Result WikiSearchResponse))
      (disk_search : Option (ℕ → Result DiskSearchResponse)) {result : SearchResult}
      → 1 ≤ limit
      → search codec query limit cursor principal wiki_outcome disk_search ≡ ok result
      → (start : ℕ × List Text) × (workspace_start codec query principal cursor ≡ ok start)
        × (length result.results ≤ limit)
        × NoRepeats start.1 (map (ref_hash codec) result.results)
  unfolding search finish
  search_lem query limit cursor principal wiki_outcome disk_search {result} positive h =
      let (start, started, h1) = >>=-ok (workspace_start codec query principal cursor) _ h in
      let (few, distinct) = finish-Fits query limit principal start.1 wiki_outcome _ positive h1 in
      (start, started, few, distinct)
