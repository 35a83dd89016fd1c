-- ===== src/Services/Disk/Search/Advance.antt =====
-- services/disk.py: each page of a search with cursors starts behind the one before it.
use yandex_workspace_mcp.Prelude.{
  ℕ, zero, suc, ◌+◌, ◌≡◌, ◌≤◌, ◌<◌, refl, ap, subst, ◌∙◌, inl, inr, true, not, ◌&&◌, ◌||◌, Text,
  List, [], ◌∷◌, Option, some, arith, Bool-cases, Option-cases, ltb, leb, ◌==◌, length,
  length-append, mem_text, all,
}
use yandex_workspace_mcp.Errors.{ok, ok-injective}
use yandex_workspace_mcp.Models.Disk.{
  Items, no_items, item, count_items, DiskResourcePage, DiskSearchResponse,
}
use yandex_workspace_mcp.Policies.Cursors.{Primitives, KeyRing}
use yandex_workspace_mcp.Policies.Cursors.Models.{disk_json}
use yandex_workspace_mcp.Policies.Cursors.Tokens.{IsDigest, IsReadable}
use yandex_workspace_mcp.Services.Calls.{ask, >>=-ok}
use yandex_workspace_mcp.Services.Disk.{DiskClient, DiskService, Request, client_list_files}
use yandex_workspace_mcp.Services.Disk.Search.{
  DiskCursors, SearchState, max_scans, batch_size, search_start, next_cursor, identity_hash,
  add_match, scan_items, scan_page, search_rounds, search, last_hundred,
}
use yandex_workspace_mcp.Services.Disk.Search.Signed.{
  disk_cursor, disk_cursors, search_ended, search_start-next,
}

-- The offset has moved by the items that were scanned, and each match is one of them.
record Advanced (start : ℕ) (st : SearchState) : Type 0 where
  pub moved : st.current_offset ≡ start + st.scanned
  pub found : length st.matched ≤ st.scanned

module _ (nfkc : Text → Text) (client : DiskClient) (s : DiskService) (codec : DiskCursors)
    (query_lower : Text) where
  -- What the loop over a page leaves: only matches are added, one for an item at most.
  record Scanned (count : ℕ) (st st' : SearchState) : Type 0 where
    pub same_offset : st'.current_offset ≡ st.current_offset
    pub same_scanned : st'.scanned ≡ st.scanned
    pub few : length st'.matched ≤ length st.matched + count

  scan_items-Scanned :
      (limit : ℕ) (items : Items) (st : SearchState)
      → Scanned (count_items items) st (scan_items nfkc client s codec limit query_lower items st)
  unfolding scan_items count_items
  scan_items-Scanned limit no_items st = record {
    same_offset = refl;
    same_scanned = refl;
    few = omega arith;
  }
  scan_items-Scanned limit (item resource items) st =
      elim (Option-cases (identity_hash nfkc client s codec query_lower resource)) [
        | inl no_match ↦ rw (no_match, scan_items) (wider (scan_items-Scanned limit items st))
        | inr (hash, e) ↦ elim (Bool-cases (mem_text hash st.seen)) [
          | inl known ↦ rw (e, known, scan_items) (wider (scan_items-Scanned limit items st))
          | inr fresh ↦
              let st' = add_match nfkc client s codec resource hash st in
              elim (Bool-cases (leb limit (length st'.matched))) [
                | inl full ↦
                    rw (e, fresh, full, scan_items)
                      (record {
                        same_offset = refl;
                        same_scanned = refl;
                        few = omega (arith, length-append st.matched (resource ∷ []));
                      })
                | inr more ↦
                    rw (e, fresh, more, scan_items)
                      (longer hash (scan_items-Scanned limit items st'))
              ]
        ]
      ]
    where
      wider : {n : ℕ} {a b : SearchState} → Scanned n a b → Scanned (suc n) a b
      wider v = record {
        same_offset = v.same_offset;
        same_scanned = v.same_scanned;
        few = omega (arith, v.few);
      }

      longer :
          {n : ℕ} {b : SearchState} (hash : Text)
          → Scanned n (add_match nfkc client s codec resource hash st) b
          → Scanned (suc n) st b
      longer hash v = record {
        same_offset = v.same_offset;
        same_scanned = v.same_scanned;
        few = omega (arith, v.few, length-append st.matched (resource ∷ []));
      }

  scan_page-Advanced :
      (limit start : ℕ) (page : DiskResourcePage) (st : SearchState)
      → Advanced start st
      → Advanced start (scan_page nfkc client s codec limit query_lower page st)
  unfolding scan_page
  scan_page-Advanced limit start page st v =
      let w = scan_items-Scanned limit page.items (record st {
        scanned = st.scanned + count_items page.items;
        current_offset = st.current_offset + count_items page.items;
      }) in
      record {
        moved = omega (arith, v.moved, w.same_offset, w.same_scanned);
        found = omega (arith, v.found, w.few, w.same_scanned);
      }

  search_rounds-Advanced :
      (fuel limit start : ℕ) (media_type : Option Text) (st : SearchState) (sent : List Request)
      {st' : SearchState}
      → (search_rounds nfkc client s codec fuel limit query_lower media_type st sent).0 ≡ ok st'
      → Advanced start st
      → Advanced start st'
  unfolding search_rounds
  search_rounds-Advanced zero limit start media_type st sent h v =
      subst (Advanced start) (ok-injective h) v
  search_rounds-Advanced (suc fuel) limit start media_type st sent {st'} h v =
      elim (Bool-cases (ltb (length st.matched) limit && ltb st.scanned max_scans)) [
        | inr done ↦ subst (Advanced start) (ok-injective (rw (done, search_rounds) at h)) v
        | inl go_on ↦
            let (page, answered, h1) =
              >>=-ok
                (ask client.answer_page
                  (client_list_files (batch_size limit st) st.current_offset media_type))
                _ sent (rw (go_on, search_rounds) at h) in
            let v' = scan_page-Advanced limit start page st v in
            elim (Bool-cases (count_items page.items == 0)) [
              | inl empty ↦ subst (Advanced start) (ok-injective (rw empty at h1)) (ended v)
              | inr some_items ↦
                  elim (Bool-cases (ltb (count_items page.items) (batch_size limit st))) [
                    | inl last ↦
                        subst (Advanced start) (ok-injective (rw (some_items, last) at h1))
                          (ended v')
                    | inr full ↦
                        search_rounds-Advanced fuel limit start media_type _ _
                          (rw (some_items, full) at h1) v'
                  ]
            ]
      ]
    where
      ended : {t : SearchState} → Advanced start t → Advanced start (record t { exhausted = true })
      ended w = record { moved = w.moved; found = w.found }

-- A cursor is made only after an item was scanned.
next_cursor-scanned :
    (codec : DiskCursors) (query principal : Text) (limit start : ℕ) (st : SearchState)
    {token : Text}
    → 1 ≤ limit
    → next_cursor codec query principal limit st ≡ ok (some token)
    → Advanced start st
    → start < st.current_offset
unfolding next_cursor
next_cursor-scanned codec query principal limit start st positive h v =
    elim (Bool-cases
      (not st.exhausted && (leb limit (length st.matched) || leb max_scans st.scanned))) [
        | inr last ↦ absurd (let e = rw last at h in cc)
        | inl more ↦ ground (arith, more, v.moved, v.found, positive)
      ]

module _ (nfkc : Text → Text) (client : DiskClient) (s : DiskService) (p : Primitives)
    (ring : KeyRing) where
  -- Where the limit is 1 at least, the hashes are digests of 32 bytes and ASCII texts, and the JSON of
  -- the cursors is read as it was written: when a search of the Disk with the signed codec returns a
  -- cursor, a search for the same query and principal with this cursor starts at a larger offset than
  -- the first one did, and at 10000 at most.
  pub search_advances :
      (query : Text) (limit offset other : ℕ) (cursor : Option Text) (principal : Text)
      (media_type : Option Text) (sent : List Request) {response : DiskSearchResponse}
      {token : Text}
      → ((message : Text) → IsDigest (p.hmac_sha256 ring.first_key message))
      → ((message : List ℕ) → all (λ c. ltb c 128) (p.sha256_hex message) ≡ true)
      → ((o : ℕ) (seen : List Text)
          → IsReadable p (disk_json (disk_cursor p ring query principal o seen)))
      → 1 ≤ limit
      → (search nfkc client s
          (disk_cursors p ring)
          query
          limit
          offset
          cursor
          principal
          media_type
          sent).0
        ≡ ok response
      → response.next_cursor ≡ some token
      → (start next : ℕ × List Text) × (search_start
            (disk_cursors p ring)
            query
            principal
            cursor
            offset
          ≡ ok start)
        × (search_start (disk_cursors p ring) query principal (some token) other ≡ ok next)
        × (start.0 < next.0)
        × (next.0 ≤ 10000)
  search_advances query limit offset other cursor principal media_type sent digests ascii readable
        positive h has_cursor =
      let codec = disk_cursors p ring in
      let (start, st, started, ended, items, made) =
        search_ended nfkc client s codec query limit offset cursor principal media_type sent h in
      let made' = made ∙ ap ok has_cursor in
      let (near, resumed) =
        search_start-next p ring query principal other limit st digests ascii readable made' in
      (
        start,
        (st.current_offset, last_hundred st.seen),
        started,
        resumed,
        next_cursor-scanned codec query principal limit start.0 st positive made' (
            search_rounds-Advanced nfkc client s codec (codec.casefold query) max_scans limit
              start.0 media_type _ sent ended
              (record { moved = omega arith; found = omega arith })),
        near,
      )
