-- ===== src/Services/Disk/Search/Rounds.antt =====
-- How many rounds the loop of `search` takes.
use yandex_workspace_mcp.Prelude.{
  ℕ, zero, suc, ◌+◌, ◌≡◌, ◌≤◌, refl, sym, inl, inr, false, ◌&&◌, Text, List, Option, arith,
  Bool-cases, Option-cases, ltb, leb, ◌==◌, length, mem_text,
}
use yandex_workspace_mcp.Errors.{ok}
use yandex_workspace_mcp.Models.Disk.{Items, no_items, item, count_items, DiskResourcePage}
use yandex_workspace_mcp.Services.Calls.{ask_cong}
use yandex_workspace_mcp.Services.Disk.{DiskClient, DiskService, Request, client_list_files}
use yandex_workspace_mcp.Services.Disk.Search.{
  DiskCursors, SearchState, max_scans, batch_size, identity_hash, add_match, scan_items, scan_page,
  search_rounds,
}

module _ (nfkc : Text → Text) (client : DiskClient) (s : DiskService) (codec : DiskCursors) where
  scan_items-scanned :
      (limit : ℕ) (query_lower : Text) (items : Items) (st : SearchState)
      → (scan_items nfkc client s codec limit query_lower items st).scanned ≡ st.scanned
  unfolding scan_items
  scan_items-scanned limit query_lower no_items st = refl
  scan_items-scanned limit query_lower (item resource items) st =
      elim (Option-cases (identity_hash nfkc client s codec query_lower resource)) [
        | inl no_match ↦ rw (no_match, scan_items) (scan_items-scanned limit query_lower items st)
        | inr (hash, e) ↦ elim (Bool-cases (mem_text hash st.seen)) [
          | inl known ↦ rw (e, known, scan_items) (scan_items-scanned limit query_lower items st)
          | inr fresh ↦
              elim (Bool-cases
                (leb limit (length (add_match nfkc client s codec resource hash st).matched))) [
                  | inl full ↦ rw (e, fresh, full, scan_items) refl
                  | inr room ↦
                      rw (e, fresh, room, scan_items)
                        (scan_items-scanned limit query_lower items
                          (add_match nfkc client s codec resource hash st))
                ]
        ]
      ]

  scan_page-scanned :
      (limit : ℕ) (query_lower : Text) (page : DiskResourcePage) (st : SearchState)
      → (scan_page nfkc client s codec limit query_lower page st).scanned
        ≡ st.scanned + count_items page.items
  unfolding scan_page
  scan_page-scanned limit query_lower page st = scan_items-scanned limit query_lower page.items _

  -- A loop whose condition fails does nothing.
  search_rounds_stop :
      (fuel limit : ℕ) (query_lower : Text) (media_type : Option Text) (st : SearchState)
      (sent : List Request)
      → (ltb (length st.matched) limit && ltb st.scanned max_scans) ≡ false
      → search_rounds nfkc client s codec fuel limit query_lower media_type st sent ≡ (ok st, sent)
  unfolding search_rounds
  search_rounds_stop zero limit query_lower media_type st sent h = refl
  search_rounds_stop (suc fuel) limit query_lower media_type st sent h = rw (h, search_rounds) refl

  -- As many rounds as items are left to scan are enough: with any two numbers of rounds that reach
  -- `max_scans` the loop sends the same requests and ends in the same state.
  pub search_rounds_enough :
      (fuel other limit : ℕ) (query_lower : Text) (media_type : Option Text) (st : SearchState)
      (sent : List Request)
      → max_scans ≤ fuel + st.scanned
      → max_scans ≤ other + st.scanned
      → search_rounds nfkc client s codec fuel limit query_lower media_type st sent
        ≡ search_rounds nfkc client s codec other limit query_lower media_type st sent
  unfolding search_rounds
  search_rounds_enough zero other limit query_lower media_type st sent h k =
      let over : (ltb (length st.matched) limit && ltb st.scanned max_scans) ≡ false =
        ground arith in
      sym (search_rounds_stop other limit query_lower media_type st sent over)
  search_rounds_enough (suc fuel) zero limit query_lower media_type st sent h k =
      let over : (ltb (length st.matched) limit && ltb st.scanned max_scans) ≡ false =
        ground arith in
      search_rounds_stop (suc fuel) limit query_lower media_type st sent over
  search_rounds_enough (suc fuel) (suc other) limit query_lower media_type st sent h k =
      elim (Bool-cases (ltb (length st.matched) limit && ltb st.scanned max_scans)) [
        | inr done ↦ rw (done, search_rounds) refl
        | inl go_on ↦
            rw (go_on, search_rounds)
              (ask_cong client.answer_page
                (client_list_files (batch_size limit st) st.current_offset media_type) _ _ sent
                (λ page. elim (Bool-cases (count_items page.items == 0)) [
                  | inl empty ↦ rw empty refl
                  | inr some_items ↦
                      elim (Bool-cases (ltb (count_items page.items) (batch_size limit st))) [
                        | inl last ↦ rw (some_items, last) refl
                        | inr full ↦
                            let grown = scan_page-scanned limit query_lower page st in
                            let left' : max_scans
                                ≤ other
                                  + (scan_page nfkc client s codec limit query_lower page
                                      st).scanned =
                              ground (arith, grown) in
                            let left : max_scans
                                ≤ fuel
                                  + (scan_page nfkc client s codec limit query_lower page
                                      st).scanned =
                              ground (arith, grown) in
                            rw (some_items, full)
                              (search_rounds_enough fuel other limit query_lower media_type _ _ left
                                left')
                      ]
                ]))
      ]
