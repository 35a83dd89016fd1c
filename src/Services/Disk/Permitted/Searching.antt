-- ===== src/Services/Disk/Permitted/Searching.antt =====
-- What `search` sends upstream.
use yandex_workspace_mcp.Prelude.{
  ℕ, zero, suc, ◌≡◌, ◌≤◌, inl, inr, true, ◌&&◌, Text, Option, ltb, ◌==◌, length, arith, Bool-cases,
}
use yandex_workspace_mcp.Models.Disk.{count_items}
use yandex_workspace_mcp.Services.Calls.{>>=-Sends, of_result-Sends}
use yandex_workspace_mcp.Services.Disk.{DiskClient, DiskService, client_list_files}
use yandex_workspace_mcp.Services.Disk.Permitted.{Permitted, Safe, switch-Safe, ask-then-Safe}
use yandex_workspace_mcp.Services.Disk.Search.{
  DiskCursors, SearchState, max_scans, batch_size, search_start, next_cursor, search_rounds, search,
}

batch_size-bounds :
    (limit : ℕ) (st : SearchState) → (1 ≤ batch_size limit st) × (batch_size limit st ≤ 100)
unfolding batch_size
batch_size-bounds limit st = ground arith

module _ (nfkc : Text → Text) (client : DiskClient) (s : DiskService) (codec : DiskCursors) where
  search_rounds-Safe :
      (fuel limit : ℕ) (query_lower : Text) (media_type : Option Text) (st : SearchState)
      → s.can_read ≡ true
      → Safe nfkc s (search_rounds nfkc client s codec fuel limit query_lower media_type st)
  unfolding search_rounds
  search_rounds-Safe zero limit query_lower media_type st on = λ sent h. h
  search_rounds-Safe (suc fuel) limit query_lower media_type st on =
      elim (Bool-cases (ltb (length st.matched) limit && ltb st.scanned max_scans)) [
        | inr done ↦ rw (done, search_rounds) (λ sent h. h)
        | inl more ↦
            rw (more, search_rounds)
              (ask-then-Safe nfkc s client.answer_page
                (client_list_files (batch_size limit st) st.current_offset media_type) _
                (on, (batch_size-bounds limit st).0, (batch_size-bounds limit st).1)
                (λ page. elim (Bool-cases (count_items page.items == 0)) [
                  | inl empty ↦ rw empty (λ sent h. h)
                  | inr some_items ↦
                      elim (Bool-cases (ltb (count_items page.items) (batch_size limit st))) [
                        | inl last ↦ rw (some_items, last) (λ sent h. h)
                        | inr full ↦
                            rw (some_items, full)
                              (search_rounds-Safe fuel limit query_lower media_type _ on)
                      ]
                ]))
      ]

  pub search-Safe :
      (query : Text) (limit offset : ℕ) (cursor : Option Text) (principal : Text)
      (media_type : Option Text)
      → Safe nfkc s (search nfkc client s codec query limit offset cursor principal media_type)
  unfolding search
  search-Safe query limit offset cursor principal media_type =
      switch-Safe nfkc s s.can_read _ (λ on.
        of_result-Sends (Permitted nfkc s) (search_start codec query principal cursor offset) _
          (λ start e.
            >>=-Sends (Permitted nfkc s)
              (search_rounds nfkc client s codec max_scans limit (codec.casefold query) media_type
                _)
              _ (search_rounds-Safe max_scans limit (codec.casefold query) media_type _ on)
              (λ st.
                of_result-Sends (Permitted nfkc s) (next_cursor codec query principal limit st) _
                  (λ token e1 sent h. h))))
