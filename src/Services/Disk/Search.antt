-- ===== src/Services/Disk/Search.antt =====
-- services/disk.py: `search`.
pub mod Rounds
pub mod Matches
pub mod Signed
pub mod Advance
mod Tests
use yandex_workspace_mcp.Prelude.{
  ℕ, zero, suc, ◌+◌, ◌-◌, Bool, true, false, not, ◌||◌, ◌&&◌, Text, text, List, [], ◌∷◌, ◌++◌,
  Option, none, some, ltb, leb, ◌==◌, if◌then◌else◌, text_eq, is_part, mem_text, length, drop,
}
use yandex_workspace_mcp.Errors.{Result, ok, err, permission_denied, value_error}
use yandex_workspace_mcp.Models.Disk.{
  DiskResource, Items, no_items, item, DiskResourcePage, fields_of, count_items, DiskSearchResponse,
}
use yandex_workspace_mcp.Services.Calls.{Call, returned, of_result, ask, guard, ◌>>=◌, ◌>>◌}
use yandex_workspace_mcp.Services.Disk.{
  Request, DiskClient, DiskService, client_list_files, authorize_disk_path,
}

-- The methods of CursorCodec that `search` calls, and `str.casefold`. A decoded cursor is its offset
-- and its `seen`; the hashes of the query and of the principal are the codec's affair.
pub record DiskCursors : Type 0 where
  pub casefold : Text → Text
  pub item_hash : Text → Text
  pub decode_disk : (token query principal : Text) → Result (ℕ × List Text)
  pub encode_disk : (query principal : Text) (offset : ℕ) (seen : List Text) → Result Text

-- The variables of the loop; `seen_set` has the members of `seen`.
pub record SearchState : Type 0 where
  pub matched : List DiskResource
  pub seen : List Text
  pub current_offset : ℕ
  pub scanned : ℕ
  pub exhausted : Bool

abbrev pub max_scans : ℕ
max_scans = 1000

-- min(100, max(1, limit - len(matched)))
unfoldable pub batch_size : ℕ → SearchState → ℕ
batch_size limit st =
    let wanted = limit - length st.matched in
    let at_least_one = if ltb wanted 1 then 1 else wanted in
    if ltb at_least_one 100 then at_least_one else 100

-- `if cursor: ...`
abbrev pub search_start : DiskCursors → Text → Text → Option Text → ℕ → Result (ℕ × List Text)
search_start codec query principal none offset = ok (offset, [])
search_start codec query principal (some cursor) offset =
    if text_eq cursor [] then ok (offset, []) else codec.decode_disk cursor query principal

-- seen[-100:]
abbrev pub last_hundred : List Text → List Text
last_hundred seen = drop (length seen - 100) seen

-- The cursor of the next page. A DiskSearchCursorV1 takes no offset above 10000; pydantic's
-- ValidationError is a ValueError.
unfoldable pub next_cursor : DiskCursors → Text → Text → ℕ → SearchState → Result (Option Text)
next_cursor codec query principal limit st =
    if not st.exhausted && (leb limit (length st.matched) || leb max_scans st.scanned)
    then (if ltb 10000 st.current_offset
        then err value_error
        else (elim (codec.encode_disk query principal st.current_offset (last_hundred st.seen)) [
          | ok token ↦ ok (some token)
          | err e ↦ err e
        ]))
    else ok none

module _ (nfkc : Text → Text) (client : DiskClient) (s : DiskService) (codec : DiskCursors) where
  -- The identity hash of an item with this path, unless the loop passes over it.
  unfoldable pub path_hash : Option Text → Option Text
  path_hash none = none
  path_hash (some path) =
      if text_eq path [] then none else (elim (authorize_disk_path nfkc s path) [
        | ok valid_path ↦ some (codec.item_hash valid_path)
        | err _ ↦ none
      ])

  unfoldable pub identity_hash : Text → DiskResource → Option Text
  identity_hash query_lower resource =
      if is_part query_lower (codec.casefold (fields_of resource).name)
      then path_hash (fields_of resource).path
      else none

  -- `matched.append(item)` and `seen.append(identity_hash)`
  abbrev pub add_match : DiskResource → Text → SearchState → SearchState
  add_match resource hash st = record st {
    matched = st.matched ++ resource ∷ [];
    seen = st.seen ++ hash ∷ [];
  }

  -- for item in page.items
  unfoldable pub scan_items : ℕ → Text → Items → SearchState → SearchState
  scan_items limit query_lower no_items st = st
  scan_items limit query_lower (item resource items) st =
      elim (identity_hash query_lower resource) [
        | none ↦ scan_items limit query_lower items st
        | some hash ↦ elim (mem_text hash st.seen) [
          | true ↦ scan_items limit query_lower items st
          | false ↦ elim (leb limit (length (add_match resource hash st).matched)) [
            | true ↦ add_match resource hash st
            | false ↦ scan_items limit query_lower items (add_match resource hash st)
          ]
        ]
      ]

  -- What a page with items does to the state.
  unfoldable pub scan_page : ℕ → Text → DiskResourcePage → SearchState → SearchState
  scan_page limit query_lower page st =
      let count = count_items page.items in
      scan_items limit query_lower page.items
        (record st { scanned = st.scanned + count; current_offset = st.current_offset + count })

  -- The while loop. A page with no items ends it, so each round that goes on scans an item and as
  -- many rounds as `max_scans` are enough.
  unfoldable pub search_rounds : ℕ → ℕ → Text → Option Text → SearchState → Call Request SearchState
  search_rounds zero limit query_lower media_type st = returned st
  search_rounds (suc fuel) limit query_lower media_type st =
      elim (ltb (length st.matched) limit && ltb st.scanned max_scans) [
        | false ↦ returned st
        | true ↦ do
          page ←
              ask client.answer_page
                (client_list_files (batch_size limit st) st.current_offset media_type)
          elim (count_items page.items == 0) [
            | true ↦ returned (record st { exhausted = true })
            | false ↦ elim (ltb (count_items page.items) (batch_size limit st)) [
              | true ↦ returned (record (scan_page limit query_lower page st) { exhausted = true })
              | false ↦
                  search_rounds fuel limit query_lower media_type
                    (scan_page limit query_lower page st)
            ]
          ]
      ]

  unfoldable pub search :
      Text → ℕ → ℕ → Option Text → Text → Option Text → Call Request DiskSearchResponse
  search query limit offset cursor principal media_type = do
    guard (not s.can_read) permission_denied
    start ← of_result (search_start codec query principal cursor offset)
    st ← search_rounds max_scans limit (codec.casefold query) media_type (record {
      matched = [];
      seen = start.1;
      current_offset = start.0;
      scanned = 0;
      exhausted = false;
    })
    cursor ← of_result (next_cursor codec query principal limit st)
    returned (record {
      items = st.matched;
      query = query;
      next_cursor = cursor;
      truncated_by_upstream = leb max_scans st.scanned && ltb (length st.matched) limit;
    })
