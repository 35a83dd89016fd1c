-- ===== src/Services/Disk/Search/Tests.antt =====
-- A search with signed cursors against an API that lists one file each time.
use yandex_workspace_mcp.Prelude.{
  ℕ, ◌<◌, ◌≤◌, ◌≡◌, refl, true, false, ◌&&◌, Text, text, List, [], ◌∷◌, Option, none, some, ltb,
  if◌then◌else◌, arith, All, all, length, replicate, Bool-cases, inl, inr, is_part, subst,
}
use yandex_workspace_mcp.Prelude.Int.{pos}
use yandex_workspace_mcp.Errors.{ok, err, resource_not_found, value_error}
use yandex_workspace_mcp.Python.Posixpath.Laws.{rooted}
use yandex_workspace_mcp.Python.Base64.{IsByte}
use yandex_workspace_mcp.Models.Wiki.Json.{
  Json, json_text, json_int, json_list, json_dict, item_entry, item_value, no_values,
}
use yandex_workspace_mcp.Models.Disk.{
  file, DiskResource, plain, no_items, item, DiskResourcePage, DiskSearchResponse, completed,
  count_items,
}
use yandex_workspace_mcp.Policies.Paths.{runs as path_runs}
use yandex_workspace_mcp.Policies.Cursors.{Primitives, KeyRing, query_hash, principal_hash}
use yandex_workspace_mcp.Policies.Cursors.Models.{disk_json}
use yandex_workspace_mcp.Policies.Cursors.Sums.{primitives, mac-IsDigest, hex_ascii}
use yandex_workspace_mcp.Policies.Cursors.Tokens.{IsReadable}
use yandex_workspace_mcp.Services.Disk.{DiskClient, DiskService, authorize_disk_path}
use yandex_workspace_mcp.Services.Disk.Search.{
  SearchState, max_scans, search_start, last_hundred, search_rounds, search, batch_size, path_hash,
  identity_hash, scan_items, scan_page, next_cursor,
}
use yandex_workspace_mcp.Services.Disk.Search.Advance.{search_advances}
use yandex_workspace_mcp.Services.Disk.Search.Signed.{
  disk_cursor, disk_cursors, from_start, search_resumes,
}

abbrev found_file : DiskResource
found_file = plain (record {
  path = some (text "/Work/a");
  name = text "a";
  type = file;
  size = some 1;
  mime_type = none;
  md5 = none;
  created_at = none;
  modified_at = none;
  public_url = none;
})

abbrev one_file : DiskResourcePage
one_file = record {
  items = item found_file no_items;
  fields = record { limit = 1; offset = 0; total = none; next_cursor = none };
}

abbrev listing_client : DiskClient
listing_client = record {
  answer_info = λ sent request. err resource_not_found;
  answer_resource = λ sent request. ok found_file;
  answer_page = λ sent request. ok one_file;
  answer_link = λ sent request. err resource_not_found;
  answer_operation =
      λ sent request. ok (record { status = completed; operation_id = none; path = none });
  answer_trash_page = λ sent request. err resource_not_found;
  answer_trash_entry = λ sent request. err resource_not_found;
  answer_bytes = λ sent request. ok [];
  answer_nothing = λ sent request. ok tt;
}

abbrev reading_service : DiskService
reading_service = record {
  allowed_roots = rooted (text "Work" ∷ []) ∷ [];
  can_read = true;
  can_write = false;
  can_delete = false;
  max_upload_bytes = 10;
  has_signed_client = false;
  allow_global_destructive = false;
  max_inline_text_bytes = 10;
  upload_allowed_dirs = [];
  upload_url_allowed_hosts = [];
  allowed_public_keys = [];
}

abbrev ring : KeyRing
ring = record { first_key = replicate 32 1; other_keys = [] }

-- A cursor with one item as seen is written as its offset and the hash of that item, where these are
-- bytes. The other hashes are those of the query "a" and the principal "p".
abbrev written_if : ℕ → Text → Option (List ℕ)
written_if offset hash =
    if ltb offset 256 && all (λ c. ltb c 256) hash then some (offset ∷ hash) else none

abbrev write_cursor : Json → Option (List ℕ)
write_cursor
      (json_dict (
        item_entry _ (json_int (pos offset)) (
          item_entry _ _ (
            item_entry _ _
              (item_entry _ (json_list (item_value (json_text hash) no_values)) _))))) =
    written_if offset hash
write_cursor _ = none

abbrev hashing : Primitives
hashing = primitives write_cursor (λ raw. none)

abbrev read_back : List ℕ → Option Json
read_back [] = none
read_back (offset ∷ hash) =
    some (json_dict (disk_json (disk_cursor hashing ring (text "a") (text "p") offset (hash ∷ []))))

abbrev reading : Primitives
reading = primitives write_cursor read_back

are_bytes : (hash : Text) → all (λ c. ltb c 256) hash ≡ true → All IsByte hash
are_bytes [] h = tt
are_bytes (c ∷ hash) h = elim (Bool-cases (ltb c 256)) [
  | inl small ↦ (ground (arith, small), are_bytes hash (rw small at h))
  | inr large ↦ absurd (let e = rw large at h in cc)
]

cursor-IsReadable :
    (offset : ℕ) (seen : List Text)
    → IsReadable reading (disk_json (disk_cursor reading ring (text "a") (text "p") offset seen))
unfolding disk_json query_hash principal_hash
cursor-IsReadable offset [] = record { reads = λ raw h. absurd cc }
cursor-IsReadable offset (hash ∷ (hash' ∷ seen)) = record { reads = λ raw h. absurd cc }
cursor-IsReadable offset (hash ∷ []) = record { reads = reads }
  where
    reads :
        (raw : List ℕ)
        → written_if offset hash ≡ some raw
        → (read_back raw
            ≡ some (
                json_dict
                  (disk_json (disk_cursor hashing ring (text "a") (text "p") offset (hash ∷ [])))))
          × All IsByte raw
          × (0 < length raw)
    reads raw h = elim (Bool-cases (ltb offset 256)) [
      | inr large ↦ absurd (let e = rw large at h in cc)
      | inl small ↦ elim (Bool-cases (all (λ c. ltb c 256) hash)) [
        | inr other ↦ absurd (let e = rw (small, other) at h in cc)
        | inl bytes ↦
            let same : offset ∷ hash ≡ raw = let e = rw (small, bytes) at h in cc in
            subst
              (λ r.
                (read_back r
                  ≡ some (
                      json_dict (
                        disk_json
                          (disk_cursor hashing ring (text "a") (text "p") offset (hash ∷ [])))))
                × All IsByte r
                × (0 < length r))
              same (refl, (ground (arith, small), are_bytes hash bytes), omega arith)
      ]
    ]

-- Its line lists what a search computes with.
unfoldable runs : Unit {0}
unfolding path_runs authorize_disk_path search batch_size path_hash identity_hash scan_items
    scan_page next_cursor count_items search_rounds is_part disk_cursors
runs = tt

abbrev token : Text
token = text "AUZoWVdGaFlXRmhZV0ZoWVdGaFlXRmc.9_f39_f39_f39_f39_f39_f39_f39_f39_f39_f39_c"

abbrev found : DiskSearchResponse
found = record {
  items = found_file ∷ [];
  query = text "a";
  next_cursor = some token;
  truncated_by_upstream = false;
}

searched :
    (search
      (λ t. t)
      listing_client
      reading_service
      (disk_cursors reading ring)
      (text "a")
      1
      0
      none
      (text "p")
      none
      []).0
    ≡ ok found
unfolding runs
searched = refl

search_resumes_example :
    (start : ℕ × List Text) × (st : SearchState) × (search_start
        (disk_cursors reading ring)
        (text "a")
        (text "p")
        none
        0
      ≡ ok start)
    × ((search_rounds
          (λ t. t)
          listing_client
          reading_service
          (disk_cursors reading ring)
          max_scans
          1
          (text "a")
          none
          (from_start start)
          []).0
        ≡ ok st)
    × (found.items ≡ st.matched)
    × (st.current_offset ≤ 10000)
    × (search_start (disk_cursors reading ring) (text "a") (text "p") (some token) 0
        ≡ ok (st.current_offset, last_hundred st.seen))
search_resumes_example =
    search_resumes (λ t. t) listing_client reading_service reading ring (text "a") 1 0 0 none
      (text "p") none [] (mac-IsDigest ring.first_key) hex_ascii cursor-IsReadable searched refl

search_advances_example :
    (start next : ℕ × List Text) × (search_start
        (disk_cursors reading ring)
        (text "a")
        (text "p")
        none
        0
      ≡ ok start)
    × (search_start (disk_cursors reading ring) (text "a") (text "p") (some token) 0 ≡ ok next)
    × (start.0 < next.0)
    × (next.0 ≤ 10000)
search_advances_example =
    search_advances (λ t. t) listing_client reading_service reading ring (text "a") 1 0 0 none
      (text "p") none [] (mac-IsDigest ring.first_key) hex_ascii cursor-IsReadable (omega arith)
      searched refl

-- The same file behind 10000 others: it is matched, but its cursor cannot be made.
lost_far :
    (search
      (λ t. t)
      listing_client
      reading_service
      (disk_cursors reading ring)
      (text "a")
      1
      10000
      none
      (text "p")
      none
      []).0
    ≡ err value_error
unfolding runs
lost_far = refl
