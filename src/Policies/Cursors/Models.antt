-- ===== src/Policies/Cursors/Models.antt =====
-- policies/cursors.py: the models of the cursors, as JSON and read from it. They forbid other fields
-- and convert nothing; a ValidationError becomes a ValueError.
use yandex_workspace_mcp.Prelude.{
  ℕ, Bool, true, not, ◌&&◌, ◌||◌, Text, text, List, [], ◌∷◌, Option, none, some, leb, ltb, ◌==◌,
  if◌then◌else◌, length, text_eq, mem_text,
}
use yandex_workspace_mcp.Prelude.Int.{pos}
use yandex_workspace_mcp.Errors.{Result, ok, err, value_error, raise_if, ◌>>=◌, ◌>>◌}
use yandex_workspace_mcp.Models.Wiki.Json.{
  Json, json_none, json_text, json_int, json_list, json_dict, Values, no_values, item_value,
  Entries, no_entries, item_entry,
}

pub record DiskSearchCursor : Type 0 where
  pub query_hash : Text
  pub principal_hash : Text
  pub offset : ℕ
  pub seen : List Text

pub record UploadJobCursor : Type 0 where
  pub principal_hash : Text
  pub filter_hash : Text
  pub offset : ℕ

pub record RootCursorState : Type 0 where
  pub root_hash : Text
  pub cursor : Text
  pub pages : ℕ

pub data CursorSource : Type 0 where
  from_disk from_wiki : CursorSource

-- `disk` is the offset of its DiskOffsetState, `wiki_descendants` the roots of its state.
pub record WorkspaceCursorSources : Type 0 where
  pub enabled : List CursorSource
  pub root_hashes : List Text
  pub disk : Option ℕ
  pub wiki_descendants : Option (List RootCursorState)

pub record WorkspaceCursor : Type 0 where
  pub query_hash : Text
  pub principal_hash : Text
  pub sources : WorkspaceCursorSources
  pub seen : List Text

-- model_dump(mode="json"), with the keys in the order in which `json.dumps` sorts them.
unfoldable pub text_values : List Text → Values
text_values [] = no_values
text_values (t ∷ texts) = item_value (json_text t) (text_values texts)

abbrev pub version : Entries
version = item_entry (text "v") (json_int (pos 1)) no_entries

unfoldable pub disk_json : DiskSearchCursor → Entries
unfolding text_values
disk_json state = item_entry (text "offset") (json_int (pos state.offset)) (
    item_entry (text "principal_hash") (json_text state.principal_hash) (
      item_entry (text "query_hash") (json_text state.query_hash)
        (item_entry (text "seen") (json_list (text_values state.seen)) version)))

unfoldable pub upload_job_json : UploadJobCursor → Entries
upload_job_json state = item_entry (text "filter_hash") (json_text state.filter_hash) (
    item_entry (text "offset") (json_int (pos state.offset))
      (item_entry (text "principal_hash") (json_text state.principal_hash) version))

abbrev pub cursor_source_name : CursorSource → Text
cursor_source_name from_disk = text "disk"
cursor_source_name from_wiki = text "wiki"

unfoldable pub source_values : List CursorSource → Values
source_values [] = no_values
source_values (source ∷ sources) =
    item_value (json_text (cursor_source_name source)) (source_values sources)

unfoldable pub root_values : List RootCursorState → Values
root_values [] = no_values
root_values (root ∷ roots) =
    item_value
      (json_dict (
        item_entry (text "cursor") (json_text root.cursor) (
          item_entry (text "pages") (json_int (pos root.pages))
            (item_entry (text "root_hash") (json_text root.root_hash) no_entries))))
      (root_values roots)

abbrev pub offset_json : Option ℕ → Json
offset_json none = json_none
offset_json (some offset) =
    json_dict (item_entry (text "offset") (json_int (pos offset)) no_entries)

abbrev pub roots_json : Option (List RootCursorState) → Json
roots_json none = json_none
roots_json (some roots) =
    json_dict (item_entry (text "roots") (json_list (root_values roots)) no_entries)

unfoldable pub sources_json : WorkspaceCursorSources → Entries
unfolding source_values text_values root_values
sources_json sources = item_entry (text "disk") (offset_json sources.disk) (
    item_entry (text "enabled") (json_list (source_values sources.enabled)) (
      item_entry (text "root_hashes") (json_list (text_values sources.root_hashes))
        (item_entry (text "wiki_descendants") (roots_json sources.wiki_descendants) no_entries)))

unfoldable pub workspace_json : WorkspaceCursor → Entries
unfolding sources_json text_values
workspace_json state = item_entry (text "principal_hash") (json_text state.principal_hash) (
    item_entry (text "query_hash") (json_text state.query_hash) (
      item_entry (text "seen") (json_list (text_values state.seen))
        (item_entry (text "sources") (json_dict (sources_json state.sources)) version)))

-- payload.get(key), and whether the payload has no other keys.
unfoldable pub field_of : Text → Entries → Option Json
unfolding text_eq
field_of key no_entries = none
field_of key (item_entry k json entries) = if text_eq k key then some json else field_of key entries

unfoldable pub has_only : List Text → Entries → Bool
unfolding mem_text
has_only keys no_entries = true
has_only keys (item_entry k json entries) = mem_text k keys && has_only keys entries

-- A field that is a text, a number within bounds, or a list of texts.
abbrev pub read_text : Option Json → Result Text
read_text (some (json_text t)) = ok t
read_text _ = err value_error

abbrev pub read_number : ℕ → Option Json → Result ℕ
read_number most (some (json_int (pos n))) = if leb n most then ok n else err value_error
read_number most _ = err value_error

abbrev pub cons_text : Json → Result (List Text) → Result (List Text)
cons_text (json_text t) (ok texts) = ok (t ∷ texts)
cons_text _ _ = err value_error

unfoldable pub texts_of : Values → Result (List Text)
texts_of no_values = ok []
texts_of (item_value json values) = cons_text json (texts_of values)

unfoldable pub at_most {ℓ} : {A : Type ℓ} → ℕ → Result (List A) → Result (List A)
at_most most (err e) = err e
at_most most (ok list) = if leb (length list) most then ok list else err value_error

-- A list that may be left out.
abbrev pub read_texts : ℕ → Option Json → Result (List Text)
read_texts most none = ok []
read_texts most (some (json_list values)) = at_most most (texts_of values)
read_texts most (some _) = err value_error

-- `v: Literal[1] = 1`
abbrev pub read_version : Option Json → Result (Unit {0})
read_version none = ok tt
read_version (some (json_int (pos n))) = if n == 1 then ok tt else err value_error
read_version (some _) = err value_error

-- model_validate
unfoldable pub read_disk_cursor : Entries → Result DiskSearchCursor
unfolding field_of has_only texts_of at_most
read_disk_cursor entries = do
  raise_if
      (not (
        has_only
          (text "v" ∷ text "query_hash" ∷ text "principal_hash" ∷ text "offset" ∷ text "seen" ∷ [])
          entries))
      value_error
  read_version (field_of (text "v") entries)
  query_hash ← read_text (field_of (text "query_hash") entries)
  principal_hash ← read_text (field_of (text "principal_hash") entries)
  offset ← read_number 10000 (field_of (text "offset") entries)
  seen ← read_texts 100 (field_of (text "seen") entries)
  ok (record {
    query_hash = query_hash;
    principal_hash = principal_hash;
    offset = offset;
    seen = seen;
  })

unfoldable pub read_upload_job_cursor : Entries → Result UploadJobCursor
unfolding field_of has_only
read_upload_job_cursor entries = do
  raise_if
      (not (
        has_only (text "v" ∷ text "principal_hash" ∷ text "filter_hash" ∷ text "offset" ∷ [])
          entries))
      value_error
  read_version (field_of (text "v") entries)
  principal_hash ← read_text (field_of (text "principal_hash") entries)
  filter_hash ← read_text (field_of (text "filter_hash") entries)
  offset ← read_number 10000 (field_of (text "offset") entries)
  ok (record { principal_hash = principal_hash; filter_hash = filter_hash; offset = offset })

-- WorkspaceCursorSources and what it holds.
unfoldable pub source_of : Text → Option CursorSource
unfolding text_eq
source_of t =
    if text_eq t (text "disk")
    then some from_disk
    else if text_eq t (text "wiki")
    then some from_wiki
    else none

abbrev pub cons_source :
    Option CursorSource → Result (List CursorSource) → Result (List CursorSource)
cons_source (some source) (ok sources) = ok (source ∷ sources)
cons_source _ _ = err value_error

unfoldable pub sources_of : List Text → Result (List CursorSource)
unfolding source_of
sources_of [] = ok []
sources_of (t ∷ texts) = cons_source (source_of t) (sources_of texts)

unfoldable pub read_enabled : Option Json → Result (List CursorSource)
unfolding texts_of sources_of at_most
read_enabled (some (json_list values)) = do
  texts ← texts_of values
  raise_if (length texts == 0 || ltb 2 (length texts)) value_error
  sources_of texts
read_enabled _ = err value_error

unfoldable pub read_root : Json → Result RootCursorState
unfolding field_of has_only
read_root (json_dict entries) = do
  raise_if (not (has_only (text "root_hash" ∷ text "cursor" ∷ text "pages" ∷ []) entries))
      value_error
  root_hash ← read_text (field_of (text "root_hash") entries)
  cursor ← read_text (field_of (text "cursor") entries)
  raise_if (length cursor == 0 || ltb 4096 (length cursor)) value_error
  pages ← read_number 20 (field_of (text "pages") entries)
  ok (record { root_hash = root_hash; cursor = cursor; pages = pages })
read_root _ = err value_error

unfoldable pub roots_of : Values → Result (List RootCursorState)
unfolding read_root
roots_of no_values = ok []
roots_of (item_value json values) = do
  root ← read_root json
  roots ← roots_of values
  ok (root ∷ roots)

abbrev pub roots_field : Option Json → Result (List RootCursorState)
roots_field none = ok []
roots_field (some (json_list values)) = at_most 20 (roots_of values)
roots_field (some _) = err value_error

unfoldable pub read_roots : Option Json → Result (Option (List RootCursorState))
unfolding field_of has_only roots_of at_most
read_roots none = ok none
read_roots (some json_none) = ok none
read_roots (some (json_dict entries)) = do
  raise_if (not (has_only (text "roots" ∷ []) entries)) value_error
  roots ← roots_field (field_of (text "roots") entries)
  ok (some roots)
read_roots (some _) = err value_error

unfoldable pub read_disk_offset : Option Json → Result (Option ℕ)
unfolding field_of has_only
read_disk_offset none = ok none
read_disk_offset (some json_none) = ok none
read_disk_offset (some (json_dict entries)) = do
  raise_if (not (has_only (text "offset" ∷ []) entries)) value_error
  offset ← read_number 10000 (field_of (text "offset") entries)
  ok (some offset)
read_disk_offset (some _) = err value_error

unfoldable pub read_sources : Option Json → Result WorkspaceCursorSources
unfolding field_of has_only read_enabled texts_of at_most read_disk_offset read_roots
read_sources (some (json_dict entries)) = do
  raise_if
      (not (
        has_only (text "enabled" ∷ text "root_hashes" ∷ text "disk" ∷ text "wiki_descendants" ∷ [])
          entries))
      value_error
  enabled ← read_enabled (field_of (text "enabled") entries)
  root_hashes ← read_texts 20 (field_of (text "root_hashes") entries)
  disk ← read_disk_offset (field_of (text "disk") entries)
  wiki_descendants ← read_roots (field_of (text "wiki_descendants") entries)
  ok (record {
    enabled = enabled;
    root_hashes = root_hashes;
    disk = disk;
    wiki_descendants = wiki_descendants;
  })
read_sources _ = err value_error

unfoldable pub read_workspace_cursor : Entries → Result WorkspaceCursor
unfolding field_of has_only read_sources texts_of at_most
read_workspace_cursor entries = do
  raise_if
      (not (
        has_only
          (text "v" ∷ text "query_hash" ∷ text "principal_hash" ∷ text "sources" ∷ text "seen" ∷ [])
          entries))
      value_error
  read_version (field_of (text "v") entries)
  query_hash ← read_text (field_of (text "query_hash") entries)
  principal_hash ← read_text (field_of (text "principal_hash") entries)
  sources ← read_sources (field_of (text "sources") entries)
  seen ← read_texts 100 (field_of (text "seen") entries)
  ok (record {
    query_hash = query_hash;
    principal_hash = principal_hash;
    sources = sources;
    seen = seen;
  })
