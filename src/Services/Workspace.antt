-- ===== src/Services/Workspace.antt =====
-- services/workspace.py: `search`. The searches of the Wiki and of the Disk are given by their
-- outcomes, `none` where the source is not enabled; a cancelled search is left out.
pub mod Merged
mod Tests
use yandex_workspace_mcp.Prelude.{
  ℕ, Bool, true, false, not, ◌&&◌, ◌||◌, Text, text, List, [], ◌∷◌, ◌++◌, Option, none, some, leb,
  ◌-◌, if◌then◌else◌, text_eq, mem_text, length, drop,
}
use yandex_workspace_mcp.Errors.{Error, Result, ok, err, category, upstream_unavailable, ◌>>=◌}
use yandex_workspace_mcp.Models.Disk.{
  DiskResource, fields_of, ResourceType, file, dir, DiskSearchResponse,
}
use yandex_workspace_mcp.Models.Wiki.Pages.{
  ItemType, page_item, file_item, SearchMode, full_text, descendants, WikiSearchItem,
  WikiSearchResponse,
}

pub data Source : Type 0 where
  wiki disk : Source

abbrev pub source_name : Source → Text
source_name wiki = text "wiki"
source_name disk = text "disk"

-- models/common.py: ResourceRef
pub record ResourceRef : Type 0 where
  pub id : Text
  pub source : Source
  pub title : Text
  pub url : Option Text
  pub type : Text
  pub modified_at : Option Text
  pub locator : Text

pub data SourceStatus : Type 0 where
  success degraded : (search_mode : Option Text) → SourceStatus
  failure : (error_category : Text) → SourceStatus

pub record SearchResult : Type 0 where
  pub results : List ResourceRef
  pub next_cursor : Option Text
  pub partial_failures : List (Text × Text)
  pub sources : List (Text × SourceStatus)

-- The methods of CursorCodec that `search` calls. A decoded workspace cursor is its Disk offset, if
-- there is one, and its `seen`.
pub record WorkspaceCursors : Type 0 where
  pub item_hash : (source id : Text) → Text
  pub decode_workspace : (token query principal : Text) → Result (Option ℕ × List Text)
  pub encode_workspace : (query principal : Text) (disk_offset : ℕ) (seen : List Text) → Result Text
  pub decode_disk : (token query principal : Text) → Result ℕ

-- `item.title or item.slug or ""`, where the slug is not empty.
abbrev pub title_or : Option Text → Text → Text
title_or none slug = slug
title_or (some title) slug = if text_eq title [] then slug else title

abbrev pub item_type_name : ItemType → Text
item_type_name page_item = text "page"
item_type_name file_item = text "file"

abbrev pub mode_name : SearchMode → Text
mode_name full_text = text "full_text"
mode_name descendants = text "descendants"

-- _wiki_refs
unfoldable pub wiki_ref : WikiSearchItem → List ResourceRef
wiki_ref item = elim item.slug [
  | none ↦ []
  | some slug ↦
      if text_eq slug []
      then []
      else (record {
        id = text "wiki:page:" ++ slug;
        source = wiki;
        title = title_or item.title slug;
        url = item.url;
        type = item_type_name item.type;
        modified_at = item.modified_at;
        locator = slug;
      }
          ∷ [])
]

unfoldable pub wiki_refs : List WikiSearchItem → List ResourceRef
wiki_refs [] = []
wiki_refs (item ∷ items) = wiki_ref item ++ wiki_refs items

abbrev pub type_name : ResourceType → Text
type_name file = text "file"
type_name dir = text "dir"

-- _disk_refs
unfoldable pub disk_ref : DiskResource → List ResourceRef
disk_ref item = elim (fields_of item).path [
  | none ↦ []
  | some path ↦
      if text_eq path []
      then []
      else (record {
        id = text "disk:path:" ++ path;
        source = disk;
        title = (fields_of item).name;
        url = (fields_of item).public_url;
        type = type_name (fields_of item).type;
        modified_at = (fields_of item).modified_at;
        locator = path;
      }
          ∷ [])
]

unfoldable pub disk_refs : List DiskResource → List ResourceRef
disk_refs [] = []
disk_refs (item ∷ items) = disk_ref item ++ disk_refs items

-- The references in the order of the two loops over `zip_longest`.
unfoldable pub interleave : List ResourceRef → List ResourceRef → List ResourceRef
interleave [] b = b
interleave (x ∷ a) [] = x ∷ a
interleave (x ∷ a) (y ∷ b) = x ∷ y ∷ interleave a b

-- `results` and `seen`.
pub record Merge : Type 0 where
  pub results : List ResourceRef
  pub seen : List Text

module _ (codec : WorkspaceCursors) where
  abbrev pub ref_hash : ResourceRef → Text
  ref_hash resource = codec.item_hash (source_name resource.source) resource.id

  abbrev pub add_ref : ResourceRef → Merge → Merge
  add_ref resource st = record {
    results = st.results ++ resource ∷ [];
    seen = st.seen ++ ref_hash resource ∷ [];
  }

  unfoldable pub merge : ℕ → List ResourceRef → Merge → Merge
  merge limit [] st = st
  merge limit (resource ∷ refs) st = elim (mem_text (ref_hash resource) st.seen) [
    | true ↦ merge limit refs st
    | false ↦ elim (leb limit (length (add_ref resource st).results)) [
      | true ↦ add_ref resource st
      | false ↦ merge limit refs (add_ref resource st)
    ]
  ]

  -- `if cursor: ...`
  abbrev pub workspace_start : Text → Text → Option Text → Result (ℕ × List Text)
  workspace_start query principal none = ok (0, [])
  workspace_start query principal (some cursor) =
      if text_eq cursor []
      then ok (0, [])
      else codec.decode_workspace cursor query principal >>= λ state.
          ok (elim state.0 [ none ↦ 0 | some offset ↦ offset ], state.1)

  -- The cursor of the next page: where the Disk search ended, if it has a next page.
  abbrev pub next_workspace : Text → Text → Option Text → List Text → Result (Option Text)
  next_workspace query principal none seen = ok none
  next_workspace query principal (some token) seen =
      if text_eq token []
      then ok none
      else codec.decode_disk token query principal >>= λ offset.
          codec.encode_workspace query principal offset (drop (length seen - 100) seen) >>= λ next.
          ok (some next)

  -- What a source adds to `partial_failures` and to `sources`.
  abbrev pub wiki_status : Result WikiSearchResponse → SourceStatus
  wiki_status (ok response) =
      if response.degraded
      then degraded (some (mode_name response.search_mode))
      else success (some (mode_name response.search_mode))
  wiki_status (err e) = failure (category e)

  abbrev pub disk_status : Result DiskSearchResponse → SourceStatus
  disk_status (ok response) = success none
  disk_status (err e) = failure (category e)

  abbrev pub failed : {A : Type 0} → Source → Option (Result A) → List (Text × Text)
  failed source none = []
  failed source (some (ok a)) = []
  failed source (some (err e)) = (source_name source, category e) ∷ []

  abbrev pub statuses :
      Option (Result WikiSearchResponse)
      → Option (Result DiskSearchResponse)
      → List (Text × SourceStatus)
  statuses none none = []
  statuses (some w) none = (text "wiki", wiki_status w) ∷ []
  statuses none (some d) = (text "disk", disk_status d) ∷ []
  statuses (some w) (some d) = (text "wiki", wiki_status w) ∷ (text "disk", disk_status d) ∷ []

  -- `source_names and failure_count == len(source_names)`
  abbrev pub all_failed :
      Option (Result WikiSearchResponse) → Option (Result DiskSearchResponse) → Bool
  all_failed none none = false
  all_failed (some (err e)) none = true
  all_failed none (some (err e)) = true
  all_failed (some (err e)) (some (err f)) = true
  all_failed _ _ = false

  abbrev pub wiki_found : Option (Result WikiSearchResponse) → List ResourceRef
  wiki_found (some (ok response)) = wiki_refs response.results
  wiki_found _ = []

  abbrev pub disk_found : Option (Result DiskSearchResponse) → List ResourceRef
  disk_found (some (ok response)) = disk_refs response.items
  disk_found _ = []

  abbrev pub disk_cursor : Option (Result DiskSearchResponse) → Option Text
  disk_cursor (some (ok response)) = response.next_cursor
  disk_cursor _ = none

  -- The part after the two searches.
  unfoldable pub finish :
      Text
      → ℕ
      → Text
      → List Text
      → Option (Result WikiSearchResponse)
      → Option (Result DiskSearchResponse)
      → Result SearchResult
  finish query limit principal seen wiki_outcome disk_outcome =
      let merged =
        merge limit (interleave (wiki_found wiki_outcome) (disk_found disk_outcome))
          (record { results = []; seen = seen }) in
      if all_failed wiki_outcome disk_outcome
      then err upstream_unavailable
      else next_workspace query principal (disk_cursor disk_outcome) merged.seen >>= λ next_cursor.
          ok (record {
            results = merged.results;
            next_cursor = next_cursor;
            partial_failures = failed wiki wiki_outcome ++ failed disk disk_outcome;
            sources = statuses wiki_outcome disk_outcome;
          })

  -- `disk_search` is the search of the Disk at an offset.
  unfoldable pub search :
      Text
      → ℕ
      → Option Text
      → Text
      → Option (Result WikiSearchResponse)
      → Option (ℕ → Result DiskSearchResponse)
      → Result SearchResult
  search query limit cursor principal wiki_outcome disk_search =
      workspace_start query principal cursor >>= λ start.
      finish query limit principal start.1 wiki_outcome
        (elim disk_search [ none ↦ none | some at ↦ some (at start.0) ])
