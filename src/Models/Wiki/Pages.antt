-- ===== src/Models/Wiki/Pages.antt =====
-- models/wiki.py: pages, comments, attachments and what the Wiki finds, as the API sends them (Wire)
-- and as the tools return them, with the functions that map the first to the second. A model with a
-- bound on a cursor is read by `validated`.
use yandex_workspace_mcp.Prelude.{
  ℕ, Bool, false, ◌&&◌, Text, text, List, [], ◌∷◌, Option, none, some, if◌then◌else◌, text_eq, map,
}
use yandex_workspace_mcp.Prelude.Int.{ℤ}
use yandex_workspace_mcp.Errors.{Result}
use yandex_workspace_mcp.Models.Wiki.Json.{Json, JsonScalar, scalar_dict, optional_string}
use yandex_workspace_mcp.Models.Wiki.Inputs.Checks.{validated, if_given, is_cursor}

pub record WikiSearchItemWire : Type 0 where
  pub id : Option ℤ
  pub slug : Option Text
  pub title : Option Text
  pub content : Option Text
  pub type : Option Text
  pub url : Option Text
  pub modified_at : Option Text

-- A list that the API sends in pages, and one that a tool returns.
pub record PagedWire {ℓ} (A : Type ℓ) : Type ℓ where
  pub results : List A
  pub next_cursor : Option Text
  pub prev_cursor : Option Text

pub record PagedResponse {ℓ} (A : Type ℓ) : Type ℓ where
  pub results : List A
  pub next_cursor : Option Text
  pub prev_cursor : Option Text
  pub truncated : Bool

pub data ItemType : Type 0 where
  page_item file_item : ItemType

pub record WikiSearchItem : Type 0 where
  pub id : Option ℤ
  pub slug : Option Text
  pub title : Option Text
  pub content_excerpt : Option Text
  pub type : ItemType
  pub url : Option Text
  pub modified_at : Option Text

pub data SearchMode : Type 0 where
  full_text descendants : SearchMode

pub record WikiSearchResponse : Type 0 where
  pub results : List WikiSearchItem
  pub next_cursor : Option Text
  pub prev_cursor : Option Text
  pub pagination_exhausted : Bool
  pub truncated_by_upstream : Bool
  pub degraded : Bool
  pub search_mode : SearchMode

-- WikiUser and WikiUserWire
pub record WikiUser : Type 0 where
  pub id : Option ℤ
  pub username : Option Text
  pub display_name : Option Text

pub record WikiPageWire : Type 0 where
  pub id : ℤ
  pub slug : Option Text
  pub title : Option Text
  pub content : Option Text
  pub url : Option Text
  pub page_type : Option Text
  pub created_at : Option Text
  pub modified_at : Option Text
  pub attributes : Option (List (Text × Json))

pub record WikiPage : Type 0 where
  pub id : ℤ
  pub slug : Option Text
  pub title : Option Text
  pub content : Option Text
  pub url : Option Text
  pub page_type : Option Text
  pub created_at : Option Text
  pub modified_at : Option Text
  pub attributes : List (Text × JsonScalar)

-- DescendantItem and DescendantItemWire
pub record DescendantItem : Type 0 where
  pub id : ℤ
  pub slug : Option Text

pub record PageCommentWire : Type 0 where
  pub id : ℤ
  pub body : Option Text
  pub parent_id : Option ℤ
  pub thread_id : Option ℤ
  pub created_at : Option Text
  pub author : Option WikiUser
  pub inline_text : Option Text
  pub is_deleted : Option Bool
  pub resolve_status : Option Text

pub record PageComment : Type 0 where
  pub id : ℤ
  pub body : Option Text
  pub parent_id : Option ℤ
  pub thread_id : Option ℤ
  pub created_at : Option Text
  pub author : Option WikiUser
  pub inline_text : Option Text
  pub is_deleted : Option Bool
  pub resolve_status : Option Text

-- `int | str`
pub data Number : Type 0 where
  as_int : ℤ → Number
  as_text : Text → Number

pub record WikiAttachmentWire : Type 0 where
  pub id : ℤ
  pub name : Option Text
  pub size : Option Number
  pub description : Option Text
  pub mime_type : Option Text
  pub created_at : Option Text
  pub has_preview : Option Bool
  pub check_status : Option Text
  pub is_downloadable : Option Bool
  pub user : Option WikiUser
  pub download_url : Option Text

pub record WikiAttachment : Type 0 where
  pub id : ℤ
  pub name : Option Text
  pub size : Option ℤ
  pub description : Option Text
  pub mime_type : Option Text
  pub created_at : Option Text
  pub has_preview : Option Bool
  pub check_status : Option Text
  pub is_downloadable : Option Bool
  pub user : Option WikiUser

-- PageCloneResponse and PageCloneWire
pub record PageCloneResponse : Type 0 where
  pub id : ℤ
  pub slug : Text

pub record PageDeleteResponse : Type 0 where
  pub recovery_token : Option Text

pub record PageRecoverResponse : Type 0 where
  pub id : ℤ
  pub slug : Option Text
  pub pages_count : Option ℕ

pub record AttachmentUploadResponse : Type 0 where
  pub page_id : ℤ
  pub attachments : List WikiAttachment
  pub appended_markup : Bool
  pub appended_content : Option Text

-- `first or second`
abbrev pub or_else : Option Text → Option Text → Option Text
or_else none second = second
or_else (some []) second = second
or_else (some (c ∷ t)) second = some (c ∷ t)

-- values.get(key)
unfoldable pub get_scalar : Text → List (Text × JsonScalar) → Option JsonScalar
get_scalar key [] = none
get_scalar key ((k, v) ∷ values) = if text_eq k key then some v else get_scalar key values

-- What the tools return for a page of a list: its cursors must keep their bounds.
unfoldable pub paged {ℓ} :
    {A : Type ℓ} → List A → Option Text → Option Text → Result (PagedResponse A)
paged results next_cursor prev_cursor =
    validated (λ r. if_given is_cursor r.next_cursor && if_given is_cursor r.prev_cursor)
      (record {
        results = results;
        next_cursor = next_cursor;
        prev_cursor = prev_cursor;
        truncated = false;
      })

abbrev pub item_type : Option Text → ItemType
item_type none = page_item
item_type (some t) = if text_eq t (text "file") then file_item else page_item

unfoldable pub map_search_item : WikiSearchItemWire → WikiSearchItem
unfolding text_eq
map_search_item item = record {
  id = item.id;
  slug = item.slug;
  title = item.title;
  content_excerpt = item.content;
  type = item_type item.type;
  url = item.url;
  modified_at = item.modified_at;
}

unfoldable pub map_wiki_search : PagedWire WikiSearchItemWire → Result WikiSearchResponse
unfolding map_search_item
map_wiki_search wire =
    validated (λ r. if_given is_cursor r.next_cursor && if_given is_cursor r.prev_cursor)
      (record {
        results = map map_search_item wire.results;
        next_cursor = wire.next_cursor;
        prev_cursor = wire.prev_cursor;
        pagination_exhausted = false;
        truncated_by_upstream = false;
        degraded = false;
        search_mode = full_text;
      })

unfoldable pub map_wiki_page : WikiPageWire → WikiPage
unfolding scalar_dict get_scalar optional_string
map_wiki_page wire =
    let attributes = scalar_dict wire.attributes in
    record {
      id = wire.id;
      slug = wire.slug;
      title = wire.title;
      content = wire.content;
      url = wire.url;
      page_type = wire.page_type;
      created_at =
          or_else wire.created_at (optional_string (get_scalar (text "created_at") attributes));
      modified_at =
          or_else wire.modified_at (optional_string (get_scalar (text "modified_at") attributes));
      attributes = attributes;
    }

unfoldable pub map_descendants : PagedWire DescendantItem → Result (PagedResponse DescendantItem)
unfolding paged
map_descendants wire = paged wire.results wire.next_cursor wire.prev_cursor

unfoldable pub map_comment : PageCommentWire → PageComment
map_comment wire = record {
  id = wire.id;
  body = wire.body;
  parent_id = wire.parent_id;
  thread_id = wire.thread_id;
  created_at = wire.created_at;
  author = wire.author;
  inline_text = wire.inline_text;
  is_deleted = wire.is_deleted;
  resolve_status = wire.resolve_status;
}

unfoldable pub map_comments : PagedWire PageCommentWire → Result (PagedResponse PageComment)
unfolding map_comment paged
map_comments wire = paged (map map_comment wire.results) wire.next_cursor wire.prev_cursor
