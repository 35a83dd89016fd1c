-- ===== src/Services/Wiki.antt =====
-- services/wiki.py: `WikiService`, without its log lines and the audit log. The client of the Wiki API
-- and the store of the recovery tokens are a `WikiClient`; the credentials, which the methods hand on
-- to the client, are left out. A trace is that of one task: what other tasks do in between shows in
-- what the client answers.
pub mod Resolve
pub mod Reads
pub mod Pages
pub mod Grids
pub mod Merging
pub mod Fallback
pub mod Search
pub mod Traces
pub mod Authority
mod Tests
use yandex_workspace_mcp.Prelude.{
  ℕ, Bool, true, false, not, ◌||◌, ◌&&◌, Text, text, List, [], ◌∷◌, Option, none, some, text_eq,
  if◌then◌else◌,
}
use yandex_workspace_mcp.Prelude.Int.{ℤ}
use yandex_workspace_mcp.Errors.{Result, ok, err, invalid_path, raise_if, ◌>>=◌, ◌>>◌}
use yandex_workspace_mcp.Policies.Paths.{validate_wiki_slug, normalized_roots}
use yandex_workspace_mcp.Models.Wiki.Inputs.{
  WikiSearchInput, PageLocator, DescendantsInput, PageListInput, PageResourceListInput,
  GridGetInput, PageCreateInput, PageUpdateInput, PageAppendInput, PageCloneInput,
  CommentCreateInput, WikiAttachmentUploadInput, GridCreateInput, GridUpdateInput, GridDeleteInput,
  GridRowsAddInput, GridCellsUpdateInput, GridRowsDeleteInput, GridRowMoveInput,
  GridColumnsAddInput, GridColumnsDeleteInput, GridColumnMoveInput,
}
use yandex_workspace_mcp.Models.Wiki.Inputs.Checks.{validated, is_page_locator, is_grid_get_input}
use yandex_workspace_mcp.Models.Wiki.Pages.{
  PagedResponse, WikiSearchResponse, WikiPage, DescendantItem, PageComment, WikiAttachment, Number,
  as_int, as_text, PageCloneResponse, PageRecoverResponse, AttachmentUploadResponse,
}
use yandex_workspace_mcp.Models.Wiki.Grids.{
  WikiGridSummary, WikiGridPage, WikiGrid, GridUpdateResponse, GridMutationResponse,
  GridCellsResponse, GridOperationResponse, GridDeleteResponse, WikiResource,
}

-- The calls of YandexWikiClient and of the store of the recovery tokens, the locks of
-- `_grid_mutation_lock`, and the closing of a local file.
pub data Request : Type 0 where
  client_get_page : PageLocator → Request
  client_get_comments client_get_attachments client_get_grids : PageListInput → Request
  client_get_descendants : DescendantsInput → Request
  client_get_resources : PageResourceListInput → Request
  client_get_grid : GridGetInput → Request
  client_search : WikiSearchInput → (cluster : Option Text) → Request
  client_create_page : PageCreateInput → Request
  client_update_page : (page_id : ℤ) → PageUpdateInput → Request
  client_append_page : (page_id : ℤ) → PageAppendInput → Request
  client_clone_page : (page_id : ℤ) → PageCloneInput → Request
  client_add_comment : (page_id : ℤ) → CommentCreateInput → Request
  client_delete_page : (page_id : ℤ) → Request
  client_recover_page : (upstream_token : Text) → Request
  client_upload_attachment : (page_id : ℤ) (descriptor : ℕ) → WikiAttachmentUploadInput → Request
  client_create_grid : (page_id : ℤ) → GridCreateInput → Request
  client_update_grid : GridUpdateInput → Request
  client_copy_grid : (grid_id destination_slug : Text) (title : Option Text) → Request
  client_delete_grid : GridDeleteInput → Request
  client_add_grid_rows : GridRowsAddInput → Request
  client_update_grid_cells : GridCellsUpdateInput → Request
  client_delete_grid_rows : GridRowsDeleteInput → Request
  client_move_grid_row : GridRowMoveInput → Request
  client_add_grid_columns : GridColumnsAddInput → Request
  client_delete_grid_columns : GridColumnsDeleteInput → Request
  client_move_grid_column : GridColumnMoveInput → Request
  recovery_put : (upstream_token principal_id normalized_locator : Text) → Request
  recovery_consume : (handle principal_id : Text) → Request
  acquire_lock release_lock : (grid_id : Text) → Request
  close_local_file : (descriptor : ℕ) → Request

-- auth/recovery.py: RecoveryRecord
pub record RecoveryRecord : Type 0 where
  pub upstream_token : Text
  pub normalized_locator : Text

-- What the client and the store return for a request, after the requests before it.
pub record WikiClient : Type 0 where
  pub answer_page : List Request → Request → Result WikiPage
  pub answer_comments : List Request → Request → Result (PagedResponse PageComment)
  pub answer_comment : List Request → Request → Result PageComment
  pub answer_descendants : List Request → Request → Result (PagedResponse DescendantItem)
  pub answer_resources : List Request → Request → Result (PagedResponse WikiResource)
  pub answer_attachments : List Request → Request → Result (PagedResponse WikiAttachment)
  pub answer_grids : List Request → Request → Result (PagedResponse WikiGridSummary)
  pub answer_grid : List Request → Request → Result WikiGrid
  pub answer_search : List Request → Request → Result WikiSearchResponse
  pub answer_clone : List Request → Request → Result PageCloneResponse
  pub answer_token : List Request → Request → Result Text
  pub answer_recovered : List Request → Request → Result PageRecoverResponse
  pub answer_uploaded : List Request → Request → Result AttachmentUploadResponse
  pub answer_grid_update : List Request → Request → Result GridUpdateResponse
  pub answer_operation : List Request → Request → Result GridOperationResponse
  pub answer_grid_delete : List Request → Request → Result GridDeleteResponse
  pub answer_mutation : List Request → Request → Result GridMutationResponse
  pub answer_cells : List Request → Request → Result GridCellsResponse
  pub answer_record : List Request → Request → Result RecoveryRecord

pub record WikiService : Type 0 where
  pub allowed_roots : List Text
  pub can_read : Bool
  pub can_write : Bool
  pub can_delete : Bool
  pub has_recovery_store : Bool
  pub upload_allowed_dirs : List Text
  pub max_attachment_bytes : ℕ

pub record AuthorizedPage : Type 0 where
  pub page : WikiPage
  pub normalized_slug : Text

-- `not roots`
abbrev pub is_empty : List Text → Bool
is_empty [] = true
is_empty (root ∷ roots) = false

-- __init__
unfoldable pub wiki_service :
    (Text → Text) → List Text → Bool → Bool → Bool → Bool → List Text → ℕ → Result WikiService
wiki_service nfkc allowed_roots can_read can_write can_delete has_recovery_store upload_allowed_dirs
      max_attachment_bytes =
    do
      raise_if ((can_read || (can_write || can_delete)) && is_empty allowed_roots) invalid_path
      roots ← normalized_roots nfkc allowed_roots
      ok (record {
        allowed_roots = roots;
        can_read = can_read;
        can_write = can_write;
        can_delete = can_delete;
        has_recovery_store = has_recovery_store;
        upload_allowed_dirs = upload_allowed_dirs;
        max_attachment_bytes = max_attachment_bytes;
      })

-- PageLocator(page_id=...) and PageLocator(slug=...)
unfoldable pub id_locator : ℤ → Result PageLocator
id_locator page_id =
    validated is_page_locator (record { page_id = some page_id; slug = none; url = none })

unfoldable pub slug_locator : Text → Result PageLocator
slug_locator slug =
    validated is_page_locator (record { page_id = none; slug = some slug; url = none })

-- The locator of a grid's page: by its identity, if that is a number, or else by its slug.
abbrev pub locator_by_slug : Option Text → Result PageLocator
locator_by_slug none = err invalid_path
locator_by_slug (some slug) = if text_eq slug [] then err invalid_path else slug_locator slug

unfoldable pub owner_locator : WikiGridPage → Result PageLocator
unfolding text_eq
owner_locator page = elim page.id [
  | some number ↦ elim number [
    | as_int page_id ↦ id_locator page_id
    | as_text t ↦ locator_by_slug page.slug
  ]
  | none ↦ locator_by_slug page.slug
]

-- GridGetInput(grid_id=grid_id)
unfoldable pub grid_probe : Text → Result GridGetInput
grid_probe grid_id =
    validated is_grid_get_input
      (record { grid_id = grid_id; revision = none; row_ids = none; column_slugs = none })

module _ (nfkc : Text → Text) (s : WikiService) where
  -- The check of a page that the API returns, on its slug.
  unfoldable pub authorized_slug : WikiPage → Option Text → Result AuthorizedPage
  authorized_slug page none = err invalid_path
  authorized_slug page (some []) = err invalid_path
  authorized_slug page (some (c ∷ slug)) = do
    normalized_slug ← validate_wiki_slug nfkc (c ∷ slug) s.allowed_roots
    ok (record { page = page; normalized_slug = normalized_slug })

  unfoldable pub authorize_destination : Text → Result Text
  authorize_destination slug = validate_wiki_slug nfkc slug s.allowed_roots
