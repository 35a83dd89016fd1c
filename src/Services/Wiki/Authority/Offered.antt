-- ===== src/Services/Wiki/Authority/Offered.antt =====
-- The methods that `WikiService` offers, and runs of them one after another.
use yandex_workspace_mcp.Prelude.{ℕ, ◌≡◌, refl, ◌∙◌, false, Text, List, []}
use yandex_workspace_mcp.Errors.{Result}
use yandex_workspace_mcp.Jobs.Models.{OpenedFile}
use yandex_workspace_mcp.Models.Wiki.Inputs.{
  CommentCreateInput, DescendantsInput, GridCellsUpdateInput, GridColumnMoveInput,
  GridColumnsAddInput, GridColumnsDeleteInput, GridCopyInput, GridCreateInput, GridDeleteInput,
  GridGetInput, GridRowMoveInput, GridRowsAddInput, GridRowsDeleteInput, GridUpdateInput,
  PageAppendInput, PageCloneInput, PageDeleteInput, PageListInput, PageRecoverInput,
  PageResourceListInput, WikiAttachmentUploadInput,
}
use yandex_workspace_mcp.Models.Wiki.Pages.{
  PagedResponse, WikiPage, DescendantItem, PageComment, WikiAttachment, WikiSearchResponse,
  PageCloneResponse, PageDeleteResponse, PageRecoverResponse, AttachmentUploadResponse,
}
use yandex_workspace_mcp.Models.Wiki.Grids.{
  WikiGridSummary, WikiGrid, GridUpdateResponse, GridMutationResponse, GridCellsResponse,
  GridOperationResponse, GridDeleteResponse, WikiResource,
}
use yandex_workspace_mcp.Services.Calls.{Call}
use yandex_workspace_mcp.Services.Wiki.{Request, WikiClient, WikiService}
use yandex_workspace_mcp.Services.Wiki.Reads.{
  get_page, get_comments, get_descendants, get_resources, get_attachments, get_grids, get_grid,
  get_tree,
}
use yandex_workspace_mcp.Services.Wiki.Pages.{
  CreateArgument, UpdateArgument, create_page, update_page, append_page, clone_page, add_comment,
  delete_page, recover_page, upload_attachment,
}
use yandex_workspace_mcp.Services.Wiki.Grids.{
  create_grid, update_grid, copy_grid, delete_grid, add_grid_rows, update_grid_cells,
  delete_grid_rows, move_grid_row, add_grid_columns, delete_grid_columns, move_grid_column,
}
use yandex_workspace_mcp.Services.Wiki.Search.{search}
use yandex_workspace_mcp.Services.Wiki.Traces.{Trace, holds_lock}
use yandex_workspace_mcp.Services.Wiki.Authority.{Permitted, Safe}
use yandex_workspace_mcp.Services.Wiki.Authority.Reading.{
  get_page-Safe, get_comments-Safe, get_descendants-Safe, get_resources-Safe, get_attachments-Safe,
  get_grids-Safe, get_grid-Safe, get_tree-Safe,
}
use yandex_workspace_mcp.Services.Wiki.Authority.Writing.{
  create_page-Safe, update_page-Safe, append_page-Safe, clone_page-Safe, add_comment-Safe,
  delete_page-Safe, recover_page-Safe, upload_attachment-Safe, create_grid-Safe,
}
use yandex_workspace_mcp.Services.Wiki.Authority.Changing.{
  Unlocked, update_grid-Safe, copy_grid-Safe, delete_grid-Safe, add_grid_rows-Safe,
  update_grid_cells-Safe, delete_grid_rows-Safe, move_grid_row-Safe, add_grid_columns-Safe,
  delete_grid_columns-Safe, move_grid_column-Safe,
}
use yandex_workspace_mcp.Services.Wiki.Authority.Searching.{search-Safe}

module _ (nfkc casefold : Text → Text) (client : WikiClient) (s : WikiService) where
  -- A call of a method, with any arguments.
  pub data Offered : (A : Type 0) → Call Request A → Type 1 where
    calls_get_page : (slug : Text) → Offered WikiPage (get_page nfkc client s slug)
    calls_get_comments :
        (page_input : PageListInput)
        → Offered (PagedResponse PageComment) (get_comments nfkc client s page_input)
    calls_get_descendants :
        (descendants_input : DescendantsInput)
        → Offered (PagedResponse DescendantItem) (get_descendants nfkc client s descendants_input)
    calls_get_resources :
        (page_input : PageResourceListInput)
        → Offered (PagedResponse WikiResource) (get_resources nfkc client s page_input)
    calls_get_attachments :
        (page_input : PageListInput)
        → Offered (PagedResponse WikiAttachment) (get_attachments nfkc client s page_input)
    calls_get_grids :
        (page_input : PageListInput)
        → Offered (PagedResponse WikiGridSummary) (get_grids nfkc client s page_input)
    calls_get_grid :
        (grid_input : GridGetInput) → Offered WikiGrid (get_grid nfkc client s grid_input)
    calls_get_tree :
        (slug : Text) → Offered (PagedResponse DescendantItem) (get_tree nfkc client s slug)
    calls_create_page :
        (argument : CreateArgument) → Offered WikiPage (create_page nfkc client s argument)
    calls_update_page :
        (argument : UpdateArgument) → Offered WikiPage (update_page nfkc client s argument)
    calls_append_page :
        (page_input : PageAppendInput) → Offered WikiPage (append_page nfkc client s page_input)
    calls_clone_page :
        (page_input : PageCloneInput)
        → Offered PageCloneResponse (clone_page nfkc client s page_input)
    calls_add_comment :
        (comment_input : CommentCreateInput)
        → Offered PageComment (add_comment nfkc client s comment_input)
    calls_delete_page :
        (page_input : PageDeleteInput) (principal_id : Text)
        → Offered PageDeleteResponse (delete_page nfkc client s page_input principal_id)
    calls_recover_page :
        (page_input : PageRecoverInput) (principal_id : Text)
        → Offered PageRecoverResponse (recover_page nfkc client s page_input principal_id)
    calls_upload_attachment :
        (open_allowed_local_file : Text → List Text → ℕ → Result OpenedFile)
        (upload_input : WikiAttachmentUploadInput)
        → Offered AttachmentUploadResponse
            (upload_attachment nfkc client s open_allowed_local_file upload_input)
    calls_create_grid :
        (grid_input : GridCreateInput) → Offered WikiGrid (create_grid nfkc client s grid_input)
    calls_update_grid :
        (grid_input : GridUpdateInput)
        → Offered GridUpdateResponse (update_grid nfkc client s grid_input)
    calls_copy_grid :
        (grid_input : GridCopyInput)
        → Offered GridOperationResponse (copy_grid nfkc client s grid_input)
    calls_delete_grid :
        (grid_input : GridDeleteInput)
        → Offered GridDeleteResponse (delete_grid nfkc client s grid_input)
    calls_add_grid_rows :
        (grid_input : GridRowsAddInput)
        → Offered GridMutationResponse (add_grid_rows nfkc client s grid_input)
    calls_update_grid_cells :
        (grid_input : GridCellsUpdateInput)
        → Offered GridCellsResponse (update_grid_cells nfkc client s grid_input)
    calls_delete_grid_rows :
        (grid_input : GridRowsDeleteInput)
        → Offered GridMutationResponse (delete_grid_rows nfkc client s grid_input)
    calls_move_grid_row :
        (grid_input : GridRowMoveInput)
        → Offered GridMutationResponse (move_grid_row nfkc client s grid_input)
    calls_add_grid_columns :
        (grid_input : GridColumnsAddInput)
        → Offered GridMutationResponse (add_grid_columns nfkc client s grid_input)
    calls_delete_grid_columns :
        (grid_input : GridColumnsDeleteInput)
        → Offered GridMutationResponse (delete_grid_columns nfkc client s grid_input)
    calls_move_grid_column :
        (grid_input : GridColumnMoveInput)
        → Offered GridMutationResponse (move_grid_column nfkc client s grid_input)
    calls_search :
        (first_raised : ℕ) (query : Text) (limit page_number : ℕ)
        → Offered WikiSearchResponse
            (search nfkc casefold client s first_raised query limit page_number)

  -- What has been sent after some calls.
  pub data Run : List Request → Type 1 where
    no_calls : Run []
    call_of :
        {A : Type 0} {sent : List Request} {method : Call Request A}
        → Run sent
        → Offered A method
        → Run (method sent).1

  Offered-Safe :
      {A : Type 0} {method : Call Request A}
      → Offered A method
      → (sent : List Request) → Unlocked sent
      → Safe nfkc client s method sent
  Offered-Safe (calls_get_page slug) sent free = get_page-Safe nfkc client s slug sent
  Offered-Safe (calls_get_comments page_input) sent free =
      get_comments-Safe nfkc client s page_input sent
  Offered-Safe (calls_get_descendants descendants_input) sent free =
      get_descendants-Safe nfkc client s descendants_input sent
  Offered-Safe (calls_get_resources page_input) sent free =
      get_resources-Safe nfkc client s page_input sent
  Offered-Safe (calls_get_attachments page_input) sent free =
      get_attachments-Safe nfkc client s page_input sent
  Offered-Safe (calls_get_grids page_input) sent free = get_grids-Safe nfkc client s page_input sent
  Offered-Safe (calls_get_grid grid_input) sent free = get_grid-Safe nfkc client s grid_input sent
  Offered-Safe (calls_get_tree slug) sent free = get_tree-Safe nfkc client s slug sent
  Offered-Safe (calls_create_page argument) sent free = create_page-Safe nfkc client s argument sent
  Offered-Safe (calls_update_page argument) sent free = update_page-Safe nfkc client s argument sent
  Offered-Safe (calls_append_page page_input) sent free =
      append_page-Safe nfkc client s page_input sent
  Offered-Safe (calls_clone_page page_input) sent free =
      clone_page-Safe nfkc client s page_input sent
  Offered-Safe (calls_add_comment comment_input) sent free =
      add_comment-Safe nfkc client s comment_input sent
  Offered-Safe (calls_delete_page page_input principal_id) sent free =
      delete_page-Safe nfkc client s page_input principal_id sent
  Offered-Safe (calls_recover_page page_input principal_id) sent free =
      recover_page-Safe nfkc client s page_input principal_id sent
  Offered-Safe (calls_upload_attachment open_allowed_local_file upload_input) sent free =
      upload_attachment-Safe nfkc client s open_allowed_local_file upload_input sent
  Offered-Safe (calls_create_grid grid_input) sent free =
      create_grid-Safe nfkc client s grid_input sent
  Offered-Safe (calls_update_grid grid_input) sent free =
      update_grid-Safe nfkc client s grid_input sent free
  Offered-Safe (calls_copy_grid grid_input) sent free =
      copy_grid-Safe nfkc client s grid_input sent free
  Offered-Safe (calls_delete_grid grid_input) sent free =
      delete_grid-Safe nfkc client s grid_input sent free
  Offered-Safe (calls_add_grid_rows grid_input) sent free =
      add_grid_rows-Safe nfkc client s grid_input sent free
  Offered-Safe (calls_update_grid_cells grid_input) sent free =
      update_grid_cells-Safe nfkc client s grid_input sent free
  Offered-Safe (calls_delete_grid_rows grid_input) sent free =
      delete_grid_rows-Safe nfkc client s grid_input sent free
  Offered-Safe (calls_move_grid_row grid_input) sent free =
      move_grid_row-Safe nfkc client s grid_input sent free
  Offered-Safe (calls_add_grid_columns grid_input) sent free =
      add_grid_columns-Safe nfkc client s grid_input sent free
  Offered-Safe (calls_delete_grid_columns grid_input) sent free =
      delete_grid_columns-Safe nfkc client s grid_input sent free
  Offered-Safe (calls_move_grid_column grid_input) sent free =
      move_grid_column-Safe nfkc client s grid_input sent free
  Offered-Safe (calls_search first_raised query limit page_number) sent free =
      search-Safe nfkc casefold client s first_raised query limit page_number sent

  Run-sound :
      {sent : List Request} → Run sent → Trace (Permitted nfkc client s) sent × Unlocked sent
  Run-sound no_calls = (tt, λ grid_id. unfold holds_lock in refl)
  Run-sound (call_of {sent = sent} run offered) =
      let (trace, free) = Run-sound run in
      let (trace1, same, done) = Offered-Safe offered sent free trace in
      (trace1, λ grid_id. same grid_id ∙ free grid_id)

  -- However the methods of a Wiki service are called one after another and whatever the API and the
  -- store answer, each request was permitted after those before it. A switch for it is on (locks
  -- and the closing of a local file need none). The comments, attachments, grids, resources and
  -- descendants of a page are listed, and a page is changed, commented or deleted, only by the
  -- identity of a page that the API returned before with a slug whose normal form lies within the
  -- roots; but descendants are listed by the slug of an allowed root, too. A grid is read or
  -- changed only after the API named such a page as its own, and it is changed only while its lock
  -- is held. A page is created, or a page or grid copied, only to a slug within the roots, and
  -- recovered only with a token that the store gave for a slug within them; the store gets only
  -- tokens that the API gave for a deleted page. A search names the cluster of an allowed root, or
  -- none for the root `/`, unless the API refused that for the same search before. The request for
  -- a page itself, and the one for a grid without revision and filters, by which they are checked,
  -- need no more than a switch.
  pub Run-Trace : {sent : List Request} → Run sent → Trace (Permitted nfkc client s) sent
  Run-Trace run = (Run-sound run).0

  -- However the methods are called one after another and whatever the API answers, errors
  -- included, the lock of no grid is held when they have returned.
  pub Run-Unlocked :
      {sent : List Request} → Run sent → (grid_id : Text) → holds_lock grid_id sent ≡ false
  Run-Unlocked run = (Run-sound run).1
