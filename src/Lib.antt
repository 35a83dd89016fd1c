-- ===== src/Lib.antt =====
-- yandex-workspace-mcp: a server that gives a language model access to Yandex Disk and Yandex Wiki
-- within configured roots. A tool call goes to a service, which authorizes the paths (policies),
-- sends requests through an API client, and filters what comes back; uploads of local files run in
-- the background in a store of jobs. Paths below are from the repository's root.
--
--   Prelude: tests, lists, texts and the integers (Int). A text is the list of its code points.
--   Errors: the exceptions of src/yandex_workspace_mcp/models/errors.py, and results.
--   Python: what the code uses of Python's library, `posixpath` (Posixpath), strict UTF-8 decoding
--   (Utf8), `urllib.parse.unquote` (Unquote) and URL-safe base64 (Base64).
--   Policies.Paths: src/yandex_workspace_mcp/policies/paths.py. A parameter `nfkc` stands for
--   Unicode normalization. Python's recursion over characters is structural recursion, so there is
--   no fuel.
--   Policies.Cursors: src/yandex_workspace_mcp/policies/cursors.py, over the primitives of hmac, hashlib
--   and json as a record of functions; Models has the JSON of the cursors, Codec the methods of
--   `CursorCodec`, Paging the codec as the listing of jobs uses it. The search of the Disk with it is
--   in Services.Disk.Search.Signed.
--   Jobs: src/yandex_workspace_mcp/jobs. Uploads has one function for each piece of a method that
--   runs while the lock is held; Tasks has the step relation in which these pieces interleave, in more
--   orders than asyncio has, and the calls of `close`. The eviction loop has as many
--   rounds as there are jobs, since each round takes a job out.
--   Models.Disk: src/yandex_workspace_mcp/models/disk.py, the public models.
--   Models.Wiki: src/yandex_workspace_mcp/models/wiki.py, the input models with the bounds and the
--   validators that pydantic checks (Inputs, Inputs.Checks), pages and searches (Pages) and grids
--   (Grids), with the functions that map them from what the API sends.
--   Auth.Scopes: src/yandex_workspace_mcp/auth/scopes.py; a set of scopes is its membership test.
--   Auth.Stores: src/yandex_workspace_mcp/auth/stores.py, the store in memory, over the primitives of
--   hmac, AES-GCM and JSON as a record of functions; Auth.Records: the records of auth/models.py.
--   Clients.Base: src/yandex_workspace_mcp/clients/base.py, `_request` over an arbitrary network,
--   clock and jitter. Its loop has the rounds that the code's `range` has.
--   Services.Calls: a method as a function from the requests sent so far to its result and the
--   requests sent then. Services.Disk: src/yandex_workspace_mcp/services/disk.py over it, with the
--   API client as a record of functions that may depend on all earlier requests. The loop of the
--   search has 1000 rounds, which are enough since each one scans an item and it stops at 1000.
--   Services.Wiki: src/yandex_workspace_mcp/services/wiki.py in the same way; the trace of a task has the
--   locks of grids that it takes and releases. The searches of several roots, which run at once, are
--   one after another, and a parameter `first_raised` says which failure comes first. The fallback of
--   the search has 20 rounds a root, as many as the code's range.
--   Services.Workspace: `search` of src/yandex_workspace_mcp/services/workspace.py over the outcomes of
--   the searches that it merges.
--
-- Not modelled: log lines and the audit log, which change no result; the credentials that the
-- methods hand on; times are numbers. The policies for URLs and local files are interfaces, given as
-- records of functions, and so is the codec of cursors for the workspace search. The wire formats and
-- requests of the clients of the Disk and the Wiki, the recovery tokens, client registration, sign-in,
-- redaction, the `fetch` of the workspace, and the mapping of attachments and resources of the Wiki
-- have no model here.
pub mod Prelude
pub mod Errors
pub mod Python
pub mod Policies
pub mod Jobs
pub mod Models
pub mod Services
pub mod Auth
pub mod Clients
