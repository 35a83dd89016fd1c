-- ===== src/Policies/Cursors/Codec.antt =====
-- policies/cursors.py: the methods of `CursorCodec` that write and read cursors.
use yandex_workspace_mcp.Prelude.{
  Bool, true, false, not, ◌&&◌, Text, text, List, [], ◌∷◌, Option, none, some, all, any, map,
  text_eq,
}
use yandex_workspace_mcp.Errors.{Result, ok, value_error, raise_if, ◌>>=◌, ◌>>◌}
use yandex_workspace_mcp.Policies.Cursors.{
  Primitives, KeyRing, ring_keys, compare_digest, query_hash, identity_hash_with_key,
  matches_principal, encode_payload, decode_payload,
}
use yandex_workspace_mcp.Policies.Cursors.Models.{
  DiskSearchCursor, UploadJobCursor, RootCursorState, CursorSource, from_disk, from_wiki,
  WorkspaceCursor, disk_json, upload_job_json, workspace_json, read_disk_cursor,
  read_upload_job_cursor, read_workspace_cursor,
}

-- Whether two lists are one set.
abbrev pub same_set {ℓ} : {A : Type ℓ} → (A → A → Bool) → List A → List A → Bool
same_set eq a b = all (λ x. any (eq x) b) a && all (λ x. any (eq x) a) b

abbrev pub source_eq : CursorSource → CursorSource → Bool
source_eq from_disk from_disk = true
source_eq from_wiki from_wiki = true
source_eq _ _ = false

-- `if not hmac.compare_digest(...): raise ValueError` and the like.
abbrev pub require : Result Bool → Result (Unit {0})
require check = check >>= λ matches. raise_if (not matches) value_error

-- `status or "*"`
abbrev pub filter_text : Option Text → Text
filter_text none = text "*"
filter_text (some []) = text "*"
filter_text (some (c ∷ status)) = c ∷ status

-- The roots that a cursor names: `root_hashes`, or those of the state of the descendants.
abbrev pub encoded_roots : List Text → Option (List RootCursorState) → List Text
encoded_roots [] none = []
encoded_roots [] (some roots) = map (λ root. root.root_hash) roots
encoded_roots (hash ∷ hashes) roots = hash ∷ hashes

module _ (p : Primitives) (ring : KeyRing) where
  unfoldable pub encode_disk : DiskSearchCursor → Result Text
  unfolding encode_payload disk_json
  encode_disk state = encode_payload p ring (disk_json state)

  unfoldable pub decode_disk : (token query principal : Text) → Result DiskSearchCursor
  unfolding decode_payload read_disk_cursor compare_digest query_hash matches_principal
  decode_disk token query principal = do
    payload ← decode_payload p ring token
    state ← read_disk_cursor payload
    require (compare_digest state.query_hash (query_hash p query))
    require (matches_principal p ring state.principal_hash principal)
    ok state

  unfoldable pub encode_upload_jobs : UploadJobCursor → Result Text
  unfolding encode_payload upload_job_json
  encode_upload_jobs state = encode_payload p ring (upload_job_json state)

  unfoldable pub decode_upload_jobs :
      (token principal : Text) (status : Option Text) → Result UploadJobCursor
  unfolding decode_payload read_upload_job_cursor compare_digest query_hash matches_principal
  decode_upload_jobs token principal status = do
    payload ← decode_payload p ring token
    state ← read_upload_job_cursor payload
    require (matches_principal p ring state.principal_hash principal)
    require (compare_digest state.filter_hash (query_hash p (filter_text status)))
    ok state

  unfoldable pub encode_workspace : WorkspaceCursor → Result Text
  unfolding encode_payload workspace_json
  encode_workspace state = encode_payload p ring (workspace_json state)

  -- Whether the roots of a cursor are the allowed roots, under one of the keys.
  unfoldable pub names_roots : List Text → List Text → Bool
  unfolding text_eq identity_hash_with_key
  names_roots encoded allowed_roots =
      any
        (λ key.
          same_set text_eq encoded
            (map (λ root. identity_hash_with_key p key (text "root") root) allowed_roots))
        (ring_keys ring)

  unfoldable pub decode_workspace :
      (token query principal : Text) → List CursorSource → List Text → Result WorkspaceCursor
  unfolding decode_payload read_workspace_cursor compare_digest query_hash matches_principal
      names_roots
  decode_workspace token query principal enabled_sources allowed_roots = do
    payload ← decode_payload p ring token
    state ← read_workspace_cursor payload
    require (compare_digest state.query_hash (query_hash p query))
    require (matches_principal p ring state.principal_hash principal)
    raise_if (not (same_set source_eq state.sources.enabled enabled_sources)) value_error
    raise_if
        (not (
          names_roots (encoded_roots state.sources.root_hashes state.sources.wiki_descendants)
            allowed_roots))
        value_error
    ok state
