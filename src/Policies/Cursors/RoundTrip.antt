-- ===== src/Policies/Cursors/RoundTrip.antt =====
-- policies/cursors.py: `decode_disk` and `decode_upload_jobs` return what was encoded.
use yandex_workspace_mcp.Prelude.{
  ℕ, ◌≤◌, ◌≡◌, refl, sym, subst, true, Text, List, [], ◌∷◌, Option, ltb, leb, arith, Some, all,
  length,
}
use yandex_workspace_mcp.Errors.{ok}
use yandex_workspace_mcp.Policies.Cursors.{
  Primitives, KeyRing, ring_keys, query_hash, principal_hash, compare_digest, matches_principal,
  normalized_query,
}
use yandex_workspace_mcp.Policies.Cursors.Models.{
  DiskSearchCursor, UploadJobCursor, field_of, has_only, text_values, texts_of, at_most, disk_json,
  upload_job_json, read_disk_cursor, read_upload_job_cursor,
}
use yandex_workspace_mcp.Policies.Cursors.Codec.{
  filter_text, encode_disk, decode_disk, encode_upload_jobs, decode_upload_jobs,
}
use yandex_workspace_mcp.Policies.Cursors.Tokens.{
  IsDigest, IsReadable, compare_digest_refl, matches_principal_complete, decode-encode_payload,
}

le→leb : (a b : ℕ) → a ≤ b → leb a b ≡ true
le→leb a b h = ground (arith, h)

texts_of-values : (texts : List Text) → texts_of (text_values texts) ≡ ok texts
unfolding texts_of text_values
texts_of-values [] = refl
texts_of-values (t ∷ texts) = rw (texts_of-values texts) refl

read_disk_cursor-json :
    (state : DiskSearchCursor)
    → state.offset ≤ 10000
    → length state.seen ≤ 100
    → read_disk_cursor (disk_json state) ≡ ok state
unfolding read_disk_cursor disk_json has_only field_of at_most
read_disk_cursor-json state near few =
    rw
      (
        le→leb state.offset 10000 near,
        texts_of-values state.seen,
        le→leb (length state.seen) 100 few,
      )
      refl

read_upload_job_cursor-json :
    (state : UploadJobCursor)
    → state.offset ≤ 10000
    → read_upload_job_cursor (upload_job_json state) ≡ ok state
unfolding read_upload_job_cursor upload_job_json has_only field_of
read_upload_job_cursor-json state near = rw (le→leb state.offset 10000 near) refl

module _ (p : Primitives) (ring ring' : KeyRing) where
  query_matches :
      (stored query : Text)
      → ((message : List ℕ) → all (λ c. ltb c 128) (p.sha256_hex message) ≡ true)
      → stored ≡ query_hash p query
      → compare_digest stored (query_hash p query) ≡ ok true
  unfolding query_hash
  query_matches stored query ascii same =
      subst (λ s. compare_digest s (query_hash p query) ≡ ok true) (sym same)
        (compare_digest_refl (query_hash p query) (ascii (p.utf8 (normalized_query p query))))

  principal_matches :
      (stored principal : Text)
      → Some (λ key. key ≡ ring.first_key) (ring_keys ring')
      → stored ≡ principal_hash p ring principal
      → matches_principal p ring' stored principal ≡ ok true
  unfolding principal_hash
  principal_matches stored principal known same =
      subst (λ s. matches_principal p ring' s principal ≡ ok true) (sym same)
        (matches_principal_complete p ring' ring.first_key principal known)

  -- A cursor of a search of the Disk that one key ring encodes is decoded by each ring that has its
  -- first key, so that keys may be rotated: for the query and the principal that it was made for,
  -- `decode_disk` returns it. Where the hashes are digests of 32 bytes and ASCII texts, and the JSON
  -- of the cursor is read as it was written.
  pub decode-encode_disk :
      (state : DiskSearchCursor) (query principal : Text) {token : Text}
      → ((message : Text) → IsDigest (p.hmac_sha256 ring.first_key message))
      → ((message : List ℕ) → all (λ c. ltb c 128) (p.sha256_hex message) ≡ true)
      → IsReadable p (disk_json state)
      → Some (λ key. key ≡ ring.first_key) (ring_keys ring')
      → state.query_hash ≡ query_hash p query
      → state.principal_hash ≡ principal_hash p ring principal
      → state.offset ≤ 10000
      → length state.seen ≤ 100
      → encode_disk p ring state ≡ ok token
      → decode_disk p ring' token query principal ≡ ok state
  unfolding encode_disk decode_disk
  decode-encode_disk state query principal digests ascii readable known for_query for_principal near
        few h =
      rw
        (
          decode-encode_payload p ring ring' (disk_json state) digests readable known h,
          read_disk_cursor-json state near few,
          query_matches state.query_hash query ascii for_query,
          principal_matches state.principal_hash principal known for_principal,
        )
        refl

  pub decode-encode_upload_jobs :
      (state : UploadJobCursor) (principal : Text) (status : Option Text) {token : Text}
      → ((message : Text) → IsDigest (p.hmac_sha256 ring.first_key message))
      → ((message : List ℕ) → all (λ c. ltb c 128) (p.sha256_hex message) ≡ true)
      → IsReadable p (upload_job_json state)
      → Some (λ key. key ≡ ring.first_key) (ring_keys ring')
      → state.filter_hash ≡ query_hash p (filter_text status)
      → state.principal_hash ≡ principal_hash p ring principal
      → state.offset ≤ 10000
      → encode_upload_jobs p ring state ≡ ok token
      → decode_upload_jobs p ring' token principal status ≡ ok state
  unfolding encode_upload_jobs decode_upload_jobs
  decode-encode_upload_jobs state principal status digests ascii readable known for_filter
        for_principal near h =
      rw
        (
          decode-encode_payload p ring ring' (upload_job_json state) digests readable known h,
          read_upload_job_cursor-json state near,
          principal_matches state.principal_hash principal known for_principal,
          query_matches state.filter_hash (filter_text status) ascii for_filter,
        )
        refl
