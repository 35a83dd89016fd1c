-- ===== src/Policies/Cursors/Paging.antt =====
-- jobs/uploads.py and policies/cursors.py: the listing of upload jobs with the signed cursors.
use yandex_workspace_mcp.Prelude.{
  ℕ, ◌≡◌, refl, sym, ap, inl, inr, true, Text, text, List, Option, none, some, ltb, arith,
  if◌then◌else◌, all, Bool-cases,
}
use yandex_workspace_mcp.Errors.{Result, ok, err, value_error, ◌>>=◌}
use yandex_workspace_mcp.Jobs.Models.{
  UploadJobStatus, queued, running, completed, failed, cancelled,
}
use yandex_workspace_mcp.Jobs.Uploads.Listing.{JobCursors, Bound}
use yandex_workspace_mcp.Policies.Cursors.{Primitives, KeyRing, query_hash, principal_hash}
use yandex_workspace_mcp.Policies.Cursors.Models.{UploadJobCursor, upload_job_json}
use yandex_workspace_mcp.Policies.Cursors.Codec.{
  filter_text, encode_upload_jobs, decode_upload_jobs,
}
use yandex_workspace_mcp.Policies.Cursors.Tokens.{IsDigest, IsReadable}
use yandex_workspace_mcp.Policies.Cursors.RoundTrip.{decode-encode_upload_jobs}

-- A status as the text that it is.
abbrev pub status_text : UploadJobStatus → Text
status_text queued = text "queued"
status_text running = text "running"
status_text completed = text "completed"
status_text failed = text "failed"
status_text cancelled = text "cancelled"

-- `status or "*"`
abbrev pub status_filter : Option UploadJobStatus → Text
status_filter none = text "*"
status_filter (some status) = status_text status

abbrev pub option_text : Option UploadJobStatus → Option Text
option_text none = none
option_text (some status) = some (status_text status)

filter_text-option :
    (status : Option UploadJobStatus) → filter_text (option_text status) ≡ status_filter status
filter_text-option none = refl
filter_text-option (some queued) = refl
filter_text-option (some running) = refl
filter_text-option (some completed) = refl
filter_text-option (some failed) = refl
filter_text-option (some cancelled) = refl

module _ (p : Primitives) (ring : KeyRing) where
  -- The cursor that `list` makes: an UploadJobCursorV1, which takes no offset above 10000.
  abbrev pub job_cursor : Text → Option UploadJobStatus → ℕ → UploadJobCursor
  job_cursor principal status offset = record {
    principal_hash = principal_hash p ring principal;
    filter_hash = query_hash p (status_filter status);
    offset = offset;
  }

  unfoldable pub encode_jobs : Text → Option UploadJobStatus → ℕ → Result Text
  unfolding principal_hash query_hash encode_upload_jobs
  encode_jobs principal status offset =
      if ltb 10000 offset
      then err value_error
      else encode_upload_jobs p ring (job_cursor principal status offset)

  unfoldable pub decode_jobs : (token principal : Text) → Option UploadJobStatus → Result ℕ
  unfolding decode_upload_jobs
  decode_jobs token principal status = do
    state ← decode_upload_jobs p ring token principal (option_text status)
    ok state.offset

  -- The codec as `list` uses it.
  unfoldable pub job_cursors : JobCursors
  unfolding encode_jobs decode_jobs
  job_cursors = record { encode_upload_jobs = encode_jobs; decode_upload_jobs = decode_jobs }

  -- Where the hashes are digests of 32 bytes and ASCII texts, and the JSON of the cursors is read as it
  -- was written, the signed codec is one that reads what it wrote, as the listing of jobs requires.
  pub job_cursors-Bound :
      ((message : Text) → IsDigest (p.hmac_sha256 ring.first_key message))
      → ((message : List ℕ) → all (λ c. ltb c 128) (p.sha256_hex message) ≡ true)
      → ((state : UploadJobCursor) → IsReadable p (upload_job_json state))
      → Bound job_cursors
  unfolding job_cursors
  job_cursors-Bound digests ascii readable = record { reads = reads }
    where
      reads :
          (principal : Text) (status : Option UploadJobStatus) (offset : ℕ) (token : Text)
          → encode_jobs principal status offset ≡ ok token
          → decode_jobs token principal status ≡ ok offset
      reads principal status offset token h = elim (Bool-cases (ltb 10000 offset)) [
        | inl far ↦ absurd (let e = rw (encode_jobs, far) at h in cc)
        | inr near ↦
            rw
              (
                decode_jobs,
                decode-encode_upload_jobs p ring ring (job_cursor principal status offset) principal
                    (option_text status) digests ascii
                    (readable (job_cursor principal status offset)) (inl refl)
                    (ap (query_hash p) (sym (filter_text-option status))) refl
                    (ground (arith, near)) (rw (encode_jobs, near) at h),
              )
              refl
      ]
