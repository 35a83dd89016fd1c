-- ===== src/Policies/Cursors/Tests.antt =====
-- Cursors with small hash functions in place of hmac and hashlib.
use yandex_workspace_mcp.Prelude.{
  ℕ, ◌<◌, ◌≡◌, refl, sym, ap, subst, inl, inr, ◌&&◌, Text, text, List, [], ◌∷◌, Option, none, some,
  ltb, if◌then◌else◌, arith, All, length, replicate, text_eq, text_eq_sound, Bool-cases,
}
use yandex_workspace_mcp.Prelude.Int.{pos}
use yandex_workspace_mcp.Errors.{ok}
use yandex_workspace_mcp.Python.Base64
use yandex_workspace_mcp.Python.Base64.{IsByte}
use yandex_workspace_mcp.Models.Wiki.Json.{Json, json_int, json_text, json_dict, item_entry}
use yandex_workspace_mcp.Jobs.Uploads.Listing.{Bound}
use yandex_workspace_mcp.Policies.Cursors.Sums.{primitives, mac-IsDigest, hex_ascii}
use yandex_workspace_mcp.Policies.Cursors.{Primitives, KeyRing, query_hash, principal_hash}
use yandex_workspace_mcp.Policies.Cursors.Models.{
  DiskSearchCursor, UploadJobCursor, from_disk, from_wiki, WorkspaceCursor, disk_json,
  upload_job_json, workspace_json,
}
use yandex_workspace_mcp.Policies.Cursors.Codec.{encode_disk, decode_disk, decode_workspace}
use yandex_workspace_mcp.Policies.Cursors.Tokens.{IsReadable}
use yandex_workspace_mcp.Policies.Cursors.RoundTrip.{decode-encode_disk}
use yandex_workspace_mcp.Policies.Cursors.Bindings.{
  DiskBound, decode_disk-DiskBound, WorkspaceBound, decode_workspace-WorkspaceBound,
}
use yandex_workspace_mcp.Policies.Cursors.Paging.{job_cursors, job_cursors-Bound}

abbrev old_ring : KeyRing
old_ring = record { first_key = replicate 32 1; other_keys = [] }

-- The key of the old ring is no longer the first one.
abbrev new_ring : KeyRing
new_ring = record { first_key = replicate 32 2; other_keys = replicate 32 1 ∷ [] }

-- A cursor of a search of the Disk for "ab", of the principal "me". The bytes stand for its JSON.
abbrev braces : List ℕ
braces = b'{' ∷ b'}' ∷ []

abbrev disk_state : DiskSearchCursor
disk_state = record {
  query_hash = text "d";
  principal_hash = text "tLS0tLS0tLS0tLS0tLS0tA";
  offset = 20;
  seen = text "s" ∷ [];
}

abbrev disk_primitives : Primitives
disk_primitives = primitives (λ json. some braces) (λ raw. some (json_dict (disk_json disk_state)))

abbrev token : Text
token = text "e30.6Ojo6Ojo6Ojo6Ojo6Ojo6Ojo6Ojo6Ojo6Ojo6Ojo6Og"

disk_token : encode_disk disk_primitives old_ring disk_state ≡ ok token
unfolding encode_disk
disk_token = refl

disk_json-IsReadable : IsReadable disk_primitives (disk_json disk_state)
disk_json-IsReadable = record {
  reads = λ raw h. let (bytes, some_byte) = lengths raw h in (refl, bytes, some_byte);
}
  where
    lengths : (raw : List ℕ) → some braces ≡ some raw → All IsByte raw × (0 < length raw)
    lengths raw h =
        let same : braces ≡ raw = cc in
        subst (λ r. All IsByte r × (0 < length r)) same
          ((omega arith, (omega arith, tt)), omega arith)

decode-encode_disk_example :
    decode_disk disk_primitives new_ring token (text "ab") (text "me") ≡ ok disk_state
unfolding query_hash principal_hash
decode-encode_disk_example =
    decode-encode_disk disk_primitives old_ring new_ring disk_state (text "ab") (text "me")
      (mac-IsDigest old_ring.first_key) hex_ascii disk_json-IsReadable (inr (inl refl)) query_hashed
      principal_hashed (omega arith) (omega arith) disk_token
  where
    query_hashed : text "d" ≡ query_hash disk_primitives (text "ab")
    query_hashed = refl

    principal_hashed :
        disk_state.principal_hash ≡ principal_hash disk_primitives old_ring (text "me")
    principal_hashed = refl

disk_bound : DiskBound disk_primitives new_ring token (text "ab") (text "me") disk_state
disk_bound =
    decode_disk-DiskBound disk_primitives new_ring token (text "ab") (text "me")
      decode-encode_disk_example

-- A cursor of a search of the workspace.
abbrev workspace_state : WorkspaceCursor
workspace_state = record {
  query_hash = text "d";
  principal_hash = text "tLS0tLS0tLS0tLS0tLS0tA";
  sources = record {
    enabled = from_disk ∷ from_wiki ∷ [];
    root_hashes = text "dHR0dHR0dHR0dHR0dHR0dA" ∷ [];
    disk = some 3;
    wiki_descendants = none;
  };
  seen = [];
}

abbrev workspace_primitives : Primitives
workspace_primitives =
    primitives (λ json. some braces) (λ raw. some (json_dict (workspace_json workspace_state)))

opened :
    decode_workspace workspace_primitives new_ring token
      (text "ab")
      (text "me")
      (from_wiki ∷ from_disk ∷ [])
      (text "/a" ∷ [])
    ≡ ok workspace_state
unfolding decode_workspace Base64.decode workspace_json
opened = refl

decode_workspace-WorkspaceBound_example :
    WorkspaceBound workspace_primitives new_ring token
      (text "ab")
      (text "me")
      (from_wiki ∷ from_disk ∷ [])
      (text "/a" ∷ [])
      workspace_state
decode_workspace-WorkspaceBound_example =
    decode_workspace-WorkspaceBound workspace_primitives new_ring token (text "ab") (text "me")
      (from_wiki ∷ from_disk ∷ []) (text "/a" ∷ []) opened

-- Cursors of the listing of jobs: one with an offset below 256, without a status, of the principal
-- "me", is written as that offset.
abbrev written_if : Text → ℕ → Text → Option (List ℕ)
written_if filter_hash offset principal_hash =
    if text_eq filter_hash (text "k")
      && text_eq principal_hash disk_state.principal_hash
      && ltb offset 256
    then some (offset ∷ [])
    else none

abbrev job_state : ℕ → UploadJobCursor
job_state offset = record {
  principal_hash = disk_state.principal_hash;
  filter_hash = text "k";
  offset = offset;
}

abbrev write_job : Json → Option (List ℕ)
write_job
      (json_dict (
        item_entry _
          (json_text f)
          (item_entry _ (json_int (pos n)) (item_entry _ (json_text h) _)))) =
    written_if f n h
write_job _ = none

abbrev read_job : List ℕ → Option Json
read_job (n ∷ []) = some (json_dict (upload_job_json (job_state n)))
read_job _ = none

abbrev job_primitives : Primitives
job_primitives = primitives write_job read_job

job-IsReadable : (state : UploadJobCursor) → IsReadable job_primitives (upload_job_json state)
unfolding upload_job_json
job-IsReadable state = record { reads = λ raw h. reads raw h }
  where
    reads :
        (raw : List ℕ)
        → written_if state.filter_hash state.offset state.principal_hash ≡ some raw
        → (read_job raw ≡ some (json_dict (upload_job_json state)))
          × All IsByte raw
          × (0 < length raw)
    reads raw h = elim (Bool-cases (text_eq state.filter_hash (text "k"))) [
      | inr other ↦ absurd (let e = rw other at h in cc)
      | inl same_filter ↦
          elim (Bool-cases (text_eq state.principal_hash disk_state.principal_hash)) [
            | inr other ↦ absurd (let e = rw (same_filter, other) at h in cc)
            | inl same_principal ↦ elim (Bool-cases (ltb state.offset 256)) [
              | inr other ↦ absurd (let e = rw (same_filter, same_principal, other) at h in cc)
              | inl small ↦
                  let same : state.offset ∷ [] ≡ raw =
                    let e = rw (same_filter, same_principal, small) at h in cc in
                  subst
                    (λ r.
                      (read_job r ≡ some (json_dict (upload_job_json state)))
                      × All IsByte r
                      × (0 < length r))
                    same
                    (
                      ap (λ st. some (json_dict (upload_job_json st)))
                          (rw
                            (
                              sym (text_eq_sound _ _ same_filter),
                              sym (text_eq_sound _ _ same_principal),
                            )
                            refl),
                      (ground (arith, small), tt),
                      omega arith,
                    )
            ]
          ]
    ]

job_cursors-Bound_example : Bound (job_cursors job_primitives old_ring)
job_cursors-Bound_example =
    job_cursors-Bound job_primitives old_ring (mac-IsDigest old_ring.first_key) hex_ascii
      job-IsReadable
