-- ===== src/Services/Disk/Search/Signed.antt =====
-- services/disk.py and policies/cursors.py: the search of the Disk with the signed cursors.
use yandex_workspace_mcp.Prelude.{
  ℕ, ◌-◌, ◌≤◌, ◌≡◌, refl, sym, ap, subst, ◌∙◌, inl, inr, true, false, not, ◌&&◌, ◌||◌, Text, text,
  List, [], Option, some, ltb, leb, arith, all, length, length-drop, text_eq, text_eq_sound, split,
  Bool-cases,
}
use yandex_workspace_mcp.Errors.{
  Result, ok, err, value_error, permission_denied, ok-injective, ◌>>=◌,
}
use yandex_workspace_mcp.Errors
use yandex_workspace_mcp.Models.Disk.{DiskSearchResponse}
use yandex_workspace_mcp.Policies.Cursors.{
  Primitives, KeyRing, query_hash, principal_hash, item_hash, decode_payload,
}
use yandex_workspace_mcp.Policies.Cursors.Models.{DiskSearchCursor, disk_json}
use yandex_workspace_mcp.Policies.Cursors.Codec.{encode_disk, decode_disk}
use yandex_workspace_mcp.Policies.Cursors.Tokens.{IsDigest, IsReadable}
use yandex_workspace_mcp.Policies.Cursors.RoundTrip.{decode-encode_disk}
use yandex_workspace_mcp.Services.Calls
use yandex_workspace_mcp.Services.Calls.{guard-ok}
use yandex_workspace_mcp.Services.Disk.{Request, DiskClient, DiskService}
use yandex_workspace_mcp.Services.Disk.Search.{
  DiskCursors, SearchState, max_scans, search_start, last_hundred, next_cursor, search_rounds,
  search,
}

-- A token is not empty.
decode_disk_empty :
    (p : Primitives) (ring : KeyRing) (query principal : Text)
    → decode_disk p ring [] query principal ≡ err value_error
unfolding decode_disk decode_payload split
decode_disk_empty p ring query principal = refl

few_last : (seen : List Text) → length (last_hundred seen) ≤ 100
few_last seen = omega (arith, length-drop (length seen - 100) seen)

module _ (p : Primitives) (ring : KeyRing) where
  -- The cursor that the search makes.
  abbrev pub disk_cursor : (query principal : Text) → ℕ → List Text → DiskSearchCursor
  disk_cursor query principal offset seen = record {
    query_hash = query_hash p query;
    principal_hash = principal_hash p ring principal;
    offset = offset;
    seen = seen;
  }

  unfoldable pub read_cursor : (token query principal : Text) → Result (ℕ × List Text)
  unfolding decode_disk
  read_cursor token query principal = do
    state ← decode_disk p ring token query principal
    ok (state.offset, state.seen)

  -- The codec as `search` uses it.
  unfoldable pub disk_cursors : DiskCursors
  unfolding encode_disk read_cursor query_hash principal_hash item_hash
  disk_cursors = record {
    casefold = p.casefold;
    item_hash = item_hash p ring (text "disk");
    decode_disk = read_cursor;
    encode_disk =
        λ query principal offset seen. encode_disk p ring (disk_cursor query principal offset seen);
  }

  -- What `search` starts from with a cursor is what was encoded in it.
  search_start-encode :
      (query principal : Text) (offset current_offset : ℕ) (seen : List Text) {token : Text}
      → ((message : Text) → IsDigest (p.hmac_sha256 ring.first_key message))
      → ((message : List ℕ) → all (λ c. ltb c 128) (p.sha256_hex message) ≡ true)
      → IsReadable p (disk_json (disk_cursor query principal current_offset seen))
      → current_offset ≤ 10000
      → length seen ≤ 100
      → encode_disk p ring (disk_cursor query principal current_offset seen) ≡ ok token
      → search_start disk_cursors query principal (some token) offset ≡ ok (current_offset, seen)
  unfolding disk_cursors read_cursor
  search_start-encode query principal offset current_offset seen {token} digests ascii readable near
        few h =
      let decoded : decode_disk p ring token query principal
          ≡ ok (disk_cursor query principal current_offset seen) =
        decode-encode_disk p ring ring (disk_cursor query principal current_offset seen) query
          principal digests ascii readable (inl refl) refl refl near few h in
      elim (Bool-cases (text_eq token [])) [
        | inr given ↦ rw (given, read_cursor, decoded) refl
        | inl empty ↦ absurd (
            let e : decode_disk p ring [] query principal
                ≡ ok (disk_cursor query principal current_offset seen) =
              subst
                (λ t.
                  decode_disk p ring t query principal
                  ≡ ok (disk_cursor query principal current_offset seen))
                (text_eq_sound token [] empty) decoded in
            cc (e, decode_disk_empty p ring query principal))
      ]

  next_cursor-ok :
      (query principal : Text) (limit : ℕ) (st : SearchState) {token : Text}
      → next_cursor disk_cursors query principal limit st ≡ ok (some token)
      → (st.current_offset ≤ 10000)
        × (encode_disk p ring (disk_cursor query principal st.current_offset (last_hundred st.seen))
            ≡ ok token)
  unfolding next_cursor disk_cursors
  next_cursor-ok query principal limit st {token} h =
      elim (Bool-cases
        (not st.exhausted && (leb limit (length st.matched) || leb max_scans st.scanned))) [
          | inr last ↦ absurd (let e = rw last at h in cc)
          | inl more ↦ elim (Bool-cases (ltb 10000 st.current_offset)) [
            | inl far ↦ absurd (let e = rw (more, far) at h in cc)
            | inr near ↦
                elim (Errors.Result-cases (
                  encode_disk p ring
                    (disk_cursor query principal st.current_offset (last_hundred st.seen)))) [
                      | inr (error, e) ↦ absurd (let f = rw (more, near, e) at h in cc)
                      | inl (token', e) ↦ (
                        ground (arith, near),
                        e ∙ ap ok (some-injective (ok-injective (rw (more, near, e) at h))),
                      )
                    ]
          ]
        ]
    where
      some-injective : {a b : Text} → some a ≡ some b → a ≡ b
      some-injective same = cc

  -- A search with the cursor that a search made starts where that one ended.
  pub search_start-next :
      (query principal : Text) (offset limit : ℕ) (st : SearchState) {token : Text}
      → ((message : Text) → IsDigest (p.hmac_sha256 ring.first_key message))
      → ((message : List ℕ) → all (λ c. ltb c 128) (p.sha256_hex message) ≡ true)
      → ((o : ℕ) (seen : List Text) → IsReadable p (disk_json (disk_cursor query principal o seen)))
      → next_cursor disk_cursors query principal limit st ≡ ok (some token)
      → (st.current_offset ≤ 10000)
        × (search_start disk_cursors query principal (some token) offset
            ≡ ok (st.current_offset, last_hundred st.seen))
  search_start-next query principal offset limit st digests ascii readable made =
      let (near, encoded) = next_cursor-ok query principal limit st made in
      (
        near,
        search_start-encode query principal offset st.current_offset (last_hundred st.seen) digests
            ascii (readable st.current_offset (last_hundred st.seen)) near (few_last st.seen)
            encoded,
      )

-- What the loop of the search starts from.
abbrev pub from_start : ℕ × List Text → SearchState
from_start start = record {
  matched = [];
  seen = start.1;
  current_offset = start.0;
  scanned = 0;
  exhausted = false;
}

-- How a search that returns has gone.
module _ (nfkc : Text → Text) (client : DiskClient) (s : DiskService) (codec : DiskCursors) where
  pub search_ended :
      (query : Text) (limit offset : ℕ) (cursor : Option Text) (principal : Text)
      (media_type : Option Text) (sent : List Request) {response : DiskSearchResponse}
      → (search nfkc client s codec query limit offset cursor principal media_type sent).0
        ≡ ok response
      → (start : ℕ × List Text) × (st : SearchState) × (search_start codec query principal cursor
            offset
          ≡ ok start)
        × ((search_rounds nfkc client s codec max_scans limit
              (codec.casefold query)
              media_type
              (from_start start)
              sent).0
            ≡ ok st)
        × (response.items ≡ st.matched)
        × (next_cursor codec query principal limit st ≡ ok response.next_cursor)
  unfolding search
  search_ended query limit offset cursor principal media_type sent {response} h =
      let (on, h1) = guard-ok (not s.can_read) permission_denied _ sent h in
      let (start, started, h2) =
        Calls.>>=-ok (Calls.of_result (search_start codec query principal cursor offset)) _ sent
          h1 in
      let (st, ended, h3) =
        Calls.>>=-ok
          (search_rounds nfkc client s codec max_scans limit (codec.casefold query) media_type
            (from_start start))
          _ _ h2 in
      let (cursor', made, h4) =
        Calls.>>=-ok (Calls.of_result (next_cursor codec query principal limit st)) _ _ h3 in
      let same = ok-injective h4 in
      (
        start,
        st,
        started,
        ended,
        sym (ap (λ r. r.items) same),
        made ∙ ap ok (ap (λ r. r.next_cursor) same),
      )

module _ (nfkc : Text → Text) (client : DiskClient) (s : DiskService) (p : Primitives)
    (ring : KeyRing) where
  -- When a search of the Disk with the signed codec returns a cursor, a search for the same query and
  -- principal with this cursor starts where the loop of the first one ended: at the offset that it
  -- reached, which is 10000 at most, with the last 100 of the items that it has seen. Where the hashes
  -- are digests of 32 bytes and ASCII texts, and the JSON of the cursors is read as it was written.
  pub search_resumes :
      (query : Text) (limit offset other : ℕ) (cursor : Option Text) (principal : Text)
      (media_type : Option Text) (sent : List Request) {response : DiskSearchResponse}
      {token : Text}
      → ((message : Text) → IsDigest (p.hmac_sha256 ring.first_key message))
      → ((message : List ℕ) → all (λ c. ltb c 128) (p.sha256_hex message) ≡ true)
      → ((o : ℕ) (seen : List Text)
          → IsReadable p (disk_json (disk_cursor p ring query principal o seen)))
      → (search nfkc client s
          (disk_cursors p ring)
          query
          limit
          offset
          cursor
          principal
          media_type
          sent).0
        ≡ ok response
      → response.next_cursor ≡ some token
      → (start : ℕ × List Text) × (st : SearchState) × (search_start
            (disk_cursors p ring)
            query
            principal
            cursor
            offset
          ≡ ok start)
        × ((search_rounds nfkc client s
              (disk_cursors p ring)
              max_scans
              limit
              (p.casefold query)
              media_type
              (from_start start)
              sent).0
            ≡ ok st)
        × (response.items ≡ st.matched)
        × (st.current_offset ≤ 10000)
        × (search_start (disk_cursors p ring) query principal (some token) other
            ≡ ok (st.current_offset, last_hundred st.seen))
  unfolding disk_cursors
  search_resumes query limit offset other cursor principal media_type sent {response} {token}
        digests ascii readable h has_cursor =
      let codec = disk_cursors p ring in
      let (start, st, started, ended, items, made) =
        search_ended nfkc client s codec query limit offset cursor principal media_type sent h in
      let (near, resumed) =
        search_start-next p ring query principal other limit st digests ascii readable
          (made ∙ ap ok has_cursor) in
      (start, st, started, ended, items, near, resumed)
