-- ===== src/Policies/Cursors/Bindings.antt =====
-- policies/cursors.py: what a cursor is bound to that `decode_disk` or `decode_workspace` returns.
use yandex_workspace_mcp.Prelude.{
  ◌≤◌, ◌≡◌, refl, sym, ap, subst, ◌∙◌, inl, inr, Bool, true, false, Text, text, List, [], ◌∷◌, Some,
  all, any, map, length, text_eq, text_eq_sound, Bool-cases,
}
use yandex_workspace_mcp.Errors.{Result, ok, err, ◌>>◌, >>=-ok, raise_if-ok, ok-injective}
use yandex_workspace_mcp.Models.Wiki.Json.{Entries}
use yandex_workspace_mcp.Policies.Cursors.{
  Primitives, KeyRing, ring_keys, compare_digest, query_hash, identity_hash_with_key,
  matches_principal, decode_payload,
}
use yandex_workspace_mcp.Policies.Cursors.Models.{
  DiskSearchCursor, CursorSource, from_disk, from_wiki, WorkspaceCursor, read_disk_cursor,
  read_workspace_cursor,
}
use yandex_workspace_mcp.Policies.Cursors.Codec.{
  same_set, source_eq, require, encoded_roots, decode_disk, names_roots, decode_workspace,
}
use yandex_workspace_mcp.Policies.Cursors.Signed.{
  IsSigned, any-Some, Some-map, compare_digest_sound, decode_payload-IsSigned,
  matches_principal_sound, not-false,
}
use yandex_workspace_mcp.Policies.Cursors.Limits.{
  read_disk_cursor-Limits, read_workspace_cursor-Limits,
}

require-ok {ℓ} :
    {B : Type ℓ} (check : Result Bool) (k : Result B) {r : B}
    → (require check >> k) ≡ ok r
    → (check ≡ ok true) × (k ≡ ok r)
require-ok (ok true) k h = (refl, h)
require-ok (ok false) k h = absurd cc
require-ok (err e) k h = absurd cc

-- Two lists are one set, by a test that tells equal elements.
module _ {ℓ} {A : Type ℓ} (eq : A → A → Bool) (sound : (x y : A) → eq x y ≡ true → x ≡ y) where
  all_of :
      (f : A → Bool) (xs : List A) (x : A) → all f xs ≡ true → any (eq x) xs ≡ true → f x ≡ true
  all_of f [] x h has = absurd cc
  all_of f (y ∷ xs) x h has = elim (Bool-cases (f y)) [
    | inr fails ↦ absurd (let e = rw fails at h in cc)
    | inl holds ↦ elim (Bool-cases (eq x y)) [
      | inl same ↦ ap f (sound x y same) ∙ holds
      | inr other ↦ all_of f xs x (rw holds at h) (rw other at has)
    ]
  ]

  both_ways : (a b : Bool) → (a ≡ true → b ≡ true) → (b ≡ true → a ≡ true) → a ≡ b
  both_ways true b f g = sym (f refl)
  both_ways false true f g = g refl
  both_ways false false f g = refl

  same_set_sound : (a b : List A) → same_set eq a b ≡ true → (x : A) → any (eq x) a ≡ any (eq x) b
  same_set_sound a b h x = elim (Bool-cases (all (λ y. any (eq y) b) a)) [
    | inr fails ↦ absurd (let e = rw fails at h in cc)
    | inl within ↦
        both_ways (any (eq x) a) (any (eq x) b) (all_of (λ y. any (eq y) b) a x within)
          (all_of (λ y. any (eq y) a) b x (rw within at h))
  ]

source_eq_sound : (x y : CursorSource) → source_eq x y ≡ true → x ≡ y
source_eq_sound from_disk from_disk h = refl
source_eq_sound from_disk from_wiki h = absurd cc
source_eq_sound from_wiki from_disk h = absurd cc
source_eq_sound from_wiki from_wiki h = refl

-- The two lists have the same texts.
abbrev pub SameTexts : List Text → List Text → Type 0
SameTexts a b = (t : Text) → any (text_eq t) a ≡ any (text_eq t) b

abbrev pub SameSources : List CursorSource → List CursorSource → Type 0
SameSources a b = (x : CursorSource) → any (source_eq x) a ≡ any (source_eq x) b

module _ (p : Primitives) (ring : KeyRing) where
  names_roots_sound :
      (encoded allowed_roots : List Text)
      → names_roots p ring encoded allowed_roots ≡ true
      → Some
          (λ key.
            SameTexts encoded
              (map (λ root. identity_hash_with_key p key (text "root") root) allowed_roots))
          (ring_keys ring)
  unfolding names_roots
  names_roots_sound encoded allowed_roots h =
      Some-map (ring_keys ring)
        (λ key.
          same_set_sound text_eq text_eq_sound encoded
            (map (λ root. identity_hash_with_key p key (text "root") root) allowed_roots))
        (any-Some _ (ring_keys ring) h)

  -- A cursor of a search of the Disk, read from a token, is signed by one of the keys, and is for this
  -- query and, under one of the keys, for this principal.
  pub record DiskBound (token query principal : Text) (state : DiskSearchCursor) : Type 0 where
    pub payload : Entries
    pub signed_token : IsSigned p ring token payload
    pub read_from : read_disk_cursor payload ≡ ok state
    pub for_query : state.query_hash ≡ query_hash p query
    pub for_principal :
        Some
          (λ key. state.principal_hash ≡ identity_hash_with_key p key (text "principal") principal)
          (ring_keys ring)
    pub near : state.offset ≤ 10000
    pub few_seen : length state.seen ≤ 100

  pub decode_disk-DiskBound :
      (token query principal : Text) {state : DiskSearchCursor}
      → decode_disk p ring token query principal ≡ ok state
      → DiskBound token query principal state
  unfolding decode_disk
  decode_disk-DiskBound token query principal {state} h =
      let (payload, opened, h1) = >>=-ok (decode_payload p ring token) _ h in
      let (state', read, h2) = >>=-ok (read_disk_cursor payload) _ h1 in
      let (query_same, h3) =
        require-ok (compare_digest state'.query_hash (query_hash p query)) _ h2 in
      let (principal_same, h4) =
        require-ok (matches_principal p ring state'.principal_hash principal) _ h3 in
      let (near, few) = read_disk_cursor-Limits payload read in
      subst (DiskBound token query principal) (ok-injective h4) (record {
        payload = payload;
        signed_token = decode_payload-IsSigned p ring token opened;
        read_from = read;
        for_query = compare_digest_sound _ _ query_same;
        for_principal = matches_principal_sound p ring _ principal principal_same;
        near = near;
        few_seen = few;
      })

  -- A cursor of a search of the workspace is bound to the sources and the roots, too.
  pub record WorkspaceBound (token query principal : Text) (sources : List CursorSource)
      (roots : List Text) (state : WorkspaceCursor) : Type 0 where
    pub payload : Entries
    pub signed_token : IsSigned p ring token payload
    pub read_from : read_workspace_cursor payload ≡ ok state
    pub for_query : state.query_hash ≡ query_hash p query
    pub for_principal :
        Some
          (λ key. state.principal_hash ≡ identity_hash_with_key p key (text "principal") principal)
          (ring_keys ring)
    pub for_sources : SameSources state.sources.enabled sources
    pub for_roots :
        Some
          (λ key.
            SameTexts
              (encoded_roots state.sources.root_hashes state.sources.wiki_descendants)
              (map (λ root. identity_hash_with_key p key (text "root") root) roots))
          (ring_keys ring)
    pub few_seen : length state.seen ≤ 100

  -- A cursor of a search of the workspace that `decode_workspace` returns was read from a token with a
  -- signature of one of the keys over what stands before its dot, of at most 8192 bytes, that is JSON
  -- of this cursor; and it is bound: to this query, under one of the keys to this principal, to the
  -- sources that are enabled, and under one of the keys to the allowed roots, with no more than 100
  -- items as seen.
  pub decode_workspace-WorkspaceBound :
      (token query principal : Text) (sources : List CursorSource) (roots : List Text)
      {state : WorkspaceCursor}
      → decode_workspace p ring token query principal sources roots ≡ ok state
      → WorkspaceBound token query principal sources roots state
  unfolding decode_workspace
  decode_workspace-WorkspaceBound token query principal sources roots h =
      let (payload, opened, h1) = >>=-ok (decode_payload p ring token) _ h in
      let (state', read, h2) = >>=-ok (read_workspace_cursor payload) _ h1 in
      let (query_same, h3) =
        require-ok (compare_digest state'.query_hash (query_hash p query)) _ h2 in
      let (principal_same, h4) =
        require-ok (matches_principal p ring state'.principal_hash principal) _ h3 in
      let (sources_same, h5) = raise_if-ok _ _ _ h4 in
      let (roots_same, h6) = raise_if-ok _ _ _ h5 in
      subst (WorkspaceBound token query principal sources roots) (ok-injective h6) (record {
        payload = payload;
        signed_token = decode_payload-IsSigned p ring token opened;
        read_from = read;
        for_query = compare_digest_sound _ _ query_same;
        for_principal = matches_principal_sound p ring _ principal principal_same;
        for_sources = same_set_sound source_eq source_eq_sound _ _ (not-false sources_same);
        for_roots = names_roots_sound _ roots (not-false roots_same);
        few_seen = read_workspace_cursor-Limits payload read;
      })
