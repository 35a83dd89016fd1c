-- ===== src/Policies/Cursors/Limits.antt =====
-- policies/cursors.py: the limits that the models of the cursors put on what is read.
use yandex_workspace_mcp.Prelude.{
  ℕ, ◌≤◌, ◌≡◌, sym, subst, inl, inr, Text, text, List, Option, none, some, leb, arith, leb→le,
  length, Bool-cases, if◌then◌else◌,
}
use yandex_workspace_mcp.Errors.{Result, ok, err, value_error, >>=-ok, raise_if-ok, ok-injective}
use yandex_workspace_mcp.Models.Wiki.Json.{
  Json, json_none, json_text, json_bool, json_int, json_float, json_list, json_dict, Entries,
}
use yandex_workspace_mcp.Prelude.Int.{pos, negsuc}
use yandex_workspace_mcp.Policies.Cursors.Models.{
  DiskSearchCursor, WorkspaceCursor, field_of, read_number, read_texts, read_text, texts_of,
  at_most, read_version, read_sources, read_disk_cursor, read_workspace_cursor,
}

bounded_if {ℓ} :
    {A : Type ℓ} (n most : ℕ) (a : A) {r : A}
    → (if leb n most then ok a else err value_error) ≡ ok r
    → (n ≤ most) × (a ≡ r)
bounded_if n most a h = elim (Bool-cases (leb n most)) [
  | inl small ↦ (leb→le n most small, ok-injective (rw small at h))
  | inr large ↦ absurd (let e = rw large at h in cc)
]

read_number-le : (most : ℕ) (o : Option Json) {n : ℕ} → read_number most o ≡ ok n → n ≤ most
read_number-le most none h = absurd cc
read_number-le most (some json_none) h = absurd cc
read_number-le most (some (json_text _)) h = absurd cc
read_number-le most (some (json_bool _)) h = absurd cc
read_number-le most (some (json_int (pos n))) h =
    let (small, same) = bounded_if n most n h in rw (sym same) small
read_number-le most (some (json_int (negsuc _))) h = absurd cc
read_number-le most (some (json_float _ _)) h = absurd cc
read_number-le most (some (json_list _)) h = absurd cc
read_number-le most (some (json_dict _)) h = absurd cc

at_most-le :
    (most : ℕ) (r : Result (List Text)) {list : List Text}
    → at_most most r ≡ ok list
    → length list ≤ most
unfolding at_most
at_most-le most (err e) h = absurd cc
at_most-le most (ok l) h = let (small, same) = bounded_if (length l) most l h in rw (sym same) small

read_texts-le :
    (most : ℕ) (o : Option Json) {list : List Text}
    → read_texts most o ≡ ok list
    → length list ≤ most
read_texts-le most none h = rw (← ok-injective h) (omega arith)
read_texts-le most (some json_none) h = absurd cc
read_texts-le most (some (json_text _)) h = absurd cc
read_texts-le most (some (json_bool _)) h = absurd cc
read_texts-le most (some (json_int _)) h = absurd cc
read_texts-le most (some (json_float _ _)) h = absurd cc
read_texts-le most (some (json_list values)) h = at_most-le most (texts_of values) h
read_texts-le most (some (json_dict _)) h = absurd cc

pub read_disk_cursor-Limits :
    (entries : Entries) {state : DiskSearchCursor}
    → read_disk_cursor entries ≡ ok state
    → (state.offset ≤ 10000) × (length state.seen ≤ 100)
unfolding read_disk_cursor
read_disk_cursor-Limits entries h =
    let (_, h1) = raise_if-ok _ _ _ h in
    let (_, _, h2) = >>=-ok (read_version (field_of (text "v") entries)) _ h1 in
    let (_, _, h3) = >>=-ok (read_text (field_of (text "query_hash") entries)) _ h2 in
    let (_, _, h4) = >>=-ok (read_text (field_of (text "principal_hash") entries)) _ h3 in
    let (offset, is_offset, h5) =
      >>=-ok (read_number 10000 (field_of (text "offset") entries)) _ h4 in
    let (seen, are_seen, h6) = >>=-ok (read_texts 100 (field_of (text "seen") entries)) _ h5 in
    subst (λ r. (r.offset ≤ 10000) × (length r.seen ≤ 100)) (ok-injective h6)
      (
        read_number-le 10000 (field_of (text "offset") entries) is_offset,
        read_texts-le 100 (field_of (text "seen") entries) are_seen,
      )

pub read_workspace_cursor-Limits :
    (entries : Entries) {state : WorkspaceCursor}
    → read_workspace_cursor entries ≡ ok state
    → length state.seen ≤ 100
unfolding read_workspace_cursor
read_workspace_cursor-Limits entries h =
    let (_, h1) = raise_if-ok _ _ _ h in
    let (_, _, h2) = >>=-ok (read_version (field_of (text "v") entries)) _ h1 in
    let (_, _, h3) = >>=-ok (read_text (field_of (text "query_hash") entries)) _ h2 in
    let (_, _, h4) = >>=-ok (read_text (field_of (text "principal_hash") entries)) _ h3 in
    let (_, _, h5) = >>=-ok (read_sources (field_of (text "sources") entries)) _ h4 in
    let (seen, are_seen, h6) = >>=-ok (read_texts 100 (field_of (text "seen") entries)) _ h5 in
    subst (λ r. length r.seen ≤ 100) (ok-injective h6)
      (read_texts-le 100 (field_of (text "seen") entries) are_seen)
