-- ===== src/Auth/Stores/SingleUse.antt =====
-- A record that was consumed is gone.
use yandex_workspace_mcp.Prelude.{
  ℕ, ◌≡◌, refl, sym, ap, subst, ◌∙◌, inl, inr, Bool, true, false, Text, List, [], ◌∷◌, none, some,
  if_cases, text_eq, text_eq_refl, mem_text, any, arith, Bool-cases, Option-cases,
}
use yandex_workspace_mcp.Errors.{Result, ok, err, token_store_miss, Result-cases, ok-injective}
use yandex_workspace_mcp.Auth.Records.{Kind, AuthRecord, kind_name}
use yandex_workspace_mcp.Auth.Stores.{
  Crypto, StoredRecord, TokenStore, keys, find_record, pop_record, is_past, lookup_candidates,
  read_record, search_lookups, get_locked, get, consume,
}

abbrev pub Records : Type 0
Records = List (Text × StoredRecord)

abbrev pub present : Text → Records → Bool
present lookup records = any (λ entry. text_eq entry.0 lookup) records

pub find_record-absent :
    (lookup : Text) (records : Records)
    → present lookup records ≡ false
    → find_record lookup records ≡ none
unfolding find_record
find_record-absent lookup [] h = refl
find_record-absent lookup (entry ∷ records) h =
    ground (arith, find_record-absent lookup records (ground arith))

find_record-present :
    (lookup : Text) (records : Records) {raw : StoredRecord}
    → find_record lookup records ≡ some raw
    → present lookup records ≡ true
unfolding find_record
find_record-present lookup [] h = absurd (ground arith)
find_record-present lookup (entry ∷ records) h = elim (Bool-cases (text_eq entry.0 lookup)) [
  | inl here ↦ rw here refl
  | inr other ↦ rw other (find_record-present lookup records (rw (other, find_record) at h))
]

pub present-pop_record :
    (x y : Text) (records : Records)
    → present x (pop_record y records) ≡ true
    → present x records ≡ true
unfolding pop_record
present-pop_record x y [] h = h
present-pop_record x y (entry ∷ records) h = ground (arith, present-pop_record x y records)

pub pop_record-absent : (x : Text) (records : Records) → present x (pop_record x records) ≡ false
unfolding pop_record
pop_record-absent x [] = refl
pop_record-absent x (entry ∷ records) = ground (arith, pop_record-absent x records)

pub first_member : (t : Text) (l : List Text) → mem_text t (t ∷ l) ≡ true
unfolding mem_text
first_member t l = ground (arith, text_eq_refl t)

module _ (crypto : Crypto) where
  -- No two of the keys have a record for one thing.
  abbrev pub Single : List Text → Records → Type 0
  Single secrets records =
      (kind : Kind) (key a b : Text)
      → mem_text a secrets ≡ true
      → mem_text b secrets ≡ true
      → present (crypto.lookup a (kind_name kind) key) records ≡ true
      → present (crypto.lookup b (kind_name kind) key) records ≡ true
      → a ≡ b

  module _ (now : ℕ) (kind : Kind) (key : Text) (s : TokenStore) where
    -- What a run of the loop found, under one of the secrets, is in the store.
    abbrev Finds : List Text → Result (Text × AuthRecord) × TokenStore → Type 0
    Finds secrets run =
        (answer : Text × AuthRecord)
        → run.0 ≡ ok answer
        → (run.1 ≡ s)
          × (a : Text) × (mem_text a secrets ≡ true)
          × (answer.0 ≡ crypto.lookup a (kind_name kind) key)
          × (present answer.0 s.records ≡ true)

    Finds-later :
        (secret : Text) (secrets : List Text) (run : Result (Text × AuthRecord) × TokenStore)
        → Finds secrets run
        → Finds (secret ∷ secrets) run
    unfolding mem_text
    Finds-later secret secrets run h answer e =
        let (same, a, member, at, there) = h answer e in
        (same, a, ground (arith, member), at, there)

    search_lookups-Finds :
        (secrets : List Text)
        → Finds secrets
            (search_lookups crypto now kind key (lookup_candidates crypto secrets kind key) s)
    unfolding search_lookups lookup_candidates
    search_lookups-Finds [] = λ answer h. absurd (ground arith)
    search_lookups-Finds (secret ∷ secrets) =
        let lookup = crypto.lookup secret (kind_name kind) key in
        let later =
          Finds-later secret secrets
            (search_lookups crypto now kind key (lookup_candidates crypto secrets kind key) s)
            (search_lookups-Finds secrets) in
        elim (Option-cases (find_record lookup s.records)) [
          | inl nothing ↦ rw (nothing, search_lookups) later
          | inr (raw, e) ↦ elim (Bool-cases (text_eq raw.kind (kind_name kind))) [
            | inr other ↦ rw (e, other, search_lookups) later
            | inl same_kind ↦ elim (Bool-cases (is_past now raw.expires_at)) [
              | inl past ↦
                  rw (e, same_kind, past, search_lookups) (λ answer h. absurd (ground arith))
              | inr current ↦ elim (Result-cases (read_record crypto s kind key raw)) [
                | inr (x, failed) ↦
                    rw (e, same_kind, current, failed, search_lookups)
                      (λ answer h. absurd (ground arith))
                | inl (r, read) ↦
                    rw (e, same_kind, current, read, search_lookups)
                      (λ answer h.
                        let found : lookup ≡ answer.0 = ap (λ x. x.0) (ok-injective h) in
                        (
                          refl,
                          secret,
                          first_member secret secrets,
                          sym found,
                          subst (λ l. present l s.records ≡ true) found
                              (find_record-present lookup s.records e),
                        ))
              ]
            ]
          ]
        ]

    -- Where none of the secrets has a record, the loop finds none.
    search_lookups-absent :
        (secrets : List Text)
        → ((a : Text)
            → mem_text a secrets ≡ true
            → present (crypto.lookup a (kind_name kind) key) s.records ≡ false)
        → (search_lookups crypto now kind key (lookup_candidates crypto secrets kind key) s).0
          ≡ err token_store_miss
    unfolding search_lookups lookup_candidates mem_text
    search_lookups-absent [] h = refl
    search_lookups-absent (secret ∷ secrets) h =
        let nothing =
          find_record-absent (crypto.lookup secret (kind_name kind) key) s.records
            (h secret (first_member secret secrets)) in
        rw (nothing, search_lookups)
          (search_lookups-absent secrets (λ a m. h a (ground (arith, m))))

    -- None of the keys has a record.
    abbrev Absent : Type 0
    Absent =
        (a : Text)
        → mem_text a (keys s) ≡ true
        → present (crypto.lookup a (kind_name kind) key) s.records ≡ false

    get_locked-absent : Absent → (get_locked crypto now kind key s).0 ≡ err token_store_miss
    unfolding get_locked
    get_locked-absent h =
        if_cases (λ (run : Result (Text × AuthRecord) × TokenStore). run.0 ≡ err token_store_miss)
          s.closed _ _ (λ closed. refl) (λ is_open. search_lookups-absent (keys s) h)

    get-absent :
        Absent
        → ((get crypto now kind key s).0 ≡ err token_store_miss)
          × ((consume crypto now kind key s).0 ≡ err token_store_miss)
    unfolding get consume
    get-absent h = rw (get_locked-absent h, get, consume) (refl, refl)

    get_locked-Finds : Finds (keys s) (get_locked crypto now kind key s)
    unfolding get_locked
    get_locked-Finds =
        if_cases (Finds (keys s)) s.closed _ _ (λ closed answer h. absurd (ground arith))
          (λ is_open. search_lookups-Finds (keys s))

  -- What was consumed cannot be had again: where no two keys of the store have a record for one thing,
  -- after a successful `_consume` a `_get` and a second `_consume` miss, at any later time.
  pub consumed_gone :
      (now later : ℕ) (kind : Kind) (key : Text) (s : TokenStore) {r : AuthRecord}
      → Single (keys s) s.records
      → (consume crypto now kind key s).0 ≡ ok r
      → ((get crypto later kind key (consume crypto now kind key s).1).0 ≡ err token_store_miss)
        × ((consume crypto later kind key (consume crypto now kind key s).1).0
            ≡ err token_store_miss)
  unfolding consume
  consumed_gone now later kind key s single h =
      elim (Result-cases (get_locked crypto now kind key s).0) [
        | inr (x, failed) ↦ absurd (ground (arith, rw (failed, consume) at h))
        | inl (answer, e) ↦
            let (same, a, member, at, there) = get_locked-Finds now kind key s answer e in
            let left : TokenStore = record s { records = pop_record answer.0 s.records } in
            let gone : (consume crypto now kind key s).1 ≡ left = rw (e, same, consume) refl in
            rw gone (
              get-absent later kind key left (λ b m.
                elim (Bool-cases (present (crypto.lookup b (kind_name kind) key) left.records)) [
                  | inr absent ↦ absent
                  | inl still ↦
                      let before =
                        present-pop_record (crypto.lookup b (kind_name kind) key) answer.0 s.records
                          still in
                      let one : a ≡ b =
                        single kind key a b member m
                          (subst (λ l. present l s.records ≡ true) at there) before in
                      let same_lookup : answer.0 ≡ crypto.lookup b (kind_name kind) key =
                        at ∙ ap (λ c. crypto.lookup c (kind_name kind) key) one in
                      let popped =
                        subst (λ l. present l (pop_record answer.0 s.records) ≡ false) same_lookup
                          (pop_record-absent answer.0 s.records) in
                      absurd (ground (arith, still, popped))
                ]))
      ]
