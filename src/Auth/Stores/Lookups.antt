-- ===== src/Auth/Stores/Lookups.antt =====
-- What `put` adds to the records of a store, and takes from them.
use yandex_workspace_mcp.Prelude.{
  ◌≡◌, refl, sym, ap, subst, ◌∙◌, ◌⊎◌, inl, inr, true, false, ◌||◌, Text, List, [], ◌∷◌, ◌++◌,
  text_eq, text_eq_sound, text_eq_iff, mem_text, arith, Bool-cases,
}
use yandex_workspace_mcp.Auth.Records.{Kind, kind_name}
use yandex_workspace_mcp.Auth.Stores.{Crypto, StoredRecord, pop_record, pop_all, lookup_candidates}
use yandex_workspace_mcp.Auth.Stores.SingleUse.{
  Records, present, present-pop_record, pop_record-absent, Single,
}

present-append : (x : Text) (a b : Records) → present x (a ++ b) ≡ (present x a || present x b)
present-append x [] b = refl
present-append x (entry ∷ a) b = ground (arith, present-append x a b)

pub present-pop_all :
    (x : Text) (lookups : List Text) (records : Records)
    → present x (pop_all lookups records) ≡ true
    → present x records ≡ true
unfolding pop_all
present-pop_all x [] records h = h
present-pop_all x (l ∷ lookups) records h =
    present-pop_record x l records (present-pop_all x lookups (pop_record l records) h)

pub pop_all-absent :
    (x : Text) (lookups : List Text) (records : Records)
    → mem_text x lookups ≡ true
    → present x (pop_all lookups records) ≡ false
unfolding pop_all mem_text
pop_all-absent x [] records h = absurd (ground arith)
pop_all-absent x (l ∷ lookups) records h =
    elim (Bool-cases (present x (pop_all lookups (pop_record l records)))) [
      | inr absent ↦ absent
      | inl still ↦ elim (Bool-cases (text_eq x l)) [
        | inl same ↦
            let before = present-pop_all x lookups (pop_record l records) still in
            let gone =
              subst (λ y. present y (pop_record l records) ≡ false) (sym (text_eq_sound x l same))
                (pop_record-absent l records) in
            absurd (ground (arith, before, gone))
        | inr other ↦ pop_all-absent x lookups (pop_record l records) (ground arith)
      ]
    ]

module _ (crypto : Crypto) where
  -- HMAC has no collisions among the lookups.
  pub record LookupInjective : Type 0 where
    pub same_secret :
        (a b kind kind' key key' : Text)
        → crypto.lookup a kind key ≡ crypto.lookup b kind' key'
        → a ≡ b
    pub same_kind :
        (a b kind kind' key key' : Text)
        → crypto.lookup a kind key ≡ crypto.lookup b kind' key'
        → kind ≡ kind'
    pub same_key :
        (a b kind kind' key key' : Text)
        → crypto.lookup a kind key ≡ crypto.lookup b kind' key'
        → key ≡ key'

  pub mem_lookup :
      (a : Text) (secrets : List Text) (kind : Kind) (key : Text)
      → mem_text a secrets ≡ true
      → mem_text (crypto.lookup a (kind_name kind) key) (lookup_candidates crypto secrets kind key)
        ≡ true
  unfolding mem_text lookup_candidates
  mem_lookup a [] kind key h = absurd (ground arith)
  mem_lookup a (b ∷ secrets) kind key h = elim (Bool-cases (text_eq a b)) [
    | inl same ↦
        let e : crypto.lookup a (kind_name kind) key ≡ crypto.lookup b (kind_name kind) key =
          ap (λ c. crypto.lookup c (kind_name kind) key) (text_eq_sound a b same) in
        let hit =
          (text_eq_iff (crypto.lookup a (kind_name kind) key)
              (crypto.lookup b (kind_name kind) key)).1
            e in
        ground (arith, hit)
    | inr other ↦ ground (arith, mem_lookup a secrets kind key (ground arith))
  ]

  pub Single-fewer :
      (secrets : List Text) (old new : Records)
      → ((x : Text) → present x new ≡ true → present x old ≡ true)
      → Single crypto secrets old
      → Single crypto secrets new
  Single-fewer secrets old new fewer single kind key a b ma mb pa pb =
      single kind key a b ma mb (fewer _ pa) (fewer _ pb)

  module _ (injective : LookupInjective) where
    -- The record that `put` adds, and what is there of another lookup.
    added-cases :
        (secrets : List Text) (kind : Kind) (key first : Text) (raw : StoredRecord)
        (records : Records) (kind' : Kind) (key' a : Text)
        → present (crypto.lookup a (kind_name kind') key') (
            pop_all (lookup_candidates crypto secrets kind key) records
            ++ ((crypto.lookup first (kind_name kind) key, raw) ∷ []))
          ≡ true
        → (present
              (crypto.lookup a (kind_name kind') key')
              (pop_all (lookup_candidates crypto secrets kind key) records)
            ≡ true)
          ⊎ (crypto.lookup first (kind_name kind) key ≡ crypto.lookup a (kind_name kind') key')
    added-cases secrets kind key first raw records kind' key' a h =
        let x = crypto.lookup a (kind_name kind') key' in
        let popped = pop_all (lookup_candidates crypto secrets kind key) records in
        let split =
          present-append x popped ((crypto.lookup first (kind_name kind) key, raw) ∷ []) in
        elim (Bool-cases (present x popped)) [
          | inl there ↦ inl there
          | inr new ↦ inr (
              text_eq_sound (crypto.lookup first (kind_name kind) key) x
                (ground (arith, split, new, h)))
        ]

    -- A lookup of the thing that is put was popped, whatever its key.
    popped-absent :
        (secrets : List Text) (kind kind' : Kind) (key key' first a b : Text) (records : Records)
        → crypto.lookup first (kind_name kind) key ≡ crypto.lookup a (kind_name kind') key'
        → mem_text b secrets ≡ true
        → present
            (crypto.lookup b (kind_name kind') key')
            (pop_all (lookup_candidates crypto secrets kind key) records)
          ≡ false
    popped-absent secrets kind kind' key key' first a b records e member =
        let k = injective.same_kind first a (kind_name kind) (kind_name kind') key key' e in
        let n = injective.same_key first a (kind_name kind) (kind_name kind') key key' e in
        let same : crypto.lookup b (kind_name kind) key ≡ crypto.lookup b (kind_name kind') key' =
          ap (λ t. crypto.lookup b t key) k ∙ ap (crypto.lookup b (kind_name kind')) n in
        subst (λ x. present x (pop_all (lookup_candidates crypto secrets kind key) records) ≡ false)
          same
          (pop_all-absent (crypto.lookup b (kind_name kind) key)
            (lookup_candidates crypto secrets kind key) records
            (mem_lookup b secrets kind key member))

    pub Single-added :
        (secrets : List Text) (kind : Kind) (key first : Text) (raw : StoredRecord)
        (records : Records)
        → Single crypto secrets records
        → Single crypto secrets (
            pop_all (lookup_candidates crypto secrets kind key) records
            ++ ((crypto.lookup first (kind_name kind) key, raw) ∷ []))
    Single-added secrets kind key first raw records single kind' key' a b ma mb pa pb =
        let cands = lookup_candidates crypto secrets kind key in
        elim (added-cases secrets kind key first raw records kind' key' a pa) [
          | inl old_a ↦ elim (added-cases secrets kind key first raw records kind' key' b pb) [
            | inl old_b ↦
                single kind' key' a b ma mb
                  (present-pop_all (crypto.lookup a (kind_name kind') key') cands records old_a)
                  (present-pop_all (crypto.lookup b (kind_name kind') key') cands records old_b)
            | inr new_b ↦
                let gone = popped-absent secrets kind kind' key key' first b a records new_b ma in
                absurd (ground (arith, old_a, gone))
          ]
          | inr new_a ↦ elim (added-cases secrets kind key first raw records kind' key' b pb) [
            | inl old_b ↦
                let gone = popped-absent secrets kind kind' key key' first a b records new_a mb in
                absurd (ground (arith, old_b, gone))
            | inr new_b ↦
                injective.same_secret a b (kind_name kind') (kind_name kind') key' key'
                  (sym new_a ∙ new_b)
          ]
        ]
