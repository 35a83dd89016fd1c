-- ===== src/Policies/Paths/Complete.antt =====
-- What the path policy accepts, and what becomes of a relative path that climbs.
use mathlib.Core.List.{append-nil, append_assoc}
use yandex_workspace_mcp.Prelude.{
  ℕ, ◌≡◌, refl, sym, ap, subst, ◌∙◌, ◌⊎◌, Bool, true, inl, inr, Text, text, List, [], ◌∷◌, ◌++◌,
  arith, Bool-cases, any, Some, starts_with, starts_with-append, join, text_eq, text_eq_refl,
  text_eq_sound, mem_text,
}
use yandex_workspace_mcp.Errors.{ok}
use yandex_workspace_mcp.Python.Posixpath.{slash}
use yandex_workspace_mcp.Python.Posixpath.Laws.{rooted}
use yandex_workspace_mcp.Policies.Paths.{
  dedup, is_under, normalize_path, normalize_all, normalized_roots, is_path_allowed, validate_path,
}

pub join-append :
    (c : ℕ) (w : Text) (ws : List Text) (v : Text) (vs : List Text)
    → join c ((w ∷ ws) ++ (v ∷ vs)) ≡ join c (w ∷ ws) ++ (c ∷ join c (v ∷ vs))
unfolding join
join-append c w [] v vs = refl
join-append c w (u ∷ ws) v vs =
    rw (join-append c u ws v vs) (sym (append_assoc w (c ∷ join c (u ∷ ws)) (c ∷ join c (v ∷ vs))))

-- A path that has the components of the root and more is under the root.
pub is_under-rooted :
    (names rest : List Text) → is_under (rooted (names ++ rest)) (rooted names) ≡ true
unfolding is_under
is_under-rooted [] rest = unfold text_eq join in refl
is_under-rooted (n ∷ names) [] =
    rw (append-nil names, text_eq_refl (rooted (n ∷ names))) (ground arith)
is_under-rooted (n ∷ names) (v ∷ vs) =
    let whole : rooted ((n ∷ names) ++ (v ∷ vs))
        ≡ (rooted (n ∷ names) ++ text "/") ++ join slash (v ∷ vs) =
      ap (λ s. slash ∷ s)
        (join-append slash n names v vs
          ∙ sym (append_assoc (join slash (n ∷ names)) (text "/") (join slash (v ∷ vs)))) in
    let begins = starts_with-append (rooted (n ∷ names) ++ text "/") (join slash (v ∷ vs)) in
    let found =
      subst (λ s. starts_with (rooted (n ∷ names) ++ text "/") s ≡ true) (sym whole) begins in
    ground arith

any-mem_text :
    (p : Text → Bool) (t : Text) (l : List Text) → mem_text t l ≡ true → p t ≡ true → any p l ≡ true
unfolding mem_text
any-mem_text p t [] m h = m
any-mem_text p t (s ∷ l) m h = elim (Bool-cases (text_eq t s)) [
  | inl same ↦ rw (sym (text_eq_sound t s same), h)
  | inr other ↦ ground (arith, any-mem_text p t l)
]

any-dedup_complete :
    (p : Text → Bool) (seen l : List Text)
    → any p l ≡ true
    → (any p (dedup seen l) ≡ true) ⊎ (any p seen ≡ true)
unfolding dedup
any-dedup_complete p seen [] h = inl h
any-dedup_complete p seen (t ∷ l) h = elim (Bool-cases (mem_text t seen)) [
  | inl old ↦ rw old (elim (Bool-cases (p t)) [
    | inl hit ↦ inr (any-mem_text p t seen old hit)
    | inr miss ↦ any-dedup_complete p seen l (ground arith)
  ])
  | inr new ↦ rw new (elim (Bool-cases (p t)) [
    | inl hit ↦ inl (ground arith)
    | inr miss ↦ ground (arith, any-dedup_complete p (t ∷ seen) l)
  ])
]

module _ (nfkc : Text → Text) where
  -- A path whose normal form is stable and has the components of a normalized root, and more or
  -- none, is accepted: `validate_path` returns its normal form.
  pub validate_path_complete :
      (path : Text) (roots norm_roots : List Text) (root_names rest : List Text)
      → normalize_path nfkc path ≡ ok (rooted (root_names ++ rest))
      → normalize_path nfkc (rooted (root_names ++ rest)) ≡ ok (rooted (root_names ++ rest))
      → normalize_all nfkc roots ≡ ok norm_roots
      → Some (λ r. r ≡ rooted root_names) norm_roots
      → validate_path nfkc path roots ≡ ok (rooted (root_names ++ rest))
  unfolding validate_path is_path_allowed normalized_roots
  validate_path_complete path roots norm_roots root_names rest e again all_norm m =
      rw (e, again, all_norm, found) refl
    where
      test : Text → Bool
      test = is_under (rooted (root_names ++ rest))

      hits : (l : List Text) → Some (λ r. r ≡ rooted root_names) l → any test l ≡ true
      hits [] s = absurd s
      hits (r ∷ l) (inl same) = rw (same, is_under-rooted root_names rest)
      hits (r ∷ l) (inr s) = ground (arith, hits l s)

      found : any test (dedup [] norm_roots) ≡ true
      found = elim (any-dedup_complete test [] norm_roots (hits norm_roots m)) [
        | inl h ↦ h
        | inr h ↦ cc
      ]
