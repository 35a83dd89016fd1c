-- ===== src/Policies/Paths/Within.antt =====
-- What the path policy lets through lies within a configured root, component by component.
use yandex_workspace_mcp.Prelude.{
  ◌≡◌, refl, sym, ap, subst, ◌∙◌, Bool, true, not, inl, inr, Text, text, List, [], ◌∷◌, ◌++◌, arith,
  Bool-cases, any, filter_by, filter_by-append, Some, text_eq, text_eq_sound, starts_with_sound,
  split, mem_text,
}
use yandex_workspace_mcp.Prelude.Split.{split-append}
use yandex_workspace_mcp.Errors.{ok, invalid_path, >>=-ok, raise_if-ok, ok-injective}
use yandex_workspace_mcp.Python.Posixpath.{slash}
use yandex_workspace_mcp.Policies.Paths.{
  dedup, is_under, normalize_path, normalize_all, normalized_roots, is_path_allowed, validate_path,
}
use mathlib.Core.List.{append-nil, append_assoc}

-- The components of a path.
unfoldable pub segments : Text → List Text
unfolding split text_eq
segments path = filter_by (λ w. not (text_eq w [])) (split slash path)

-- The components of `root` are the first ones of `path`.
abbrev pub Under : Text → Text → Type 0
Under root path = (rest : List Text) × (segments path ≡ segments root ++ rest)

segments-append : (s t : Text) → segments (s ++ slash ∷ t) ≡ segments s ++ segments t
unfolding segments
segments-append s t =
    rw (split-append slash s t) (filter_by-append _ (split slash s) (split slash t))

segments-slash : segments (text "/") ≡ []
unfolding segments
segments-slash = refl

-- The test on texts is a test on components: `/Workshop` is not under `/Work`.
pub is_under-Under : (path root : Text) → is_under path root ≡ true → Under root path
unfolding is_under
is_under-Under path root h = elim (Bool-cases (text_eq root (text "/"))) [
  | inl top ↦ (segments path, rw (text_eq_sound root (text "/") top, segments-slash))
  | inr below ↦ elim (Bool-cases (text_eq path root)) [
    | inl same ↦ ([], rw (text_eq_sound path root same) (sym (append-nil (segments root))))
    | inr longer ↦
        let (rest, e) = starts_with_sound (root ++ text "/") path (ground arith) in
        (
          segments rest,
          rw e (ap segments (append_assoc root (text "/") rest) ∙ segments-append root rest),
        )
  ]
]

any-dedup : (p : Text → Bool) (seen l : List Text) → any p (dedup seen l) ≡ true → any p l ≡ true
unfolding dedup
any-dedup p seen [] h = h
any-dedup p seen (t ∷ l) h = elim (Bool-cases (mem_text t seen)) [
  | inl old ↦ ground (arith, any-dedup p seen l)
  | inr new ↦ ground (arith, any-dedup p (t ∷ seen) l)
]

module _ (nfkc : Text → Text) where
  -- Some configured root, in its normal form, passes the test.
  Some-normalize_all :
      (p : Text → Bool) (roots norm_roots : List Text)
      → normalize_all nfkc roots ≡ ok norm_roots
      → any p norm_roots ≡ true
      → Some (λ root. (r : Text) × (normalize_path nfkc root ≡ ok r) × (p r ≡ true)) roots
  unfolding normalize_all
  Some-normalize_all p [] norm_roots h t = ground arith
  Some-normalize_all p (root ∷ roots) norm_roots h t =
      let (r, root_norm, h1) = >>=-ok (normalize_path nfkc root) _ h in
      let (rs, rest_norm, h2) = >>=-ok (normalize_all nfkc roots) _ h1 in
      elim (Bool-cases (p r)) [
        | inl hit ↦ inl (r, root_norm, hit)
        | inr miss ↦ inr (Some-normalize_all p roots rs rest_norm (ground arith))
      ]

  -- What `is_path_allowed` accepts: a path whose normal form is under a root.
  unfoldable pub Within : List Text → Text → Type 0
  Within roots path =
      (norm_path : Text) × (normalize_path nfkc path ≡ ok norm_path)
      × Some (λ root. (r : Text) × (normalize_path nfkc root ≡ ok r) × Under r norm_path) roots

  Some-Under :
      (path : Text) (roots : List Text)
      → Some
          (λ root. (r : Text) × (normalize_path nfkc root ≡ ok r) × (is_under path r ≡ true))
          roots
      → Some (λ root. (r : Text) × (normalize_path nfkc root ≡ ok r) × Under r path) roots
  Some-Under path (root ∷ roots) (inl (r, e, t)) = inl (r, e, is_under-Under path r t)
  Some-Under path (root ∷ roots) (inr s) = inr (Some-Under path roots s)
  Some-Under path [] s = s

  is_path_allowed-Within :
      (path : Text) (roots : List Text)
      → is_path_allowed nfkc path roots ≡ ok true
      → Within roots path
  unfolding is_path_allowed normalized_roots Within
  is_path_allowed-Within path roots h =
      let (norm_path, e1, h1) = >>=-ok (normalize_path nfkc path) _ h in
      let (ds, e2, h2) = >>=-ok (normalized_roots nfkc roots) _ h1 in
      let (rs, e3, h3) = >>=-ok (normalize_all nfkc roots) _ e2 in
      (
        norm_path,
        e1,
        Some-Under norm_path roots (
            Some-normalize_all (is_under norm_path) roots rs e3
              (any-dedup (is_under norm_path) [] rs (ground arith))),
      )

  -- `validate_path` returns the normal form of its argument; and this form, normalized once more as
  -- `is_path_allowed` does, lies within a root: the components of a normalized root are the first
  -- components of it.
  pub validate_path-Within :
      (path : Text) (roots : List Text) {q : Text}
      → validate_path nfkc path roots ≡ ok q
      → (normalize_path nfkc path ≡ ok q) × Within roots q
  unfolding validate_path
  validate_path-Within path roots h =
      let (norm_path, e1, h1) = >>=-ok (normalize_path nfkc path) _ h in
      let (allowed, e2, h2) = >>=-ok (is_path_allowed nfkc norm_path roots) _ h1 in
      let (e3, h3) = raise_if-ok (not allowed) invalid_path (ok norm_path) h2 in
      (
        e1 ∙ h3,
        subst (Within roots) (ok-injective h3)
            (is_path_allowed-Within norm_path roots (ground arith)),
      )
