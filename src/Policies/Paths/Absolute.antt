-- ===== src/Policies/Paths/Absolute.antt =====
-- policies/paths.py: what `validate_path` returns for an absolute path.
use yandex_workspace_mcp.Prelude.{◌≡◌, sym, subst, ◌∙◌, Text, List, Some}
use yandex_workspace_mcp.Errors.{ok, ok-injective}
use yandex_workspace_mcp.Policies.Paths.{reject_ambiguous_input, normalize_path, validate_path}
use yandex_workspace_mcp.Policies.Paths.Within.{Under, Within, validate_path-Within}
use yandex_workspace_mcp.Policies.Paths.Canonical.{
  IsCanonical, IsAbsolute, SlashBoundary, normalize_path_idem,
}

module _ (nfkc : Text → Text) (boundary : SlashBoundary nfkc) where
  -- Where a slash is a boundary of Unicode normalization: if a path, decoded and without a prefix
  -- `disk:`, starts with one slash or with three or more and `validate_path` returns, then what it
  -- returns is canonical, so it has no component `..`, and it lies itself within a root: the
  -- components of a normalized root are the first components of it.
  pub validate_path_absolute :
      (path : Text) (roots : List Text) {decoded q : Text}
      → reject_ambiguous_input nfkc path ≡ ok decoded
      → IsAbsolute decoded
      → validate_path nfkc path roots ≡ ok q
      → IsCanonical q
        × Some (λ root. (r : Text) × (normalize_path nfkc root ≡ ok r) × Under r q) roots
  unfolding Within
  validate_path_absolute path roots {decoded} {q} e absolute h =
      let (normal, within) = validate_path-Within nfkc path roots h in
      let (norm_path, again, inside) = within in
      let (q', normal', canonical, stable) = normalize_path_idem nfkc boundary path e absolute in
      let same : q' ≡ q = ok-injective (sym normal' ∙ normal) in
      let form : norm_path ≡ q =
        ok-injective (sym again ∙ subst (λ t. normalize_path nfkc t ≡ ok t) same stable) in
      (
        subst IsCanonical same canonical,
        subst (λ t. Some (λ root. (r : Text) × (normalize_path nfkc root ≡ ok r) × Under r t) roots)
            form inside,
      )
