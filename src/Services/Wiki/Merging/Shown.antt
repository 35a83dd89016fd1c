-- ===== src/Services/Wiki/Merging/Shown.antt =====
-- What the merged results are: within the roots, and no more than the limit.
use yandex_workspace_mcp.Prelude.{
  ℕ, zero, suc, ◌≤◌, ◌≡◌, refl, sym, subst, inl, inr, Bool, true, Text, text, List, [], ◌∷◌, ◌++◌,
  Option, none, some, All, length, take, filter_by, any, if_cases, arith, length-take,
}
use yandex_workspace_mcp.Errors.{ok, Result-cases}
use yandex_workspace_mcp.Policies.Paths.{normalize_path, validate_path}
use yandex_workspace_mcp.Policies.Paths.Within.{Within, validate_path-Within}
use yandex_workspace_mcp.Models.Wiki.Pages.{WikiSearchItem}
use yandex_workspace_mcp.Services.Wiki.{WikiService}
use yandex_workspace_mcp.Services.Wiki.Merging.{
  strip, is_authorized_slug, is_mergeable, same_item, merge_items,
}
use yandex_workspace_mcp.Services.Wiki.Merging.Reference.{firsts, merges, merge_items_lem}

module _ {A : Type 0} (P : A → Type 0) where
  pub All-take : (n : ℕ) (xs : List A) → All P xs → All P (take n xs)
  All-take zero xs h = tt
  All-take (suc n) [] h = tt
  All-take (suc n) (x ∷ xs) h = (h.0, All-take n xs h.1)

  pub All-filtered :
      (p : A → Bool) (xs : List A) → ((x : A) → p x ≡ true → P x) → All P (filter_by p xs)
  All-filtered p [] h = tt
  All-filtered p (x ∷ xs) h =
      if_cases (All P) (p x) _ _ (λ e. (h x e, All-filtered p xs h)) (λ e. All-filtered p xs h)

All-firsts :
    (P : WikiSearchItem → Type 0) (met items : List WikiSearchItem)
    → All P items
    → All P (firsts met items)
All-firsts P met [] h = tt
All-firsts P met (item ∷ items) h =
    if_cases (All P) (any (same_item item) met) _ _ (λ e. All-firsts P met items h.1)
      (λ e. (h.0, All-firsts P (met ++ item ∷ []) items h.1))

module _ (nfkc : Text → Text) (s : WikiService) where
  -- A slug whose path, with one slash before it and none after it, lies within the roots.
  abbrev pub SlugShown : Text → Type 0
  SlugShown slug =
      (path : Text) × (normalize_path nfkc (text "/" ++ strip slug) ≡ ok path)
      × Within nfkc s.allowed_roots path

  abbrev pub Shown : WikiSearchItem → Type 0
  Shown item = (slug : Text) × (item.slug ≡ some slug) × SlugShown slug

  pub is_authorized_slug-SlugShown :
      (slug : Text) → is_authorized_slug nfkc s slug ≡ true → SlugShown slug
  unfolding is_authorized_slug
  is_authorized_slug-SlugShown slug h =
      elim (Result-cases (validate_path nfkc (text "/" ++ strip slug) s.allowed_roots)) [
        | inl (path, e) ↦
            let (normal, inside) =
              validate_path-Within nfkc (text "/" ++ strip slug) s.allowed_roots e in
            (path, normal, inside)
        | inr (e, failed) ↦ absurd (ground arith)
      ]

  mergeable :
      (given : Option Text)
      → is_mergeable nfkc s given ≡ true
      → (slug : Text) × (given ≡ some slug) × SlugShown slug
  mergeable none h = absurd (ground arith)
  mergeable (some slug) h = (slug, refl, is_authorized_slug-SlugShown slug (ground arith))

  pub merge_items-Shown :
      (limit : ℕ) (items : List WikiSearchItem)
      → 1 ≤ limit
      → All Shown (merge_items nfkc s limit items [])
        × (length (merge_items nfkc s limit items []) ≤ limit)
  merge_items-Shown limit items h =
      let reference = firsts [] (filter_by (merges nfkc s) items) in
      let same = merge_items_lem nfkc s limit items h in
      (
        subst (All Shown) (sym same) (
            All-take Shown limit reference (
              All-firsts Shown [] (filter_by (merges nfkc s) items)
                (All-filtered Shown (merges nfkc s) items (λ item e. mergeable item.slug e)))),
        subst (λ (l : List WikiSearchItem). length l ≤ limit) (sym same)
            (omega (arith, length-take limit reference)),
      )
