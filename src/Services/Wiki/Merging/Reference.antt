-- ===== src/Services/Wiki/Merging/Reference.antt =====
-- The merging loop against its reference: filter, drop what was met before, take the first few.
use yandex_workspace_mcp.Prelude.{
  ℕ, zero, suc, ◌≤◌, ◌+◌, ◌<◌, ◌≡◌, refl, sym, ◌∙◌, inl, inr, Bool, true, false, Text, List, [],
  ◌∷◌, ◌++◌, length, take, filter_by, any, leb, if◌then◌else◌, Bool-cases, arith, length-append,
}
use mathlib.Core.List.{append_assoc, append-nil}
use yandex_workspace_mcp.Models.Wiki.Pages.{WikiSearchItem}
use yandex_workspace_mcp.Services.Wiki.{WikiService}
use yandex_workspace_mcp.Services.Wiki.Merging.{is_mergeable, same_item, merge_items}

le→leb : (a b : ℕ) → a ≤ b → leb a b ≡ true
le→leb a b h = ground arith

gt→leb : (a b : ℕ) → b < a → leb a b ≡ false
gt→leb a b h = ground arith

-- The items that have the identity of none before them, nor of one in `met`.
abbrev pub firsts : List WikiSearchItem → List WikiSearchItem → List WikiSearchItem
firsts met [] = []
firsts met (item ∷ items) =
    let skipped = firsts met items in
    let kept = item ∷ firsts (met ++ item ∷ []) items in
    if any (same_item item) met then skipped else kept

module _ (nfkc : Text → Text) (s : WikiService) where
  abbrev pub merges : WikiSearchItem → Bool
  merges item = is_mergeable nfkc s item.slug

  -- The loop keeps an item: it returns if that was the last one, and goes on otherwise.
  kept :
      (limit room : ℕ) (item : WikiSearchItem) (merged rest later : List WikiSearchItem)
      → limit ≡ length merged + suc room
      → ((r : ℕ) → room ≡ suc r → later ≡ (merged ++ item ∷ []) ++ take (suc r) rest)
      → (if leb limit (length (merged ++ item ∷ [])) then merged ++ item ∷ [] else later)
        ≡ merged ++ take (suc room) (item ∷ rest)
  kept limit zero item merged rest later e ih =
      rw
        (le→leb limit (length (merged ++ item ∷ []))
          (omega (arith, length-append merged (item ∷ []))))
        refl
  kept limit (suc r) item merged rest later e ih =
      rw
        (gt→leb limit (length (merged ++ item ∷ []))
          (omega (arith, length-append merged (item ∷ []))))
        (ih r refl ∙ append_assoc merged (item ∷ []) (take (suc r) rest))

  merge_items_from :
      (limit room : ℕ) (items merged : List WikiSearchItem)
      → limit ≡ length merged + suc room
      → merge_items nfkc s limit items merged
        ≡ merged ++ take (suc room) (firsts merged (filter_by merges items))
  unfolding merge_items
  merge_items_from limit room [] merged e = sym (append-nil merged)
  merge_items_from limit room (item ∷ items) merged e = elim (Bool-cases (merges item)) [
    | inr out ↦ rw out (merge_items_from limit room items merged e)
    | inl keep ↦ elim (Bool-cases (any (same_item item) merged)) [
      | inl met ↦ rw (keep, met) (merge_items_from limit room items merged e)
      | inr new ↦
          rw (keep, new)
            (kept limit room item merged _ _ e (λ r e1.
              merge_items_from limit r items (merged ++ item ∷ [])
                (omega (arith, length-append merged (item ∷ []), e1))))
    ]
  ]

  -- With a limit of 1 at least, the loop that merges gives what the reference gives: the items whose
  -- slug is authorized, of those that have one identity the first, and of these the first `limit`.
  pub merge_items_lem :
      (limit : ℕ) (items : List WikiSearchItem)
      → 1 ≤ limit
      → merge_items nfkc s limit items [] ≡ take limit (firsts [] (filter_by merges items))
  merge_items_lem zero items h = absurd (omega arith)
  merge_items_lem (suc room) items h = merge_items_from (suc room) room items [] (omega arith)
