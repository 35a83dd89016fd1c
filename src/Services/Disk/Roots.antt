-- ===== src/Services/Disk/Roots.antt =====
-- The guard of `DiskService.delete` that keeps the allowed roots.
use yandex_workspace_mcp.Prelude.{
  ◌≡◌, refl, ap, true, false, Text, List, [], ◌∷◌, arith, mem_text, text_eq, text_eq_sound, join,
  length, inl, inr, Bool-cases,
}
use yandex_workspace_mcp.Python.Posixpath.{slash}
use yandex_workspace_mcp.Python.Posixpath.Laws.{IsName, rooted}
use yandex_workspace_mcp.Policies.Paths.Canonical.{SlashBoundary}
use yandex_workspace_mcp.Policies.Paths.Ambiguity.{IsDecoded}
use yandex_workspace_mcp.Policies.Paths.Relative.{climbing, validate_path_keeps_parent}
use yandex_workspace_mcp.Services.Disk.{
  Request, DiskClient, DiskService, client_delete_resource, authorize_disk_path,
}
use yandex_workspace_mcp.Services.Disk.Writes.{delete}

-- `.."/"n` is longer than the root it stands for.
climbed_is_no_root :
    (n : Text) → mem_text (slash ∷ climbing (n ∷ [])) (rooted (n ∷ []) ∷ []) ≡ false
unfolding mem_text join
climbed_is_no_root n = elim (Bool-cases (text_eq (slash ∷ climbing (n ∷ [])) (rooted (n ∷ [])))) [
  | inl same ↦
      let longer = ap length (text_eq_sound (slash ∷ climbing (n ∷ [])) (rooted (n ∷ [])) same) in
      absurd (omega (arith, longer))
  | inr other ↦ rw other refl
]

module _ (nfkc : Text → Text) (boundary : SlashBoundary nfkc) (client : DiskClient)
    (s : DiskService) where
  -- A service with one root `/n` deletes it for good when it is asked to delete `../n`: the guard
  -- compares `/../n` with the root and lets the request pass.
  pub delete_root :
      (n : Text) (sent : List Request)
      → IsName n
      → IsDecoded nfkc (climbing (n ∷ []))
      → s.can_delete ≡ true
      → s.allowed_roots ≡ rooted (n ∷ []) ∷ []
      → (delete nfkc client s (climbing (n ∷ [])) true sent).1
        ≡ client_delete_resource (slash ∷ climbing (n ∷ [])) true ∷ sent
  unfolding delete authorize_disk_path
  delete_root n sent named decoded on roots =
      let (accepted, same) = validate_path_keeps_parent nfkc boundary n [] (named, tt) decoded in
      rw (on, roots, accepted, climbed_is_no_root n) refl
