-- ===== src/Policies/Paths/Relative.antt =====
-- What becomes of a relative path that climbs with `..`.
use yandex_workspace_mcp.Prelude.{
  ◌≡◌, refl, ap, ◌∙◌, true, false, Text, text, List, [], ◌∷◌, ◌++◌, All, starts_with, remove_prefix,
  split, join, mem_text, reverse,
}
use yandex_workspace_mcp.Errors.{ok}
use yandex_workspace_mcp.Python.Posixpath.{slash, resolve, initial_slashes, normpath}
use yandex_workspace_mcp.Python.Posixpath.Laws.{IsName, rooted, resolve-split, reverse-resolve}
use yandex_workspace_mcp.Policies.Paths.{
  dedup, is_path_allowed, normalized_roots, clean_path, normalize_path, normalize_all,
  validate_path,
}
use yandex_workspace_mcp.Policies.Paths.Ambiguity.{IsDecoded, IsDecoded-reject_ambiguous_input}
use yandex_workspace_mcp.Policies.Paths.Canonical.{
  SlashBoundary, IsStable, IsStable-slash, IsStable-Local, Local-unjoin, clean_path-rooted,
}
use yandex_workspace_mcp.Policies.Paths.Complete.{is_under-rooted}

-- `../` in front of names.
abbrev pub climbing : List Text → Text
climbing names = text ".." ++ (slash ∷ join slash names)

module _ (s : Text) where
  initial_slashes_parent : initial_slashes (text ".." ++ s) ≡ 0
  unfolding initial_slashes starts_with
  initial_slashes_parent = refl

  initial_slashes_rooted_parent : initial_slashes (slash ∷ (text ".." ++ s)) ≡ 1
  unfolding initial_slashes starts_with
  initial_slashes_rooted_parent = refl

  split_parent : split slash (text ".." ++ (slash ∷ s)) ≡ text ".." ∷ split slash s
  unfolding split
  split_parent = refl

  split_rooted_parent :
      split slash (slash ∷ (text ".." ++ (slash ∷ s))) ≡ [] ∷ text ".." ∷ split slash s
  unfolding split
  split_rooted_parent = refl

resolve_parent :
    (l : List Text) → resolve false [] (text ".." ∷ l) ≡ resolve false (text ".." ∷ []) l
unfolding resolve
resolve_parent l = refl

resolve_rooted_parent : (l : List Text) → resolve true [] ([] ∷ text ".." ∷ l) ≡ resolve true [] l
unfolding resolve
resolve_rooted_parent l = refl

module _ (n : Text) (ns : List Text) (h : All IsName (n ∷ ns)) where
  resolve-climbing :
      reverse (resolve false [] (split slash (climbing (n ∷ ns)))) ≡ text ".." ∷ n ∷ ns
  resolve-climbing =
      rw
        (
          split_parent (join slash (n ∷ ns)),
          resolve_parent (split slash (join slash (n ∷ ns))),
          resolve-split false (text ".." ∷ []) (n ∷ ns) h,
        )
        (reverse-resolve false (text ".." ∷ []) (n ∷ ns) h)

  resolve-rooted_climbing :
      reverse (resolve true [] (split slash (slash ∷ climbing (n ∷ ns)))) ≡ n ∷ ns
  resolve-rooted_climbing =
      rw
        (
          split_rooted_parent (join slash (n ∷ ns)),
          resolve_rooted_parent (split slash (join slash (n ∷ ns))),
          resolve-split true [] (n ∷ ns) h,
        )
        (reverse-resolve true [] (n ∷ ns) h)

  -- A relative path keeps the `..` at its start.
  normpath-climbing : normpath (climbing (n ∷ ns)) ≡ climbing (n ∷ ns)
  unfolding normpath
  normpath-climbing =
      rw (initial_slashes_parent (slash ∷ join slash (n ∷ ns)), resolve-climbing)
        (unfold join in refl)

  -- A rooted one drops it.
  normpath-rooted-climbing : normpath (slash ∷ climbing (n ∷ ns)) ≡ rooted (n ∷ ns)
  unfolding normpath
  normpath-rooted-climbing =
      rw (initial_slashes_rooted_parent (slash ∷ join slash (n ∷ ns)), resolve-rooted_climbing)

  clean_path-climbing : clean_path (climbing (n ∷ ns)) ≡ slash ∷ climbing (n ∷ ns)
  unfolding clean_path remove_prefix starts_with
  clean_path-climbing = rw normpath-climbing

  clean_path-rooted-climbing : clean_path (slash ∷ climbing (n ∷ ns)) ≡ rooted (n ∷ ns)
  unfolding clean_path remove_prefix starts_with
  clean_path-rooted-climbing = rw normpath-rooted-climbing

module _ (nfkc : Text → Text) (boundary : SlashBoundary nfkc) where
  normalize_path-slash :
      (s : Text)
      → IsStable nfkc boundary s
      → normalize_path nfkc (slash ∷ s) ≡ ok (clean_path (slash ∷ s))
  unfolding normalize_path
  normalize_path-slash s v =
      let whole =
        (IsStable-slash nfkc boundary [] s).1 ((IsStable-Local nfkc boundary).at_nil, v) in
      rw (
        IsDecoded-reject_ambiguous_input nfkc (slash ∷ s)
          (record { nonempty = λ e. cc; plain = whole.0; normal = whole.1 }))

  normalize_path-climbing :
      (n : Text) (ns : List Text)
      → All IsName (n ∷ ns)
      → IsDecoded nfkc (climbing (n ∷ ns))
      → normalize_path nfkc (climbing (n ∷ ns)) ≡ ok (slash ∷ climbing (n ∷ ns))
  unfolding normalize_path
  normalize_path-climbing n ns h v =
      rw (IsDecoded-reject_ambiguous_input nfkc (climbing (n ∷ ns)) v)
        (ap ok (clean_path-climbing n ns h))

  -- Under the root `/n`, a relative path `../n/...` is accepted, and what is returned and sent
  -- upstream is `/../n/...`: it still holds the `..`, and normalizing it once more gives `/n/...`.
  pub validate_path_keeps_parent :
      (n : Text) (ns : List Text)
      → All IsName (n ∷ ns)
      → IsDecoded nfkc (climbing (n ∷ ns))
      → (validate_path nfkc (climbing (n ∷ ns)) (rooted (n ∷ []) ∷ [])
          ≡ ok (slash ∷ climbing (n ∷ ns)))
        × (normalize_path nfkc (slash ∷ climbing (n ∷ ns)) ≡ ok (rooted (n ∷ ns)))
  unfolding validate_path is_path_allowed normalized_roots normalize_all dedup mem_text clean_path
      join
  validate_path_keeps_parent n ns h v =
      let stable =
        (IsStable-slash nfkc boundary (text "..") (join slash (n ∷ ns))).0 (v.plain, v.normal) in
      let first_name =
        (Local-unjoin (IsStable nfkc boundary) (IsStable-Local nfkc boundary) n ns stable.1).0 in
      let climbed =
        normalize_path-slash (climbing (n ∷ ns)) (v.plain, v.normal)
        ∙ ap ok (clean_path-rooted-climbing n ns h) in
      let root = normalize_path-slash n first_name ∙ ap ok (clean_path-rooted (n ∷ []) (h.0, tt)) in
      (rw (normalize_path-climbing n ns h v, climbed, root, is_under-rooted (n ∷ []) ns), climbed)
