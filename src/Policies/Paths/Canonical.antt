-- ===== src/Policies/Paths/Canonical.antt =====
-- The normal form of an absolute path, and what becomes of a relative one.
use yandex_workspace_mcp.Prelude.{
  ◌≡◌, refl, sym, ap, subst, ◌∙◌, ◌↔◌, Bool, true, ◌&&◌, inl, inr, Text, text, List, [], ◌∷◌, ◌++◌,
  arith, Bool-cases, all, All, All-reverse, starts_with, starts_with_sound, remove_prefix, split,
  join, text_eq_sound, remove_prefix-append,
}
use yandex_workspace_mcp.Prelude.Split.{join-split}
use yandex_workspace_mcp.Errors.{ok}
use yandex_workspace_mcp.Python.Posixpath.{
  slash, is_skipped, is_parent, climb, resolve, initial_slashes, normpath,
}
use yandex_workspace_mcp.Python.Posixpath.Laws.{IsName, rooted, normpath-rooted, normpath-IsName}
use yandex_workspace_mcp.Policies.Paths.{reject_ambiguous_input, clean_path, normalize_path}
use yandex_workspace_mcp.Policies.Paths.Decoding.{is_plain}
use yandex_workspace_mcp.Policies.Paths.Ambiguity.{
  reject_ambiguous_input-IsDecoded, IsDecoded-reject_ambiguous_input,
}

-- A slash and names with single slashes between them; no name is empty, `.` or `..`.
abbrev pub IsCanonical : Text → Type 0
IsCanonical path = (names : List Text) × All IsName names × (path ≡ rooted names)

-- After a prefix `disk:`, the text starts with one slash, or with three or more.
abbrev pub IsAbsolute : Text → Type 0
IsAbsolute decoded = initial_slashes (remove_prefix (text "disk:") decoded) ≡ 1

pub clean_path-IsCanonical :
    (decoded : Text) → IsAbsolute decoded → IsCanonical (clean_path decoded)
unfolding clean_path starts_with
clean_path-IsCanonical decoded h =
    let (names, named, e) = normpath-IsName (remove_prefix (text "disk:") decoded) h in
    (names, named, rw e)

pub clean_path-rooted :
    (names : List Text) → All IsName names → clean_path (rooted names) ≡ rooted names
unfolding clean_path starts_with remove_prefix
clean_path-rooted names h = rw (normpath-rooted names h)

IsAbsolute-slash : (path : Text) → initial_slashes path ≡ 1 → (t : Text) × (path ≡ slash ∷ t)
unfolding initial_slashes
IsAbsolute-slash path h = elim (Bool-cases (starts_with (text "/") path)) [
  | inl slashed ↦ starts_with_sound (text "/") path slashed
  | inr bare ↦ absurd (ground arith)
]

-- What holds of a text with a slash exactly when it holds on both sides of the slash.
pub record Local (P : Text → Type 0) : Type 0 where
  pub at_nil : P []
  pub at_slash : (s t : Text) → P (s ++ slash ∷ t) ↔ (P s × P t)

module _ (P : Text → Type 0) (local : Local P) where
  pub Local-unjoin : (w : Text) (ws : List Text) → P (join slash (w ∷ ws)) → All P (w ∷ ws)
  unfolding join
  Local-unjoin w [] h = (h, tt)
  Local-unjoin w (v ∷ ws) h =
      let (here, rest) = (local.at_slash w (join slash (v ∷ ws))).0 h in
      (here, Local-unjoin v ws rest)

  pub Local-join : (ws : List Text) → All P ws → P (join slash ws)
  unfolding join
  Local-join [] h = local.at_nil
  Local-join (w ∷ []) h = h.0
  Local-join (w ∷ (v ∷ ws)) h =
      (local.at_slash w (join slash (v ∷ ws))).1 (h.0, Local-join (v ∷ ws) h.1)

  Local-split : (s : Text) → P s → All P (split slash s)
  Local-split s h = unjoin (split slash s) (subst P (sym (join-split slash s)) h)
    where
      unjoin : (ws : List Text) → P (join slash ws) → All P ws
      unjoin [] k = tt
      unjoin (w ∷ ws) k = Local-unjoin w ws k

  Local-resolve :
      (kept comps : List Text) → All P kept → All P comps → All P (resolve true kept comps)
  unfolding resolve
  Local-resolve kept [] h k = h
  Local-resolve kept (comp ∷ comps) h k = elim (Bool-cases (is_skipped comp)) [
    | inl skip ↦ rw skip (Local-resolve kept comps h k.1)
    | inr keep ↦ elim (Bool-cases (is_parent comp)) [
      | inl up ↦ rw (keep, up) (Local-resolve (climb true kept) comps (Local-climb kept h) k.1)
      | inr name ↦ rw (keep, name) (Local-resolve (comp ∷ kept) comps (k.0, h) k.1)
    ]
  ]
    where
      Local-climb : (l : List Text) → All P l → All P (climb true l)
      Local-climb [] a = tt
      Local-climb (w ∷ l) a = elim (Bool-cases (is_parent w)) [
        | inl up ↦ rw up (subst P (text_eq_sound w (text "..") up) a.0, a)
        | inr name ↦ rw name a.1
      ]

  -- The normal form of a rooted path keeps it.
  Local-normpath : (path : Text) → initial_slashes path ≡ 1 → P path → P (normpath path)
  unfolding normpath
  Local-normpath path h p = rw h (
      (local.at_slash [] _).1 (
        local.at_nil,
        Local-join _
            (All-reverse P _ (Local-resolve [] (split slash path) tt (Local-split path p))),
      ))

all-append {ℓ} : {A : Type ℓ} (p : A → Bool) (s t : List A) → all p (s ++ t) ≡ (all p s && all p t)
all-append p [] t = refl
all-append p (c ∷ s) t = ground (arith, all-append p s t)

-- A slash is a boundary of normalization: it combines with nothing on either side.
pub record SlashBoundary (nfkc : Text → Text) : Type 0 where
  pub at_nil : nfkc [] ≡ []
  pub at_slash :
      (s t : Text) → (nfkc (s ++ slash ∷ t) ≡ s ++ slash ∷ t) ↔ ((nfkc s ≡ s) × (nfkc t ≡ t))

module _ (nfkc : Text → Text) (boundary : SlashBoundary nfkc) where
  abbrev pub IsStable : Text → Type 0
  IsStable s = (all is_plain s ≡ true) × (nfkc s ≡ s)

  pub IsStable-slash : (s t : Text) → IsStable (s ++ slash ∷ t) ↔ (IsStable s × IsStable t)
  IsStable-slash s t = (apart, together)
    where
      apart : IsStable (s ++ slash ∷ t) → IsStable s × IsStable t
      apart (plain, normal) =
          let (left, right) = (boundary.at_slash s t).0 normal in
          (
            (unfold is_plain in ground (arith, all-append is_plain s (slash ∷ t)), left),
            (unfold is_plain in ground (arith, all-append is_plain s (slash ∷ t)), right),
          )

      together : IsStable s × IsStable t → IsStable (s ++ slash ∷ t)
      together (a, b) = (
        unfold is_plain in ground (arith, all-append is_plain s (slash ∷ t)),
        (boundary.at_slash s t).1 (a.1, b.1),
      )

  pub IsStable-Local : Local IsStable
  IsStable-Local = record { at_nil = (refl, boundary.at_nil); at_slash = IsStable-slash }

  -- The prefix `disk:` ends before a slash.
  IsStable-remove_prefix :
      (decoded : Text)
      → IsAbsolute decoded
      → IsStable decoded
      → IsStable (remove_prefix (text "disk:") decoded)
  unfolding remove_prefix
  IsStable-remove_prefix decoded h v = elim (Bool-cases (starts_with (text "disk:") decoded)) [
    | inl prefixed ↦
        let (r, e) = starts_with_sound (text "disk:") decoded prefixed in
        let cut : remove_prefix (text "disk:") decoded ≡ r =
          ap (remove_prefix (text "disk:")) e ∙ remove_prefix-append (text "disk:") r in
        let (t, e') = IsAbsolute-slash r (ap initial_slashes (sym cut) ∙ h) in
        let whole = subst IsStable (e ∙ ap (λ s. text "disk:" ++ s) e') v in
        let after_slash = (IsStable-slash (text "disk:") t).0 whole in
        subst IsStable (sym (cut ∙ e'))
          ((IsStable-slash [] t).1 ((refl, boundary.at_nil), after_slash.1))
    | inr bare ↦ rw (bare, remove_prefix) v
  ]

  clean_path-IsStable :
      (decoded : Text) → IsAbsolute decoded → IsStable decoded → IsStable (clean_path decoded)
  unfolding clean_path starts_with
  clean_path-IsStable decoded h v =
      let (names, named, e) = normpath-IsName (remove_prefix (text "disk:") decoded) h in
      let stable =
        Local-normpath IsStable IsStable-Local _ h (IsStable-remove_prefix decoded h v) in
      rw e (subst IsStable e stable)

  -- Where a slash is a boundary of Unicode normalization: if a path is accepted and, decoded and
  -- without a prefix `disk:`, starts with one slash or with three or more (two stay two), then its
  -- normal form is canonical, a slash and names with single slashes between them, none of them empty,
  -- `.` or `..`; and normalizing it again changes nothing.
  pub normalize_path_idem :
      (path : Text) {decoded : Text}
      → reject_ambiguous_input nfkc path ≡ ok decoded
      → IsAbsolute decoded
      → (q : Text) × (normalize_path nfkc path ≡ ok q)
        × IsCanonical q
        × (normalize_path nfkc q ≡ ok q)
  unfolding normalize_path
  normalize_path_idem path {decoded} e h =
      let v = reject_ambiguous_input-IsDecoded nfkc path e in
      let (names, named, f) = clean_path-IsCanonical decoded h in
      let stable = subst IsStable f (clean_path-IsStable decoded h (v.plain, v.normal)) in
      let again =
        IsDecoded-reject_ambiguous_input nfkc (rooted names)
          (record { nonempty = λ p. cc; plain = stable.0; normal = stable.1 }) in
      (
        rooted names,
        rw e (ap ok f),
        (names, named, refl),
        rw again (ap ok (clean_path-rooted names named)),
      )
