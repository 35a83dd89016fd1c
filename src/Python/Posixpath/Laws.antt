-- ===== src/Python/Posixpath/Laws.antt =====
-- What `normpath` does to rooted paths and to paths that start with `..`.
use mathlib.Core.List.{reverse-reverse, reverse-append, reverse-cons, append_assoc}
use yandex_workspace_mcp.Prelude.{
  ◌≡◌, refl, sym, ◌∙◌, ap, Bool, true, false, inl, inr, Text, text, List, [], ◌∷◌, ◌++◌, reverse,
  arith, Bool-cases, All, All-reverse, has_char, starts_with, split, join,
}
use yandex_workspace_mcp.Prelude.Split.{split-All-no, split-join}
use yandex_workspace_mcp.Python.Posixpath.{
  slash, is_skipped, is_parent, climb, resolve, initial_slashes, normpath,
}

-- A component that names an entry: not empty, neither `.` nor `..`, and without a slash.
abbrev pub IsName : Text → Type 0
IsName c = (is_skipped c ≡ false) × (is_parent c ≡ false) × (has_char slash c ≡ false)

abbrev pub rooted : List Text → Text
rooted names = slash ∷ join slash names

climb-IsName : (kept : List Text) → All IsName kept → All IsName (climb true kept)
unfolding climb
climb-IsName [] h = tt
climb-IsName (last ∷ kept) h = rw (h.0.1) h.1

resolve-IsName :
    (kept comps : List Text)
    → All IsName kept
    → All (λ w. has_char slash w ≡ false) comps
    → All IsName (resolve true kept comps)
unfolding resolve
resolve-IsName kept [] h no_slash = h
resolve-IsName kept (comp ∷ comps) h no_slash = elim (Bool-cases (is_skipped comp)) [
  | inl skip ↦ rw skip (resolve-IsName kept comps h no_slash.1)
  | inr keep ↦ elim (Bool-cases (is_parent comp)) [
    | inl up ↦
        rw (keep, up) (resolve-IsName (climb true kept) comps (climb-IsName kept h) no_slash.1)
    | inr name ↦
        rw (keep, name)
          (resolve-IsName (comp ∷ kept) comps ((keep, name, no_slash.0), h) no_slash.1)
  ]
]

resolve_names :
    (r : Bool) (kept comps : List Text)
    → All IsName comps
    → resolve r kept comps ≡ reverse comps ++ kept
unfolding resolve
resolve_names r kept [] h = refl
resolve_names r kept (comp ∷ comps) h =
    rw (h.0.0, h.0.1)
      (resolve_names r (comp ∷ kept) comps h.1
        ∙ sym (append_assoc (reverse comps) (comp ∷ []) kept)
        ∙ ap (λ l. l ++ kept) (sym (reverse-cons comp comps)))

-- The loop gives names back as they were, in the order of the path.
pub reverse-resolve :
    (r : Bool) (kept names : List Text)
    → All IsName names
    → reverse (resolve r kept names) ≡ reverse kept ++ names
reverse-resolve r kept names h =
    ap reverse (resolve_names r kept names h)
    ∙ reverse-append (reverse names) kept
    ∙ ap (λ l. reverse kept ++ l) (reverse-reverse names)

pub IsName-no_slash :
    (names : List Text) → All IsName names → All (λ w. has_char slash w ≡ false) names
IsName-no_slash [] h = tt
IsName-no_slash (c ∷ names) h = (h.0.2, IsName-no_slash names h.1)

-- A text that joins names does not start with a slash.
join-no_slash :
    (names : List Text) → All IsName names → starts_with (text "/") (join slash names) ≡ false
unfolding starts_with join has_char is_skipped
join-no_slash [] h = refl
join-no_slash ([] ∷ names) h = cc (h.0.0)
join-no_slash ((a ∷ w) ∷ []) h = ground (arith, h.0.2)
join-no_slash ((a ∷ w) ∷ v ∷ names) h = ground (arith, h.0.2)

initial_slashes-rooted : (names : List Text) → All IsName names → initial_slashes (rooted names) ≡ 1
unfolding initial_slashes starts_with
initial_slashes-rooted names h = rw (join-no_slash names h)

-- The pieces of the joined names are the names, but for the empty piece of the empty text.
pub resolve-split :
    (r : Bool) (kept names : List Text)
    → All IsName names
    → resolve r kept (split slash (join slash names)) ≡ resolve r kept names
unfolding resolve is_skipped split join
resolve-split r kept [] h = refl
resolve-split r kept (c ∷ names) h = rw (split-join slash c names (IsName-no_slash (c ∷ names) h))

-- A rooted path of names is its own normal form.
pub normpath-rooted :
    (names : List Text) → All IsName names → normpath (rooted names) ≡ rooted names
unfolding normpath is_skipped join resolve split
normpath-rooted names h =
    rw (
      initial_slashes-rooted names h,
      resolve-split true [] names h,
      reverse-resolve true [] names h,
    )

-- What starts with one slash, or with three or more, becomes a rooted path of names.
pub normpath-IsName :
    (path : Text)
    → initial_slashes path ≡ 1
    → (names : List Text) × All IsName names × (normpath path ≡ rooted names)
unfolding normpath
normpath-IsName path h =
    let names = reverse (resolve true [] (split slash path)) in
    let named =
      All-reverse IsName (resolve true [] (split slash path))
        (resolve-IsName [] (split slash path) tt (split-All-no slash path)) in
    (names, named, rw h)
