-- ===== src/Python/Posixpath.antt =====
-- `posixpath.normpath` and its neighbours, on texts without a null character.
pub mod Laws
use yandex_workspace_mcp.Prelude.{
  ℕ, zero, suc, Bool, true, false, ◌||◌, Text, text, List, [], ◌∷◌, ◌++◌, reverse, replicate, ◌==◌,
  if◌then◌else◌, text_eq, starts_with, split, join,
}

abbrev pub slash : ℕ
slash = b'/'

-- `comp in ("", ".")`
unfoldable pub is_skipped : Text → Bool
unfolding text_eq
is_skipped comp = text_eq comp [] || text_eq comp (text ".")

unfoldable pub is_parent : Text → Bool
unfolding text_eq
is_parent comp = text_eq comp (text "..")

-- What `..` does to the components kept so far, the last one first. A rooted path drops a `..` at
-- its root; another keeps it.
unfoldable pub climb : Bool → List Text → List Text
unfolding is_parent
climb true [] = []
climb false [] = text ".." ∷ []
climb rooted (last ∷ kept) = if is_parent last then text ".." ∷ last ∷ kept else kept

-- The loop over the components.
unfoldable pub resolve : Bool → List Text → List Text → List Text
unfolding is_skipped is_parent climb
resolve rooted kept [] = kept
resolve rooted kept (comp ∷ comps) =
    resolve rooted
      (if is_skipped comp then kept else if is_parent comp then climb rooted kept else comp ∷ kept)
      comps

-- Two slashes in front stay two, and three or more are one.
unfoldable pub initial_slashes : Text → ℕ
unfolding starts_with
initial_slashes path =
    if starts_with (text "/") path
    then (if starts_with (text "//") path
        then (if starts_with (text "///") path then 1 else 2)
        else 1)
    else 0

abbrev pub is_rooted : ℕ → Bool
is_rooted zero = false
is_rooted (suc n) = true

abbrev pub or_dot : Text → Text
or_dot [] = text "."
or_dot (c ∷ s) = c ∷ s

unfoldable pub normpath : Text → Text
normpath path = or_dot (
    replicate (initial_slashes path) slash
    ++ join slash (reverse (resolve (is_rooted (initial_slashes path)) [] (split slash path))))

-- What is left of a reversed text from its first slash on.
unfoldable pub from_slash : Text → Text
from_slash [] = []
from_slash (c ∷ s) = if c == slash then c ∷ s else from_slash s

-- lstrip("/")
unfoldable pub strip_slashes : Text → Text
strip_slashes [] = []
strip_slashes (c ∷ s) = if c == slash then strip_slashes s else c ∷ s

-- posixpath.dirname: the slashes at its end go, unless there is nothing else.
unfoldable pub dirname : Text → Text
unfolding from_slash strip_slashes
dirname path =
    let head = from_slash (reverse path) in
    let stripped = strip_slashes head in reverse (if text_eq stripped [] then head else stripped)

-- posixpath.join(a, b)
unfoldable pub join_path : Text → Text → Text
join_path a b =
    if starts_with (text "/") b
    then b
    else (if text_eq a [] || starts_with (text "/") (reverse a) then a ++ b else a ++ slash ∷ b)
