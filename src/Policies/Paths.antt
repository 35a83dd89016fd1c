-- ===== src/Policies/Paths.antt =====
-- src/yandex_workspace_mcp/policies/paths.py. `nfkc` stands for `unicodedata.normalize("NFKC", ◌)`,
-- whose tables are not modelled.
mod Tests
pub mod Within
pub mod Relative
pub mod Absolute
pub mod Complete
pub mod Canonical
pub mod Ambiguity
pub mod Decoding
use yandex_workspace_mcp.Prelude.{
  ℕ, ◌+◌, Bool, not, ◌||◌, Text, text, List, [], ◌∷◌, ◌++◌, Option, none, some, ltb, ◌==◌,
  if◌then◌else◌, any, length, text_eq, starts_with, remove_prefix, has_char, mem_text, split, join,
}
use yandex_workspace_mcp.Errors.{Result, ok, err, invalid_path, ◌>>=◌, ◌>>◌, raise_if}
use yandex_workspace_mcp.Python.Posixpath.{slash, normpath, initial_slashes, resolve}
use yandex_workspace_mcp.Python.Unquote.{is_escape, escape_byte, unquote}

-- `ord(character) < 32 or ord(character) == 127`
unfoldable pub is_control : ℕ → Bool
is_control c = ltb c 32 || c == 127

-- `_PERCENT_ESCAPE.findall(path)`, each match as its byte.
unfoldable pub escapes : Text → List ℕ
unfolding is_escape escape_byte
escapes [] = []
escapes (c ∷ []) = []
escapes (c ∷ h ∷ []) = []
escapes (c ∷ h ∷ l ∷ s) =
    let found = escape_byte h l ∷ escapes s in
    let missed = escapes (h ∷ l ∷ s) in if is_escape c h l then found else missed

-- `path.count(character)`
unfoldable pub count_char : ℕ → Text → ℕ
count_char c [] = 0
count_char c (a ∷ s) = (if a == c then 1 else 0) + count_char c s

-- `byte in _STRUCTURAL_BYTES`
unfoldable pub is_structural : ℕ → Bool
unfolding has_char
is_structural byte = has_char byte (text "%./\\")

unfoldable pub is_forbidden : ℕ → Bool
unfolding is_structural is_control
is_forbidden byte = is_structural byte || is_control byte

abbrev decoded_or_fail : Option Text → Result Text
decoded_or_fail none = err invalid_path
decoded_or_fail (some s) = ok s

-- What `normalize_path` does with the decoded text; nothing can fail from there on.
unfoldable pub clean_path : Text → Text
clean_path decoded =
    let clean = normpath (remove_prefix (text "disk:") decoded) in
    if starts_with (text "/") clean then clean else slash ∷ clean

-- `dict.fromkeys(roots)`: the first of equal texts stays, in order.
unfoldable pub dedup : List Text → List Text → List Text
dedup seen [] = []
dedup seen (t ∷ l) =
    let rest = dedup (t ∷ seen) l in
    let repeated = dedup seen l in if mem_text t seen then repeated else t ∷ rest

-- `norm_path == norm_root or norm_path.startswith(f"{norm_root}/")`, and the root `/`.
unfoldable pub is_under : Text → Text → Bool
is_under norm_path norm_root =
    text_eq norm_root (text "/")
    || (text_eq norm_path norm_root || starts_with (norm_root ++ text "/") norm_path)

module _ (nfkc : Text → Text) where
  unfoldable pub reject_ambiguous_input : Text → Result Text
  reject_ambiguous_input path = do
    raise_if (text_eq path []) invalid_path
    raise_if (any is_control path) invalid_path
    raise_if (has_char b'\\' path) invalid_path
    raise_if (not (count_char b'%' path == length (escapes path))) invalid_path
    raise_if (any is_forbidden (escapes path)) invalid_path
    decoded ← decoded_or_fail (unquote path)
    raise_if (not (text_eq (nfkc decoded) decoded)) invalid_path
    ok decoded

  unfoldable pub normalize_path : Text → Result Text
  normalize_path path = do decoded ← reject_ambiguous_input path; ok (clean_path decoded)

  unfoldable pub normalize_all : List Text → Result (List Text)
  normalize_all [] = ok []
  normalize_all (root ∷ roots) = do
    norm_root ← normalize_path root
    rest ← normalize_all roots
    ok (norm_root ∷ rest)

  unfoldable pub normalized_roots : List Text → Result (List Text)
  normalized_roots allowed_roots = do roots ← normalize_all allowed_roots; ok (dedup [] roots)

  unfoldable pub is_path_allowed : Text → List Text → Result Bool
  is_path_allowed path allowed_roots = do
    norm_path ← normalize_path path
    roots ← normalized_roots allowed_roots
    ok (any (is_under norm_path) roots)

  unfoldable pub validate_path : Text → List Text → Result Text
  validate_path path allowed_roots = do
    norm_path ← normalize_path path
    allowed ← is_path_allowed norm_path allowed_roots
    raise_if (not allowed) invalid_path
    ok norm_path

  -- `slug.removeprefix("/")` of a slug that starts with no slash is the slug.
  unfoldable pub validate_wiki_slug : Text → List Text → Result Text
  validate_wiki_slug slug allowed_roots = do
    normalized ←
        validate_path
          (if starts_with (text "/") slug then slug else slash ∷ remove_prefix (text "/") slug)
          allowed_roots
    ok (remove_prefix (text "/") normalized)

-- Its line lists what a run of the functions above computes with.
unfoldable pub runs : Unit {0}
unfolding is_control escapes count_char is_forbidden unquote text_eq has_char starts_with
    remove_prefix mem_text normpath initial_slashes resolve split join reject_ambiguous_input
    clean_path normalize_path normalize_all dedup normalized_roots is_under is_path_allowed
    validate_path validate_wiki_slug
runs = tt
