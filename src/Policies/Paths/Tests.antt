-- ===== src/Policies/Paths/Tests.antt =====
-- Runs of policies/paths.py and of `urllib.parse.unquote`, with a normalization that leaves every
-- text as it is.
use yandex_workspace_mcp.Prelude.{
  ◌≡◌, refl, inl, Text, text, List, [], ◌∷◌, some, none, join, has_char, Some,
}
use yandex_workspace_mcp.Errors.{ok, err, invalid_path}
use yandex_workspace_mcp.Python.Posixpath.{slash}
use yandex_workspace_mcp.Python.Posixpath.Laws.{rooted}
use yandex_workspace_mcp.Python.Unquote.{unquote}
use yandex_workspace_mcp.Policies.Paths.{
  reject_ambiguous_input, normalize_path, validate_path, validate_wiki_slug, runs,
}
use yandex_workspace_mcp.Policies.Paths.Within.{Under, Within, validate_path-Within}
use yandex_workspace_mcp.Policies.Paths.Absolute.{validate_path_absolute}
use yandex_workspace_mcp.Policies.Paths.Complete.{validate_path_complete}
use yandex_workspace_mcp.Policies.Paths.Canonical.{IsCanonical, SlashBoundary, normalize_path_idem}
use yandex_workspace_mcp.Policies.Paths.Decoding.{is_plain}
use yandex_workspace_mcp.Policies.Paths.Ambiguity.{IsDecoded, reject_ambiguous_input_idem}
use yandex_workspace_mcp.Policies.Paths.Relative.{climbing, validate_path_keeps_parent}

abbrev unchanged : Text → Text
unchanged s = s

unchanged-SlashBoundary : SlashBoundary unchanged
unchanged-SlashBoundary = record {
  at_nil = refl;
  at_slash = λ s t. ((λ _. (refl, refl)), λ _. refl);
}

abbrev work : List Text
work = text "/Work" ∷ []

abbrev report : Text
report = text "disk:/Work/a%20b/../c"

normal_report : validate_path unchanged report work ≡ ok (text "/Work/c")
unfolding runs
normal_report = refl

sibling : validate_path unchanged (text "/Workshop") work ≡ err invalid_path
unfolding runs
sibling = refl

escaped_dots : validate_path unchanged (text "/Work/%2e%2e/c") work ≡ err invalid_path
unfolding runs
escaped_dots = refl

slug :
    validate_wiki_slug unchanged (text "projects/a") (text "/projects" ∷ [])
    ≡ ok (text "projects/a")
unfolding runs
slug = refl

validate_path-Within_example :
    (normalize_path unchanged report ≡ ok (text "/Work/c")) × Within unchanged work (text "/Work/c")
validate_path-Within_example = validate_path-Within unchanged report work normal_report

abbrev file_names : List Text
file_names = text "c" ∷ []

validate_path_complete_example :
    validate_path unchanged report work ≡ ok (rooted (text "Work" ∷ text "c" ∷ []))
validate_path_complete_example =
    validate_path_complete unchanged report work work (text "Work" ∷ []) file_names
      (unfold runs in refl) (unfold runs in refl) (unfold runs in refl) (inl (unfold join in refl))

reject_ambiguous_input_idem_example :
    reject_ambiguous_input unchanged (text "/a b") ≡ ok (text "/a b")
reject_ambiguous_input_idem_example =
    reject_ambiguous_input_idem unchanged (text "/a%20b") (unfold runs in refl)

normalize_path_idem_example :
    (q : Text) × (normalize_path unchanged report ≡ ok q)
    × IsCanonical q
    × (normalize_path unchanged q ≡ ok q)
normalize_path_idem_example =
    normalize_path_idem unchanged unchanged-SlashBoundary report
      {decoded = text "disk:/Work/a b/../c"} (unfold runs in refl) (unfold runs in refl)

abbrev two_names : List Text
two_names = text "Work" ∷ text "c" ∷ []

two_names-IsDecoded : IsDecoded unchanged (climbing two_names)
unfolding join is_plain runs
two_names-IsDecoded = record { nonempty = λ e. cc; plain = refl; normal = refl }

validate_path_keeps_parent_example :
    (validate_path unchanged (climbing two_names) (rooted (text "Work" ∷ []) ∷ [])
      ≡ ok (slash ∷ climbing two_names))
    × (normalize_path unchanged (slash ∷ climbing two_names) ≡ ok (rooted two_names))
validate_path_keeps_parent_example =
    validate_path_keeps_parent unchanged unchanged-SlashBoundary (text "Work") file_names
      (unfold runs in ((refl, refl, refl), ((refl, refl, refl), tt))) two_names-IsDecoded

unquote_escapes : unquote (text "/a%20b%D0%96c") ≡ some (text "/a bЖc")
unfolding unquote has_char
unquote_escapes = refl

unquote_cut_sequence : unquote (text "%D0Ж") ≡ none
unfolding unquote has_char
unquote_cut_sequence = refl

unquote_overlong : unquote (text "%C0%AF") ≡ none
unfolding unquote has_char
unquote_overlong = refl

unquote_surrogate : unquote (text "%ED%A0%80") ≡ none
unfolding unquote has_char
unquote_surrogate = refl

unquote_four_bytes : unquote (text "%F0%9F%98%80Ж") ≡ some (0x1f600 ∷ 0x416 ∷ [])
unfolding unquote has_char
unquote_four_bytes = refl

validate_path_absolute_example :
    IsCanonical (text "/Work/c")
    × Some
        (λ root. (r : Text) × (normalize_path unchanged root ≡ ok r) × Under r (text "/Work/c"))
        work
validate_path_absolute_example =
    validate_path_absolute unchanged unchanged-SlashBoundary report work
      {decoded = text "disk:/Work/a b/../c"} (unfold runs in refl) (unfold runs in refl)
      normal_report
