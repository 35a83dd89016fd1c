-- ===== src/Models/Wiki/Inputs/Unique.antt =====
-- The test for repetitions compares the sizes of a list and of its set.
use yandex_workspace_mcp.Prelude.{
  ◌≤◌, ◌≡◌, refl, ◌↔◌, inl, inr, false, Text, List, [], ◌∷◌, length, mem_text, text_eq, text_eq_iff,
  Bool-cases, arith,
}
use yandex_workspace_mcp.Models.Wiki.Inputs.Checks.{set_of, duplicates}

-- No text of the list stands in it again.
abbrev pub AllDistinct : List Text → Type 0
AllDistinct [] = Unit {0}
AllDistinct (v ∷ values) = (mem_text v values ≡ false) × AllDistinct values

length-set_of : (values : List Text) → length (set_of values) ≤ length values
unfolding set_of
length-set_of [] = omega arith
length-set_of (v ∷ values) = ground (arith, length-set_of values)

-- A set holds what the list holds.
mem-set_of : (t : Text) (values : List Text) → mem_text t (set_of values) ≡ mem_text t values
unfolding set_of mem_text
mem-set_of t [] = refl
mem-set_of t (v ∷ values) = elim (Bool-cases (mem_text v (set_of values))) [
  | inl again ↦ rw again (elim (Bool-cases (text_eq t v)) [
    | inl hit ↦ rw hit (rw ((text_eq_iff t v).0 hit) again)
    | inr miss ↦ rw miss (mem-set_of t values)
  ])
  | inr new ↦ rw new (rw (mem-set_of t values) refl)
]

full-AllDistinct :
    (values : List Text) → length (set_of values) ≡ length values → AllDistinct values
unfolding set_of
full-AllDistinct [] h = tt
full-AllDistinct (v ∷ values) h = elim (Bool-cases (mem_text v (set_of values))) [
  | inl again ↦ absurd (ground (arith, length-set_of values, again))
  | inr new ↦ (rw (← mem-set_of v values) new, full-AllDistinct values (ground (arith, new)))
]

AllDistinct-full :
    (values : List Text) → AllDistinct values → length (set_of values) ≡ length values
unfolding set_of
AllDistinct-full [] h = refl
AllDistinct-full (v ∷ values) h =
    ground (arith, mem-set_of v values, h.0, AllDistinct-full values h.1)

-- The test for repetitions passes exactly the lists in which no text stands twice.
pub duplicates_lem : (values : List Text) → (duplicates values ≡ false) ↔ AllDistinct values
unfolding duplicates
duplicates_lem values =
    (λ h. full-AllDistinct values (ground arith), λ h. ground (arith, AllDistinct-full values h))
