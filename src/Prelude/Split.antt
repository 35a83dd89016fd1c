-- ===== src/Prelude/Split.antt =====
-- Laws of `split` and `join`.
use yandex_workspace_mcp.Prelude.{
  ℕ, ◌≡◌, refl, ap, subst, ◌∙◌, false, inl, inr, Text, List, [], ◌∷◌, ◌++◌, arith, ◌==◌, ==_refl,
  ==_iff, Bool-cases, All, has_char, split, join,
}

-- `split` returns at least one piece.
split-cons : (c : ℕ) (s : Text) → (w : Text) × (ws : List Text) × (split c s ≡ w ∷ ws)
unfolding split
split-cons c [] = ([], [], refl)
split-cons c (a ∷ s) = elim (Bool-cases (a == c)) [
  | inl hit ↦ ([], split c s, rw hit)
  | inr miss ↦ let (w, ws, e) = split-cons c s in (a ∷ w, ws, rw (miss, e))
]

-- No piece holds the separator.
pub split-All-no : (c : ℕ) (s : Text) → All (λ w. has_char c w ≡ false) (split c s)
unfolding split has_char
split-All-no c [] = (refl, tt)
split-All-no c (a ∷ s) =
    let (w, ws, e) = split-cons c s in
    let ih = subst (All (λ v. has_char c v ≡ false)) e (split-All-no c s) in
    elim (Bool-cases (a == c)) [
      | inl hit ↦ rw hit (refl, split-All-no c s)
      | inr miss ↦ rw (miss, e, has_char, miss) (ih.0, ih.1)
    ]

-- A separator cuts.
pub split-append : (c : ℕ) (s t : Text) → split c (s ++ c ∷ t) ≡ split c s ++ split c t
unfolding split
split-append c [] t = rw (==_refl c)
split-append c (a ∷ s) t = elim (Bool-cases (a == c)) [
  | inl hit ↦ rw (hit, split-append c s t)
  | inr miss ↦ let (w, ws, e) = split-cons c s in rw (miss, split-append c s t, e)
]

pub split_none : (c : ℕ) (s : Text) → has_char c s ≡ false → split c s ≡ s ∷ []
unfolding split has_char
split_none c [] h = refl
split_none c (a ∷ s) h = ground (arith, split_none c s)

-- Pieces without the separator come back from the text that joins them.
pub split-join :
    (c : ℕ) (w : Text) (ws : List Text)
    → All (λ v. has_char c v ≡ false) (w ∷ ws)
    → split c (join c (w ∷ ws)) ≡ w ∷ ws
unfolding join
split-join c w [] h = split_none c w h.0
split-join c w (v ∷ ws) h =
    split-append c w (join c (v ∷ ws)) ∙ rw (split_none c w h.0, split-join c v ws h.1)

join-onto_first :
    (c a : ℕ) (w : Text) (ws : List Text) → join c ((a ∷ w) ∷ ws) ≡ a ∷ join c (w ∷ ws)
unfolding join
join-onto_first c a w [] = refl
join-onto_first c a w (v ∷ ws) = refl

pub join-split : (c : ℕ) (s : Text) → join c (split c s) ≡ s
unfolding split join
join-split c [] = refl
join-split c (a ∷ s) =
    let (w, ws, e) = split-cons c s in
    let ih = subst (λ l. join c l ≡ s) e (join-split c s) in
    elim (Bool-cases (a == c)) [
      | inl hit ↦ rw (hit, e) (ground (arith, ==_iff a c))
      | inr miss ↦ rw (miss, e) (join-onto_first c a w ws ∙ ap (λ t. a ∷ t) ih)
    ]
