-- ===== src/Auth/Scopes/Granted.antt =====
-- Which operations a caller may run.
use yandex_workspace_mcp.Prelude.{
  ◌≡◌, refl, sym, ap, subst, ◌∙◌, inl, inr, Bool, true, false, ◌||◌, Text, List, [], ◌∷◌, Option,
  none, some, text_eq, if◌then◌else◌, filter_by, map, arith, Bool-cases,
}
use yandex_workspace_mcp.Errors.{ok, err, permission_denied}
use yandex_workspace_mcp.Auth.Scopes.{
  WorkspaceScope, read, write, delete, OperationClass, to_read, to_write, to_delete, Scopes,
  Principal, empty, union, implied, scope_of, value, scopes_for_permissions, implied_of, expanded,
  effective_static_scopes, expand_scope_values, current_principal, required, require_scope,
}

-- Whoever may write may read, and whoever may delete may do both.
abbrev pub IsClosed : Scopes → Type 0
IsClosed scopes = (a b : WorkspaceScope) → scopes a ≡ true → implied a b ≡ true → scopes b ≡ true

implied-IsClosed : (c : WorkspaceScope) → IsClosed (implied c)
implied-IsClosed read read read h k = refl
implied-IsClosed read read write h k = absurd (ground arith)
implied-IsClosed read read delete h k = absurd (ground arith)
implied-IsClosed read write b h k = absurd (ground arith)
implied-IsClosed read delete b h k = absurd (ground arith)
implied-IsClosed write a read h k = refl
implied-IsClosed write a write h k = refl
implied-IsClosed write read delete h k = absurd (ground arith)
implied-IsClosed write write delete h k = absurd (ground arith)
implied-IsClosed write delete delete h k = absurd (ground arith)
implied-IsClosed delete a b h k = refl

union-IsClosed : (s t : Scopes) → IsClosed s → IsClosed t → IsClosed (union s t)
union-IsClosed s t hs ht a b h k = elim (Bool-cases (s a)) [
  | inl in_s ↦ ground (arith, hs a b in_s k)
  | inr out ↦ ground (arith, ht a b (ground arith) k)
]

switched-IsClosed : (on : Bool) (c : WorkspaceScope) → IsClosed (if on then implied c else empty)
switched-IsClosed true c a b h k = implied-IsClosed c a b h k
switched-IsClosed false c a b h k = absurd (ground arith)

scopes_for_permissions-IsClosed :
    (can_read can_write can_delete : Bool)
    → IsClosed (scopes_for_permissions can_read can_write can_delete)
unfolding scopes_for_permissions
scopes_for_permissions-IsClosed can_read can_write can_delete =
    union-IsClosed (if can_read then implied read else empty) _ (switched-IsClosed can_read read) (
      union-IsClosed (if can_write then implied write else empty) _
        (switched-IsClosed can_write write) (switched-IsClosed can_delete delete))

implied_of-IsClosed : (raw : Text) → IsClosed (implied_of raw)
unfolding implied_of
implied_of-IsClosed raw = closed (scope_of raw)
  where
    closed :
        (scope : Option WorkspaceScope)
        → IsClosed (elim scope [ none ↦ empty | some scope ↦ implied scope ])
    closed none a b h k = absurd (ground arith)
    closed (some scope) a b h k = implied-IsClosed scope a b h k

expanded-IsClosed : (values : List Text) → IsClosed (expanded values)
unfolding expanded
expanded-IsClosed [] a b h k = absurd (ground arith)
expanded-IsClosed (raw ∷ values) a b h k =
    union-IsClosed (implied_of raw) (expanded values) (implied_of-IsClosed raw)
      (expanded-IsClosed values) a b h k

effective_static_scopes-IsClosed :
    (requested : List Text) (ceiling : Scopes)
    → IsClosed ceiling
    → IsClosed (effective_static_scopes requested ceiling)
unfolding effective_static_scopes
effective_static_scopes-IsClosed [] ceiling h a b g k = h a b g k
effective_static_scopes-IsClosed (raw ∷ requested) ceiling h a b g k =
    ground (arith, expanded-IsClosed (raw ∷ requested) a b (ground arith) k, h a b (ground arith) k)

effective_static_scopes-ceiling :
    (requested : List Text) (ceiling : Scopes) (scope : WorkspaceScope)
    → effective_static_scopes requested ceiling scope ≡ true
    → ceiling scope ≡ true
unfolding effective_static_scopes
effective_static_scopes-ceiling [] ceiling scope h = h
effective_static_scopes-ceiling (raw ∷ requested) ceiling scope h = ground arith

-- The switches that allow an operation: delete carries write and read, write carries read.
abbrev pub switched_on : (can_read can_write can_delete : Bool) → OperationClass → Bool
switched_on can_read can_write can_delete to_read = can_read || (can_write || can_delete)
switched_on can_read can_write can_delete to_write = can_write || can_delete
switched_on can_read can_write can_delete to_delete = can_delete

scopes_for_permissions-switched_on :
    (can_read can_write can_delete : Bool) (operation : OperationClass)
    → scopes_for_permissions can_read can_write can_delete (required operation)
      ≡ switched_on can_read can_write can_delete operation
unfolding scopes_for_permissions
scopes_for_permissions-switched_on can_read can_write can_delete to_read = ground arith
scopes_for_permissions-switched_on can_read can_write can_delete to_write = ground arith
scopes_for_permissions-switched_on can_read can_write can_delete to_delete = ground arith

-- A caller with a static token passes the check of an operation only if a switch of the server allows
-- it; and if it passes the check to write or to delete, it passes the check to read as well.
pub static_scopes_lem :
    (can_read can_write can_delete : Bool) (requested : List Text) (principal : Principal)
    (operation : OperationClass)
    → principal.scopes
      ≡ effective_static_scopes requested (scopes_for_permissions can_read can_write can_delete)
    → require_scope principal operation ≡ ok tt
    → (switched_on can_read can_write can_delete operation ≡ true)
      × (require_scope principal to_read ≡ ok tt)
unfolding require_scope
static_scopes_lem can_read can_write can_delete requested principal operation e h =
    let ceiling = scopes_for_permissions can_read can_write can_delete in
    let held : principal.scopes (required operation) ≡ true = ground arith in
    let granted : effective_static_scopes requested ceiling (required operation) ≡ true =
      ap (λ scopes. scopes (required operation)) (sym e) ∙ held in
    let reads =
      effective_static_scopes-IsClosed requested ceiling
        (scopes_for_permissions-IsClosed can_read can_write can_delete) (required operation) read
        granted (implied_read operation) in
    (
      sym (scopes_for_permissions-switched_on can_read can_write can_delete operation)
          ∙ effective_static_scopes-ceiling requested ceiling (required operation) granted,
      rw (ap (λ scopes. scopes read) e ∙ reads) refl,
    )
  where
    implied_read : (operation : OperationClass) → implied (required operation) read ≡ true
    implied_read to_read = refl
    implied_read to_write = refl
    implied_read to_delete = refl

-- Where authentication is required, a caller without a token passes no check.
pub current_principal-none :
    (local_principal : Principal) (operation : OperationClass)
    → require_scope (current_principal none local_principal true) operation ≡ err permission_denied
unfolding require_scope current_principal
current_principal-none local_principal operation = refl

-- The set with these members, and the values of a set in the order of the enumeration.
abbrev pick : (r w d : Bool) → Scopes
pick r w d read = r
pick r w d write = w
pick r w d delete = d

abbrev listed : Scopes → List Text
listed scopes = map value (filter_by scopes (read ∷ write ∷ delete ∷ []))

expanded-listed-pick :
    (r w d : Bool) (scope : WorkspaceScope)
    → (w ≡ true → r ≡ true)
    → (d ≡ true → w ≡ true)
    → expanded (listed (pick r w d)) scope ≡ pick r w d scope
unfolding expanded implied_of scope_of text_eq
expanded-listed-pick false false false read hw hd = refl
expanded-listed-pick false false false write hw hd = refl
expanded-listed-pick false false false delete hw hd = refl
expanded-listed-pick true false false read hw hd = refl
expanded-listed-pick true false false write hw hd = refl
expanded-listed-pick true false false delete hw hd = refl
expanded-listed-pick true true false read hw hd = refl
expanded-listed-pick true true false write hw hd = refl
expanded-listed-pick true true false delete hw hd = refl
expanded-listed-pick true true true read hw hd = refl
expanded-listed-pick true true true write hw hd = refl
expanded-listed-pick true true true delete hw hd = refl
expanded-listed-pick false true d scope hw hd = absurd (ground (arith, hw refl))
expanded-listed-pick r false true scope hw hd = absurd (ground (arith, hd refl))

expanded-listed :
    (scopes : Scopes)
    → IsClosed scopes
    → (scope : WorkspaceScope) → expanded (listed scopes) scope ≡ scopes scope
expanded-listed scopes closed scope =
    subst (λ s. expanded (listed s) scope ≡ s scope) (λ i c. same c i)
      (expanded-listed-pick (scopes read) (scopes write) (scopes delete) scope
        (λ h. closed write read h refl) (λ h. closed delete write h refl))
  where
    same : (c : WorkspaceScope) → pick (scopes read) (scopes write) (scopes delete) c ≡ scopes c
    same read = refl
    same write = refl
    same delete = refl

-- Expanding scope values that are expanded changes nothing: every implied value is there, once, and in
-- the order of the enumeration.
pub expand_scope_values_idem :
    (values : List Text)
    → expand_scope_values (expand_scope_values values) ≡ expand_scope_values values
unfolding expand_scope_values
expand_scope_values_idem values =
    ap listed (λ i c. expanded-listed (expanded values) (expanded-IsClosed values) c i)
