-- ===== src/Auth/Scopes.antt =====
-- auth/scopes.py. A frozenset of scopes is its membership test.
pub mod Granted
mod Tests
use yandex_workspace_mcp.Prelude.{
  ◌≡◌, Bool, true, false, not, ◌&&◌, ◌||◌, Text, text, List, [], ◌∷◌, Option, none, some, text_eq,
  if◌then◌else◌, filter_by, map,
}
use yandex_workspace_mcp.Errors.{Result, ok, err, permission_denied, raise_if}

-- auth/models.py: WorkspaceScope
pub data WorkspaceScope : Type 0 where
  read write delete : WorkspaceScope

pub data OperationClass : Type 0 where
  to_read to_write to_delete : OperationClass

abbrev pub Scopes : Type 0
Scopes = WorkspaceScope → Bool

-- auth/models.py: Principal
pub record Principal : Type 0 where
  pub principal_id : Text
  pub scopes : Scopes
  pub client_id : Option Text

abbrev pub empty : Scopes
empty scope = false

abbrev pub union : Scopes → Scopes → Scopes
union a b scope = a scope || b scope

-- _IMPLIED_SCOPES
abbrev pub implied : WorkspaceScope → Scopes
implied read read = true
implied read write = false
implied read delete = false
implied write read = true
implied write write = true
implied write delete = false
implied delete scope = true

-- WorkspaceScope(raw); `none` stands for its ValueError.
unfoldable pub scope_of : Text → Option WorkspaceScope
scope_of raw =
    if text_eq raw (text "workspace:read")
    then some read
    else if text_eq raw (text "workspace:write")
    then some write
    else if text_eq raw (text "workspace:delete")
    then some delete
    else none

-- scope.value
abbrev pub value : WorkspaceScope → Text
value read = text "workspace:read"
value write = text "workspace:write"
value delete = text "workspace:delete"

unfoldable pub scopes_for_permissions : (can_read can_write can_delete : Bool) → Scopes
scopes_for_permissions can_read can_write can_delete =
    union (if can_read then implied read else empty) (
      union (if can_write then implied write else empty)
        (if can_delete then implied delete else empty))

-- What one value adds, and the loop over them.
unfoldable pub implied_of : Text → Scopes
implied_of raw = elim (scope_of raw) [ none ↦ empty | some scope ↦ implied scope ]

unfoldable pub expanded : List Text → Scopes
expanded [] = empty
expanded (raw ∷ values) = union (implied_of raw) (expanded values)

unfoldable pub effective_static_scopes : List Text → Scopes → Scopes
effective_static_scopes [] permission_ceiling scope = permission_ceiling scope
effective_static_scopes (raw ∷ requested) permission_ceiling scope =
    expanded (raw ∷ requested) scope && permission_ceiling scope

unfoldable pub expand_scope_values : List Text → List Text
expand_scope_values values = map value (filter_by (expanded values) (read ∷ write ∷ delete ∷ []))

-- What the protocol library knows of the caller.
pub record AccessToken : Type 0 where
  pub scopes : List Text
  pub subject : Option Text
  pub client_id : Text

-- The scopes of a token, as they are; a value that is none is passed over.
unfoldable pub token_scopes : List Text → Scopes
token_scopes [] scope = false
token_scopes (raw ∷ values) scope = text_eq raw (value scope) || token_scopes values scope

-- `access_token.subject or access_token.client_id`
abbrev pub subject_or : Option Text → Text → Text
subject_or none client_id = client_id
subject_or (some subject) client_id = if text_eq subject [] then client_id else subject

-- `current` is what get_access_token() returns.
unfoldable pub current_principal : (current : Option AccessToken) → Principal → Bool → Principal
current_principal none local_principal require_authenticated =
    if require_authenticated
    then record { principal_id = text "unauthenticated"; scopes = empty; client_id = none }
    else local_principal
current_principal (some token) local_principal require_authenticated = record {
  principal_id = subject_or token.subject token.client_id;
  scopes = token_scopes token.scopes;
  client_id = some token.client_id;
}

abbrev pub required : OperationClass → WorkspaceScope
required to_read = read
required to_write = write
required to_delete = delete

unfoldable pub require_scope : Principal → OperationClass → Result (Unit {0})
require_scope principal operation =
    raise_if (not (principal.scopes (required operation))) permission_denied
