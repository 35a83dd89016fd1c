-- ===== src/Auth/Scopes/Tests.antt =====
-- Runs of the scope functions.
use yandex_workspace_mcp.Prelude.{◌≡◌, refl, true, false, text, [], ◌∷◌, none, text_eq}
use yandex_workspace_mcp.Errors.{ok, err, permission_denied}
use yandex_workspace_mcp.Auth.Scopes.{
  to_read, to_write, to_delete, Principal, scope_of, scopes_for_permissions, implied_of, expanded,
  effective_static_scopes, expand_scope_values, require_scope,
}
use yandex_workspace_mcp.Auth.Scopes.Granted.{
  switched_on, static_scopes_lem, expand_scope_values_idem,
}

-- A server that reads and writes, and a token with the scope to write.
abbrev writer : Principal
writer = record {
  principal_id = text "writer";
  scopes =
      effective_static_scopes (text "workspace:write" ∷ [])
        (scopes_for_permissions true true false);
  client_id = none;
}

unfoldable runs : Unit {0}
unfolding text_eq scope_of scopes_for_permissions implied_of expanded effective_static_scopes
    expand_scope_values require_scope
runs = tt

writer_may_write : require_scope writer to_write ≡ ok tt
unfolding runs
writer_may_write = refl

writer_may_not_delete : require_scope writer to_delete ≡ err permission_denied
unfolding runs
writer_may_not_delete = refl

two_scopes :
    expand_scope_values (text "workspace:write" ∷ text "other" ∷ [])
    ≡ text "workspace:read" ∷ text "workspace:write" ∷ []
unfolding runs
two_scopes = refl

static_scopes_lem_example :
    (switched_on true true false to_write ≡ true) × (require_scope writer to_read ≡ ok tt)
static_scopes_lem_example =
    static_scopes_lem true true false (text "workspace:write" ∷ []) writer to_write refl
      writer_may_write

expand_scope_values_idem_example :
    expand_scope_values (expand_scope_values (text "workspace:write" ∷ []))
    ≡ expand_scope_values (text "workspace:write" ∷ [])
expand_scope_values_idem_example = expand_scope_values_idem (text "workspace:write" ∷ [])
