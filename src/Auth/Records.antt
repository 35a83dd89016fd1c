-- ===== src/Auth/Records.antt =====
-- auth/models.py: the records of the token store. Times are numbers.
use yandex_workspace_mcp.Prelude.{ℕ, Bool, Text, text, List, Option, some}

pub record OAuthClientRecord : Type 0 where
  pub client_id : Text
  pub client_secret : Option Text
  pub redirect_uris : List Text
  pub allowed_scopes : List Text
  pub client_secret_expires_at : Option ℕ
  pub registration_source : Text
  pub expires_at : Option ℕ
  pub metadata : List (Text × Text)

pub record OAuthStateRecord : Type 0 where
  pub client_id : Text
  pub redirect_uri : Text
  pub scopes : List Text
  pub code_challenge : Text
  pub resource : Option Text
  pub expires_at : ℕ
  pub subject : Option Text
  pub nonce : Option Text
  pub client_state : Option Text
  pub redirect_uri_provided_explicitly : Bool
  pub upstream_code_verifier : Option Text

pub record AuthorizationCodeRecord : Type 0 where
  pub client_id : Text
  pub redirect_uri : Text
  pub scopes : List Text
  pub code_challenge : Text
  pub resource : Option Text
  pub subject : Text
  pub expires_at : ℕ
  pub redirect_uri_provided_explicitly : Bool

pub record AccessTokenRecord : Type 0 where
  pub client_id : Text
  pub scopes : List Text
  pub subject : Text
  pub resource : Option Text
  pub expires_at : Option ℕ
  pub refresh_token : Option Text

pub record RefreshTokenRecord : Type 0 where
  pub client_id : Text
  pub scopes : List Text
  pub subject : Text
  pub expires_at : Option ℕ
  pub access_token : Option Text

pub record DownstreamCredentialRecord : Type 0 where
  pub principal_id : Text
  pub access_token : Text
  pub refresh_token : Option Text
  pub expires_at : Option ℕ
  pub access_expires_at : Option ℕ
  pub organization_id : Option Text
  pub cloud_organization : Bool
  pub yandex_subject : Option Text

pub record RecoveryHandleRecord : Type 0 where
  pub principal_id : Text
  pub upstream_token : Text
  pub normalized_locator : Text
  pub expires_at : ℕ

-- The kinds of records, and a record of any kind.
pub data Kind : Type 0 where
  client state authorization_code access_token refresh_token downstream recovery : Kind

pub data AuthRecord : Type 0 where
  client_record : OAuthClientRecord → AuthRecord
  state_record : OAuthStateRecord → AuthRecord
  code_record : AuthorizationCodeRecord → AuthRecord
  access_record : AccessTokenRecord → AuthRecord
  refresh_record : RefreshTokenRecord → AuthRecord
  downstream_record : DownstreamCredentialRecord → AuthRecord
  recovery_record : RecoveryHandleRecord → AuthRecord

abbrev pub kind_name : Kind → Text
kind_name client = text "client"
kind_name state = text "state"
kind_name authorization_code = text "authorization-code"
kind_name access_token = text "access-token"
kind_name refresh_token = text "refresh-token"
kind_name downstream = text "downstream"
kind_name recovery = text "recovery"

-- getattr(record, "expires_at", None)
abbrev pub expiry : AuthRecord → Option ℕ
expiry (client_record r) = r.expires_at
expiry (state_record r) = some r.expires_at
expiry (code_record r) = some r.expires_at
expiry (access_record r) = r.expires_at
expiry (refresh_record r) = r.expires_at
expiry (downstream_record r) = r.expires_at
expiry (recovery_record r) = some r.expires_at

abbrev pub kind_of : AuthRecord → Kind
kind_of (client_record r) = client
kind_of (state_record r) = state
kind_of (code_record r) = authorization_code
kind_of (access_record r) = access_token
kind_of (refresh_record r) = refresh_token
kind_of (downstream_record r) = downstream
kind_of (recovery_record r) = recovery
