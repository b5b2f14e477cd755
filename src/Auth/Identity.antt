-- ===== src/Auth/Identity.antt =====
-- `AuthenticatedIdentity` of crates/api/src/request_auth.rs, and `ensure_scope` of
-- crates/api/src/scopes.rs.
use publaryn.Prelude.{String, Option, none, List, contains}
use publaryn.Error.{Result, ensure, forbidden}
use publaryn.Db.{Uuid}

pub data CredentialKind : Type 0 where
  jwt api_token : CredentialKind

pub record AuthenticatedIdentity : Type 0 where
  pub user_id : Uuid
  pub token_id : Option Uuid
  pub scopes : List String
  pub credential_kind : CredentialKind

token_of : CredentialKind → Option Uuid → Option Uuid
token_of CredentialKind.jwt token_id = none
token_of CredentialKind.api_token token_id = token_id

unfoldable pub audit_actor_token_id : AuthenticatedIdentity → Option Uuid
unfolding token_of
audit_actor_token_id self = token_of self.credential_kind self.token_id

unfoldable pub ensure_scope : AuthenticatedIdentity → String → Result (Unit {0})
ensure_scope identity scope =
    ensure (contains identity.scopes scope) (forbidden "This operation requires the scope")

abbrev pub scope_packages_write : String
scope_packages_write = "packages:write"

abbrev pub scope_orgs_write : String
scope_orgs_write = "orgs:write"

abbrev pub scope_orgs_transfer : String
scope_orgs_transfer = "orgs:transfer"
