-- ===== src/Namespaces/Handlers.antt =====
-- The handlers of crates/api/src/routes/namespaces.rs that change a claim. The claims are UNIQUE
-- (ecosystem, namespace), and the grants on a claim are deleted with it (ON DELETE CASCADE of
-- migrations/021_team_namespace_access.sql).
use text.Mathlib.Text.{◌==◌ as str_eq}
use publaryn.Prelude.{
  String, Bool, false, not, ◌&&◌, Option, none, some, ◌∷◌, any, ◌==◌, is_some, trim_text, is_empty,
}
use publaryn.Error.{
  Result, ok, err, ◌>>=◌, ◌>>◌, ensure, ok_or, not_found, validation, forbidden, internal,
  already_exists,
}
use publaryn.Query.{fetch_optional, exists}
use publaryn.Query.Update.{update_where, delete_where}
use publaryn.Domain.Ecosystem.{parse_ecosystem, as_str}
use publaryn.Db.{Db, Uuid, Organization, NamespaceClaim, TeamNamespaceAccess, AuditLog}
use publaryn.Auth.Identity.{AuthenticatedIdentity, ensure_scope, audit_actor_token_id}
use publaryn.Access.Requirements.{OrgAccessRequirement, NamespaceClaimAccessRequirement}
use publaryn.Access.Org.{ensure_org_access_by_requirement}
use publaryn.Access.Queries.{claims_by_id}
use publaryn.Access.Write.{ensure_namespace_claim_access_by_requirement}
use publaryn.Members.Handlers.{organizations_by_slug}
use publaryn.Repositories.Handlers.{validate_slug, admin_memberships}

abbrev pub scope_namespaces_write : String
scope_namespaces_write = "namespaces:write"

abbrev pub scope_namespaces_transfer : String
scope_namespaces_transfer = "namespaces:transfer"

pub record CreateNamespaceRequest : Type 0 where
  pub ecosystem : String
  pub namespace : String
  pub owner_user_id : Option Uuid
  pub owner_org_id : Option Uuid

pub data NamespaceClaimOwner : Type 0 where
  user organization : Uuid → NamespaceClaimOwner

unfoldable pub namespace_claim_owner_from_fields :
    Option Uuid → Option Uuid → Result NamespaceClaimOwner
namespace_claim_owner_from_fields (some user_id) none = ok (NamespaceClaimOwner.user user_id)
namespace_claim_owner_from_fields none (some org_id) = ok (NamespaceClaimOwner.organization org_id)
namespace_claim_owner_from_fields none none = err (internal "Namespace claim is missing an owner")
namespace_claim_owner_from_fields (some user_id) (some org_id) =
    err (internal "Namespace claim has multiple owners")

unfoldable pub validate_namespace_transfer_target : NamespaceClaimOwner → Uuid → Result (Unit {0})
validate_namespace_transfer_target (NamespaceClaimOwner.user user_id) target_org_id = ok tt
validate_namespace_transfer_target (NamespaceClaimOwner.organization org_id) target_org_id =
    ensure (not (org_id == target_org_id))
      (validation "Namespace claim is already owned by the target organization")

-- The owners of a new claim, from the two fields of the request.
unfoldable pub claim_owners_for :
    Db → Uuid → Option Uuid → Option Uuid → Result (Option Uuid × Option Uuid)
claim_owners_for db actor (some owner_user_id) none = do
  ensure (owner_user_id == actor)
      (forbidden "You can only create user-owned namespace claims for your own account")
  ok (some owner_user_id, none)
claim_owners_for db actor none (some owner_org_id) = do
  ensure_org_access_by_requirement db owner_org_id actor OrgAccessRequirement.admin
  ok (none, some owner_org_id)
claim_owners_for db actor none none = ok (some actor, none)
claim_owners_for db actor (some owner_user_id) (some owner_org_id) =
    err (validation "Namespace claim must have exactly one owner")

-- A user who owns the claim may delete it, or for an organization's the check below decides.
unfoldable pub ensure_own_claim : Uuid → Option Uuid → Option Uuid → Result (Unit {0})
ensure_own_claim actor (some owner_user_id) none =
    ensure (owner_user_id == actor)
      (forbidden "You can only delete user-owned namespace claims for your own account")
ensure_own_claim actor none (some org_id) = ok tt
ensure_own_claim actor none none = err (internal "Namespace claim is missing an owner")
ensure_own_claim actor (some user_id) (some org_id) =
    err (internal "Namespace claim has multiple owners")

-- The match on the current owner of a claim that is transferred.
unfoldable pub ensure_transferable : Db → Uuid → Uuid → NamespaceClaimOwner → Result (Unit {0})
ensure_transferable db claim_id actor (NamespaceClaimOwner.user owner_user_id) =
    ensure (owner_user_id == actor)
      (forbidden "You can only transfer user-owned namespace claims for your own account")
ensure_transferable db claim_id actor (NamespaceClaimOwner.organization org_id) =
    ensure_namespace_claim_access_by_requirement db claim_id actor
      NamespaceClaimAccessRequirement.transfer_ownership

abbrev pub is_name : String → String → NamespaceClaim → Bool
is_name ecosystem namespace c = str_eq c.ecosystem ecosystem && str_eq c.namespace namespace

abbrev pub is_claim : Uuid → NamespaceClaim → Bool
is_claim id c = c.id == id

abbrev pub is_claim_grant : Uuid → TeamNamespaceAccess → Bool
is_claim_grant id g = g.namespace_claim_id == id

abbrev pub set_claim_owner : Uuid → NamespaceClaim → NamespaceClaim
set_claim_owner org_id c = record c { owner_user_id = none; owner_org_id = some org_id }

unfoldable pub log_claim : String → AuthenticatedIdentity → Option Uuid → Option Uuid → Db → Db
log_claim action identity user_id org_id db =
    let entry : AuditLog = record {
      action = action;
      actor_user_id = identity.user_id;
      actor_token_id = audit_actor_token_id identity;
      target_user_id = user_id;
      target_org_id = org_id;
      target_package_id = none;
      target_release_id = none;
    } in
    record db { audit_logs = entry ∷ db.audit_logs }

-- `id` is the fresh `Uuid::new_v4()`. The reply is the row.
unfoldable pub create_namespace :
    (String → String)
    → Db
    → AuthenticatedIdentity
    → CreateNamespaceRequest
    → Uuid
    → Result (NamespaceClaim × Db)
create_namespace to_lowercase db identity body id = do
  ensure_scope identity scope_namespaces_write
  ensure (not (is_empty (trim_text body.namespace))) (validation "Namespace must not be empty")
  ensure (not (is_some body.owner_user_id && is_some body.owner_org_id))
      (validation "Namespace claim must have exactly one owner")
  ecosystem ← parse_ecosystem to_lowercase body.ecosystem
  owners ← claim_owners_for db identity.user_id body.owner_user_id body.owner_org_id
  let claim : NamespaceClaim = record {
    id = id;
    ecosystem = as_str ecosystem;
    namespace = body.namespace;
    owner_user_id = owners.0;
    owner_org_id = owners.1;
    is_verified = false;
  }
  ensure (not (any (is_name claim.ecosystem claim.namespace) db.namespace_claims))
      (already_exists "Namespace claim already exists")
  ok (
    claim,
    log_claim "namespace_claim_create" identity claim.owner_user_id claim.owner_org_id
        (record db { namespace_claims = claim ∷ db.namespace_claims }),
  )

unfoldable pub delete_namespace : Db → AuthenticatedIdentity → Uuid → Result Db
delete_namespace db identity claim_id = do
  ensure_scope identity scope_namespaces_write
  claim ← ok_or (fetch_optional (claims_by_id db claim_id)) (not_found "Namespace claim not found")
  ensure_own_claim identity.user_id claim.owner_user_id claim.owner_org_id
  ensure_namespace_claim_access_by_requirement db claim_id identity.user_id
      NamespaceClaimAccessRequirement.admin
  ok (
      log_claim "namespace_claim_delete" identity claim.owner_user_id claim.owner_org_id
        (record db {
          namespace_claims = delete_where (is_claim claim_id) db.namespace_claims;
          team_namespace_access = delete_where (is_claim_grant claim_id) db.team_namespace_access;
        }))

-- The reply is the claim as it was and the organization that has it now.
unfoldable pub transfer_namespace_ownership :
    Db → AuthenticatedIdentity → Uuid → String → Result ((NamespaceClaim × Organization) × Db)
transfer_namespace_ownership db identity claim_id target_org_slug = do
  ensure_scope identity scope_namespaces_transfer
  validate_slug target_org_slug
  claim ← ok_or (fetch_optional (claims_by_id db claim_id)) (not_found "Namespace claim not found")
  current_owner ← namespace_claim_owner_from_fields claim.owner_user_id claim.owner_org_id
  ensure_transferable db claim.id identity.user_id current_owner
  target_org ←
      ok_or (fetch_optional (organizations_by_slug db target_org_slug))
        (not_found "Organization not found")
  ensure (exists (admin_memberships db target_org.id identity.user_id)) (
      forbidden
        "Transferring a namespace claim into an organization requires owner or admin membership in the target organization")
  validate_namespace_transfer_target current_owner target_org.id
  ok (
    (claim, target_org),
    log_claim "namespace_claim_transfer" identity none (some target_org.id) (record db {
      team_namespace_access = delete_where (is_claim_grant claim.id) db.team_namespace_access;
      namespace_claims =
          update_where (is_claim claim.id) (set_claim_owner target_org.id) db.namespace_claims;
    }),
  )
