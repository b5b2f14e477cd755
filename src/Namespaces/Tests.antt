-- ===== src/Namespaces/Tests.antt =====
-- Runs of the handlers of claims: Ada claims a namespace for herself, moves it to her organization
-- and deletes it.
use publaryn.Prelude.{◌≡◌, refl, String, false, none, some, [], ◌∷◌, Memᴰ}
use publaryn.Error.{ok}
use publaryn.Query.{◌>>=◌}
use publaryn.Query.Update.{update_where, delete_where}
use publaryn.Domain.OrgRole
use publaryn.Domain.OrgRole.{OrgRole}
use publaryn.Domain.Ecosystem
use publaryn.Domain.Ecosystem.{parse_ecosystem}
use publaryn.Auth.Identity.{
  AuthenticatedIdentity, CredentialKind, ensure_scope, audit_actor_token_id,
}
use publaryn.Db.{Db, NamespaceClaim}
use publaryn.Access.Requirements.{NamespaceClaimAccessRequirement}
use publaryn.Access.Queries.{claims_by_id, org_write_rows}
use publaryn.Access.Org.{authorize_org_write_roles}
use publaryn.Access.Outcomes.{resolve_org_write_role_access}
use publaryn.Access.Write.{
  ensure_namespace_claim_access_by_requirement, authorize_namespace_claim_write_access_by_id,
}
use publaryn.Samples.{registry, acme}
use publaryn.Members.Handlers.{organizations_by_slug}
use publaryn.Repositories.Handlers.{validate_slug, admin_memberships}
use publaryn.Namespaces.Handlers.{
  CreateNamespaceRequest, claim_owners_for, namespace_claim_owner_from_fields, ensure_own_claim,
  validate_namespace_transfer_target, ensure_transferable, log_claim, set_claim_owner,
  create_namespace, delete_namespace, transfer_namespace_ownership,
}
use publaryn.Namespaces.Sound.{IsSound}
use publaryn.Namespaces.History.{NamespaceStep, NamespaceHistory, NamespaceHistory-IsSound}

abbrev same : String → String
same text = text

abbrev unclaimed : Db
unclaimed = record registry {
  org_memberships =
      record { org_id = 10; user_id = 1; role = OrgRole.owner; invited_by = none } ∷ [];
}

abbrev ada_logged_in : AuthenticatedIdentity
ada_logged_in = record {
  user_id = 1;
  token_id = none;
  scopes = "namespaces:write" ∷ "namespaces:transfer" ∷ [];
  credential_kind = CredentialKind.jwt;
}

abbrev request : CreateNamespaceRequest
request = record {
  ecosystem = "npm";
  namespace = "@acme";
  owner_user_id = none;
  owner_org_id = none;
}

abbrev claim : NamespaceClaim
claim = record {
  id = 60;
  ecosystem = "npm";
  namespace = "@acme";
  owner_user_id = some 1;
  owner_org_id = none;
  is_verified = false;
}

abbrev claimed : Db
claimed =
    log_claim "namespace_claim_create" ada_logged_in (some 1) none
      (record unclaimed { namespace_claims = claim ∷ [] })

abbrev moved : Db
moved = log_claim "namespace_claim_transfer" ada_logged_in none (some 10) (record claimed {
  team_namespace_access = [];
  namespace_claims = set_claim_owner 10 claim ∷ [];
})

abbrev deleted : Db
deleted =
    log_claim "namespace_claim_delete" ada_logged_in none (some 10)
      (record moved { namespace_claims = []; team_namespace_access = [] })

ada_claims : create_namespace same unclaimed ada_logged_in request 60 ≡ ok (claim, claimed)
unfolding create_namespace ensure_scope parse_ecosystem Ecosystem.as_str claim_owners_for log_claim
    audit_actor_token_id
ada_claims = refl

ada_moves : transfer_namespace_ownership claimed ada_logged_in 60 "acme" ≡ ok ((claim, acme), moved)
unfolding transfer_namespace_ownership ensure_scope validate_slug claims_by_id ◌>>=◌
    namespace_claim_owner_from_fields ensure_transferable organizations_by_slug admin_memberships
    OrgRole.as_str validate_namespace_transfer_target log_claim audit_actor_token_id update_where
    delete_where
ada_moves = refl

ada_may_delete :
    ensure_namespace_claim_access_by_requirement moved 60 1 NamespaceClaimAccessRequirement.admin
    ≡ ok tt
unfolding ensure_namespace_claim_access_by_requirement authorize_namespace_claim_write_access_by_id
    claims_by_id ◌>>=◌ authorize_org_write_roles org_write_rows OrgRole.as_str
    resolve_org_write_role_access log_claim
ada_may_delete = refl

ada_deletes : delete_namespace moved ada_logged_in 60 ≡ ok deleted
unfolding delete_namespace ensure_scope claims_by_id ◌>>=◌ ensure_own_claim log_claim
    audit_actor_token_id delete_where
ada_deletes = rw ada_may_delete refl

no_claim : {c : NamespaceClaim} → Memᴰ c unclaimed.namespace_claims → ⊥
no_claim m = elim m [ ]

unclaimed-IsSound : IsSound unclaimed.namespace_claims unclaimed.team_namespace_access
unclaimed-IsSound = record {
  claim_key = λ a b m n e. absurd (no_claim m);
  claim_name = λ a b m n e. absurd (no_claim m);
  one_owner = λ c m. absurd (no_claim m);
  granted = λ g m. elim m [ ];
}

claims_moves_and_deletes : NamespaceHistory same unclaimed deleted
claims_moves_and_deletes =
    NamespaceHistory.continues
      (NamespaceHistory.continues
        (NamespaceHistory.continues NamespaceHistory.starts (
          NamespaceStep.creates unclaimed claimed ada_logged_in request 60 claim
            (λ x m. absurd (no_claim m)) ada_claims))
        (NamespaceStep.transfers claimed moved ada_logged_in 60 "acme" claim acme ada_moves))
      (NamespaceStep.deletes moved deleted ada_logged_in 60 ada_deletes)

NamespaceHistory-IsSound_example : IsSound deleted.namespace_claims deleted.team_namespace_access
NamespaceHistory-IsSound_example =
    NamespaceHistory-IsSound same unclaimed-IsSound claims_moves_and_deletes
