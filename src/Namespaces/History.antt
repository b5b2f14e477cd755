-- ===== src/Namespaces/History.antt =====
-- The claims of namespaces over any history of their handlers.
use mathlib.Core.Path.{subst}
use publaryn.Prelude.{
  ◌≡◌, ◌≢◌, ap, String, not, ◌&&◌, Memᴰ, any, is_some, is_empty, trim_text, not-true_inv,
}
use publaryn.Error.{
  ok, >>=-ok_inv, >>-ok_inv, ensure, ensure-ok_inv, ok_or, ok_injective, validation, not_found,
  already_exists, forbidden,
}
use publaryn.Query.{fetch_optional, exists}
use publaryn.Domain.Ecosystem.{parse_ecosystem, as_str}
use publaryn.Db.{Db, Uuid, Organization, NamespaceClaim}
use publaryn.Auth.Identity.{AuthenticatedIdentity, ensure_scope}
use publaryn.Access.Requirements.{NamespaceClaimAccessRequirement}
use publaryn.Access.Queries.{claims_by_id}
use publaryn.Access.Write.{ensure_namespace_claim_access_by_requirement}
use publaryn.Members.Handlers.{organizations_by_slug}
use publaryn.Repositories.Handlers.{validate_slug, admin_memberships}
use publaryn.Namespaces.Handlers.{
  CreateNamespaceRequest, scope_namespaces_write, scope_namespaces_transfer, claim_owners_for,
  is_name, namespace_claim_owner_from_fields, validate_namespace_transfer_target, ensure_own_claim,
  ensure_transferable, log_claim, create_namespace, delete_namespace, transfer_namespace_ownership,
}
use publaryn.Namespaces.Sound.{
  IsSound, claim_owners_for-IsOneOwner, created-IsSound, deleted-IsSound, moved-IsSound,
}

abbrev pub IsSoundIn : Db → Type 0
IsSoundIn db = IsSound db.namespace_claims db.team_namespace_access

-- A request that is granted. One that fails changes nothing.
pub data NamespaceStep (to_lowercase : String → String) : Db → Db → Type 0 where
  creates :
      (db db' : Db) (identity : AuthenticatedIdentity) (body : CreateNamespaceRequest) (id : Uuid)
      (reply : NamespaceClaim)
      → ((x : NamespaceClaim) → Memᴰ x db.namespace_claims → x.id ≢ id)
      → create_namespace to_lowercase db identity body id ≡ ok (reply, db')
      → NamespaceStep to_lowercase db db'
  deletes :
      (db db' : Db) (identity : AuthenticatedIdentity) (claim_id : Uuid)
      → delete_namespace db identity claim_id ≡ ok db'
      → NamespaceStep to_lowercase db db'
  transfers :
      (db db' : Db) (identity : AuthenticatedIdentity) (claim_id : Uuid) (target_slug : String)
      (c : NamespaceClaim) (o : Organization)
      → transfer_namespace_ownership db identity claim_id target_slug ≡ ok ((c, o), db')
      → NamespaceStep to_lowercase db db'

pub data NamespaceHistory (to_lowercase : String → String) (db : Db) : Db → Type 0 where
  starts : NamespaceHistory to_lowercase db db
  continues :
      {mid db' : Db}
      → NamespaceHistory to_lowercase db mid
      → NamespaceStep to_lowercase mid db'
      → NamespaceHistory to_lowercase db db'

module _ (db : Db) (sound : IsSoundIn db) (identity : AuthenticatedIdentity) where
  create_namespace-IsSound :
      (to_lowercase : String → String) (body : CreateNamespaceRequest) (id : Uuid)
      {reply : NamespaceClaim} {db' : Db}
      → ((x : NamespaceClaim) → Memᴰ x db.namespace_claims → x.id ≢ id)
      → create_namespace to_lowercase db identity body id ≡ ok (reply, db')
      → IsSoundIn db'
  unfolding create_namespace log_claim
  create_namespace-IsSound to_lowercase body id fresh h =
      let (a, h1) = >>-ok_inv (ensure_scope identity scope_namespaces_write) _ h in
      let (b, h2) =
        >>-ok_inv
          (ensure (not (is_empty (trim_text body.namespace)))
            (validation "Namespace must not be empty"))
          _ h1 in
      let (c, h3) =
        >>-ok_inv
          (ensure (not (is_some body.owner_user_id && is_some body.owner_org_id))
            (validation "Namespace claim must have exactly one owner"))
          _ h2 in
      let (ecosystem, d, h4) = >>=-ok_inv (parse_ecosystem to_lowercase body.ecosystem) _ h3 in
      let (owners, e, h5) =
        >>=-ok_inv (claim_owners_for db identity.user_id body.owner_user_id body.owner_org_id) _
          h4 in
      let (free, h6) =
        >>-ok_inv
          (ensure (not (any (is_name (as_str ecosystem) body.namespace) db.namespace_claims))
            (already_exists "Namespace claim already exists"))
          _ h5 in
      subst (λ d. IsSoundIn d) (ap (λ p. p.1) (ok_injective h6))
        (created-IsSound db.namespace_claims db.team_namespace_access sound _ fresh
          (not-true_inv _ (ensure-ok_inv _ _ free))
          (claim_owners_for-IsOneOwner db identity.user_id body.owner_user_id body.owner_org_id e))

  delete_namespace-IsSound :
      (claim_id : Uuid) {db' : Db} → delete_namespace db identity claim_id ≡ ok db' → IsSoundIn db'
  unfolding delete_namespace log_claim
  delete_namespace-IsSound claim_id h =
      let (a, h1) = >>-ok_inv (ensure_scope identity scope_namespaces_write) _ h in
      let (claim, b, h2) =
        >>=-ok_inv
          (ok_or (fetch_optional (claims_by_id db claim_id))
            (not_found "Namespace claim not found"))
          _ h1 in
      let (c, h3) =
        >>-ok_inv (ensure_own_claim identity.user_id claim.owner_user_id claim.owner_org_id) _ h2 in
      let (d, h4) =
        >>-ok_inv
          (ensure_namespace_claim_access_by_requirement db claim_id identity.user_id
            NamespaceClaimAccessRequirement.admin)
          _ h3 in
      subst (λ d. IsSoundIn d) (ok_injective h4)
        (deleted-IsSound db.namespace_claims db.team_namespace_access sound claim_id)

  transfer_namespace_ownership-IsSound :
      (claim_id : Uuid) (target_slug : String) {c : NamespaceClaim} {o : Organization} {db' : Db}
      → transfer_namespace_ownership db identity claim_id target_slug ≡ ok ((c, o), db')
      → IsSoundIn db'
  unfolding transfer_namespace_ownership log_claim
  transfer_namespace_ownership-IsSound claim_id target_slug h =
      let (a, h1) = >>-ok_inv (ensure_scope identity scope_namespaces_transfer) _ h in
      let (b, h2) = >>-ok_inv (validate_slug target_slug) _ h1 in
      let (claim, c, h3) =
        >>=-ok_inv
          (ok_or (fetch_optional (claims_by_id db claim_id))
            (not_found "Namespace claim not found"))
          _ h2 in
      let (owner, d, h4) =
        >>=-ok_inv (namespace_claim_owner_from_fields claim.owner_user_id claim.owner_org_id) _
          h3 in
      let (e, h5) = >>-ok_inv (ensure_transferable db claim.id identity.user_id owner) _ h4 in
      let (org, f, h6) =
        >>=-ok_inv
          (ok_or (fetch_optional (organizations_by_slug db target_slug))
            (not_found "Organization not found"))
          _ h5 in
      let (g, h7) =
        >>-ok_inv
          (ensure (exists (admin_memberships db org.id identity.user_id)) (
            forbidden
              "Transferring a namespace claim into an organization requires owner or admin membership in the target organization"))
          _ h6 in
      let (k, h8) = >>-ok_inv (validate_namespace_transfer_target owner org.id) _ h7 in
      subst (λ d. IsSoundIn d) (ap (λ p. p.1) (ok_injective h8))
        (moved-IsSound db.namespace_claims db.team_namespace_access sound claim.id org.id)

step-IsSound :
    (to_lowercase : String → String) {db db' : Db}
    → NamespaceStep to_lowercase db db'
    → IsSoundIn db
    → IsSoundIn db'
step-IsSound to_lowercase (NamespaceStep.creates db db' identity body id reply fresh h) sound =
    create_namespace-IsSound db sound identity to_lowercase body id fresh h
step-IsSound to_lowercase (NamespaceStep.deletes db db' identity claim_id h) sound =
    delete_namespace-IsSound db sound identity claim_id h
step-IsSound to_lowercase (NamespaceStep.transfers db db' identity claim_id target_slug c o h)
      sound =
    transfer_namespace_ownership-IsSound db sound identity claim_id target_slug h

-- From a sound table of claims, after any sequence of granted requests that create (with ids that
-- are fresh), delete or transfer a claim: ids are unique, an ecosystem's namespace has one claim at
-- most, each claim has exactly one owner, a user or an organization, and every team's grant is on
-- a claim that there is.
pub NamespaceHistory-IsSound :
    (to_lowercase : String → String) {db db' : Db}
    → IsSound db.namespace_claims db.team_namespace_access
    → NamespaceHistory to_lowercase db db'
    → IsSound db'.namespace_claims db'.team_namespace_access
NamespaceHistory-IsSound to_lowercase sound NamespaceHistory.starts = sound
NamespaceHistory-IsSound to_lowercase sound (NamespaceHistory.continues before step) =
    step-IsSound to_lowercase step (NamespaceHistory-IsSound to_lowercase sound before)
