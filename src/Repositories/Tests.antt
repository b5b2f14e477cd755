-- ===== src/Repositories/Tests.antt =====
-- Runs of the handlers of repositories: Ada moves the repository of one organization of hers to
-- another, and a second repository takes its slug.
use publaryn.Prelude.{◌≡◌, refl, String, false, none, some, inr, [], ◌∷◌, Memᴰ}
use publaryn.Error.{ok}
use publaryn.Query.{◌>>=◌}
use publaryn.Query.Update.{update_where, delete_where}
use publaryn.Domain.OrgRole
use publaryn.Domain.OrgRole.{OrgRole}
use publaryn.Domain.TeamPermission
use publaryn.Auth.Identity.{
  AuthenticatedIdentity, CredentialKind, ensure_scope, audit_actor_token_id,
}
use publaryn.Db.{Db, Uuid, Organization, OrgMembership, Repository, TeamRepositoryAccess}
use publaryn.Access.Requirements.{RepositoryAccessRequirement, repository_team_permissions}
use publaryn.Access.Queries.{repositories_by_slug, org_write_rows}
use publaryn.Access.Org.{authorize_org_write_roles}
use publaryn.Access.Outcomes.{resolve_org_write_role_access}
use publaryn.Access.Write.{
  ensure_repository_access_by_requirement, authorize_repository_write_access,
}
use publaryn.Samples.{registry, acme, main}
use publaryn.Members.Handlers.{organizations_by_slug}
use publaryn.Repositories.Handlers.{
  RepositoryOwner, validate_slug, admin_memberships, log_transfer, repository_owner_from_fields,
  set_owner, validate_repository_transfer_target, validate_repository_kind_for_creation,
  create_repository, transfer_repository_ownership, scope_repositories_write,
}
use publaryn.Repositories.Owned.{AllOwned, IsOwned}
use publaryn.Repositories.History.{RepositoryStep, RepositoryHistory, RepositoryHistory-AllOwned}
use publaryn.Repositories.Slugs.{plain_request, create_repository-same_slug}

abbrev labs : Organization
labs = record {
  id = 11;
  name = "Labs";
  slug = "labs";
  mfa_required = false;
  member_directory_is_private = false;
}

abbrev ada_owns : Uuid → OrgMembership
ada_owns org_id = record { org_id = org_id; user_id = 1; role = OrgRole.owner; invited_by = none }

abbrev tools_on_main : TeamRepositoryAccess
tools_on_main = record { team_id = 20; repository_id = 30; permission = TeamPermission.publish }

abbrev two_orgs : Db
two_orgs = record registry {
  organizations = acme ∷ labs ∷ [];
  org_memberships = ada_owns 10 ∷ ada_owns 11 ∷ [];
  team_repository_access = tools_on_main ∷ [];
}

abbrev ada_logged_in : AuthenticatedIdentity
ada_logged_in = record {
  user_id = 1;
  token_id = none;
  scopes = "repositories:write" ∷ "repositories:transfer" ∷ [];
  credential_kind = CredentialKind.jwt;
}

abbrev moved : Db
moved =
    log_transfer ada_logged_in 11
      (record two_orgs { team_repository_access = []; repositories = set_owner 11 main ∷ [] })

ada_may_transfer :
    ensure_repository_access_by_requirement two_orgs "main" 1
      RepositoryAccessRequirement.transfer_ownership
    ≡ ok 30
unfolding ensure_repository_access_by_requirement repositories_by_slug ◌>>=◌
    authorize_repository_write_access authorize_org_write_roles org_write_rows OrgRole.as_str
    resolve_org_write_role_access repository_team_permissions
ada_may_transfer = refl

ada_transfers :
    transfer_repository_ownership two_orgs ada_logged_in "main" "labs" ≡ ok ((main, labs), moved)
unfolding transfer_repository_ownership ensure_scope validate_slug repositories_by_slug ◌>>=◌
    organizations_by_slug repository_owner_from_fields admin_memberships OrgRole.as_str
    validate_repository_transfer_target log_transfer audit_actor_token_id update_where delete_where
ada_transfers = rw ada_may_transfer refl

abbrev same : String → String
same text = text

main-IsOwned : IsOwned main
unfolding validate_repository_kind_for_creation
main-IsOwned = record { one_owner = inr (10, refl, refl); served = refl }

two_orgs-AllOwned : AllOwned two_orgs.repositories
two_orgs-AllOwned r (Memᴰ.head e) = rw e main-IsOwned
two_orgs-AllOwned r (Memᴰ.tail m) = elim m [ ]

RepositoryHistory-AllOwned_example :
    AllOwned moved.repositories
    × ((r : Repository)
        → Memᴰ r moved.repositories
        → (owner : RepositoryOwner) × (repository_owner_from_fields r.owner_user_id r.owner_org_id
            ≡ ok owner))
RepositoryHistory-AllOwned_example = RepositoryHistory-AllOwned same two_orgs-AllOwned (
    RepositoryHistory.continues RepositoryHistory.starts
      (RepositoryStep.transfers two_orgs moved ada_logged_in "main" "labs" main labs ada_transfers))

ada_may_write : ensure_scope ada_logged_in scope_repositories_write ≡ ok tt
unfolding ensure_scope
ada_may_write = refl

main_is_valid : validate_slug "main" ≡ ok tt
unfolding validate_slug
main_is_valid = refl

create_repository-same_slug_example :
    (reply : Repository) × (db' : Db) × (create_repository same two_orgs ada_logged_in
        (plain_request "Other" "main")
        31
      ≡ ok (reply, db'))
    × (reply.slug ≡ "main")
    × (reply.owner_user_id ≡ some 1)
    × Memᴰ reply db'.repositories
    × Memᴰ main db'.repositories
create_repository-same_slug_example =
    create_repository-same_slug same two_orgs ada_logged_in "Other" 31 main refl ada_may_write
      main_is_valid (Memᴰ.head refl)
