-- ===== src/Access/Grants.antt =====
-- Who may write: the abstract description that the checks of Access.Write are measured against.
use publaryn.Prelude.{◌≡◌, Bool, true, false, some, List, Memᴰ}
use publaryn.Domain.OrgRole.{OrgRole, owner, admin, maintainer, publisher}
use publaryn.Domain.TeamPermission.{TeamPermission}
use publaryn.Db.{
  Db, Uuid, User, Organization, OrgMembership, Team, TeamMembership, Package, Repository,
}
use publaryn.Access.Requirements.{PackageAccessRequirement}
use publaryn.Access.Queries.{GrantTable, package_grants, repository_grants}

-- Owners and admins may do everything, maintainers edit and publish, publishers publish.
abbrev pub role_grants : PackageAccessRequirement → OrgRole → Bool
role_grants _ owner = true
role_grants _ admin = true
role_grants PackageAccessRequirement.metadata_write maintainer = true
role_grants PackageAccessRequirement.publish maintainer = true
role_grants PackageAccessRequirement.publish publisher = true
role_grants PackageAccessRequirement.management_visibility maintainer = true
role_grants PackageAccessRequirement.management_visibility publisher = true
role_grants _ _ = false

-- The `admin` permission stands for every other, but reading alone manages nothing.
abbrev pub permission_grants : PackageAccessRequirement → TeamPermission → Bool
permission_grants _ TeamPermission.admin = true
permission_grants PackageAccessRequirement.metadata_write TeamPermission.write_metadata = true
permission_grants PackageAccessRequirement.publish TeamPermission.publish = true
permission_grants PackageAccessRequirement.transfer_ownership TeamPermission.transfer_ownership =
    true
permission_grants PackageAccessRequirement.security_review TeamPermission.security_review = true
permission_grants PackageAccessRequirement.management_visibility TeamPermission.read_private = false
permission_grants PackageAccessRequirement.management_visibility _ = true
permission_grants _ _ = false

-- Where the organization requires MFA, the user has it enabled.
abbrev pub MfaOk : Db → Uuid → Uuid → Type 0
MfaOk db org_id user_id =
    (o : Organization) (u : User)
    → Memᴰ o db.organizations
    → o.id ≡ org_id
    → Memᴰ u db.users
    → u.id ≡ user_id
    → o.mfa_required ≡ true
    → u.mfa_enabled ≡ true

-- A team of the organization `org_id` has the actor as a member and holds a grant on the resource
-- `r` with a permission that `grants` accepts.
pub record TeamGrant {G R : Type 0} (table : GrantTable G R) (db : Db) (all_grants : List G) (r : R)
    (actor : Uuid) (grants : TeamPermission → Bool) (org_id : Uuid) : Type 0 where
  pub grant : G
  pub membership : TeamMembership
  pub team : Team
  pub grant_mem : Memᴰ grant all_grants
  pub membership_mem : Memᴰ membership db.team_memberships
  pub team_mem : Memᴰ team db.teams
  pub on_resource : table.resource_id grant ≡ table.id r
  pub of_team : team.id ≡ table.team_id grant
  pub in_team : membership.team_id ≡ table.team_id grant
  pub is_actor : membership.user_id ≡ actor
  pub of_org : team.org_id ≡ org_id
  pub permitted : grants (table.permission grant) ≡ true

-- The ways in which `actor` may act on package `p`. Each names the organization whose MFA rule
-- counts: the package's owner, but for a grant on the enclosing repository the repository's owner.
pub data MayWrite (db : Db) (p : Package) (actor : Uuid) (q : PackageAccessRequirement)
    : Type 0 where
  as_owner : p.owner_user_id ≡ some actor → MayWrite db p actor q
  by_role :
      (m : OrgMembership)
      → Memᴰ m db.org_memberships
      → p.owner_org_id ≡ some m.org_id
      → m.user_id ≡ actor
      → role_grants q m.role ≡ true
      → MfaOk db m.org_id actor
      → MayWrite db p actor q
  by_package_team :
      (org_id : Uuid)
      → p.owner_org_id ≡ some org_id
      → TeamGrant package_grants db db.team_package_access p actor (permission_grants q) org_id
      → MfaOk db org_id actor
      → MayWrite db p actor q
  by_repository_team :
      (org_id owner_org_id : Uuid) (r : Repository)
      → p.owner_org_id ≡ some owner_org_id
      → Memᴰ r db.repositories
      → r.id ≡ p.repository_id
      → r.owner_org_id ≡ some org_id
      → TeamGrant repository_grants db db.team_repository_access r actor
          (permission_grants q)
          org_id
      → MfaOk db org_id actor
      → MayWrite db p actor q
