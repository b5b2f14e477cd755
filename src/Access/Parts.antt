-- ===== src/Access/Parts.antt =====
-- The parts of a write check: what each outcome of a role check and of a team check means.
use publaryn.Prelude.{
  ◌≡◌, refl, ap, ◌≢◌, true, inl, inr, some, List, Memᴰ, contains, arith, Option-cases, sym, ◌∙◌,
}
use publaryn.Query.{fetch_optional, fetch-mem, fetch_of_mem}
use publaryn.Domain.OrgRole
use publaryn.Domain.OrgRole.{OrgRole}
use publaryn.Domain.TeamPermission
use publaryn.Domain.TeamPermission.{TeamPermission}
use publaryn.Db.{Db, Uuid, OrgMembership, User, Organization, IsKeyed, IsLinked}
use publaryn.Access.Requirements.{
  Names, PackageAccessRequirement, package_org_roles, package_team_permissions,
  package_repository_permissions,
}
use publaryn.Access.Outcomes.{
  OrgWriteRoleAccess, TeamWriteAccess, does_org_role_require_mfa_for_write,
  resolve_org_write_role_access, resolve_team_write_access,
}
use publaryn.Access.Queries.{GrantTable, org_write_rows, team_grant_rows}
use publaryn.Access.Org.{authorize_org_write_roles}
use publaryn.Access.Write.{resolve_team_row}
use publaryn.Access.Grants.{role_grants, permission_grants, MfaOk, TeamGrant}
use publaryn.Access.Rows.{
  org_write_rows-inv, org_write_rows-mem, team_grant_rows-inv, team_grant_rows-mem,
}

-- The lists of names say what the tables of Access.Grants say.
pub contains-package_org_roles :
    (q : PackageAccessRequirement) (r : OrgRole)
    → contains (package_org_roles q) (OrgRole.as_str r) ≡ role_grants q r
unfolding package_org_roles OrgRole.as_str
contains-package_org_roles PackageAccessRequirement.metadata_write OrgRole.owner = refl
contains-package_org_roles PackageAccessRequirement.publish OrgRole.owner = refl
contains-package_org_roles PackageAccessRequirement.admin OrgRole.owner = refl
contains-package_org_roles PackageAccessRequirement.transfer_ownership OrgRole.owner = refl
contains-package_org_roles PackageAccessRequirement.security_review OrgRole.owner = refl
contains-package_org_roles PackageAccessRequirement.management_visibility OrgRole.owner = refl
contains-package_org_roles _ _ = refl

pub contains-package_team_permissions :
    (q : PackageAccessRequirement) (p : TeamPermission)
    → contains (package_team_permissions q) (TeamPermission.as_str p) ≡ permission_grants q p
unfolding package_team_permissions TeamPermission.as_str
contains-package_team_permissions PackageAccessRequirement.metadata_write TeamPermission.admin =
    refl
contains-package_team_permissions PackageAccessRequirement.publish TeamPermission.admin = refl
contains-package_team_permissions PackageAccessRequirement.admin TeamPermission.admin = refl
contains-package_team_permissions PackageAccessRequirement.transfer_ownership TeamPermission.admin =
    refl
contains-package_team_permissions PackageAccessRequirement.security_review TeamPermission.admin =
    refl
contains-package_team_permissions PackageAccessRequirement.management_visibility
      TeamPermission.admin =
    refl
contains-package_team_permissions _ _ = refl

pub contains-package_repository_permissions :
    (q : PackageAccessRequirement) (p : TeamPermission)
    → contains (package_repository_permissions q) (TeamPermission.as_str p) ≡ permission_grants q p
unfolding package_repository_permissions TeamPermission.as_str
contains-package_repository_permissions PackageAccessRequirement.metadata_write
      TeamPermission.admin =
    refl
contains-package_repository_permissions PackageAccessRequirement.publish TeamPermission.admin = refl
contains-package_repository_permissions PackageAccessRequirement.admin TeamPermission.admin = refl
contains-package_repository_permissions PackageAccessRequirement.transfer_ownership
      TeamPermission.admin =
    refl
contains-package_repository_permissions PackageAccessRequirement.security_review
      TeamPermission.admin =
    refl
contains-package_repository_permissions PackageAccessRequirement.management_visibility
      TeamPermission.admin =
    refl
contains-package_repository_permissions _ _ = refl

-- MFA is asked of every role that the list names.
abbrev pub NeedMfa : Names → Type 0
NeedMfa roles =
    (r : OrgRole)
    → contains roles (OrgRole.as_str r) ≡ true
    → does_org_role_require_mfa_for_write (OrgRole.as_str r) ≡ true

pub package_org_roles-NeedMfa : (q : PackageAccessRequirement) → NeedMfa (package_org_roles q)
unfolding package_org_roles does_org_role_require_mfa_for_write OrgRole.as_str
package_org_roles-NeedMfa PackageAccessRequirement.metadata_write OrgRole.owner h = refl
package_org_roles-NeedMfa PackageAccessRequirement.publish OrgRole.owner h = refl
package_org_roles-NeedMfa PackageAccessRequirement.admin OrgRole.owner h = refl
package_org_roles-NeedMfa PackageAccessRequirement.transfer_ownership OrgRole.owner h = refl
package_org_roles-NeedMfa PackageAccessRequirement.security_review OrgRole.owner h = refl
package_org_roles-NeedMfa PackageAccessRequirement.management_visibility OrgRole.owner h = refl
package_org_roles-NeedMfa _ _ h = ground arith

module _ (db : Db) (keyed : IsKeyed db) (org actor : Uuid) where
  -- MFA holds where it holds of the rows joined.
  MfaOk-of_rows :
      (o : Organization) (u : User)
      → Memᴰ o db.organizations
      → Memᴰ u db.users
      → o.id ≡ org
      → u.id ≡ actor
      → (o.mfa_required ≡ true → u.mfa_enabled ≡ true)
      → MfaOk db org actor
  MfaOk-of_rows o u om um e f h o' u' om' e' um' f' =
      let same_org = keyed.org_key o o' om om' (e ∙ sym e') in
      let same_user = keyed.user_key u u' um um' (f ∙ sym f') in rw (← same_org, ← same_user) h

module _ (db : Db) (keyed : IsKeyed db) (org actor : Uuid) (roles : Names) where
  -- The role check passes only for a member with a listed role for whom the MFA rule holds.
  pub authorize-allowed_inv :
      NeedMfa roles
      → authorize_org_write_roles db org actor roles ≡ OrgWriteRoleAccess.allowed
      → (m : OrgMembership) × Memᴰ m db.org_memberships
        × (m.org_id ≡ org)
        × (m.user_id ≡ actor)
        × (contains roles (OrgRole.as_str m.role) ≡ true)
        × MfaOk db org actor
  unfolding authorize_org_write_roles resolve_org_write_role_access
  authorize-allowed_inv need h =
      elim (Option-cases (fetch_optional (org_write_rows db org actor roles))) [
        | inl missing ↦ ground arith
        | inr (y, found) ↦
            let s = org_write_rows-inv db org actor roles (fetch-mem _ found) in
            (
              s.om,
              s.om_mem,
              s.om_org,
              s.om_user,
              s.listed,
              MfaOk-of_rows db keyed org actor s.o s.u s.o_mem s.u_mem (s.o_id ∙ s.om_org)
                  (s.u_id ∙ s.om_user) (ground (arith, need s.om.role s.listed, s.is_row)),
            )
      ]

-- A role check does not miss a member with a listed role.
pub authorize-ne-missing :
    (db : Db) (org actor : Uuid) (roles : Names) (m : OrgMembership)
    → IsLinked db
    → Memᴰ m db.org_memberships
    → m.org_id ≡ org
    → m.user_id ≡ actor
    → contains roles (OrgRole.as_str m.role) ≡ true
    → authorize_org_write_roles db org actor roles ≢ OrgWriteRoleAccess.missing_role
unfolding authorize_org_write_roles resolve_org_write_role_access
authorize-ne-missing db org actor roles m linked mem e f listed h =
    let (o, o_mem, o_id) = linked.member_org m mem in
    let (u, u_mem, u_id) = linked.member_user m mem in
    let (z, found) =
      fetch_of_mem _
        (org_write_rows-mem db org actor roles m o u mem o_mem u_mem o_id u_id e f listed) in
    ground (arith, found)

-- Where the MFA rule holds of the user, no role check asks for MFA.
pub authorize-ne-mfa :
    (db : Db) (org actor : Uuid) (roles : Names)
    → MfaOk db org actor
    → authorize_org_write_roles db org actor roles ≢ OrgWriteRoleAccess.mfa_required
unfolding authorize_org_write_roles resolve_org_write_role_access
authorize-ne-mfa db org actor roles mfa h =
    elim (Option-cases (fetch_optional (org_write_rows db org actor roles))) [
      | inl missing ↦ ground arith
      | inr (y, found) ↦
          let s = org_write_rows-inv db org actor roles (fetch-mem _ found) in
          let ok = mfa s.o s.u s.o_mem (s.o_id ∙ s.om_org) s.u_mem (s.u_id ∙ s.om_user) in
          ground (arith, ok, s.is_row)
    ]

module _ {G R : Type 0} (db : Db) (table : GrantTable G R) (grants : List G) (resources : List R)
    (r : R) (actor : Uuid) (permissions : Names)
    (unique : (a b : R) → Memᴰ a resources → Memᴰ b resources → table.id a ≡ table.id b → a ≡ b)
    (r_mem : Memᴰ r resources) where
  -- The check of a team's grant on the resource `r`.
  abbrev pub team_check : TeamWriteAccess
  team_check =
      resolve_team_row
        (fetch_optional (team_grant_rows table db grants resources (table.id r) actor permissions))

  -- It passes only with a grant to a team of the resource's organization, and with MFA.
  pub team-allowed_inv :
      IsKeyed db
      → team_check ≡ TeamWriteAccess.allowed
      → (org_id : Uuid) × (table.owner_org_id r ≡ some org_id)
        × TeamGrant table db grants r actor
            (λ p. contains permissions (TeamPermission.as_str p))
            org_id
        × MfaOk db org_id actor
  unfolding resolve_team_row resolve_team_write_access
  team-allowed_inv keyed h =
      elim (Option-cases (
        fetch_optional
          (team_grant_rows table db grants resources (table.id r) actor permissions))) [
            | inl missing ↦ absurd (ground arith)
            | inr (y, found) ↦
                let s =
                  team_grant_rows-inv table db grants resources (table.id r) actor permissions
                    (fetch-mem _ found) in
                let same : s.r ≡ r = unique s.r r s.r_mem r_mem (s.r_id ∙ s.on_resource) in
                (
                  s.t.org_id,
                  ap table.owner_org_id (sym same) ∙ s.same_org,
                  record {
                    grant = s.g;
                    membership = s.tm;
                    team = s.t;
                    grant_mem = s.g_mem;
                    membership_mem = s.tm_mem;
                    team_mem = s.t_mem;
                    on_resource = s.on_resource;
                    of_team = s.t_team;
                    in_team = s.tm_team;
                    is_actor = s.is_actor;
                    of_org = refl;
                    permitted = s.listed;
                  },
                  MfaOk-of_rows db keyed s.t.org_id actor s.o s.u s.o_mem s.u_mem s.o_id
                      (s.u_id ∙ s.is_actor) (ground (arith, s.is_row)),
                )
          ]

  -- It does not miss a grant.
  pub team-ne-missing :
      (org_id : Uuid)
      → IsLinked db
      → table.owner_org_id r ≡ some org_id
      → TeamGrant table db grants r actor
          (λ p. contains permissions (TeamPermission.as_str p))
          org_id
      → team_check ≢ TeamWriteAccess.missing_permission
  unfolding resolve_team_row resolve_team_write_access
  team-ne-missing org_id linked e g h =
      let (o, o_mem, o_id) = linked.team_org g.team g.team_mem in
      let (u, u_mem, u_id) = linked.team_user g.membership g.membership_mem in
      let (z, found) = fetch_of_mem _ (
        team_grant_rows-mem table db grants resources (table.id r) actor permissions (record {
          g = g.grant;
          tm = g.membership;
          t = g.team;
          r = r;
          o = o;
          u = u;
          g_mem = g.grant_mem;
          tm_mem = g.membership_mem;
          t_mem = g.team_mem;
          r_mem = r_mem;
          o_mem = o_mem;
          u_mem = u_mem;
          tm_team = g.in_team;
          t_team = g.of_team;
          r_id = sym g.on_resource;
          o_id = o_id;
          u_id = u_id;
          on_resource = g.on_resource;
          is_actor = g.is_actor;
          same_org = e ∙ ap some (sym g.of_org);
          listed = g.permitted;
          is_row = refl;
        })) in
      ground (arith, found)

  -- Where the MFA rule of the resource's organization holds of the user, it does not ask for MFA.
  pub team-ne-mfa :
      ((org_id : Uuid) → table.owner_org_id r ≡ some org_id → MfaOk db org_id actor)
      → team_check ≢ TeamWriteAccess.mfa_required
  unfolding resolve_team_row resolve_team_write_access
  team-ne-mfa mfa h =
      elim (Option-cases (
        fetch_optional
          (team_grant_rows table db grants resources (table.id r) actor permissions))) [
            | inl missing ↦ ground arith
            | inr (y, found) ↦
                let s =
                  team_grant_rows-inv table db grants resources (table.id r) actor permissions
                    (fetch-mem _ found) in
                let same : s.r ≡ r = unique s.r r s.r_mem r_mem (s.r_id ∙ s.on_resource) in
                let ok =
                  mfa s.t.org_id (ap table.owner_org_id (sym same) ∙ s.same_org) s.o s.u s.o_mem
                    s.o_id s.u_mem (s.u_id ∙ s.is_actor) in
                ground (arith, ok, s.is_row)
          ]
