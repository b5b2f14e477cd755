-- ===== src/Access/Authorized.antt =====
-- The package write check against the description of Access.Grants.
pub mod Complete
use publaryn.Prelude.{
  ◌≡◌, refl, sym, ap, ◌∙◌, ◌≢◌, Bool, true, false, ◌⊎◌, inl, inr, Option, none, some, List, Memᴰ,
  contains, arith, Option-cases, Bool-cases, ◌is◌, is_iff,
}
use publaryn.Domain.OrgRole
use publaryn.Domain.TeamPermission
use publaryn.Domain.TeamPermission.{TeamPermission}
use publaryn.Db.{Db, Uuid, Package, Repository, OrgMembership, IsKeyed, IsLinked}
use publaryn.Access.Requirements.{
  PackageAccessRequirement, package_org_roles, package_team_permissions,
  package_repository_permissions,
}
use publaryn.Access.Outcomes.{
  OrgWriteRoleAccess, TeamWriteAccess, OrgWriteRoleAccess-cases, TeamWriteAccess-cases,
}
use publaryn.Access.Queries.{
  GrantTable, package_grants, repository_grants, team_package_rows, team_repository_rows,
  team_grant_rows,
}
use publaryn.Access.Org.{authorize_org_write_roles}
use publaryn.Access.Write.{
  authorize_package_write_access, actor_has_team_package_permissions,
  actor_has_team_repository_permissions,
}
use publaryn.Access.Grants.{
  MayWrite, as_owner, by_role, by_package_team, by_repository_team, TeamGrant, permission_grants,
  MfaOk,
}
use publaryn.Access.Parts.{
  authorize-allowed_inv, authorize-ne-missing, authorize-ne-mfa, team-allowed_inv, team-ne-missing,
  team-ne-mfa, package_org_roles-NeedMfa, contains-package_org_roles,
  contains-package_team_permissions, contains-package_repository_permissions, team_check,
}

-- A grant by an equal test of permissions.
retable :
    {G R : Type 0} {table : GrantTable G R} {db : Db} {gs : List G} {r : R} {actor org : Uuid}
    (f g : TeamPermission → Bool)
    → ((p : TeamPermission) → f p ≡ g p)
    → TeamGrant table db gs r actor f org
    → TeamGrant table db gs r actor g org
retable f g same t = record {
  grant = t.grant;
  membership = t.membership;
  team = t.team;
  grant_mem = t.grant_mem;
  membership_mem = t.membership_mem;
  team_mem = t.team_mem;
  on_resource = t.on_resource;
  of_team = t.of_team;
  in_team = t.in_team;
  is_actor = t.is_actor;
  of_org = t.of_org;
  permitted = sym (same _) ∙ t.permitted;
}

module _ (db : Db) (keyed : IsKeyed db) (linked : IsLinked db) (p : Package)
    (p_mem : Memᴰ p db.packages) (actor : Uuid) (q : PackageAccessRequirement) where
  -- The check of `ensure_package_access_by_requirement` on the row `p`.
  abbrev pub package_check : TeamWriteAccess
  package_check =
      authorize_package_write_access db p.id p.repository_id p.owner_user_id p.owner_org_id actor q

  role_check : Uuid → OrgWriteRoleAccess
  role_check org = authorize_org_write_roles db org actor (package_org_roles q)

  package_team_check : TeamWriteAccess
  package_team_check = actor_has_team_package_permissions db p.id actor (package_team_permissions q)

  repository_team_check : TeamWriteAccess
  repository_team_check =
      actor_has_team_repository_permissions db p.repository_id actor
        (package_repository_permissions q)

  role_sound :
      (org : Uuid)
      → p.owner_org_id ≡ some org
      → role_check org ≡ OrgWriteRoleAccess.allowed
      → MayWrite db p actor q
  unfolding role_check
  role_sound org owned h =
      let (m, m_mem, m_org, m_user, listed, mfa) =
        authorize-allowed_inv db keyed org actor (package_org_roles q) (package_org_roles-NeedMfa q)
          h in
      by_role m m_mem (owned ∙ ap some (sym m_org)) m_user
        (sym (contains-package_org_roles q m.role) ∙ listed) (rw m_org mfa)

  package_team_sound : package_team_check ≡ TeamWriteAccess.allowed → MayWrite db p actor q
  unfolding package_team_check actor_has_team_package_permissions team_package_rows
  package_team_sound h =
      let (org, owned, grant, mfa) =
        team-allowed_inv db package_grants db.team_package_access db.packages p actor
          (package_team_permissions q) keyed.package_key p_mem keyed h in
      by_package_team org owned (retable _ _ (contains-package_team_permissions q) grant) mfa

  repository_team_sound :
      (org : Uuid)
      → p.owner_org_id ≡ some org
      → repository_team_check ≡ TeamWriteAccess.allowed
      → MayWrite db p actor q
  unfolding repository_team_check actor_has_team_repository_permissions team_repository_rows
  repository_team_sound org owned h =
      let (r, r_mem, r_id) = linked.package_repository p p_mem in
      let (r_org, r_owned, grant, mfa) =
        team-allowed_inv db repository_grants db.team_repository_access db.repositories r actor
          (package_repository_permissions q) keyed.repository_key r_mem keyed (rw r_id h) in
      by_repository_team r_org org r owned r_mem r_id r_owned
        (retable _ _ (contains-package_repository_permissions q) grant) mfa

  org_sound :
      (org : Uuid)
      → p.owner_org_id ≡ some org
      → (p.owner_user_id is actor) ≡ false
      → package_check ≡ TeamWriteAccess.allowed
      → MayWrite db p actor q
  unfolding authorize_package_write_access role_check package_team_check repository_team_check
  org_sound org owned other h = elim (OrgWriteRoleAccess-cases (role_check org)) [
    | inl pass ↦ role_sound org owned pass
    | inr (inr mfa) ↦ ground arith
    | inr (inl missing) ↦ elim (TeamWriteAccess-cases package_team_check) [
      | inl pass ↦ package_team_sound pass
      | inr (inr mfa) ↦ ground arith
      | inr (inl missing') ↦ repository_team_sound org owned (ground arith)
    ]
  ]

  -- Write access to a package is given only to its owner, to a member of the owning organization
  -- with a fitting role, or through a fitting grant to a team, on the package or on the enclosing
  -- repository, and only where the MFA rule of that organization holds.
  pub package_check_sound : package_check ≡ TeamWriteAccess.allowed → MayWrite db p actor q
  unfolding authorize_package_write_access
  package_check_sound h = elim (Bool-cases (p.owner_user_id is actor)) [
    | inl own ↦ as_owner ((is_iff _ _).0 own)
    | inr other ↦ elim (Option-cases p.owner_org_id) [
      | inl nobody ↦ ground arith
      | inr (org, owned) ↦ org_sound org owned other h
    ]
  ]
