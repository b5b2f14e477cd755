-- ===== src/Access/Authorized/Complete.antt =====
-- The package write check misses nobody whom Access.Grants lets in.
use publaryn.Prelude.{
  ◌≡◌, refl, sym, ◌∙◌, ◌≢◌, ◌↔◌, inl, inr, some, Memᴰ, arith, is_iff, some_injective,
}
use publaryn.Db.{Db, Uuid, Package, Repository, IsKeyed, IsLinked}
use publaryn.Access.Requirements.{
  PackageAccessRequirement, package_org_roles, package_team_permissions,
  package_repository_permissions,
}
use publaryn.Access.Outcomes.{OrgWriteRoleAccess, TeamWriteAccess, TeamWriteAccess-cases}
use publaryn.Access.Queries.{
  package_grants, repository_grants, team_package_rows, team_repository_rows,
}
use publaryn.Access.Write.{
  authorize_package_write_access, actor_has_team_package_permissions,
  actor_has_team_repository_permissions,
}
use publaryn.Access.Grants.{
  MayWrite, as_owner, by_role, by_package_team, by_repository_team, TeamGrant, permission_grants,
  MfaOk,
}
use publaryn.Access.Parts.{
  authorize-ne-missing, authorize-ne-mfa, team-ne-missing, team-ne-mfa, contains-package_org_roles,
  contains-package_team_permissions, contains-package_repository_permissions,
}
use publaryn.Access.Authorized.{
  retable, package_check, role_check, package_team_check, repository_team_check,
  package_check_sound,
}

module _ (db : Db) (keyed : IsKeyed db) (linked : IsLinked db) (p : Package)
    (p_mem : Memᴰ p db.packages) (actor : Uuid) (q : PackageAccessRequirement)
    (owner_mfa : (org : Uuid) → p.owner_org_id ≡ some org → MfaOk db org actor) where
  check : TeamWriteAccess
  check = package_check db keyed linked p p_mem actor q

  by_org_role : Uuid → OrgWriteRoleAccess
  by_org_role = role_check db keyed linked p p_mem actor q

  by_team : TeamWriteAccess
  by_team = package_team_check db keyed linked p p_mem actor q

  by_repository : TeamWriteAccess
  by_repository = repository_team_check db keyed linked p p_mem actor q

  role_no_mfa :
      (org : Uuid) → p.owner_org_id ≡ some org → by_org_role org ≢ OrgWriteRoleAccess.mfa_required
  unfolding by_org_role role_check
  role_no_mfa org owned = authorize-ne-mfa db org actor _ (owner_mfa org owned)

  team_no_mfa : by_team ≢ TeamWriteAccess.mfa_required
  unfolding by_team package_team_check actor_has_team_package_permissions team_package_rows
  team_no_mfa =
      team-ne-mfa db package_grants db.team_package_access db.packages p actor
        (package_team_permissions q) keyed.package_key p_mem owner_mfa

  -- With MFA in order no earlier check stands in the way of a later one.
  after_role :
      (org : Uuid)
      → p.owner_org_id ≡ some org
      → by_team ≡ TeamWriteAccess.allowed
      → check ≡ TeamWriteAccess.allowed
  unfolding check authorize_package_write_access by_org_role by_team role_check package_team_check
  after_role org owned h = ground (arith, role_no_mfa org owned)

  after_team :
      (org : Uuid)
      → p.owner_org_id ≡ some org
      → by_repository ≡ TeamWriteAccess.allowed
      → check ≡ TeamWriteAccess.allowed
  unfolding check authorize_package_write_access by_org_role by_team by_repository role_check
      package_team_check repository_team_check
  after_team org owned h = ground (arith, role_no_mfa org owned, team_no_mfa)

  by_role_complete :
      (org : Uuid)
      → p.owner_org_id ≡ some org
      → by_org_role org ≢ OrgWriteRoleAccess.missing_role
      → check ≡ TeamWriteAccess.allowed
  unfolding check authorize_package_write_access by_org_role role_check
  by_role_complete org owned h = ground (arith, role_no_mfa org owned)

  team_complete :
      (org : Uuid)
      → p.owner_org_id ≡ some org
      → TeamGrant package_grants db db.team_package_access p actor (permission_grants q) org
      → by_team ≡ TeamWriteAccess.allowed
  unfolding by_team package_team_check actor_has_team_package_permissions team_package_rows
  team_complete org owned g = elim (TeamWriteAccess-cases by_team) [
    | inl pass ↦ pass
    | inr (inl missing) ↦ absurd (
        team-ne-missing db package_grants db.team_package_access db.packages p actor
          (package_team_permissions q) keyed.package_key p_mem org linked owned
          (retable _ _ (λ x. sym (contains-package_team_permissions q x)) g) missing)
    | inr (inr mfa) ↦ absurd (team_no_mfa mfa)
  ]

  repository_complete :
      (org : Uuid) (r : Repository)
      → Memᴰ r db.repositories
      → r.id ≡ p.repository_id
      → r.owner_org_id ≡ some org
      → TeamGrant repository_grants db db.team_repository_access r actor (permission_grants q) org
      → MfaOk db org actor
      → by_repository ≡ TeamWriteAccess.allowed
  unfolding by_repository repository_team_check actor_has_team_repository_permissions
      team_repository_rows
  repository_complete org r r_mem r_id owned g mfa = elim (TeamWriteAccess-cases by_repository) [
    | inl pass ↦ pass
    | inr (inl missing) ↦ absurd (
        team-ne-missing db repository_grants db.team_repository_access db.repositories r actor
          (package_repository_permissions q) keyed.repository_key r_mem org linked owned
          (retable _ _ (λ x. sym (contains-package_repository_permissions q x)) g)
          (rw r_id missing))
    | inr (inr asks) ↦ absurd (
        team-ne-mfa db repository_grants db.team_repository_access db.repositories r actor
          (package_repository_permissions q) keyed.repository_key r_mem
          (λ o e. rw (some_injective (sym e ∙ owned)) mfa) (rw r_id asks))
  ]

  complete : MayWrite db p actor q → check ≡ TeamWriteAccess.allowed
  unfolding check authorize_package_write_access by_org_role role_check
  complete (as_owner own) = rw ((is_iff _ _).1 own)
  complete (by_role m m_mem owned m_user grants mfa) = by_role_complete m.org_id owned (
      authorize-ne-missing db m.org_id actor (package_org_roles q) m linked m_mem refl m_user
        (contains-package_org_roles q m.role ∙ grants))
  complete (by_package_team org owned g mfa) = after_role org owned (team_complete org owned g)
  complete (by_repository_team r_org org r owned r_mem r_id r_owned g mfa) =
      after_team org owned (repository_complete r_org r r_mem r_id r_owned g mfa)

  -- Where the actor meets the MFA rule of the package's organization, the check of
  -- `ensure_package_access_by_requirement` lets in exactly those who own the package, have a
  -- fitting role in its organization, or a fitting grant through a team.
  pub package_check_iff :
      (package_check db keyed linked p p_mem actor q ≡ TeamWriteAccess.allowed)
      ↔ MayWrite db p actor q
  unfolding check
  package_check_iff = (package_check_sound db keyed linked p p_mem actor q, complete)
