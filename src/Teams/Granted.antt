-- ===== src/Teams/Granted.antt =====
-- The teams under the handlers of crates/api/src/routes/orgs.rs that add a member or change a
-- grant.
use mathlib.Core.Path.{subst}
use publaryn.Prelude.{
  ◌≡◌, refl, sym, ap, ◌∙◌, String, Bool, true, false, some, List, Memᴰ, any, if◌then◌else◌,
}
use publaryn.Error.{
  ok, >>=-ok_inv, >>-ok_inv, ensure, ensure-ok_inv, ok_or, ok_injective, not_found, conflict,
}
use publaryn.Query.{fetch_optional, exists, exists-mem}
use publaryn.Domain.TeamPermission.{TeamPermission}
use publaryn.Db.{Db, Uuid, Team, OrgMembership}
use publaryn.Auth.Identity.{AuthenticatedIdentity, ensure_scope, scope_orgs_write}
use publaryn.Access.Org.{ensure_org_admin_by_slug}
use publaryn.Members.Handlers.{users_by_username, memberships}
use publaryn.Members.Rows.{memberships-mem_inv}
use publaryn.Teams.Handlers.{
  TeamMemberReply, load_team_record, log_team, is_team_member, join_team, add_team_member,
}
use publaryn.Teams.Owned.{owned_package-mem, owned_repository-mem, owned_claim-mem}
use publaryn.Teams.Kept.{load_team_record-mem}
use publaryn.Teams.Scoped.{IsScoped, deleted-IsOn, cons-IsOn, replaced-IsOn}
use publaryn.Domain.Ecosystem.{parse_ecosystem}
use publaryn.Db.{Package, Repository, NamespaceClaim}
use publaryn.Teams.Permissions.{normalize_team_permissions, normalize_namespace_team_permissions}
use publaryn.Teams.Grants.{
  is_package_grant, is_repository_grant, is_namespace_grant, package_grant, repository_grant,
  namespace_grant, same_package_grants, same_repository_grants, same_namespace_grants,
  set_package_grants, set_repository_grants, set_namespace_grants,
  load_org_owned_package_for_team_access, load_org_owned_repository_for_team_access,
  load_org_owned_namespace_claim_for_team_access, replace_team_package_access,
  remove_team_package_access, replace_team_repository_access, remove_team_repository_access,
  replace_team_namespace_access, remove_team_namespace_access,
}

if-IsScoped : (c : Bool) (a b : Db) → IsScoped a → IsScoped b → IsScoped (if c then a else b)
if-IsScoped true a b x y = x
if-IsScoped false a b x y = y

if_reply-IsScoped :
    (c : Bool) (p q : TeamMemberReply × Db)
    → IsScoped p.1
    → IsScoped q.1
    → IsScoped ((if c then p else q).1)
if_reply-IsScoped true p q x y = x
if_reply-IsScoped false p q x y = y

module _ (db : Db) (scoped : IsScoped db) (identity : AuthenticatedIdentity) (slug : String) where
  join_team-IsScoped :
      (team : Team) (user_id org_id : Uuid) (om : OrgMembership)
      → Memᴰ team db.teams
      → Memᴰ om db.org_memberships
      → om.user_id ≡ user_id
      → some om.org_id ≡ some team.org_id
      → IsScoped (join_team identity team.id user_id org_id db)
  unfolding join_team log_team
  join_team-IsScoped team user_id org_id om team_mem om_mem of_user of_org = record {
    members = cons-IsOn _ _ _ _ _ _ _ _ team om scoped.members team_mem refl om_mem of_user of_org;
    package_grants = scoped.package_grants;
    repository_grants = scoped.repository_grants;
    namespace_grants = scoped.namespace_grants;
  }

  pub add_team_member-IsScoped :
      (team_slug username : String) {reply : TeamMemberReply} {db' : Db}
      → add_team_member db identity slug team_slug username ≡ ok (reply, db')
      → IsScoped db'
  unfolding add_team_member log_team
  add_team_member-IsScoped team_slug username h =
      let (a, h1) = >>-ok_inv (ensure_scope identity scope_orgs_write) _ h in
      let (org_id, b, h2) = >>=-ok_inv (ensure_org_admin_by_slug db slug identity.user_id) _ h1 in
      let (team, c, h3) = >>=-ok_inv (load_team_record db org_id team_slug) _ h2 in
      let (user, d, h4) =
        >>=-ok_inv
          (ok_or (fetch_optional (users_by_username db username)) (not_found "User not found")) _
          h3 in
      let (belongs, h5) =
        >>-ok_inv
          (ensure (exists (memberships db org_id user.id))
            (conflict "Team members must already belong to the organization"))
          _ h4 in
      let (om, found) = exists-mem _ (ensure-ok_inv _ _ belongs) in
      let (om_mem, om_org, om_user) = memberships-mem_inv db org_id user.id found in
      let (team_mem, of_org) = load_team_record-mem db org_id team_slug c in
      subst IsScoped (ap (λ p. p.1) (ok_injective h5)) (
        if_reply-IsScoped (any (is_team_member team.id user.id) db.team_memberships)
          (TeamMemberReply.already_present, db)
          (TeamMemberReply.added, join_team identity team.id user.id org_id db) scoped
          (join_team-IsScoped team user.id org_id om team_mem om_mem om_user
            (ap some (om_org ∙ sym of_org))))

  set_package_grants-IsScoped :
      (team : Team) (target : Package) (permissions : List TeamPermission)
      → Memᴰ team db.teams
      → Memᴰ target db.packages
      → target.owner_org_id ≡ some team.org_id
      → IsScoped (set_package_grants identity team target.id permissions db)
  unfolding set_package_grants log_team
  set_package_grants-IsScoped team target permissions team_mem target_mem owned = record {
    members = scoped.members;
    package_grants =
        replaced-IsOn _ _ _ _ _ _ _ team target (is_package_grant team.id target.id)
          (package_grant team.id target.id) (λ g. g.permission) permissions scoped.package_grants
          team_mem target_mem owned (λ p. (refl, refl));
    repository_grants = scoped.repository_grants;
    namespace_grants = scoped.namespace_grants;
  }

  set_repository_grants-IsScoped :
      (team : Team) (target : Repository) (permissions : List TeamPermission)
      → Memᴰ team db.teams
      → Memᴰ target db.repositories
      → target.owner_org_id ≡ some team.org_id
      → IsScoped (set_repository_grants identity team target.id permissions db)
  unfolding set_repository_grants log_team
  set_repository_grants-IsScoped team target permissions team_mem target_mem owned = record {
    members = scoped.members;
    package_grants = scoped.package_grants;
    repository_grants =
        replaced-IsOn _ _ _ _ _ _ _ team target (is_repository_grant team.id target.id)
          (repository_grant team.id target.id) (λ g. g.permission) permissions
          scoped.repository_grants team_mem target_mem owned (λ p. (refl, refl));
    namespace_grants = scoped.namespace_grants;
  }

  set_namespace_grants-IsScoped :
      (team : Team) (target : NamespaceClaim) (permissions : List TeamPermission)
      → Memᴰ team db.teams
      → Memᴰ target db.namespace_claims
      → target.owner_org_id ≡ some team.org_id
      → IsScoped (set_namespace_grants identity team target.id permissions db)
  unfolding set_namespace_grants log_team
  set_namespace_grants-IsScoped team target permissions team_mem target_mem owned = record {
    members = scoped.members;
    package_grants = scoped.package_grants;
    repository_grants = scoped.repository_grants;
    namespace_grants =
        replaced-IsOn _ _ _ _ _ _ _ team target (is_namespace_grant team.id target.id)
          (namespace_grant team.id target.id) (λ g. g.permission) permissions
          scoped.namespace_grants team_mem target_mem owned (λ p. (refl, refl));
  }

  pub replace_team_package_access-IsScoped :
      (to_lowercase : String → String) (team_slug : String) (ecosystem_str name : String)
      (input : List String) {reply : List TeamPermission} {db' : Db}
      → replace_team_package_access to_lowercase db identity slug team_slug ecosystem_str name input
        ≡ ok (reply, db')
      → IsScoped db'
  unfolding replace_team_package_access log_team
  replace_team_package_access-IsScoped to_lowercase team_slug ecosystem_str name input h =
      let (a, h1) = >>-ok_inv (ensure_scope identity scope_orgs_write) _ h in
      let (org_id, b, h2) = >>=-ok_inv (ensure_org_admin_by_slug db slug identity.user_id) _ h1 in
      let (team, c, h3') = >>=-ok_inv (load_team_record db org_id team_slug) _ h2 in
      let (ecosystem, e0, h3) = >>=-ok_inv (parse_ecosystem to_lowercase ecosystem_str) _ h3' in
      let (target, d, h4) =
        >>=-ok_inv (load_org_owned_package_for_team_access to_lowercase db org_id ecosystem name) _
          h3 in
      let (permissions, e, h5) = >>=-ok_inv (normalize_team_permissions input) _ h4 in
      let (team_mem, of_org) = load_team_record-mem db org_id team_slug c in
      let (target_mem, owned) = owned_package-mem to_lowercase db org_id ecosystem name d in
      subst IsScoped (ap (λ p. p.1) (ok_injective h5)) (
        if-IsScoped (same_package_grants team target.id permissions db) db
          (set_package_grants identity team target.id permissions db) scoped
          (set_package_grants-IsScoped team target permissions team_mem target_mem
            (rw of_org owned)))

  pub remove_team_package_access-IsScoped :
      (to_lowercase : String → String) (team_slug : String) (ecosystem_str name : String) {db' : Db}
      → remove_team_package_access to_lowercase db identity slug team_slug ecosystem_str name
        ≡ ok db'
      → IsScoped db'
  unfolding remove_team_package_access log_team
  remove_team_package_access-IsScoped to_lowercase team_slug ecosystem_str name h =
      let (a, h1) = >>-ok_inv (ensure_scope identity scope_orgs_write) _ h in
      let (org_id, b, h2) = >>=-ok_inv (ensure_org_admin_by_slug db slug identity.user_id) _ h1 in
      let (team, c, h3') = >>=-ok_inv (load_team_record db org_id team_slug) _ h2 in
      let (ecosystem, e0, h3) = >>=-ok_inv (parse_ecosystem to_lowercase ecosystem_str) _ h3' in
      let (target, d, h4) =
        >>=-ok_inv (load_org_owned_package_for_team_access to_lowercase db org_id ecosystem name) _
          h3 in
      let (e, h5) =
        >>-ok_inv
          (ensure (any (is_package_grant team.id target.id) db.team_package_access)
            (not_found "Team package access not found"))
          _ h4 in
      subst IsScoped (ok_injective h5) (record {
        members = scoped.members;
        package_grants =
            deleted-IsOn _ _ _ _ _ _ _ (is_package_grant team.id target.id) scoped.package_grants;
        repository_grants = scoped.repository_grants;
        namespace_grants = scoped.namespace_grants;
      })

  pub replace_team_repository_access-IsScoped :
      (team_slug : String) (repository_slug : String) (input : List String)
      {reply : List TeamPermission} {db' : Db}
      → replace_team_repository_access db identity slug team_slug repository_slug input
        ≡ ok (reply, db')
      → IsScoped db'
  unfolding replace_team_repository_access log_team
  replace_team_repository_access-IsScoped team_slug repository_slug input h =
      let (a, h1) = >>-ok_inv (ensure_scope identity scope_orgs_write) _ h in
      let (org_id, b, h2) = >>=-ok_inv (ensure_org_admin_by_slug db slug identity.user_id) _ h1 in
      let (team, c, h3) = >>=-ok_inv (load_team_record db org_id team_slug) _ h2 in
      let (target, d, h4) =
        >>=-ok_inv (load_org_owned_repository_for_team_access db org_id repository_slug) _ h3 in
      let (permissions, e, h5) = >>=-ok_inv (normalize_team_permissions input) _ h4 in
      let (team_mem, of_org) = load_team_record-mem db org_id team_slug c in
      let (target_mem, owned) = owned_repository-mem db org_id repository_slug d in
      subst IsScoped (ap (λ p. p.1) (ok_injective h5)) (
        if-IsScoped (same_repository_grants team target.id permissions db) db
          (set_repository_grants identity team target.id permissions db) scoped
          (set_repository_grants-IsScoped team target permissions team_mem target_mem
            (rw of_org owned)))

  pub remove_team_repository_access-IsScoped :
      (team_slug : String) (repository_slug : String) {db' : Db}
      → remove_team_repository_access db identity slug team_slug repository_slug ≡ ok db'
      → IsScoped db'
  unfolding remove_team_repository_access log_team
  remove_team_repository_access-IsScoped team_slug repository_slug h =
      let (a, h1) = >>-ok_inv (ensure_scope identity scope_orgs_write) _ h in
      let (org_id, b, h2) = >>=-ok_inv (ensure_org_admin_by_slug db slug identity.user_id) _ h1 in
      let (team, c, h3) = >>=-ok_inv (load_team_record db org_id team_slug) _ h2 in
      let (target, d, h4) =
        >>=-ok_inv (load_org_owned_repository_for_team_access db org_id repository_slug) _ h3 in
      let (e, h5) =
        >>-ok_inv
          (ensure (any (is_repository_grant team.id target.id) db.team_repository_access)
            (not_found "Team repository access not found"))
          _ h4 in
      subst IsScoped (ok_injective h5) (record {
        members = scoped.members;
        package_grants = scoped.package_grants;
        repository_grants =
            deleted-IsOn _ _ _ _ _ _ _ (is_repository_grant team.id target.id)
              scoped.repository_grants;
        namespace_grants = scoped.namespace_grants;
      })

  pub replace_team_namespace_access-IsScoped :
      (team_slug : String) (claim_id : Uuid) (input : List String) {reply : List TeamPermission}
      {db' : Db}
      → replace_team_namespace_access db identity slug team_slug claim_id input ≡ ok (reply, db')
      → IsScoped db'
  unfolding replace_team_namespace_access log_team
  replace_team_namespace_access-IsScoped team_slug claim_id input h =
      let (a, h1) = >>-ok_inv (ensure_scope identity scope_orgs_write) _ h in
      let (org_id, b, h2) = >>=-ok_inv (ensure_org_admin_by_slug db slug identity.user_id) _ h1 in
      let (team, c, h3) = >>=-ok_inv (load_team_record db org_id team_slug) _ h2 in
      let (target, d, h4) =
        >>=-ok_inv (load_org_owned_namespace_claim_for_team_access db org_id claim_id) _ h3 in
      let (permissions, e, h5) = >>=-ok_inv (normalize_namespace_team_permissions input) _ h4 in
      let (team_mem, of_org) = load_team_record-mem db org_id team_slug c in
      let (target_mem, owned) = owned_claim-mem db org_id claim_id d in
      subst IsScoped (ap (λ p. p.1) (ok_injective h5)) (
        if-IsScoped (same_namespace_grants team target.id permissions db) db
          (set_namespace_grants identity team target.id permissions db) scoped
          (set_namespace_grants-IsScoped team target permissions team_mem target_mem
            (rw of_org owned)))

  pub remove_team_namespace_access-IsScoped :
      (team_slug : String) (claim_id : Uuid) {db' : Db}
      → remove_team_namespace_access db identity slug team_slug claim_id ≡ ok db'
      → IsScoped db'
  unfolding remove_team_namespace_access log_team
  remove_team_namespace_access-IsScoped team_slug claim_id h =
      let (a, h1) = >>-ok_inv (ensure_scope identity scope_orgs_write) _ h in
      let (org_id, b, h2) = >>=-ok_inv (ensure_org_admin_by_slug db slug identity.user_id) _ h1 in
      let (team, c, h3) = >>=-ok_inv (load_team_record db org_id team_slug) _ h2 in
      let (target, d, h4) =
        >>=-ok_inv (load_org_owned_namespace_claim_for_team_access db org_id claim_id) _ h3 in
      let (e, h5) =
        >>-ok_inv
          (ensure (any (is_namespace_grant team.id target.id) db.team_namespace_access)
            (not_found "Team namespace access not found"))
          _ h4 in
      subst IsScoped (ok_injective h5) (record {
        members = scoped.members;
        package_grants = scoped.package_grants;
        repository_grants = scoped.repository_grants;
        namespace_grants =
            deleted-IsOn _ _ _ _ _ _ _ (is_namespace_grant team.id target.id)
              scoped.namespace_grants;
      })
