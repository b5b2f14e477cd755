-- ===== src/Teams/Kept.antt =====
-- The teams under the handlers of crates/api/src/routes/orgs.rs that change a team or remove a
-- member.
use mathlib.Core.Path.{subst}
use publaryn.Prelude.{
  ◌≡◌, refl, ap, String, not, ◌||◌, List, Memᴰ, ==_iff, and_parts, any, is_some, is_empty,
  trim_text, Bool-cases, inl, inr,
}
use publaryn.Error.{
  ok, >>=-ok_inv, >>-ok_inv, ensure, ok_or, ok_or-ok_inv, ok_injective, validation, not_found,
  already_exists,
}
use publaryn.Query.{fetch_optional, fetch-mem, bind-mem_inv, only-mem_inv}
use publaryn.Query.Update.{update_where, update_where-mem}
use publaryn.Db.{Db, Uuid, Team}
use publaryn.Auth.Identity.{AuthenticatedIdentity, ensure_scope, scope_orgs_write}
use publaryn.Repositories.Handlers.{validate_slug}
use publaryn.Access.Org.{ensure_org_admin_by_slug}
use publaryn.Access.Rows.{row_inv}
use publaryn.Members.Handlers.{users_by_username}
use publaryn.Teams.Handlers.{
  CreateTeamRequest, UpdateTeamRequest, is_team_slug, teams_by_slug, load_team_record, log_team,
  is_blank, is_team, set_team, is_team_member, create_team, update_team, delete_team,
  remove_team_member,
}
use publaryn.Teams.Scoped.{Stays, IsScoped, Stays-IsOn, deleted-IsOn, disbanded-IsOn}

pub load_team_record-mem :
    (db : Db) (org_id : Uuid) (team_slug : String) {t : Team}
    → load_team_record db org_id team_slug ≡ ok t
    → Memᴰ t db.teams × (t.org_id ≡ org_id)
unfolding load_team_record teams_by_slug
load_team_record-mem db org_id team_slug {t} h =
    let m = fetch-mem _ (ok_or-ok_inv _ _ h) in
    let (x, x_mem, inside) = bind-mem_inv db.teams _ m in
    let (test, here) = only-mem_inv (is_team_slug org_id team_slug x) _ inside in
    let (org, slug) = and_parts _ _ test in
    let same = row_inv here in (rw same x_mem, rw same ((==_iff _ _).0 org))

-- The teams are changed, each staying what it is.
pub Stays-IsScoped :
    (db db' : Db)
    → Stays db.teams db'.teams
    → db'.org_memberships ≡ db.org_memberships
    → db'.packages ≡ db.packages
    → db'.repositories ≡ db.repositories
    → db'.namespace_claims ≡ db.namespace_claims
    → db'.team_memberships ≡ db.team_memberships
    → db'.team_package_access ≡ db.team_package_access
    → db'.team_repository_access ≡ db.team_repository_access
    → db'.team_namespace_access ≡ db.team_namespace_access
    → IsScoped db
    → IsScoped db'
Stays-IsScoped db db' stays a b c d e f g h scoped = record {
  members = rw (a, e) (Stays-IsOn _ _ _ _ _ _ _ _ stays scoped.members);
  package_grants = rw (b, f) (Stays-IsOn _ _ _ _ _ _ _ _ stays scoped.package_grants);
  repository_grants = rw (c, g) (Stays-IsOn _ _ _ _ _ _ _ _ stays scoped.repository_grants);
  namespace_grants = rw (d, h) (Stays-IsOn _ _ _ _ _ _ _ _ stays scoped.namespace_grants);
}

updated-Stays :
    (teams : List Team) (team_id : Uuid) (body : UpdateTeamRequest)
    → Stays teams (update_where (is_team team_id) (set_team body) teams)
updated-Stays teams team_id body t m =
    let there = update_where-mem (is_team team_id) (set_team body) teams m in
    (
      _,
      there,
      elim (Bool-cases (is_team team_id t)) [ inl hit ↦ rw hit refl | inr miss ↦ rw miss refl ],
      elim (Bool-cases (is_team team_id t)) [ inl hit ↦ rw hit refl | inr miss ↦ rw miss refl ],
    )

module _ (db : Db) (scoped : IsScoped db) (identity : AuthenticatedIdentity) (slug : String) where
  pub create_team-IsScoped :
      (body : CreateTeamRequest) (id : Uuid) {reply : Team} {db' : Db}
      → create_team db identity slug body id ≡ ok (reply, db')
      → IsScoped db'
  unfolding create_team log_team
  create_team-IsScoped body id h =
      let (a, h1) = >>-ok_inv (ensure_scope identity scope_orgs_write) _ h in
      let (valid, h1') = >>-ok_inv (validate_slug body.slug) _ h1 in
      let (b, h2) =
        >>-ok_inv
          (ensure (not (is_empty (trim_text body.name))) (validation "Team name must not be empty"))
          _ h1' in
      let (org_id, c, h3) = >>=-ok_inv (ensure_org_admin_by_slug db slug identity.user_id) _ h2 in
      let (d, h4) =
        >>-ok_inv
          (ensure (not (any (is_team_slug org_id body.slug) db.teams))
            (already_exists "Team slug already exists in this organization"))
          _ h3 in
      subst IsScoped (ap (λ p. p.1) (ok_injective h4)) (
        Stays-IsScoped db _ (λ t m. (t, Memᴰ.tail m, refl, refl)) refl refl refl refl refl refl refl
          refl scoped)

  pub update_team-IsScoped :
      (team_slug : String) (body : UpdateTeamRequest) {db' : Db}
      → update_team db identity slug team_slug body ≡ ok db'
      → IsScoped db'
  unfolding update_team log_team
  update_team-IsScoped team_slug body h =
      let (a, h1) = >>-ok_inv (ensure_scope identity scope_orgs_write) _ h in
      let (b, h2) =
        >>-ok_inv
          (ensure (is_some body.name || is_some body.description)
            (validation "At least one team field must be provided"))
          _ h1 in
      let (c, h3) =
        >>-ok_inv (ensure (not (is_blank body.name)) (validation "Team name must not be empty")) _
          h2 in
      let (org_id, d, h4) = >>=-ok_inv (ensure_org_admin_by_slug db slug identity.user_id) _ h3 in
      let (team, e, h5) = >>=-ok_inv (load_team_record db org_id team_slug) _ h4 in
      subst IsScoped (ok_injective h5) (
        Stays-IsScoped db _ (updated-Stays db.teams team.id body) refl refl refl refl refl refl refl
          refl scoped)

  pub delete_team-IsScoped :
      (team_slug : String) {db' : Db}
      → delete_team db identity slug team_slug ≡ ok db'
      → IsScoped db'
  unfolding delete_team log_team
  delete_team-IsScoped team_slug h =
      let (a, h1) = >>-ok_inv (ensure_scope identity scope_orgs_write) _ h in
      let (org_id, b, h2) = >>=-ok_inv (ensure_org_admin_by_slug db slug identity.user_id) _ h1 in
      let (team, c, h3) = >>=-ok_inv (load_team_record db org_id team_slug) _ h2 in
      subst IsScoped (ok_injective h3) (record {
        members = disbanded-IsOn _ _ _ _ _ _ _ team.id scoped.members;
        package_grants = disbanded-IsOn _ _ _ _ _ _ _ team.id scoped.package_grants;
        repository_grants = disbanded-IsOn _ _ _ _ _ _ _ team.id scoped.repository_grants;
        namespace_grants = disbanded-IsOn _ _ _ _ _ _ _ team.id scoped.namespace_grants;
      })

  pub remove_team_member-IsScoped :
      (team_slug username : String) {db' : Db}
      → remove_team_member db identity slug team_slug username ≡ ok db'
      → IsScoped db'
  unfolding remove_team_member log_team
  remove_team_member-IsScoped team_slug username h =
      let (a, h1) = >>-ok_inv (ensure_scope identity scope_orgs_write) _ h in
      let (org_id, b, h2) = >>=-ok_inv (ensure_org_admin_by_slug db slug identity.user_id) _ h1 in
      let (team, c, h3) = >>=-ok_inv (load_team_record db org_id team_slug) _ h2 in
      let (user, d, h4) =
        >>=-ok_inv
          (ok_or (fetch_optional (users_by_username db username)) (not_found "User not found")) _
          h3 in
      let (e, h5) =
        >>-ok_inv
          (ensure (any (is_team_member team.id user.id) db.team_memberships)
            (not_found "Team membership not found"))
          _ h4 in
      subst IsScoped (ok_injective h5) (record {
        members = deleted-IsOn _ _ _ _ _ _ _ (is_team_member team.id user.id) scoped.members;
        package_grants = scoped.package_grants;
        repository_grants = scoped.repository_grants;
        namespace_grants = scoped.namespace_grants;
      })
