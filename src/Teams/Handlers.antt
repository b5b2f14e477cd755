-- ===== src/Teams/Handlers.antt =====
-- The handlers of crates/api/src/routes/orgs.rs that change a team or its members. The teams are
-- UNIQUE (org_id, slug), and the members and grants of a team are deleted with it (ON DELETE
-- CASCADE of migrations/001, 015 and 021).
use text.Mathlib.Text.{◌==◌ as str_eq}
use publaryn.Prelude.{
  String, Bool, false, not, ◌&&◌, ◌||◌, Option, none, some, List, ◌∷◌, any, ◌==◌, is_some,
  if◌then◌else◌, trim_text, is_empty,
}
use publaryn.Error.{
  Result, ok, ◌>>=◌, ◌>>◌, ensure, ok_or, not_found, validation, conflict, already_exists,
}
use publaryn.Query.{◌>>=◌ as from, ◌>>◌ as when, row, fetch_optional, exists}
use publaryn.Query.Update.{update_where, delete_where}
use publaryn.Db.{
  Db, Uuid, Team, TeamMembership, TeamPackageAccess, TeamRepositoryAccess, TeamNamespaceAccess,
  AuditLog,
}
use publaryn.Auth.Identity.{
  AuthenticatedIdentity, ensure_scope, audit_actor_token_id, scope_orgs_write,
}
use publaryn.Access.Org.{ensure_org_admin_by_slug}
use publaryn.Members.Handlers.{users_by_username, memberships}
use publaryn.Repositories.Handlers.{coalesce, or_old, validate_slug}

pub record CreateTeamRequest : Type 0 where
  pub name : String
  pub slug : String
  pub description : Option String

pub record UpdateTeamRequest : Type 0 where
  pub name : Option String
  pub description : Option String

abbrev pub is_team_slug : Uuid → String → Team → Bool
is_team_slug org_id slug t = t.org_id == org_id && str_eq t.slug slug

unfoldable pub teams_by_slug : Db → Uuid → String → List Team
teams_by_slug db org_id slug = from db.teams λ t. when (is_team_slug org_id slug t) (row t)

unfoldable pub load_team_record : Db → Uuid → String → Result Team
load_team_record db org_id team_slug =
    ok_or (fetch_optional (teams_by_slug db org_id team_slug)) (not_found "Team not found")

unfoldable pub log_team :
    String → AuthenticatedIdentity → Option Uuid → Uuid → Option Uuid → Db → Db
log_team action identity user_id org_id package_id db =
    let entry : AuditLog = record {
      action = action;
      actor_user_id = identity.user_id;
      actor_token_id = audit_actor_token_id identity;
      target_user_id = user_id;
      target_org_id = some org_id;
      target_package_id = package_id;
      target_release_id = none;
    } in
    record db { audit_logs = entry ∷ db.audit_logs }

-- `id` is the fresh `Uuid::new_v4()`. The reply is the row.
unfoldable pub create_team :
    Db → AuthenticatedIdentity → String → CreateTeamRequest → Uuid → Result (Team × Db)
create_team db identity slug body id = do
  ensure_scope identity scope_orgs_write
  validate_slug body.slug
  ensure (not (is_empty (trim_text body.name))) (validation "Team name must not be empty")
  org_id ← ensure_org_admin_by_slug db slug identity.user_id
  let team : Team = record {
    id = id;
    org_id = org_id;
    name = trim_text body.name;
    slug = body.slug;
    description = body.description;
  }
  ensure (not (any (is_team_slug org_id body.slug) db.teams))
      (already_exists "Team slug already exists in this organization")
  ok (
    team,
    log_team "team_create" identity none org_id none (record db { teams = team ∷ db.teams }),
  )

-- `is_some_and(|name| name.trim().is_empty())`.
abbrev pub is_blank : Option String → Bool
is_blank none = false
is_blank (some name) = is_empty (trim_text name)

abbrev pub trimmed : Option String → Option String
trimmed none = none
trimmed (some name) = some (trim_text name)

abbrev pub is_team : Uuid → Team → Bool
is_team id t = t.id == id

abbrev pub set_team : UpdateTeamRequest → Team → Team
set_team body t = record t {
  name = or_old (trimmed body.name) t.name;
  description = coalesce body.description t.description;
}

unfoldable pub update_team :
    Db → AuthenticatedIdentity → String → String → UpdateTeamRequest → Result Db
update_team db identity slug team_slug body = do
  ensure_scope identity scope_orgs_write
  ensure (is_some body.name || is_some body.description)
      (validation "At least one team field must be provided")
  ensure (not (is_blank body.name)) (validation "Team name must not be empty")
  org_id ← ensure_org_admin_by_slug db slug identity.user_id
  team ← load_team_record db org_id team_slug
  ok (
      log_team "team_update" identity none org_id none
        (record db { teams = update_where (is_team team.id) (set_team body) db.teams }))

abbrev pub is_member_of : Uuid → TeamMembership → Bool
is_member_of team_id m = m.team_id == team_id

abbrev pub is_package_grant_of : Uuid → TeamPackageAccess → Bool
is_package_grant_of team_id g = g.team_id == team_id

abbrev pub is_repository_grant_of : Uuid → TeamRepositoryAccess → Bool
is_repository_grant_of team_id g = g.team_id == team_id

abbrev pub is_namespace_grant_of : Uuid → TeamNamespaceAccess → Bool
is_namespace_grant_of team_id g = g.team_id == team_id

unfoldable pub delete_team : Db → AuthenticatedIdentity → String → String → Result Db
delete_team db identity slug team_slug = do
  ensure_scope identity scope_orgs_write
  org_id ← ensure_org_admin_by_slug db slug identity.user_id
  team ← load_team_record db org_id team_slug
  ok (
      log_team "team_delete" identity none org_id none (record db {
        teams = delete_where (is_team team.id) db.teams;
        team_memberships = delete_where (is_member_of team.id) db.team_memberships;
        team_package_access = delete_where (is_package_grant_of team.id) db.team_package_access;
        team_repository_access =
            delete_where (is_repository_grant_of team.id) db.team_repository_access;
        team_namespace_access =
            delete_where (is_namespace_grant_of team.id) db.team_namespace_access;
      }))

abbrev pub is_team_member : Uuid → Uuid → TeamMembership → Bool
is_team_member team_id user_id m = m.team_id == team_id && m.user_id == user_id

pub data TeamMemberReply : Type 0 where
  added already_present : TeamMemberReply

unfoldable pub join_team : AuthenticatedIdentity → Uuid → Uuid → Uuid → Db → Db
join_team identity team_id user_id org_id db =
    log_team "team_member_add" identity (some user_id) org_id none (record db {
      team_memberships = record { team_id = team_id; user_id = user_id } ∷ db.team_memberships;
    })

unfoldable pub add_team_member :
    Db → AuthenticatedIdentity → String → String → String → Result (TeamMemberReply × Db)
add_team_member db identity slug team_slug username = do
  ensure_scope identity scope_orgs_write
  org_id ← ensure_org_admin_by_slug db slug identity.user_id
  team ← load_team_record db org_id team_slug
  user ← ok_or (fetch_optional (users_by_username db username)) (not_found "User not found")
  ensure (exists (memberships db org_id user.id))
      (conflict "Team members must already belong to the organization")
  ok (
      if any (is_team_member team.id user.id) db.team_memberships
      then (TeamMemberReply.already_present, db)
      else (TeamMemberReply.added, join_team identity team.id user.id org_id db))

unfoldable pub remove_team_member :
    Db → AuthenticatedIdentity → String → String → String → Result Db
remove_team_member db identity slug team_slug username = do
  ensure_scope identity scope_orgs_write
  org_id ← ensure_org_admin_by_slug db slug identity.user_id
  team ← load_team_record db org_id team_slug
  user ← ok_or (fetch_optional (users_by_username db username)) (not_found "User not found")
  ensure (any (is_team_member team.id user.id) db.team_memberships)
      (not_found "Team membership not found")
  ok (
      log_team "team_member_remove" identity (some user.id) org_id none (record db {
        team_memberships = delete_where (is_team_member team.id user.id) db.team_memberships;
      }))
