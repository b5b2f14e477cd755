-- ===== src/Teams/History.antt =====
-- The teams of organizations over any history of their handlers.
use publaryn.Prelude.{◌≡◌, String, List}
use publaryn.Error.{ok}
use publaryn.Domain.TeamPermission.{TeamPermission}
use publaryn.Db.{Db, Uuid, Team}
use publaryn.Auth.Identity.{AuthenticatedIdentity}
use publaryn.Teams.Handlers.{
  CreateTeamRequest, UpdateTeamRequest, TeamMemberReply, create_team, update_team, delete_team,
  add_team_member, remove_team_member,
}
use publaryn.Teams.Grants.{
  replace_team_package_access, remove_team_package_access, replace_team_repository_access,
  remove_team_repository_access, replace_team_namespace_access, remove_team_namespace_access,
}
use publaryn.Teams.Scoped.{IsScoped}
use publaryn.Teams.Kept.{
  create_team-IsScoped, update_team-IsScoped, delete_team-IsScoped, remove_team_member-IsScoped,
}
use publaryn.Teams.Granted.{
  add_team_member-IsScoped, replace_team_package_access-IsScoped,
  remove_team_package_access-IsScoped, replace_team_repository_access-IsScoped,
  remove_team_repository_access-IsScoped, replace_team_namespace_access-IsScoped,
  remove_team_namespace_access-IsScoped,
}

-- A request that is granted. One that fails changes nothing.
pub data TeamStep (to_lowercase : String → String) : Db → Db → Type 0 where
  creates :
      (db db' : Db) (identity : AuthenticatedIdentity) (slug : String) (body : CreateTeamRequest)
      (id : Uuid) (reply : Team)
      → create_team db identity slug body id ≡ ok (reply, db')
      → TeamStep to_lowercase db db'
  updates :
      (db db' : Db) (identity : AuthenticatedIdentity) (slug : String) (team_slug : String)
      (body : UpdateTeamRequest)
      → update_team db identity slug team_slug body ≡ ok db'
      → TeamStep to_lowercase db db'
  deletes :
      (db db' : Db) (identity : AuthenticatedIdentity) (slug : String) (team_slug : String)
      → delete_team db identity slug team_slug ≡ ok db'
      → TeamStep to_lowercase db db'
  adds :
      (db db' : Db) (identity : AuthenticatedIdentity) (slug : String) (team_slug username : String)
      (reply : TeamMemberReply)
      → add_team_member db identity slug team_slug username ≡ ok (reply, db')
      → TeamStep to_lowercase db db'
  removes :
      (db db' : Db) (identity : AuthenticatedIdentity) (slug : String) (team_slug username : String)
      → remove_team_member db identity slug team_slug username ≡ ok db'
      → TeamStep to_lowercase db db'
  grants_package :
      (db db' : Db) (identity : AuthenticatedIdentity) (slug : String) (team_slug : String)
      (ecosystem_str name : String) (input : List String) (reply : List TeamPermission)
      → replace_team_package_access to_lowercase db identity slug team_slug ecosystem_str name input
        ≡ ok (reply, db')
      → TeamStep to_lowercase db db'
  revokes_package :
      (db db' : Db) (identity : AuthenticatedIdentity) (slug : String) (team_slug : String)
      (ecosystem_str name : String)
      → remove_team_package_access to_lowercase db identity slug team_slug ecosystem_str name
        ≡ ok db'
      → TeamStep to_lowercase db db'
  grants_repository :
      (db db' : Db) (identity : AuthenticatedIdentity) (slug : String) (team_slug : String)
      (repository_slug : String) (input : List String) (reply : List TeamPermission)
      → replace_team_repository_access db identity slug team_slug repository_slug input
        ≡ ok (reply, db')
      → TeamStep to_lowercase db db'
  revokes_repository :
      (db db' : Db) (identity : AuthenticatedIdentity) (slug : String) (team_slug : String)
      (repository_slug : String)
      → remove_team_repository_access db identity slug team_slug repository_slug ≡ ok db'
      → TeamStep to_lowercase db db'
  grants_namespace :
      (db db' : Db) (identity : AuthenticatedIdentity) (slug : String) (team_slug : String)
      (claim_id : Uuid) (input : List String) (reply : List TeamPermission)
      → replace_team_namespace_access db identity slug team_slug claim_id input ≡ ok (reply, db')
      → TeamStep to_lowercase db db'
  revokes_namespace :
      (db db' : Db) (identity : AuthenticatedIdentity) (slug : String) (team_slug : String)
      (claim_id : Uuid)
      → remove_team_namespace_access db identity slug team_slug claim_id ≡ ok db'
      → TeamStep to_lowercase db db'

pub data TeamHistory (to_lowercase : String → String) (db : Db) : Db → Type 0 where
  starts : TeamHistory to_lowercase db db
  continues :
      {mid db' : Db}
      → TeamHistory to_lowercase db mid
      → TeamStep to_lowercase mid db'
      → TeamHistory to_lowercase db db'

step-IsScoped :
    (to_lowercase : String → String) {db db' : Db}
    → TeamStep to_lowercase db db'
    → IsScoped db
    → IsScoped db'
step-IsScoped to_lowercase (TeamStep.creates db db' identity slug body id reply h) scoped =
    create_team-IsScoped db scoped identity slug body id h
step-IsScoped to_lowercase (TeamStep.updates db db' identity slug team_slug body h) scoped =
    update_team-IsScoped db scoped identity slug team_slug body h
step-IsScoped to_lowercase (TeamStep.deletes db db' identity slug team_slug h) scoped =
    delete_team-IsScoped db scoped identity slug team_slug h
step-IsScoped to_lowercase (TeamStep.adds db db' identity slug team_slug username reply h) scoped =
    add_team_member-IsScoped db scoped identity slug team_slug username h
step-IsScoped to_lowercase (TeamStep.removes db db' identity slug team_slug username h) scoped =
    remove_team_member-IsScoped db scoped identity slug team_slug username h
step-IsScoped to_lowercase
      (TeamStep.grants_package db db' identity slug team_slug ecosystem_str name input reply h)
      scoped =
    replace_team_package_access-IsScoped db scoped identity slug to_lowercase team_slug
      ecosystem_str name input h
step-IsScoped to_lowercase
      (TeamStep.revokes_package db db' identity slug team_slug ecosystem_str name h) scoped =
    remove_team_package_access-IsScoped db scoped identity slug to_lowercase team_slug ecosystem_str
      name h
step-IsScoped to_lowercase
      (TeamStep.grants_repository db db' identity slug team_slug repository_slug input reply h)
      scoped =
    replace_team_repository_access-IsScoped db scoped identity slug team_slug repository_slug input
      h
step-IsScoped to_lowercase
      (TeamStep.revokes_repository db db' identity slug team_slug repository_slug h) scoped =
    remove_team_repository_access-IsScoped db scoped identity slug team_slug repository_slug h
step-IsScoped to_lowercase
      (TeamStep.grants_namespace db db' identity slug team_slug claim_id input reply h) scoped =
    replace_team_namespace_access-IsScoped db scoped identity slug team_slug claim_id input h
step-IsScoped to_lowercase (TeamStep.revokes_namespace db db' identity slug team_slug claim_id h)
      scoped =
    remove_team_namespace_access-IsScoped db scoped identity slug team_slug claim_id h

-- Where the members of every team are members of its organization, and the grants of every team
-- on packages, repositories and namespace claims are on ones that its organization owns, so it is
-- after any sequence of granted requests that create, update or delete a team, add or remove a
-- member, or replace or remove a grant.
pub TeamHistory-IsScoped :
    (to_lowercase : String → String) {db db' : Db}
    → IsScoped db
    → TeamHistory to_lowercase db db'
    → IsScoped db'
TeamHistory-IsScoped to_lowercase scoped TeamHistory.starts = scoped
TeamHistory-IsScoped to_lowercase scoped (TeamHistory.continues before step) =
    step-IsScoped to_lowercase step (TeamHistory-IsScoped to_lowercase scoped before)
