-- ===== src/Teams/Tests.antt =====
-- A run of the handlers of teams: Ada grants a team the repository of its organization.
use publaryn.Prelude.{◌≡◌, refl, String, none, List, [], ◌∷◌, Memᴰ}
use publaryn.Error.{ok}
use publaryn.Query.{◌>>=◌}
use publaryn.Domain.OrgRole
use publaryn.Domain.OrgRole.{OrgRole}
use publaryn.Domain.TeamPermission
use publaryn.Domain.TeamPermission.{TeamPermission, from_str}
use publaryn.Auth.Identity.{AuthenticatedIdentity, CredentialKind, ensure_scope}
use publaryn.Auth.Scopes.{sort}
use publaryn.Db.{Db, OrgMembership, TeamMembership, TeamPackageAccess}
use publaryn.Access.Org.{
  ensure_org_admin_by_slug, fetch_org_id_by_slug, ensure_org_access_by_requirement,
  authorize_org_access_by_requirement, authorize_org_write_roles,
}
use publaryn.Access.Queries.{org_ids_by_slug, org_write_rows, repositories_by_slug}
use publaryn.Access.Requirements.{requires_write_role_mfa, org_access_roles}
use publaryn.Access.Outcomes.{resolve_org_write_role_access}
use publaryn.Samples.{registry, tools, bob_in_tools, bob_views, tools_publish, widget}
use publaryn.Teams.Handlers.{teams_by_slug, load_team_record}
use publaryn.Teams.Permissions.{
  normalize_team_permissions, parse_permissions, first_of_each, sort_by_name, insert_by_name,
}
use publaryn.Teams.Grants.{
  load_org_owned_repository_for_team_access, set_repository_grants, replace_team_repository_access,
}
use publaryn.Teams.Scoped.{IsScoped}
use publaryn.Teams.History.{TeamStep, TeamHistory, TeamHistory-IsScoped}

abbrev ada_owns : OrgMembership
ada_owns = record { org_id = 10; user_id = 1; role = OrgRole.owner; invited_by = none }

abbrev acme : Db
acme = record registry { org_memberships = ada_owns ∷ bob_views ∷ [] }

abbrev ada_logged_in : AuthenticatedIdentity
ada_logged_in = record {
  user_id = 1;
  token_id = none;
  scopes = "orgs:write" ∷ [];
  credential_kind = CredentialKind.jwt;
}

abbrev admin_and_publish : List TeamPermission
admin_and_publish = TeamPermission.admin ∷ TeamPermission.publish ∷ []

abbrev granted : Db
granted = set_repository_grants ada_logged_in tools 30 admin_and_publish acme

ada_is_admin : ensure_org_admin_by_slug acme "acme" 1 ≡ ok 10
unfolding ensure_org_admin_by_slug fetch_org_id_by_slug org_ids_by_slug ◌>>=◌
    ensure_org_access_by_requirement authorize_org_access_by_requirement requires_write_role_mfa
    authorize_org_write_roles org_write_rows org_access_roles OrgRole.as_str
    resolve_org_write_role_access
ada_is_admin = refl

read_permissions :
    normalize_team_permissions ("publish" ∷ "Admin" ∷ "publish" ∷ []) ≡ ok admin_and_publish
unfolding normalize_team_permissions parse_permissions first_of_each sort_by_name insert_by_name
    from_str TeamPermission.as_str
read_permissions = refl

ada_grants :
    replace_team_repository_access acme ada_logged_in "acme" "tools" "main"
      ("publish" ∷ "Admin" ∷ "publish" ∷ [])
    ≡ ok (admin_and_publish, granted)
unfolding replace_team_repository_access ensure_scope load_team_record teams_by_slug ◌>>=◌
    load_org_owned_repository_for_team_access repositories_by_slug sort TeamPermission.as_str
ada_grants = rw (ada_is_admin, read_permissions) refl

only_bob : (m : TeamMembership) → Memᴰ m acme.team_memberships → m ≡ bob_in_tools
only_bob m (Memᴰ.head e) = e
only_bob m (Memᴰ.tail n) = elim n [ ]

only_widget : (g : TeamPackageAccess) → Memᴰ g acme.team_package_access → g ≡ tools_publish
only_widget g (Memᴰ.head e) = e
only_widget g (Memᴰ.tail n) = elim n [ ]

acme-IsScoped : IsScoped acme
acme-IsScoped = record {
  members = λ m n.
      rw (only_bob m n)
        (tools, bob_views, Memᴰ.head refl, refl, Memᴰ.tail (Memᴰ.head refl), refl, refl);
  package_grants =
      λ g n. rw (only_widget g n) (tools, widget, Memᴰ.head refl, refl, Memᴰ.head refl, refl, refl);
  repository_grants = λ g n. elim n [ ];
  namespace_grants = λ g n. elim n [ ];
}

abbrev same : String → String
same text = text

TeamHistory-IsScoped_example : IsScoped granted
TeamHistory-IsScoped_example = TeamHistory-IsScoped same acme-IsScoped (
    TeamHistory.continues TeamHistory.starts (
      TeamStep.grants_repository acme granted ada_logged_in "acme" "tools" "main"
        ("publish" ∷ "Admin" ∷ "publish" ∷ []) admin_and_publish ada_grants))
