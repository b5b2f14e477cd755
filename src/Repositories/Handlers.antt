-- ===== src/Repositories/Handlers.antt =====
-- The handlers of crates/api/src/routes/repositories.rs that change a repository. No constraint
-- makes the slug unique (migrations/001_initial_schema.sql), so of the rows that share one a query
-- takes the first.
use text.Mathlib.Text.{◌==◌ as str_eq}
use publaryn.Prelude.{
  ℕ, String, Bool, true, false, not, ◌&&◌, ◌||◌, Option, none, some, List, [], ◌∷◌, leb, length,
  ◌==◌, is_some, if◌then◌else◌, contains, codes, is_lower, is_digit,
}
use publaryn.Error.{
  Result, ok, err, ◌>>=◌, ◌>>◌, ensure, ok_or, not_found, validation, conflict, forbidden, internal,
}
use publaryn.Query.{◌>>=◌ as from, ◌>>◌ as when, row, fetch_optional, exists}
use publaryn.Query.Update.{update_where, delete_where}
use publaryn.Domain.OrgRole.{as_str}
use publaryn.Domain.Repository.{Visibility, RepositoryKind}
use publaryn.Db.{Db, Uuid, Organization, OrgMembership, Repository, TeamRepositoryAccess, AuditLog}
use publaryn.Auth.Identity.{AuthenticatedIdentity, ensure_scope, audit_actor_token_id}
use publaryn.Access.Requirements.{
  OrgAccessRequirement, RepositoryAccessRequirement, org_admin_roles,
}
use publaryn.Access.Org.{ensure_org_access_by_requirement}
use publaryn.Access.Queries.{repositories_by_slug}
use publaryn.Access.Write.{ensure_repository_access_by_requirement}
use publaryn.Members.Handlers.{organizations_by_slug}

abbrev pub scope_repositories_write : String
scope_repositories_write = "repositories:write"

abbrev pub scope_repositories_transfer : String
scope_repositories_transfer = "repositories:transfer"

abbrev pub is_slug_start : ℕ → Bool
is_slug_start c = is_lower c || is_digit c

abbrev pub is_slug_rest : ℕ → Bool
is_slug_rest c = is_slug_start c || c == b'_' || c == b'-'

abbrev all_rest : List ℕ → Bool
all_rest [] = true
all_rest (c ∷ cs) = is_slug_rest c && all_rest cs

-- ^[a-z0-9][a-z0-9_-]{0,63}$
abbrev pub matches_slug : List ℕ → Bool
matches_slug [] = false
matches_slug (c ∷ cs) = is_slug_start c && leb (length cs) 63 && all_rest cs

-- `validate_slug` of crates/core/src/validation.rs.
unfoldable pub validate_slug : String → Result (Unit {0})
validate_slug slug = ensure (matches_slug (codes slug)) (validation "Invalid slug")

pub record CreateRepositoryRequest : Type 0 where
  pub name : String
  pub slug : String
  pub description : Option String
  pub kind : Option String
  pub visibility : Option String
  pub owner_user_id : Option Uuid
  pub owner_org_id : Option Uuid
  pub upstream_url : Option String

pub record UpdateRepositoryRequest : Type 0 where
  pub description : Option String
  pub visibility : Option String
  pub upstream_url : Option String

pub data RepositoryOwner : Type 0 where
  user organization : Uuid → RepositoryOwner

unfoldable pub repository_owner_from_fields : Option Uuid → Option Uuid → Result RepositoryOwner
repository_owner_from_fields (some user_id) none = ok (RepositoryOwner.user user_id)
repository_owner_from_fields none (some org_id) = ok (RepositoryOwner.organization org_id)
repository_owner_from_fields none none = err (internal "Repository owner is not set")
repository_owner_from_fields (some user_id) (some org_id) =
    err (internal "Repository owner state is invalid")

unfoldable pub validate_repository_transfer_target : RepositoryOwner → Uuid → Result (Unit {0})
validate_repository_transfer_target (RepositoryOwner.user user_id) target_org_id = ok tt
validate_repository_transfer_target (RepositoryOwner.organization org_id) target_org_id =
    ensure (not (org_id == target_org_id))
      (conflict "The selected organization already owns this repository")

unfoldable pub validate_repository_kind_for_creation : RepositoryKind → Result (Unit {0})
validate_repository_kind_for_creation RepositoryKind.proxy =
    err (conflict "Proxy and virtual repositories remain post-1.0 lifecycle work.")
validate_repository_kind_for_creation RepositoryKind.virtual =
    err (conflict "Proxy and virtual repositories remain post-1.0 lifecycle work.")
validate_repository_kind_for_creation _ = ok tt

abbrev kind_of_word : String → Result RepositoryKind
kind_of_word s =
    if str_eq s "public"
    then ok RepositoryKind.public
    else if str_eq s "private"
    then ok RepositoryKind.private
    else if str_eq s "staging"
    then ok RepositoryKind.staging
    else if str_eq s "release"
    then ok RepositoryKind.release
    else if str_eq s "proxy"
    then ok RepositoryKind.proxy
    else if str_eq s "virtual"
    then ok RepositoryKind.virtual
    else err (validation "Unknown repository kind")

abbrev visibility_of_word : String → Result Visibility
visibility_of_word s =
    if str_eq s "public"
    then ok Visibility.public
    else if str_eq s "private"
    then ok Visibility.private
    else if str_eq s "internal-org" || str_eq s "internal_org"
    then ok Visibility.internal_org
    else if str_eq s "unlisted"
    then ok Visibility.unlisted
    else if str_eq s "quarantined"
    then ok Visibility.quarantined
    else err (validation "Unknown visibility")

abbrev pub or_public : Option String → String
or_public none = "public"
or_public (some s) = s

-- The owners of a new repository, from the two fields of the request.
unfoldable pub owners_for :
    Db → Uuid → Option Uuid → Option Uuid → Result (Option Uuid × Option Uuid)
owners_for db actor (some owner_user_id) none = do
  ensure (owner_user_id == actor)
      (forbidden "You can only create user-owned repositories for your own account")
  ok (some owner_user_id, none)
owners_for db actor none (some owner_org_id) = do
  ensure_org_access_by_requirement db owner_org_id actor OrgAccessRequirement.admin
  ok (none, some owner_org_id)
owners_for db actor none none = ok (some actor, none)
owners_for db actor (some owner_user_id) (some owner_org_id) =
    err (validation "Repository must belong to either a user or an organization, not both")

-- `Option::or`, and COALESCE.
abbrev pub coalesce : {A : Type 0} → Option A → Option A → Option A
coalesce none old = old
coalesce (some a) old = some a

abbrev pub or_old : {A : Type 0} → Option A → A → A
or_old none old = old
or_old (some a) old = a

abbrev pub set_fields : UpdateRepositoryRequest → Option Visibility → Repository → Repository
set_fields body visibility r = record r {
  description = coalesce body.description r.description;
  visibility = or_old visibility r.visibility;
  upstream_url = coalesce body.upstream_url r.upstream_url;
}

abbrev pub set_owner : Uuid → Repository → Repository
set_owner org_id r = record r { owner_user_id = none; owner_org_id = some org_id }

abbrev pub is_repository : Uuid → Repository → Bool
is_repository id r = r.id == id

abbrev pub is_grant_on : Uuid → TeamRepositoryAccess → Bool
is_grant_on repository_id g = g.repository_id == repository_id

-- WHERE org_id = $1 AND user_id = $2 AND role::text = ANY($3).
unfoldable pub admin_memberships : Db → Uuid → Uuid → List OrgMembership
admin_memberships db org_id user_id = from db.org_memberships λ m.
    when (m.org_id == org_id && m.user_id == user_id && contains org_admin_roles (as_str m.role))
      (row m)

unfoldable pub log_transfer : AuthenticatedIdentity → Uuid → Db → Db
log_transfer identity org_id db =
    let entry : AuditLog = record {
      action = "repository_transfer";
      actor_user_id = identity.user_id;
      actor_token_id = audit_actor_token_id identity;
      target_user_id = none;
      target_org_id = some org_id;
      target_package_id = none;
      target_release_id = none;
    } in
    record db { audit_logs = entry ∷ db.audit_logs }

module _ (to_lowercase : String → String) where
  unfoldable pub parse_repository_kind : String → Result RepositoryKind
  parse_repository_kind input = kind_of_word (to_lowercase input)

  unfoldable pub parse_visibility : String → Result Visibility
  parse_visibility input = visibility_of_word (to_lowercase input)

  -- `.map(parse_visibility).transpose()`.
  unfoldable pub parse_optional_visibility : Option String → Result (Option Visibility)
  parse_optional_visibility none = ok none
  parse_optional_visibility (some input) = do
    visibility ← parse_visibility input
    ok (some visibility)

  -- `id` is the fresh `Uuid::new_v4()` of `Repository::new`. The reply is the row.
  unfoldable pub create_repository :
      Db → AuthenticatedIdentity → CreateRepositoryRequest → Uuid → Result (Repository × Db)
  create_repository db identity body id = do
    ensure_scope identity scope_repositories_write
    validate_slug body.slug
    ensure (not (is_some body.owner_user_id && is_some body.owner_org_id))
        (validation "Repository must belong to either a user or an organization, not both")
    kind ← parse_repository_kind (or_public body.kind)
    validate_repository_kind_for_creation kind
    visibility ← parse_visibility (or_public body.visibility)
    owners ← owners_for db identity.user_id body.owner_user_id body.owner_org_id
    let repository : Repository = record {
      id = id;
      name = body.name;
      slug = body.slug;
      description = body.description;
      kind = kind;
      visibility = visibility;
      owner_user_id = owners.0;
      owner_org_id = owners.1;
      upstream_url = body.upstream_url;
    }
    ok (repository, record db { repositories = repository ∷ db.repositories })

  unfoldable pub update_repository :
      Db → AuthenticatedIdentity → String → UpdateRepositoryRequest → Result Db
  update_repository db identity slug body = do
    ensure_scope identity scope_repositories_write
    visibility ← parse_optional_visibility body.visibility
    repository_id ←
        ensure_repository_access_by_requirement db slug identity.user_id
          RepositoryAccessRequirement.admin
    ok (record db {
      repositories =
          update_where (is_repository repository_id) (set_fields body visibility) db.repositories;
    })

-- The reply is the repository as it was and the organization that has it now.
unfoldable pub transfer_repository_ownership :
    Db → AuthenticatedIdentity → String → String → Result ((Repository × Organization) × Db)
transfer_repository_ownership db identity slug target_org_slug = do
  ensure_scope identity scope_repositories_transfer
  validate_slug target_org_slug
  allowed_id ←
      ensure_repository_access_by_requirement db slug identity.user_id
        RepositoryAccessRequirement.transfer_ownership
  repository ←
      ok_or (fetch_optional (repositories_by_slug db slug)) (not_found "Repository not found")
  current_owner ← repository_owner_from_fields repository.owner_user_id repository.owner_org_id
  target_org ←
      ok_or (fetch_optional (organizations_by_slug db target_org_slug))
        (not_found "Organization not found")
  ensure (exists (admin_memberships db target_org.id identity.user_id)) (
      forbidden
        "Transferring a repository into an organization requires owner or admin membership in the target organization")
  validate_repository_transfer_target current_owner target_org.id
  ok (
    (repository, target_org),
    log_transfer identity target_org.id (record db {
      team_repository_access = delete_where (is_grant_on repository.id) db.team_repository_access;
      repositories =
          update_where (is_repository repository.id) (set_owner target_org.id) db.repositories;
    }),
  )
