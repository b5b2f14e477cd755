-- ===== src/Access/Read.antt =====
-- Read access to repositories and packages.
use text.Mathlib.Text.{◌==◌ as str_eq}
use publaryn.Prelude.{
  String, Bool, true, false, ◌&&◌, ◌||◌, Option, none, some, ◌is◌, if◌then◌else◌,
}
use publaryn.Error.{Result, ok, err, ◌>>=◌, ok_or, not_found}
use publaryn.Query.{◌>>=◌ as from, ◌>>◌ as when, row, fetch_optional}
use publaryn.Prelude.{List, ◌==◌}
use publaryn.Domain.Repository.{visibility_as_str}
use publaryn.Db.{Db, Uuid, Package, Repository}
use publaryn.Access.Queries.{
  is_org_member, actor_has_any_team_package_access, actor_has_any_team_repository_access,
  packages_by_name, repositories_by_slug,
}

unfoldable pub visibility_is_discoverable : String → Bool
visibility_is_discoverable visibility = str_eq visibility "public"

unfoldable pub visibility_allows_anonymous_read : String → Bool
visibility_allows_anonymous_read visibility =
    str_eq visibility "public" || str_eq visibility "unlisted"

unfoldable pub visibility_allows_read : String → Bool → Bool
unfolding visibility_allows_anonymous_read
visibility_allows_read visibility can_view_non_public =
    can_view_non_public || visibility_allows_anonymous_read visibility

pub record RepositoryReadAccess : Type 0 where
  pub repository_id : Uuid
  pub can_view_non_public_packages : Bool

module _ (db : Db) where
  unfoldable pub actor_can_read_owned_resource : Option Uuid → Option Uuid → Option Uuid → Bool
  actor_can_read_owned_resource owner_user_id owner_org_id none = false
  actor_can_read_owned_resource owner_user_id owner_org_id (some actor_user_id) =
      if owner_user_id is actor_user_id then true else (elim owner_org_id [
        | none ↦ false
        | some org_id ↦ is_org_member db org_id actor_user_id
      ])

  -- The team's access, asked only where the owner's access is missing.
  unfoldable pub team_repository_read : Uuid → Option Uuid → Bool → Bool
  team_repository_read repository_id none already = false
  team_repository_read repository_id (some actor_user_id) already =
      if already then false else actor_has_any_team_repository_access db repository_id actor_user_id

  unfoldable pub team_package_read : Uuid → Option Uuid → Bool → Bool
  team_package_read package_id none already = false
  team_package_read package_id (some actor_user_id) already =
      if already then false else actor_has_any_team_package_access db package_id actor_user_id

  unfoldable pub ensure_repository_read_access : String → Option Uuid → Result RepositoryReadAccess
  unfolding team_repository_read
  ensure_repository_read_access slug actor_user_id = do
    r ← ok_or (fetch_optional (repositories_by_slug db slug)) (not_found "Repository not found")
    let owner_read_access =
        actor_can_read_owned_resource r.owner_user_id r.owner_org_id actor_user_id
    let can_view_non_public_packages =
        owner_read_access || team_repository_read r.id actor_user_id owner_read_access
    (if visibility_allows_read (visibility_as_str r.visibility) can_view_non_public_packages
        then ok (record {
          repository_id = r.id;
          can_view_non_public_packages = can_view_non_public_packages;
        })
        else err (not_found "Repository not found"))

  -- The JOIN of `ensure_package_read_access`: a package of that name with its repository.
  unfoldable pub packages_with_repository : String → String → List (Package × Repository)
  packages_with_repository ecosystem normalized_name =
      from (packages_by_name db ecosystem normalized_name)
        λ p. from db.repositories λ r. when (r.id == p.repository_id) (row (p, r))

  -- `ensure_package_read_access` on the joined row.
  unfoldable pub package_is_readable : Package → Repository → Option Uuid → Bool
  unfolding team_repository_read team_package_read
  package_is_readable p r actor_user_id =
      let package_owner_read_access =
        actor_can_read_owned_resource p.owner_user_id p.owner_org_id actor_user_id in
      let repository_owner_read_access =
        actor_can_read_owned_resource r.owner_user_id r.owner_org_id actor_user_id in
      let team_package_read_access =
        team_package_read p.id actor_user_id package_owner_read_access in
      let team_repository_read_access =
        team_repository_read p.repository_id actor_user_id
          (repository_owner_read_access || team_package_read_access) in
      let can_read_package_non_public =
        package_owner_read_access || team_package_read_access || team_repository_read_access in
      let can_read_repository_non_public =
        repository_owner_read_access || team_package_read_access || team_repository_read_access in
      visibility_allows_read (visibility_as_str p.visibility) can_read_package_non_public
      && visibility_allows_read (visibility_as_str r.visibility) can_read_repository_non_public

  unfoldable pub ensure_package_read_access : String → String → Option Uuid → Result Uuid
  ensure_package_read_access ecosystem normalized_name actor_user_id = do
    (p, r) ←
        ok_or (fetch_optional (packages_with_repository ecosystem normalized_name))
          (not_found "Package not found in ecosystem")
    (if package_is_readable p r actor_user_id
        then ok p.id
        else err (not_found "Package not found in ecosystem"))
