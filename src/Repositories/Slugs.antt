-- ===== src/Repositories/Slugs.antt =====
-- The slug of a new repository.
use publaryn.Prelude.{◌≡◌, refl, String, none, some, ◌∷◌, Memᴰ}
use publaryn.Error.{ok}
use publaryn.Domain.Repository.{Visibility, RepositoryKind}
use publaryn.Db.{Db, Uuid, Repository}
use publaryn.Auth.Identity.{AuthenticatedIdentity, ensure_scope}
use publaryn.Repositories.Handlers.{
  CreateRepositoryRequest, scope_repositories_write, validate_slug, parse_repository_kind,
  parse_visibility, owners_for, validate_repository_kind_for_creation, create_repository,
}

-- A request with a name and a slug only.
abbrev pub plain_request : String → String → CreateRepositoryRequest
plain_request name slug = record {
  name = name;
  slug = slug;
  description = none;
  kind = none;
  visibility = none;
  owner_user_id = none;
  owner_org_id = none;
  upstream_url = none;
}

abbrev plain_repository : Uuid → String → String → Uuid → Repository
plain_repository id name slug owner = record {
  id = id;
  name = name;
  slug = slug;
  description = none;
  kind = RepositoryKind.public;
  visibility = Visibility.public;
  owner_user_id = some owner;
  owner_org_id = none;
  upstream_url = none;
}

-- A slug that a repository has already is not refused: whoever has the scope creates a second
-- repository with it, owned by the caller, beside the first.
pub create_repository-same_slug :
    (to_lowercase : String → String) (db : Db) (identity : AuthenticatedIdentity) (name : String)
    (id : Uuid) (r : Repository)
    → to_lowercase "public" ≡ "public"
    → ensure_scope identity scope_repositories_write ≡ ok tt
    → validate_slug r.slug ≡ ok tt
    → Memᴰ r db.repositories
    → (reply : Repository) × (db' : Db) × (create_repository to_lowercase db identity
          (plain_request name r.slug)
          id
        ≡ ok (reply, db'))
      × (reply.slug ≡ r.slug)
      × (reply.owner_user_id ≡ some identity.user_id)
      × Memᴰ reply db'.repositories
      × Memᴰ r db'.repositories
unfolding create_repository parse_repository_kind parse_visibility owners_for
    validate_repository_kind_for_creation
create_repository-same_slug to_lowercase db identity name id r lower scoped valid m =
    let second = plain_repository id name r.slug identity.user_id in
    (
      second,
      record db { repositories = second ∷ db.repositories },
      rw (scoped, valid, lower) refl,
      refl,
      refl,
      Memᴰ.head refl,
      Memᴰ.tail m,
    )
