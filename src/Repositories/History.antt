-- ===== src/Repositories/History.antt =====
-- Repositories over any history of the handlers that create, update and transfer them.
use mathlib.Core.Path.{subst}
use publaryn.Prelude.{◌≡◌, refl, sym, String, inl, inr, Memᴰ}
use publaryn.Error.{ok}
use publaryn.Db.{Db, Uuid, Organization, Repository}
use publaryn.Auth.Identity.{AuthenticatedIdentity}
use publaryn.Repositories.Handlers.{
  CreateRepositoryRequest, UpdateRepositoryRequest, RepositoryOwner, is_repository, set_owner,
  create_repository, update_repository, transfer_repository_ownership, repository_owner_from_fields,
}
use publaryn.Repositories.Owned.{
  AllOwned, IsOwned, create_repository-AllOwned, update_repository-AllOwned, update_where-AllOwned,
}
use publaryn.Repositories.Transfer.{transfer-Transferred}

-- A request that is granted. One that fails changes nothing.
pub data RepositoryStep (to_lowercase : String → String) : Db → Db → Type 0 where
  creates :
      (db db' : Db) (identity : AuthenticatedIdentity) (body : CreateRepositoryRequest) (id : Uuid)
      (reply : Repository)
      → create_repository to_lowercase db identity body id ≡ ok (reply, db')
      → RepositoryStep to_lowercase db db'
  updates :
      (db db' : Db) (identity : AuthenticatedIdentity) (slug : String)
      (body : UpdateRepositoryRequest)
      → update_repository to_lowercase db identity slug body ≡ ok db'
      → RepositoryStep to_lowercase db db'
  transfers :
      (db db' : Db) (identity : AuthenticatedIdentity) (slug target_slug : String) (r : Repository)
      (o : Organization)
      → transfer_repository_ownership db identity slug target_slug ≡ ok ((r, o), db')
      → RepositoryStep to_lowercase db db'

pub data RepositoryHistory (to_lowercase : String → String) (db : Db) : Db → Type 0 where
  starts : RepositoryHistory to_lowercase db db
  continues :
      {mid db' : Db}
      → RepositoryHistory to_lowercase db mid
      → RepositoryStep to_lowercase mid db'
      → RepositoryHistory to_lowercase db db'

step-AllOwned :
    (to_lowercase : String → String) {db db' : Db}
    → RepositoryStep to_lowercase db db'
    → AllOwned db.repositories
    → AllOwned db'.repositories
step-AllOwned to_lowercase (RepositoryStep.creates db db' identity body id reply h) owned =
    create_repository-AllOwned to_lowercase db owned identity body id h
step-AllOwned to_lowercase (RepositoryStep.updates db db' identity slug body h) owned =
    update_repository-AllOwned to_lowercase db owned identity slug body h
step-AllOwned to_lowercase (RepositoryStep.transfers db db' identity slug target_slug r o h) owned =
    let t = transfer-Transferred db identity slug target_slug h in
    subst (λ table. AllOwned table) (sym t.repositories)
      (update_where-AllOwned db.repositories (is_repository r.id) (set_owner o.id) owned
        (λ x is. record { one_owner = inr (o.id, refl, refl); served = is.served }))

owned-owner :
    (r : Repository)
    → IsOwned r
    → (owner : RepositoryOwner) × (repository_owner_from_fields r.owner_user_id r.owner_org_id
        ≡ ok owner)
unfolding repository_owner_from_fields
owned-owner r is = elim is.one_owner [
  | inl (user, u, o) ↦ (RepositoryOwner.user user, rw (u, o) refl)
  | inr (org, u, o) ↦ (RepositoryOwner.organization org, rw (u, o) refl)
]

-- Where every repository has exactly one owner, a user or an organization, and a kind that is
-- served (not proxy or virtual), so it is after any sequence of granted requests that create,
-- update or transfer a repository; the owner of every repository can then be read from its fields.
pub RepositoryHistory-AllOwned :
    (to_lowercase : String → String) {db db' : Db}
    → AllOwned db.repositories
    → RepositoryHistory to_lowercase db db'
    → AllOwned db'.repositories
      × ((r : Repository)
          → Memᴰ r db'.repositories
          → (owner : RepositoryOwner) × (repository_owner_from_fields r.owner_user_id r.owner_org_id
              ≡ ok owner))
RepositoryHistory-AllOwned to_lowercase owned RepositoryHistory.starts =
    (owned, λ r m. owned-owner r (owned r m))
RepositoryHistory-AllOwned to_lowercase owned (RepositoryHistory.continues before step) =
    let (mid, _) = RepositoryHistory-AllOwned to_lowercase owned before in
    let all = step-AllOwned to_lowercase step mid in (all, λ r m. owned-owner r (all r m))
