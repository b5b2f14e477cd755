-- ===== src/Repositories/Owned.antt =====
-- The owner and the kind of a repository over any history of its handlers.
use mathlib.Core.Path.{subst}
use publaryn.Prelude.{
  ◌≡◌, sym, ap, ◌⊎◌, inl, inr, String, Bool, not, ◌&&◌, Option, none, some, List, ◌∷◌, Memᴰ,
  cons-mem_inv, arith, is_some, ◌==◌,
}
use publaryn.Error.{ok, >>=-ok_inv, >>-ok_inv, ensure, ok_injective, validation, forbidden}
use publaryn.Query.Update.{update_where, update_where-mem_inv}
use publaryn.Db.{Db, Uuid, Repository}
use publaryn.Auth.Identity.{AuthenticatedIdentity, ensure_scope}
use publaryn.Access.Requirements.{OrgAccessRequirement, RepositoryAccessRequirement}
use publaryn.Access.Org.{ensure_org_access_by_requirement}
use publaryn.Access.Write.{ensure_repository_access_by_requirement}
use publaryn.Repositories.Handlers.{
  CreateRepositoryRequest, UpdateRepositoryRequest, scope_repositories_write, validate_slug,
  or_public, parse_repository_kind, parse_visibility, parse_optional_visibility,
  validate_repository_kind_for_creation, owners_for, set_fields, is_repository, create_repository,
  update_repository,
}

abbrev pub IsOneOwner : Option Uuid → Option Uuid → Type 0
IsOneOwner owner_user owner_org =
    ((user : Uuid) × (owner_user ≡ some user) × (owner_org ≡ none))
    ⊎ ((org : Uuid) × (owner_user ≡ none) × (owner_org ≡ some org))

pub record IsOwned (r : Repository) : Type 0 where
  pub one_owner : IsOneOwner r.owner_user_id r.owner_org_id
  pub served : validate_repository_kind_for_creation r.kind ≡ ok tt

abbrev pub AllOwned : List Repository → Type 0
AllOwned table = (r : Repository) → Memᴰ r table → IsOwned r

pub owners_for-IsOneOwner :
    (db : Db) (actor : Uuid) (user org : Option Uuid) {owners : Option Uuid × Option Uuid}
    → owners_for db actor user org ≡ ok owners
    → IsOneOwner owners.0 owners.1
unfolding owners_for
owners_for-IsOneOwner db actor (some u) none h =
    let (own, done) =
      >>-ok_inv
        (ensure (u == actor)
          (forbidden "You can only create user-owned repositories for your own account"))
        _ h in
    let same = ok_injective done in inl (u, sym (ap (λ p. p.0) same), sym (ap (λ p. p.1) same))
owners_for-IsOneOwner db actor none (some o) h =
    let (own, done) =
      >>-ok_inv (ensure_org_access_by_requirement db o actor OrgAccessRequirement.admin) _ h in
    let same = ok_injective done in inr (o, sym (ap (λ p. p.0) same), sym (ap (λ p. p.1) same))
owners_for-IsOneOwner db actor none none h =
    let same = ok_injective h in inl (actor, sym (ap (λ p. p.0) same), sym (ap (λ p. p.1) same))
owners_for-IsOneOwner db actor (some u) (some o) h = absurd (ground arith)

pub cons-AllOwned :
    (table : List Repository) {r : Repository} → AllOwned table → IsOwned r → AllOwned (r ∷ table)
cons-AllOwned table owned first x m = elim (cons-mem_inv m) [
  | inl e ↦ rw e first
  | inr n ↦ owned x n
]

pub update_where-AllOwned :
    (table : List Repository) (test : Repository → Bool) (set : Repository → Repository)
    → AllOwned table
    → ((r : Repository) → IsOwned r → IsOwned (set r))
    → AllOwned (update_where test set table)
update_where-AllOwned table test set owned keeps y m =
    let (x, x_mem, how) = update_where-mem_inv test set table m in
    elim how [
      | inl (hit, e) ↦ rw e (keeps x (owned x x_mem))
      | inr (miss, e) ↦ rw e (owned x x_mem)
    ]

module _ (to_lowercase : String → String) (db : Db) (owned : AllOwned db.repositories)
    (identity : AuthenticatedIdentity) where
  pub create_repository-AllOwned :
      (body : CreateRepositoryRequest) (id : Uuid) {reply : Repository} {db' : Db}
      → create_repository to_lowercase db identity body id ≡ ok (reply, db')
      → AllOwned db'.repositories
  unfolding create_repository
  create_repository-AllOwned body id h =
      let (a, h1) = >>-ok_inv (ensure_scope identity scope_repositories_write) _ h in
      let (b, h2) = >>-ok_inv (validate_slug body.slug) _ h1 in
      let (c, h3) =
        >>-ok_inv
          (ensure (not (is_some body.owner_user_id && is_some body.owner_org_id))
            (validation "Repository must belong to either a user or an organization, not both"))
          _ h2 in
      let (kind, d, h4) =
        >>=-ok_inv (parse_repository_kind to_lowercase (or_public body.kind)) _ h3 in
      let (served, h5) = >>-ok_inv (validate_repository_kind_for_creation kind) _ h4 in
      let (visibility, e, h6) =
        >>=-ok_inv (parse_visibility to_lowercase (or_public body.visibility)) _ h5 in
      let (owners, f, h7) =
        >>=-ok_inv (owners_for db identity.user_id body.owner_user_id body.owner_org_id) _ h6 in
      let one = owners_for-IsOneOwner db identity.user_id body.owner_user_id body.owner_org_id f in
      subst (λ t. AllOwned t) (ap (λ p. p.1.repositories) (ok_injective h7))
        (cons-AllOwned db.repositories owned (record { one_owner = one; served = served }))

  pub update_repository-AllOwned :
      (slug : String) (body : UpdateRepositoryRequest) {db' : Db}
      → update_repository to_lowercase db identity slug body ≡ ok db'
      → AllOwned db'.repositories
  unfolding update_repository
  update_repository-AllOwned slug body h =
      let (a, h1) = >>-ok_inv (ensure_scope identity scope_repositories_write) _ h in
      let (visibility, b, h2) =
        >>=-ok_inv (parse_optional_visibility to_lowercase body.visibility) _ h1 in
      let (id, c, h3) =
        >>=-ok_inv
          (ensure_repository_access_by_requirement db slug identity.user_id
            RepositoryAccessRequirement.admin)
          _ h2 in
      subst (λ t. AllOwned t) (ap (λ d. d.repositories) (ok_injective h3))
        (update_where-AllOwned db.repositories (is_repository id) (set_fields body visibility) owned
          (λ r o. record { one_owner = o.one_owner; served = o.served }))
