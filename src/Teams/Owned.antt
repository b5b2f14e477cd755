-- ===== src/Teams/Owned.antt =====
-- What the load_org_owned_* functions of crates/api/src/routes/orgs.rs return.
use publaryn.Prelude.{◌≡◌, String, some, Memᴰ, ◌==◌}
use publaryn.Error.{
  ok, >>=-ok_inv, >>-ok_inv, ensure, ensure-ok_inv, ok_or, ok_or-ok_inv, ok_injective, not_found,
  forbidden,
}
use publaryn.Query.{fetch_optional, fetch-mem, bind-mem_inv, only-mem_inv}
use publaryn.Db.{Db, Uuid}
use publaryn.Domain.Ecosystem
use publaryn.Domain.Ecosystem.{Ecosystem, parse_ecosystem, normalize_package_name}
use publaryn.Access.Ensured.{packages_by_name-mem_inv}
use publaryn.Access.Queries.{packages_by_name, repositories_by_slug, claims_by_id}
use publaryn.Repositories.Transfer.{repositories_by_slug-mem_inv}
use publaryn.Db.{Package, Repository, NamespaceClaim}
use publaryn.Access.Rows.{row_inv}
use publaryn.Prelude.{is_iff, ◌is◌}
use publaryn.Teams.Grants.{
  load_org_owned_package_for_team_access, load_org_owned_repository_for_team_access,
  load_org_owned_namespace_claim_for_team_access,
}

pub owned_package-mem :
    (to_lowercase : String → String) (db : Db) (org_id : Uuid) (ecosystem : Ecosystem)
    (name : String) {p : Package}
    → load_org_owned_package_for_team_access to_lowercase db org_id ecosystem name ≡ ok p
    → Memᴰ p db.packages × (p.owner_org_id ≡ some org_id)
unfolding load_org_owned_package_for_team_access
owned_package-mem to_lowercase db org_id ecosystem name h =
    let (x, found, h1) =
      >>=-ok_inv
        (ok_or
          (fetch_optional (
            packages_by_name db (Ecosystem.as_str ecosystem)
              (normalize_package_name to_lowercase name ecosystem)))
          (not_found "Package not found in ecosystem"))
        _ h in
    let (owns, h2) =
      >>-ok_inv
        (ensure (x.owner_org_id is org_id)
          (forbidden "Teams can only be granted access to packages owned by the same organization"))
        _ h1 in
    let (m, _, _) = packages_by_name-mem_inv db _ _ (fetch-mem _ (ok_or-ok_inv _ _ found)) in
    let same = ok_injective h2 in
    (rw (← same) m, rw (← same) ((is_iff _ _).0 (ensure-ok_inv _ _ owns)))

pub owned_repository-mem :
    (db : Db) (org_id : Uuid) (slug : String) {r : Repository}
    → load_org_owned_repository_for_team_access db org_id slug ≡ ok r
    → Memᴰ r db.repositories × (r.owner_org_id ≡ some org_id)
unfolding load_org_owned_repository_for_team_access
owned_repository-mem db org_id slug h =
    let (x, found, h1) =
      >>=-ok_inv
        (ok_or (fetch_optional (repositories_by_slug db slug)) (not_found "Repository not found")) _
        h in
    let (owns, h2) =
      >>-ok_inv
        (ensure (x.owner_org_id is org_id) (
          forbidden
            "Teams can only be granted access to repositories owned by the same organization"))
        _ h1 in
    let (m, _) = repositories_by_slug-mem_inv db slug (fetch-mem _ (ok_or-ok_inv _ _ found)) in
    let same = ok_injective h2 in
    (rw (← same) m, rw (← same) ((is_iff _ _).0 (ensure-ok_inv _ _ owns)))

claims_by_id-mem_inv :
    (db : Db) (id : Uuid) {c : NamespaceClaim}
    → Memᴰ c (claims_by_id db id)
    → Memᴰ c db.namespace_claims
unfolding claims_by_id
claims_by_id-mem_inv db id m =
    let (x, x_mem, inside) = bind-mem_inv db.namespace_claims _ m in
    let (test, here) = only-mem_inv (x.id == id) _ inside in rw (row_inv here) x_mem

pub owned_claim-mem :
    (db : Db) (org_id id : Uuid) {c : NamespaceClaim}
    → load_org_owned_namespace_claim_for_team_access db org_id id ≡ ok c
    → Memᴰ c db.namespace_claims × (c.owner_org_id ≡ some org_id)
unfolding load_org_owned_namespace_claim_for_team_access
owned_claim-mem db org_id id h =
    let (x, found, h1) =
      >>=-ok_inv
        (ok_or (fetch_optional (claims_by_id db id)) (not_found "Namespace claim not found")) _ h in
    let (owns, h2) =
      >>-ok_inv
        (ensure (x.owner_org_id is org_id) (
          forbidden
            "Teams can only be granted access to namespace claims owned by the same organization"))
        _ h1 in
    let m = claims_by_id-mem_inv db id (fetch-mem _ (ok_or-ok_inv _ _ found)) in
    let same = ok_injective h2 in
    (rw (← same) m, rw (← same) ((is_iff _ _).0 (ensure-ok_inv _ _ owns)))
