-- ===== src/Releases/Reading.antt =====
-- `ensure_release_read_access` of crates/api/src/routes/packages.rs, and the check of request_auth
-- that it asks for the releases that are not shown to everyone.
mod Tests
use mathlib.Core.Path.{subst}
use publaryn.Prelude.{
  ◌≡◌, refl, sym, ap, ◌∙◌, String, Bool, true, false, ◌⊎◌, inl, inr, Option, none, some, Memᴰ,
  Bool-cases, arith, ◌==◌, ==_iff, if◌then◌else◌,
}
use publaryn.Error.{Result, ok, err, ◌>>=◌, >>=-ok_inv, ok_or-ok_inv, ok_injective, not_found}
use publaryn.Query.{fetch-mem, bind-mem_inv, only-mem_inv}
use publaryn.Domain.Ecosystem.{Ecosystem, as_str, normalize_package_name}
use publaryn.Db.{Db, Uuid, Release, Package, Repository, IsKeyed, IsLinked}
use publaryn.Access.Rows.{row_inv}
use publaryn.Access.Queries.{packages_by_id}
use publaryn.Access.Requirements.{PackageAccessRequirement}
use publaryn.Access.Outcomes.{TeamWriteAccess, is_write_access_allowed}
use publaryn.Access.Write.{authorize_package_write_access, actor_can_package_by_id_and_requirement}
use publaryn.Access.Grants.{MayWrite}
use publaryn.Access.Authorized.{package_check_sound}
use publaryn.Access.Read.{ensure_package_read_access}
use publaryn.Access.Readers.{IsInsider, Openly, ensure_package_read_access_sound}
use publaryn.Releases.Status.{release_status_allows_direct_read}
use publaryn.Releases.Rows.{load_release_for_write}
use publaryn.Releases.Effects.{load_release-inv}

module _ (to_lowercase : String → String) (db : Db) where
  unfoldable pub actor_can_write_package_by_id : Uuid → Option Uuid → Result Bool
  actor_can_write_package_by_id package_id actor_user_id =
      actor_can_package_by_id_and_requirement db package_id actor_user_id
        PackageAccessRequirement.management_visibility

  unfoldable pub ensure_release_read_access :
      Ecosystem → String → String → Option Uuid → Result Release
  ensure_release_read_access ecosystem package_name version actor_user_id = do
    let normalized = normalize_package_name to_lowercase package_name ecosystem
    package_id ← ensure_package_read_access db (as_str ecosystem) normalized actor_user_id
    release ← load_release_for_write db package_id version
    (if release_status_allows_direct_read release.status then ok release else (do
      can_write ← actor_can_write_package_by_id package_id actor_user_id
      (if can_write then ok release else err (not_found "Release not found for package"))))

is_allowed-inv :
    (access : TeamWriteAccess)
    → is_write_access_allowed access ≡ true
    → access ≡ TeamWriteAccess.allowed
unfolding is_write_access_allowed
is_allowed-inv access h = ground arith

packages_by_id-mem_inv :
    (db : Db) (id : Uuid) {p : Package}
    → Memᴰ p (packages_by_id db id)
    → Memᴰ p db.packages × (p.id ≡ id)
unfolding packages_by_id
packages_by_id-mem_inv db id {p} m =
    let (x, x_mem, inside) = bind-mem_inv db.packages _ m in
    let (test, here) = only-mem_inv (x.id == id) _ inside in
    let same = row_inv here in (rw same x_mem, rw same ((==_iff _ _).0 test))

-- The caller is logged in, and may manage the package of that id.
abbrev pub IsManager : Db → Uuid → Option Uuid → Type 0
IsManager db package_id caller =
    (actor : Uuid) × (caller ≡ some actor)
    × ((p : Package) × Memᴰ p db.packages
        × (p.id ≡ package_id)
        × MayWrite db p actor PackageAccessRequirement.management_visibility)

module _ (db : Db) (keyed : IsKeyed db) (linked : IsLinked db) where
  actor_can-inv :
      (id : Uuid) (caller : Option Uuid)
      → actor_can_package_by_id_and_requirement db id caller
          PackageAccessRequirement.management_visibility
        ≡ ok true
      → IsManager db id caller
  unfolding actor_can_package_by_id_and_requirement
  actor_can-inv id none h = ground arith
  actor_can-inv id (some actor) h =
      let (p, found, allowed) = >>=-ok_inv _ _ h in
      let (p_mem, p_id) = packages_by_id-mem_inv db id (fetch-mem _ (ok_or-ok_inv _ _ found)) in
      let pass = is_allowed-inv _ (ok_injective allowed) in
      (
        actor,
        refl,
        (
          p,
          p_mem,
          p_id,
          package_check_sound db keyed linked p p_mem actor
              PackageAccessRequirement.management_visibility (rw p_id pass),
        ),
      )

module _ (to_lowercase : String → String) (db : Db) (keyed : IsKeyed db)
    (linked : IsLinked db) where
  -- Why a caller is shown a release: its status is one that readers see, or the caller manages its
  -- package.
  shown_because :
      (id : Uuid) (caller : Option Uuid) (x : Release) {r : Release}
      → (if release_status_allows_direct_read x.status then ok x else (do
        can_write ← actor_can_write_package_by_id to_lowercase db id caller
        (if can_write then ok x else err (not_found "Release not found for package"))))
        ≡ ok r
      → (x ≡ r) × ((release_status_allows_direct_read x.status ≡ true) ⊎ IsManager db id caller)
  unfolding actor_can_write_package_by_id
  shown_because id caller x {r} h = elim (Bool-cases (release_status_allows_direct_read x.status)) [
    | inl direct ↦ (ground arith, inl direct)
    | inr shut ↦
        let asked : (actor_can_write_package_by_id to_lowercase db id caller >>= λ can_write.
        if can_write then ok x else err (not_found "Release not found for package"))
            ≡ ok r =
          subst
            (λ b.
              (if b
                then ok x
                else (actor_can_write_package_by_id to_lowercase db id caller >>= λ can_write.
                    if can_write then ok x else err (not_found "Release not found for package")))
              ≡ ok r)
            shut h in
        let (can, answer, h1) =
          >>=-ok_inv (actor_can_write_package_by_id to_lowercase db id caller) _ asked in
        elim (Bool-cases can) [
          | inl may ↦ (
            ground arith,
            inr (
                actor_can-inv db keyed linked id caller (
                  subst (λ b. actor_can_write_package_by_id to_lowercase db id caller ≡ ok b) may
                    answer)),
          )
          | inr barred ↦ ground arith
        ]
  ]

  -- A release that `ensure_release_read_access` gives to a caller has the asked version, and belongs
  -- to the package of the asked ecosystem and normalised name. That package and its repository are
  -- both public or unlisted, or the caller is an insider of them; and the release is published,
  -- deprecated or yanked, or the caller may manage the package, given the keys and foreign keys of
  -- the tables.
  pub ensure_release_read_access_sound :
      (eco : Ecosystem) (name version : String) (caller : Option Uuid) (release : Release)
      → ensure_release_read_access to_lowercase db eco name version caller ≡ ok release
      → Memᴰ release db.releases
        × (release.version ≡ version)
        × ((p : Package) × (r : Repository) × Memᴰ p db.packages
            × (p.ecosystem ≡ as_str eco)
            × (p.normalized_name ≡ normalize_package_name to_lowercase name eco)
            × (release.package_id ≡ p.id)
            × (r.id ≡ p.repository_id)
            × (Openly db p r ⊎ ((actor : Uuid) × (caller ≡ some actor) × IsInsider db p r actor)))
        × ((release_status_allows_direct_read release.status ≡ true)
            ⊎ IsManager db release.package_id caller)
  unfolding ensure_release_read_access
  ensure_release_read_access_sound eco name version caller release h =
      let normalized = normalize_package_name to_lowercase name eco in
      let (id, found, h1) =
        >>=-ok_inv (ensure_package_read_access db (as_str eco) normalized caller) _ h in
      let (p, r, p_mem, _, p_eco, p_name, p_id, r_id, why) =
        ensure_package_read_access_sound db (as_str eco) normalized caller id found in
      let (x, loaded, h2) = >>=-ok_inv (load_release_for_write db id version) _ h1 in
      let (x_mem, x_package, x_version) = load_release-inv db id version loaded in
      let (same, shown) = shown_because id caller x h2 in
      let about : x.package_id ≡ p.id = x_package ∙ sym p_id in
      subst
        (λ z.
          Memᴰ z db.releases
          × (z.version ≡ version)
          × ((p : Package) × (r : Repository) × Memᴰ p db.packages
              × (p.ecosystem ≡ as_str eco)
              × (p.normalized_name ≡ normalized)
              × (z.package_id ≡ p.id)
              × (r.id ≡ p.repository_id)
              × (Openly db p r ⊎ ((actor : Uuid) × (caller ≡ some actor) × IsInsider db p r actor)))
          × ((release_status_allows_direct_read z.status ≡ true)
              ⊎ IsManager db z.package_id caller))
        same
        (
          x_mem,
          x_version,
          (p, r, p_mem, p_eco, p_name, about, r_id, why),
          subst (λ i. (release_status_allows_direct_read x.status ≡ true) ⊎ IsManager db i caller)
              (sym x_package) shown,
        )
