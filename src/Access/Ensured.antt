-- ===== src/Access/Ensured.antt =====
-- What the `ensure_*_access` functions promise of the rows whose ids they return.
use publaryn.Prelude.{◌≡◌, refl, String, ◌&&◌, Memᴰ, arith, and_parts, eq_iff}
use text.Mathlib.Text.{◌==◌ as str_eq}
use publaryn.Query.{fetch-mem, bind-mem_inv, only-mem_inv}
use publaryn.Error.{ok, >>=-ok_inv, ok_or-ok_inv}
use publaryn.Db.{Db, Uuid, Package, IsKeyed, IsLinked}
use publaryn.Access.Requirements.{PackageAccessRequirement}
use publaryn.Access.Outcomes.{TeamWriteAccess}
use publaryn.Access.Rows.{row_inv}
use publaryn.Access.Queries.{packages_by_name}
use publaryn.Access.Write.{ensure_package_access_by_requirement, ensure_allowed}
use publaryn.Access.Grants.{MayWrite}
use publaryn.Access.Authorized.{package_check_sound}

ensure_allowed-ok_inv :
    {A : Type 0} {a b : A} (denial : String) (access : TeamWriteAccess)
    → ensure_allowed a denial access ≡ ok b
    → (access ≡ TeamWriteAccess.allowed) × (a ≡ b)
unfolding ensure_allowed
ensure_allowed-ok_inv denial TeamWriteAccess.allowed h = (refl, ground arith)
ensure_allowed-ok_inv denial TeamWriteAccess.mfa_required h = ground arith
ensure_allowed-ok_inv denial TeamWriteAccess.missing_permission h = ground arith

pub packages_by_name-mem_inv :
    (db : Db) (ecosystem name : String) {p : Package}
    → Memᴰ p (packages_by_name db ecosystem name)
    → Memᴰ p db.packages × (p.ecosystem ≡ ecosystem) × (p.normalized_name ≡ name)
unfolding packages_by_name
packages_by_name-mem_inv db ecosystem name {p} m =
    let (x, x_mem, inside) = bind-mem_inv db.packages _ m in
    let (test, here) =
      only-mem_inv (str_eq x.ecosystem ecosystem && str_eq x.normalized_name name) _ inside in
    let (e, n) = and_parts _ _ test in
    let same = row_inv here in
    (rw same x_mem, rw same ((eq_iff _ _).0 e), rw same ((eq_iff _ _).0 n))

-- A package id that `ensure_package_access_by_requirement` returns is that of a package with the
-- asked ecosystem and name, on which the actor may act, given the keys and foreign keys of the
-- tables.
pub ensure_package_access_sound :
    (db : Db) (keyed : IsKeyed db) (linked : IsLinked db) (ecosystem name : String) (actor : Uuid)
    (q : PackageAccessRequirement) (id : Uuid)
    → ensure_package_access_by_requirement db ecosystem name actor q ≡ ok id
    → (p : Package) × Memᴰ p db.packages
      × (p.ecosystem ≡ ecosystem)
      × (p.normalized_name ≡ name)
      × (p.id ≡ id)
      × MayWrite db p actor q
unfolding ensure_package_access_by_requirement
ensure_package_access_sound db keyed linked ecosystem name actor q id h =
    let (p, found, allowed) = >>=-ok_inv _ _ h in
    let (p_mem, e, n) =
      packages_by_name-mem_inv db ecosystem name (fetch-mem _ (ok_or-ok_inv _ _ found)) in
    let (pass, same) = ensure_allowed-ok_inv _ _ allowed in
    (p, p_mem, e, n, same, package_check_sound db keyed linked p p_mem actor q pass)
