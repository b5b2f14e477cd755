-- ===== src/Releases/Effects.antt =====
-- Who may call the release handlers, and what they leave behind.
use mathlib.Core.Path.{subst}
use publaryn.Prelude.{
  ◌≡◌, refl, sym, ◌∙◌, ap, String, true, false, some, none, ◌∷◌, Memᴰ, and_parts, ◌==◌, ==_iff,
  contains, eq_iff,
}
use publaryn.Error.{
  Result, ok, >>=-ok_inv, >>-ok_inv, ok_injective, reply-ok_inv, ensure-ok_inv, ok_or-ok_inv,
  ensure, conflict,
}
use publaryn.Query.{fetch-mem, bind-mem_inv, only-mem_inv}
use publaryn.Query.Update.{updated-mem}
use publaryn.Domain.Release.{ReleaseStatus}
use publaryn.Domain.Ecosystem.{as_str, parse_ecosystem, normalize_package_name}
use publaryn.Db.{Db, Uuid, Release, Package, AuditLog, IsKeyed, IsLinked}
use publaryn.Auth.Identity.{
  AuthenticatedIdentity, ensure_scope, scope_packages_write, audit_actor_token_id,
}
use publaryn.Access.Rows.{row_inv}
use publaryn.Access.Requirements.{PackageAccessRequirement}
use publaryn.Access.Grants.{MayWrite}
use publaryn.Access.Ensured.{ensure_package_access_sound}
use publaryn.Releases.Status.{release_status_after_unyank}
use publaryn.Releases.Rows.{
  is_version, releases_by_version, load_release_for_write, owner_org_of, set_unyanked,
  update_releases, log_release,
}
use publaryn.Releases.Handlers.{ReleasePath, package_for_publish, unyank_release}

pub load_release-inv :
    (db : Db) (package_id : Uuid) (version : String) {r : Release}
    → load_release_for_write db package_id version ≡ ok r
    → Memᴰ r db.releases × (r.package_id ≡ package_id) × (r.version ≡ version)
unfolding load_release_for_write releases_by_version
load_release-inv db package_id version {r} h =
    let (x, x_mem, m) = bind-mem_inv db.releases _ (fetch-mem _ (ok_or-ok_inv _ _ h)) in
    let (e, here) = only-mem_inv (is_version package_id version x) _ m in
    let (p, v) = and_parts _ _ e in
    let same = row_inv here in
    (rw same x_mem, rw same ((==_iff _ _).0 p), rw same ((eq_iff _ _).0 v))

module _ (to_lowercase : String → String) (db : Db) (identity : AuthenticatedIdentity)
    (path : ReleasePath) where
  abbrev asked : Result Uuid
  asked = package_for_publish to_lowercase db identity path.ecosystem path.name

  abbrev wanted : Uuid → Result Release
  wanted package_id = load_release_for_write db package_id path.version

  -- What `package_for_publish` has checked: the scope of the credential, and that its user may
  -- publish the package.
  pub package_for_publish_sound :
      IsKeyed db
      → IsLinked db
      → (package_id : Uuid) → asked ≡ ok package_id
      → (contains identity.scopes scope_packages_write ≡ true)
        × ((p : Package) × Memᴰ p db.packages
            × (p.id ≡ package_id)
            × MayWrite db p identity.user_id PackageAccessRequirement.publish)
  unfolding package_for_publish ensure_scope
  package_for_publish_sound keyed linked package_id h =
      let (scoped, h1) = >>-ok_inv (ensure_scope identity scope_packages_write) _ h in
      let (eco, _, h2) = >>=-ok_inv (parse_ecosystem to_lowercase path.ecosystem) _ h1 in
      let (p, p_mem, _, _, p_id, may) =
        ensure_package_access_sound db keyed linked (as_str eco)
          (normalize_package_name to_lowercase path.name eco) identity.user_id
          PackageAccessRequirement.publish package_id h2 in
      (ensure-ok_inv _ _ scoped, (p, p_mem, p_id, may))

  -- A release is unyanked only with the scope `packages:write`, by a user who may publish its
  -- package, and only if it was yanked, whatever its status. Afterwards its row is not yanked and has
  -- no reason for it; it is published, or deprecated if it has that flag, and the reply says which.
  -- The audit log has one entry more, which names the user and the release.
  pub unyank_release-authorized :
      IsKeyed db
      → IsLinked db
      → (reply : ReleaseStatus) (after : Db)
      → unyank_release to_lowercase db identity path ≡ ok (reply, after)
      → (contains identity.scopes scope_packages_write ≡ true)
        × ((p : Package) × (r : Release) × (k : Release) × Memᴰ p db.packages
            × MayWrite db p identity.user_id PackageAccessRequirement.publish
            × Memᴰ r db.releases
            × (r.package_id ≡ p.id)
            × (r.version ≡ path.version)
            × (r.is_yanked ≡ true)
            × Memᴰ k after.releases
            × (k.id ≡ r.id)
            × (k.is_yanked ≡ false)
            × (k.yank_reason ≡ none)
            × (k.is_deprecated ≡ r.is_deprecated)
            × (r.is_deprecated ≡ false → k.status ≡ ReleaseStatus.published)
            × (r.is_deprecated ≡ true → k.status ≡ ReleaseStatus.deprecated)
            × (reply ≡ k.status)
            × ((entry : AuditLog) × (after.audit_logs ≡ entry ∷ db.audit_logs)
                × (entry.action ≡ "release_unyank")
                × (entry.actor_user_id ≡ identity.user_id)
                × (entry.actor_token_id ≡ audit_actor_token_id identity)
                × (entry.target_release_id ≡ some r.id)))
  unfolding unyank_release update_releases log_release release_status_after_unyank
  unyank_release-authorized keyed linked reply after h =
      let (package_id, granted, h1) = >>=-ok_inv asked _ h in
      let (r, loaded, h2) = >>=-ok_inv (wanted package_id) _ h1 in
      let (flagged, h3) = >>-ok_inv (ensure r.is_yanked (conflict "Release is not yanked")) _ h2 in
      let status = release_status_after_unyank r.is_deprecated in
      let (owner, _, h4) =
        >>=-ok_inv
          (owner_org_of (update_releases (λ k. k.id == r.id) (set_unyanked status) db) package_id) _
          h3 in
      let (scoped, (p, p_mem, p_id, may)) =
        package_for_publish_sound keyed linked package_id granted in
      let (r_mem, r_package, r_version) = load_release-inv db package_id path.version loaded in
      let replied : status ≡ reply = ap (λ v. v.0) (ok_injective h4) in
      let same = reply-ok_inv h4 in
      let stays =
        updated-mem (λ k. k.id == r.id) (set_unyanked status) db.releases r_mem
          ((==_iff _ _).1 refl) in
      (
        scoped,
        (
          p,
          r,
          set_unyanked status r,
          p_mem,
          may,
          r_mem,
          r_package ∙ sym p_id,
          r_version,
          ensure-ok_inv _ _ flagged,
          subst (λ d. Memᴰ (set_unyanked status r) d.releases) same stays,
          refl,
          refl,
          refl,
          refl,
          (λ plain. rw plain refl),
          (λ old. rw old refl),
          sym replied,
          (_, ap (λ d. d.audit_logs) (sym same), refl, refl, refl, refl),
        ),
      )
