-- ===== src/Packages/Visibility.antt =====
-- `derive_package_visibility` and the helpers about it.
use publaryn.Prelude.{
  ℕ, ◌≤◌, ◌≡◌, ◌↔◌, ◌⊎◌, refl, sym, ap, Bool-cases, Bool, true, false, not, ◌&&◌, inl, inr, Option,
  none, some, ltb, ◌==◌, arith,
}
use publaryn.Error.{
  Result, ok, err, ◌>>◌, ensure, >>-ok_inv, ensure-ok_inv, ok_injective, validation, conflict,
  internal,
}
use publaryn.Domain.Repository.{Visibility, RepositoryKind}
use publaryn.Db.{Uuid}

unfoldable pub visibility_scope_rank : Visibility → ℕ
visibility_scope_rank Visibility.public = 2
visibility_scope_rank Visibility.unlisted = 1
visibility_scope_rank Visibility.private = 0
visibility_scope_rank Visibility.internal_org = 0
visibility_scope_rank Visibility.quarantined = 0

abbrev pub is_quarantined : Visibility → Bool
is_quarantined Visibility.quarantined = true
is_quarantined _ = false

abbrev pub is_internal_org : Visibility → Bool
is_internal_org Visibility.internal_org = true
is_internal_org _ = false

-- `requested_visibility.unwrap_or_else(|| repository_visibility.clone())`.
abbrev pub requested_or : Option Visibility → Visibility → Visibility
requested_or none repository_visibility = repository_visibility
requested_or (some requested) repository_visibility = requested

unfoldable pub derive_package_visibility : Option Visibility → Visibility → Bool → Result Visibility
unfolding visibility_scope_rank
derive_package_visibility requested_visibility repository_visibility repository_is_org_owned = do
  let package_visibility = requested_or requested_visibility repository_visibility
  ensure (not (is_quarantined repository_visibility && not (is_quarantined package_visibility)))
      (validation "Packages in quarantined repositories must remain quarantined")
  ensure (not (is_internal_org package_visibility && not repository_is_org_owned))
      (validation "internal_org visibility requires an organization-owned repository")
  ensure
      (not (
        ltb (visibility_scope_rank repository_visibility)
          (visibility_scope_rank package_visibility)))
      (validation "Package visibility cannot be broader than the enclosing repository visibility")
  ok package_visibility

-- Only a public repository has public packages, and only a public or an unlisted one has unlisted
-- packages.
abbrev pub IsNoBroader : Visibility → Visibility → Type 0
IsNoBroader v repository =
    (v ≡ Visibility.public → repository ≡ Visibility.public)
    × (v ≡ Visibility.unlisted
        → (repository ≡ Visibility.public) ⊎ (repository ≡ Visibility.unlisted))

-- The rule that the three guards enforce.
abbrev pub Fits : Visibility → Visibility → Bool → Type 0
Fits v repository is_org_owned =
    (repository ≡ Visibility.quarantined → v ≡ Visibility.quarantined)
    × (v ≡ Visibility.internal_org → is_org_owned ≡ true)
    × IsNoBroader v repository

pub data PackageOwner : Type 0 where
  user : Uuid → PackageOwner
  organization : Uuid → PackageOwner

unfoldable pub package_owner_from_fields : Option Uuid → Option Uuid → Result PackageOwner
package_owner_from_fields (some user_id) none = ok (PackageOwner.user user_id)
package_owner_from_fields none (some org_id) = ok (PackageOwner.organization org_id)
package_owner_from_fields none none = err (internal "Package owner is not set")
package_owner_from_fields (some user_id) (some org_id) =
    err (internal "Package owner state is invalid")

owned_by_org : PackageOwner → Uuid → Bool
owned_by_org (PackageOwner.organization current_org_id) target_org_id =
    current_org_id == target_org_id
owned_by_org (PackageOwner.user user_id) target_org_id = false

unfoldable pub validate_package_transfer_target : PackageOwner → Uuid → Result (Unit {0})
unfolding owned_by_org
validate_package_transfer_target current_owner target_org_id =
    ensure (not (owned_by_org current_owner target_org_id))
      (conflict "The selected organization already owns this package")

abbrev pub accepts_packages : RepositoryKind → Bool
accepts_packages RepositoryKind.public = true
accepts_packages RepositoryKind.private = true
accepts_packages RepositoryKind.staging = true
accepts_packages RepositoryKind.release = true
accepts_packages _ = false

unfoldable pub validate_package_creation_repository_kind : RepositoryKind → Result (Unit {0})
validate_package_creation_repository_kind kind =
    ensure (accepts_packages kind)
      (conflict "Packages can only be created in public, private, staging, or release repositories")

is_quarantined-inv : (v : Visibility) → is_quarantined v ≡ true → v ≡ Visibility.quarantined
is_quarantined-inv v h = ground arith

quarantine_kept :
    (v repository : Visibility)
    → (not (is_quarantined repository && not (is_quarantined v)) ≡ true)
      ↔ (repository ≡ Visibility.quarantined → v ≡ Visibility.quarantined)
quarantine_kept v repository = (
  λ h e. let met = ap is_quarantined e in is_quarantined-inv v (ground arith),
  λ rule. elim (Bool-cases (is_quarantined repository)) [
    | inl held ↦
        let kept = ap is_quarantined (rule (is_quarantined-inv repository held)) in ground arith
    | inr free ↦ ground arith
  ],
)

is_internal_org-inv : (v : Visibility) → is_internal_org v ≡ true → v ≡ Visibility.internal_org
is_internal_org-inv v h = ground arith

org_needed :
    (v : Visibility) (is_org_owned : Bool)
    → (not (is_internal_org v && not is_org_owned) ≡ true)
      ↔ (v ≡ Visibility.internal_org → is_org_owned ≡ true)
org_needed v is_org_owned = (
  λ h e. let met = ap is_internal_org e in ground arith,
  λ rule. elim (Bool-cases (is_internal_org v)) [
    | inl inner ↦ let owned = rule (is_internal_org-inv v inner) in ground arith
    | inr other ↦ ground arith
  ],
)

rank_bound : (a b : ℕ) → (not (ltb b a) ≡ true) ↔ (a ≤ b)
rank_bound a b = ground arith

rank_of_narrow :
    (v repository : Visibility)
    → IsNoBroader v repository
    → visibility_scope_rank v ≤ visibility_scope_rank repository
unfolding visibility_scope_rank
rank_of_narrow Visibility.public repository (public_only, _) = rw (public_only refl) (omega arith)
rank_of_narrow Visibility.unlisted repository (_, unlisted_only) = elim (unlisted_only refl) [
  | inl e ↦ rw e (omega arith)
  | inr e ↦ rw e (omega arith)
]
rank_of_narrow Visibility.private repository narrow = omega arith
rank_of_narrow Visibility.internal_org repository narrow = omega arith
rank_of_narrow Visibility.quarantined repository narrow = omega arith

broader_by_rank :
    (v repository : Visibility)
    → (visibility_scope_rank v ≤ visibility_scope_rank repository) ↔ IsNoBroader v repository
unfolding visibility_scope_rank
broader_by_rank v repository =
    (λ h. (λ e. ground arith, λ e. ground arith), λ narrow. rank_of_narrow v repository narrow)

requested_or_iff :
    (requested : Option Visibility) (repository v : Visibility)
    → (v ≡ requested_or requested repository)
      ↔ ((requested ≡ some v) ⊎ ((requested ≡ none) × (v ≡ repository)))
requested_or_iff none repository v = ground arith
requested_or_iff (some requested) repository v = ground arith

-- A derived visibility is the requested one, or the repository's where none is requested, and
-- fits the repository: a quarantined repository has only quarantined packages, only an
-- organization's has internal ones, and no package is broader than its repository. Every such
-- visibility is accepted.
pub derive_package_visibility_iff :
    (requested : Option Visibility) (repository : Visibility) (is_org_owned : Bool) (v : Visibility)
    → (derive_package_visibility requested repository is_org_owned ≡ ok v) ↔ (
        ((requested ≡ some v) ⊎ ((requested ≡ none) × (v ≡ repository)))
        × Fits v repository is_org_owned)
unfolding derive_package_visibility
derive_package_visibility_iff requested repository is_org_owned v = (
  λ h.
      let w = requested_or requested repository in
      let (kept, h1) =
        >>-ok_inv
          (ensure (not (is_quarantined repository && not (is_quarantined w)))
            (validation "Packages in quarantined repositories must remain quarantined"))
          _ h in
      let (owned, h2) =
        >>-ok_inv
          (ensure (not (is_internal_org w && not is_org_owned))
            (validation "internal_org visibility requires an organization-owned repository"))
          _ h1 in
      let (bounded, h3) =
        >>-ok_inv
          (ensure (not (ltb (visibility_scope_rank repository) (visibility_scope_rank w))) (
            validation
              "Package visibility cannot be broader than the enclosing repository visibility"))
          _ h2 in
      let same : v ≡ w = sym (ok_injective h3) in
      (
        (requested_or_iff requested repository v).0 same,
        rw same (
          (quarantine_kept w repository).0 (ensure-ok_inv _ _ kept),
          (org_needed w is_org_owned).0 (ensure-ok_inv _ _ owned),
          (broader_by_rank w repository).0 ((rank_bound _ _).0 (ensure-ok_inv _ _ bounded)),
        ),
      ),
  λ (asked, (kept, owned, narrow)).
      let same = (requested_or_iff requested repository v).1 asked in
      let bounded = (broader_by_rank v repository).1 narrow in
      let kept' = (quarantine_kept v repository).1 kept in
      let owned' = (org_needed v is_org_owned).1 owned in
      let bounded' =
        (rank_bound (visibility_scope_rank v) (visibility_scope_rank repository)).1 bounded in
      rw (← same, kept', owned', bounded') refl,
)
