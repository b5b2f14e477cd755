-- ===== src/Access/Readers.antt =====
-- Who may read a package that is not public: the description that `ensure_package_read_access` is
-- measured against.
use publaryn.Prelude.{
  ◌≡◌, refl, sym, ap, String, true, ◌&&◌, ◌⊎◌, inl, inr, Option, none, some, Memᴰ, arith, and_parts,
  Bool-cases, ==_iff, ◌==◌, ◌is◌, is_iff,
}
use publaryn.Query.{fetch-mem, bind-mem_inv, only-mem_inv, exists-mem}
use publaryn.Error.{ok, >>=-ok_inv, ok_or-ok_inv}
use publaryn.Domain.Repository.{visibility_as_str}
use publaryn.Db.{
  Db, Uuid, Package, Repository, OrgMembership, TeamMembership, TeamPackageAccess,
  TeamRepositoryAccess,
}
use publaryn.Access.Rows.{row_inv}
use publaryn.Access.Queries.{
  is_org_member, member_rows, actor_has_any_team_package_access, any_team_package_rows,
  actor_has_any_team_repository_access, any_team_repository_rows, packages_by_name,
}
use publaryn.Access.Read.{
  packages_with_repository, package_is_readable, ensure_package_read_access,
  visibility_allows_anonymous_read, visibility_allows_read, team_package_read, team_repository_read,
  actor_can_read_owned_resource,
}
use publaryn.Access.Ensured.{packages_by_name-mem_inv}

-- The reasons for which `actor` sees what is not public of package `p` in repository `r`.
pub data IsInsider (db : Db) (p : Package) (r : Repository) (actor : Uuid) : Type 0 where
  owns_package : p.owner_user_id ≡ some actor → IsInsider db p r actor
  owns_repository : r.owner_user_id ≡ some actor → IsInsider db p r actor
  in_package_org :
      (m : OrgMembership)
      → Memᴰ m db.org_memberships
      → p.owner_org_id ≡ some m.org_id
      → m.user_id ≡ actor
      → IsInsider db p r actor
  in_repository_org :
      (m : OrgMembership)
      → Memᴰ m db.org_memberships
      → r.owner_org_id ≡ some m.org_id
      → m.user_id ≡ actor
      → IsInsider db p r actor
  in_package_team :
      (tpa : TeamPackageAccess) (tm : TeamMembership)
      → Memᴰ tpa db.team_package_access
      → Memᴰ tm db.team_memberships
      → tpa.package_id ≡ p.id
      → tm.team_id ≡ tpa.team_id
      → tm.user_id ≡ actor
      → IsInsider db p r actor
  in_repository_team :
      (tra : TeamRepositoryAccess) (tm : TeamMembership)
      → Memᴰ tra db.team_repository_access
      → Memᴰ tm db.team_memberships
      → tra.repository_id ≡ p.repository_id
      → tm.team_id ≡ tra.team_id
      → tm.user_id ≡ actor
      → IsInsider db p r actor

is_org_member-inv :
    (db : Db) (org actor : Uuid)
    → is_org_member db org actor ≡ true
    → (m : OrgMembership) × Memᴰ m db.org_memberships × (m.org_id ≡ org) × (m.user_id ≡ actor)
unfolding is_org_member member_rows
is_org_member-inv db org actor h =
    let (y, m0) = exists-mem _ h in
    let (om, om_mem, m1) = bind-mem_inv db.org_memberships _ m0 in
    let (e, m2) = only-mem_inv (om.org_id == org && om.user_id == actor) _ m1 in
    let (e1, e2) = and_parts _ _ e in (om, om_mem, (==_iff _ _).0 e1, (==_iff _ _).0 e2)

module _ (db : Db) (p : Package) (r : Repository) (actor : Uuid) where
  team_package_inv : actor_has_any_team_package_access db p.id actor ≡ true → IsInsider db p r actor
  unfolding actor_has_any_team_package_access any_team_package_rows
  team_package_inv h =
      let (y, m0) = exists-mem _ h in
      let (tpa, tpa_mem, m1) = bind-mem_inv db.team_package_access _ m0 in
      let (tm, tm_mem, m2) = bind-mem_inv db.team_memberships _ m1 in
      let (e1, m3) = only-mem_inv (tm.team_id == tpa.team_id) _ m2 in
      let (t, t_mem, m4) = bind-mem_inv db.teams _ m3 in
      let (e2, m5) = only-mem_inv (t.id == tpa.team_id) _ m4 in
      let (x, x_mem, m6) = bind-mem_inv db.packages _ m5 in
      let (e3, m7) = only-mem_inv (x.id == tpa.package_id) _ m6 in
      let (e4, m8) =
        only-mem_inv (tpa.package_id == p.id && tm.user_id == actor && x.owner_org_id is t.org_id) _
          m7 in
      let (e5, e6) = and_parts _ _ e4 in
      let (e7, e8) = and_parts _ _ e5 in
      in_package_team tpa tm tpa_mem tm_mem ((==_iff _ _).0 e7) ((==_iff _ _).0 e1)
        ((==_iff _ _).0 e8)

  team_repository_inv :
      actor_has_any_team_repository_access db p.repository_id actor ≡ true → IsInsider db p r actor
  unfolding actor_has_any_team_repository_access any_team_repository_rows
  team_repository_inv h =
      let (y, m0) = exists-mem _ h in
      let (tra, tra_mem, m1) = bind-mem_inv db.team_repository_access _ m0 in
      let (tm, tm_mem, m2) = bind-mem_inv db.team_memberships _ m1 in
      let (e1, m3) = only-mem_inv (tm.team_id == tra.team_id) _ m2 in
      let (t, t_mem, m4) = bind-mem_inv db.teams _ m3 in
      let (e2, m5) = only-mem_inv (t.id == tra.team_id) _ m4 in
      let (x, x_mem, m6) = bind-mem_inv db.repositories _ m5 in
      let (e3, m7) = only-mem_inv (x.id == tra.repository_id) _ m6 in
      let (e4, m8) =
        only-mem_inv
          (tra.repository_id == p.repository_id
            && tm.user_id == actor
            && x.owner_org_id is t.org_id)
          _ m7 in
      let (e5, e6) = and_parts _ _ e4 in
      let (e7, e8) = and_parts _ _ e5 in
      in_repository_team tra tm tra_mem tm_mem ((==_iff _ _).0 e7) ((==_iff _ _).0 e1)
        ((==_iff _ _).0 e8)

  owned_inv :
      (user org : Option Uuid)
      → actor_can_read_owned_resource db user org (some actor) ≡ true
      → (user ≡ some actor)
        ⊎ ((m : OrgMembership) × Memᴰ m db.org_memberships
            × (org ≡ some m.org_id)
            × (m.user_id ≡ actor))
  unfolding actor_can_read_owned_resource
  owned_inv user none h = inl ((is_iff _ _).0 (ground arith))
  owned_inv user (some o) h = elim (Bool-cases (user is actor)) [
    | inl own ↦ inl ((is_iff _ _).0 own)
    | inr other ↦
        let (m, m_mem, m_org, m_user) = is_org_member-inv db o actor (ground arith) in
        inr (m, m_mem, ap some (sym m_org), m_user)
  ]

  owned_package :
      actor_can_read_owned_resource db p.owner_user_id p.owner_org_id (some actor) ≡ true
      → IsInsider db p r actor
  owned_package h = elim (owned_inv _ _ h) [
    | inl own ↦ owns_package own
    | inr (m, m_mem, m_org, m_user) ↦ in_package_org m m_mem m_org m_user
  ]

  owned_repository :
      actor_can_read_owned_resource db r.owner_user_id r.owner_org_id (some actor) ≡ true
      → IsInsider db p r actor
  owned_repository h = elim (owned_inv _ _ h) [
    | inl own ↦ owns_repository own
    | inr (m, m_mem, m_org, m_user) ↦ in_repository_org m m_mem m_org m_user
  ]

  -- A logged-in reader sees a package that is not public or unlisted, or stands in a repository
  -- that is not, only as an insider.
  pub readable-inv :
      package_is_readable db p r (some actor) ≡ true
      → ((visibility_allows_anonymous_read (visibility_as_str p.visibility) ≡ true)
          × (visibility_allows_anonymous_read (visibility_as_str r.visibility) ≡ true))
        ⊎ IsInsider db p r actor
  unfolding package_is_readable team_package_read team_repository_read visibility_allows_read
  readable-inv h =
      elim (Bool-cases
        (actor_can_read_owned_resource db p.owner_user_id p.owner_org_id (some actor))) [
          | inl hit ↦ inr (owned_package hit)
          | inr a ↦
              elim (Bool-cases
                (actor_can_read_owned_resource db r.owner_user_id r.owner_org_id (some actor))) [
                  | inl hit ↦ inr (owned_repository hit)
                  | inr b ↦ elim (Bool-cases (actor_has_any_team_package_access db p.id actor)) [
                    | inl hit ↦ inr (team_package_inv hit)
                    | inr c ↦
                        elim (Bool-cases
                          (actor_has_any_team_repository_access db p.repository_id actor)) [
                            | inl hit ↦ inr (team_repository_inv hit)
                            | inr d ↦ inl (ground arith, ground arith)
                          ]
                  ]
                ]
        ]

module _ (db : Db) where
  packages_with_repository-mem_inv :
      (ecosystem name : String) {p : Package} {r : Repository}
      → Memᴰ (p, r) (packages_with_repository db ecosystem name)
      → Memᴰ p (packages_by_name db ecosystem name)
        × Memᴰ r db.repositories
        × (r.id ≡ p.repository_id)
  unfolding packages_with_repository
  packages_with_repository-mem_inv ecosystem name {p} {r} m =
      let (x, x_mem, m1) = bind-mem_inv (packages_by_name db ecosystem name) _ m in
      let (y, y_mem, m2) = bind-mem_inv db.repositories _ m1 in
      let (e, m3) = only-mem_inv (y.id == x.repository_id) _ m2 in
      let same_p : p ≡ x = ap (λ z. z.0) (row_inv m3) in
      let same_r : r ≡ y = ap (λ z. z.1) (row_inv m3) in
      (rw same_p x_mem, rw same_r y_mem, rw (same_p, same_r) ((==_iff _ _).0 e))

  -- Both are public or unlisted.
  abbrev pub Openly : Package → Repository → Type 0
  Openly p r =
      (visibility_allows_anonymous_read (visibility_as_str p.visibility) ≡ true)
      × (visibility_allows_anonymous_read (visibility_as_str r.visibility) ≡ true)

  reason :
      (p : Package) (r : Repository) (caller : Option Uuid)
      → package_is_readable db p r caller ≡ true
      → Openly p r ⊎ ((actor : Uuid) × (caller ≡ some actor) × IsInsider db p r actor)
  unfolding package_is_readable visibility_allows_read team_package_read team_repository_read
      actor_can_read_owned_resource
  reason p r none t = inl (and_parts _ _ t)
  reason p r (some actor) t = elim (readable-inv db p r actor t) [
    | inl shown ↦ inl shown
    | inr insider ↦ inr (actor, refl, insider)
  ]

  -- The package that `ensure_package_read_access` names for a caller has the asked ecosystem and
  -- name. It and its repository are both public or unlisted, or the caller is logged in and is an
  -- insider: the owner of one of them, a member of an organization that owns one of them, or a
  -- member of a team with a grant on one of them.
  pub ensure_package_read_access_sound :
      (ecosystem name : String) (caller : Option Uuid) (id : Uuid)
      → ensure_package_read_access db ecosystem name caller ≡ ok id
      → (p : Package) × (r : Repository) × Memᴰ p db.packages
        × Memᴰ r db.repositories
        × (p.ecosystem ≡ ecosystem)
        × (p.normalized_name ≡ name)
        × (p.id ≡ id)
        × (r.id ≡ p.repository_id)
        × (Openly p r ⊎ ((actor : Uuid) × (caller ≡ some actor) × IsInsider db p r actor))
  unfolding ensure_package_read_access
  ensure_package_read_access_sound ecosystem name caller id h =
      let ((p, r), found, rest) = >>=-ok_inv _ _ h in
      let (p_named, r_mem, r_id) =
        packages_with_repository-mem_inv ecosystem name (fetch-mem _ (ok_or-ok_inv _ _ found)) in
      let (p_mem, e, n) = packages_by_name-mem_inv db ecosystem name p_named in
      let readable : package_is_readable db p r caller ≡ true = ground arith in
      let same : p.id ≡ id = ground arith in
      (p, r, p_mem, r_mem, e, n, same, r_id, reason p r caller readable)
