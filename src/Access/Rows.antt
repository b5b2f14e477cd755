-- ===== src/Access/Rows.antt =====
-- What stands behind a row of the role and grant queries, and when there is one.
use publaryn.Prelude.{
  ◌≡◌, refl, true, ◌&&◌, some, List, Memᴰ, ◌==◌, ==_iff, ◌is◌, is_iff, and_parts, and_intro,
  contains,
}
use publaryn.Query.{row, bind-mem_inv, bind-mem, only-mem_inv, only-mem}
use publaryn.Domain.OrgRole
use publaryn.Domain.TeamPermission
use publaryn.Db.{Db, Uuid, User, Organization, OrgMembership, Team, TeamMembership}
use publaryn.Access.Requirements.{Names}
use publaryn.Access.Queries.{RoleRow, MfaRow, GrantTable, org_write_rows, team_grant_rows}

pub row_inv : {A : Type 0} {x y : A} → Memᴰ y (row x) → y ≡ x
row_inv (Memᴰ.head e) = e
row_inv (Memᴰ.tail m) = elim m [ ]

-- The rows joined for a write role.
pub record RoleSource (db : Db) (org actor : Uuid) (roles : Names) (y : RoleRow) : Type 0 where
  pub om : OrgMembership
  pub o : Organization
  pub u : User
  pub om_mem : Memᴰ om db.org_memberships
  pub o_mem : Memᴰ o db.organizations
  pub u_mem : Memᴰ u db.users
  pub o_id : o.id ≡ om.org_id
  pub u_id : u.id ≡ om.user_id
  pub om_org : om.org_id ≡ org
  pub om_user : om.user_id ≡ actor
  pub listed : contains roles (OrgRole.as_str om.role) ≡ true
  pub is_row : y ≡ (OrgRole.as_str om.role, o.mfa_required, u.mfa_enabled)

pub org_write_rows-inv :
    (db : Db) (org actor : Uuid) (roles : Names) {y : RoleRow}
    → Memᴰ y (org_write_rows db org actor roles)
    → RoleSource db org actor roles y
unfolding org_write_rows
org_write_rows-inv db org actor roles m0 =
    let (om, om_mem, m1) = bind-mem_inv db.org_memberships _ m0 in
    let (o, o_mem, m2) = bind-mem_inv db.organizations _ m1 in
    let (e1, m3) = only-mem_inv (o.id == om.org_id) _ m2 in
    let (u, u_mem, m4) = bind-mem_inv db.users _ m3 in
    let (e2, m5) = only-mem_inv (u.id == om.user_id) _ m4 in
    let (e3, m6) = only-mem_inv (om.org_id == org && om.user_id == actor) _ m5 in
    let (e4, m7) = only-mem_inv (contains roles (OrgRole.as_str om.role)) _ m6 in
    let (e5, e6) = and_parts _ _ e3 in
    record {
      om = om;
      o = o;
      u = u;
      om_mem = om_mem;
      o_mem = o_mem;
      u_mem = u_mem;
      o_id = (==_iff _ _).0 e1;
      u_id = (==_iff _ _).0 e2;
      om_org = (==_iff _ _).0 e5;
      om_user = (==_iff _ _).0 e6;
      listed = e4;
      is_row = row_inv m7;
    }

-- A membership with a listed role has a row, given its organization and its user.
pub org_write_rows-mem :
    (db : Db) (org actor : Uuid) (roles : Names) (om : OrgMembership) (o : Organization) (u : User)
    → Memᴰ om db.org_memberships
    → Memᴰ o db.organizations
    → Memᴰ u db.users
    → o.id ≡ om.org_id
    → u.id ≡ om.user_id
    → om.org_id ≡ org
    → om.user_id ≡ actor
    → contains roles (OrgRole.as_str om.role) ≡ true
    → Memᴰ
        (OrgRole.as_str om.role, o.mfa_required, u.mfa_enabled)
        (org_write_rows db org actor roles)
unfolding org_write_rows
org_write_rows-mem db org actor roles om o u om_mem o_mem u_mem e1 e2 e3 e4 e5 =
    bind-mem db.org_memberships _ om_mem (
      bind-mem db.organizations _ o_mem (
        only-mem (o.id == om.org_id) _ ((==_iff _ _).1 e1) (
          bind-mem db.users _ u_mem (
            only-mem (u.id == om.user_id) _ ((==_iff _ _).1 e2) (
              only-mem (om.org_id == org && om.user_id == actor) _
                (and_intro ((==_iff _ _).1 e3) ((==_iff _ _).1 e4))
                (only-mem (contains roles (OrgRole.as_str om.role)) _ e5 (Memᴰ.head refl)))))))

-- The rows joined for a team grant.
pub record GrantSource {G R : Type 0} (table : GrantTable G R) (db : Db) (grants : List G)
    (resources : List R) (resource actor : Uuid) (permissions : Names) (y : MfaRow) : Type 0 where
  pub g : G
  pub tm : TeamMembership
  pub t : Team
  pub r : R
  pub o : Organization
  pub u : User
  pub g_mem : Memᴰ g grants
  pub tm_mem : Memᴰ tm db.team_memberships
  pub t_mem : Memᴰ t db.teams
  pub r_mem : Memᴰ r resources
  pub o_mem : Memᴰ o db.organizations
  pub u_mem : Memᴰ u db.users
  pub tm_team : tm.team_id ≡ table.team_id g
  pub t_team : t.id ≡ table.team_id g
  pub r_id : table.id r ≡ table.resource_id g
  pub o_id : o.id ≡ t.org_id
  pub u_id : u.id ≡ tm.user_id
  pub on_resource : table.resource_id g ≡ resource
  pub is_actor : tm.user_id ≡ actor
  pub same_org : table.owner_org_id r ≡ some t.org_id
  pub listed : contains permissions (TeamPermission.as_str (table.permission g)) ≡ true
  pub is_row : y ≡ (o.mfa_required, u.mfa_enabled)

module _ {G R : Type 0} (table : GrantTable G R) (db : Db) (grants : List G) (resources : List R)
    (resource actor : Uuid) (permissions : Names) where
  pub team_grant_rows-inv :
      {y : MfaRow}
      → Memᴰ y (team_grant_rows table db grants resources resource actor permissions)
      → GrantSource table db grants resources resource actor permissions y
  unfolding team_grant_rows
  team_grant_rows-inv m0 =
      let (g, g_mem, m1) = bind-mem_inv grants _ m0 in
      let (tm, tm_mem, m2) = bind-mem_inv db.team_memberships _ m1 in
      let (e1, m3) = only-mem_inv (tm.team_id == table.team_id g) _ m2 in
      let (t, t_mem, m4) = bind-mem_inv db.teams _ m3 in
      let (e2, m5) = only-mem_inv (t.id == table.team_id g) _ m4 in
      let (r, r_mem, m6) = bind-mem_inv resources _ m5 in
      let (e3, m7) = only-mem_inv (table.id r == table.resource_id g) _ m6 in
      let (o, o_mem, m8) = bind-mem_inv db.organizations _ m7 in
      let (e4, m9) = only-mem_inv (o.id == t.org_id) _ m8 in
      let (u, u_mem, m10) = bind-mem_inv db.users _ m9 in
      let (e5, m11) = only-mem_inv (u.id == tm.user_id) _ m10 in
      let (e6, m12) =
        only-mem_inv
          (table.resource_id g == resource
            && tm.user_id == actor
            && table.owner_org_id r is t.org_id)
          _ m11 in
      let (e7, m13) =
        only-mem_inv (contains permissions (TeamPermission.as_str (table.permission g))) _ m12 in
      let (e8, c) = and_parts _ _ e6 in
      let (a, b) = and_parts _ _ e8 in
      record {
        g = g;
        tm = tm;
        t = t;
        r = r;
        o = o;
        u = u;
        g_mem = g_mem;
        tm_mem = tm_mem;
        t_mem = t_mem;
        r_mem = r_mem;
        o_mem = o_mem;
        u_mem = u_mem;
        tm_team = (==_iff _ _).0 e1;
        t_team = (==_iff _ _).0 e2;
        r_id = (==_iff _ _).0 e3;
        o_id = (==_iff _ _).0 e4;
        u_id = (==_iff _ _).0 e5;
        on_resource = (==_iff _ _).0 a;
        is_actor = (==_iff _ _).0 b;
        same_org = (is_iff _ _).0 c;
        listed = e7;
        is_row = row_inv m13;
      }

  -- The rows of a grant source, put together again, are a row of the query.
  pub team_grant_rows-mem :
      {y : MfaRow}
      → GrantSource table db grants resources resource actor permissions y
      → Memᴰ y (team_grant_rows table db grants resources resource actor permissions)
  unfolding team_grant_rows
  team_grant_rows-mem s = bind-mem grants _ s.g_mem (
      bind-mem db.team_memberships _ s.tm_mem (
        only-mem (s.tm.team_id == table.team_id s.g) _ ((==_iff _ _).1 s.tm_team) (
          bind-mem db.teams _ s.t_mem (
            only-mem (s.t.id == table.team_id s.g) _ ((==_iff _ _).1 s.t_team) (
              bind-mem resources _ s.r_mem (
                only-mem (table.id s.r == table.resource_id s.g) _ ((==_iff _ _).1 s.r_id) (
                  bind-mem db.organizations _ s.o_mem (
                    only-mem (s.o.id == s.t.org_id) _ ((==_iff _ _).1 s.o_id) (
                      bind-mem db.users _ s.u_mem (
                        only-mem (s.u.id == s.tm.user_id) _ ((==_iff _ _).1 s.u_id) (
                          only-mem
                            (table.resource_id s.g == resource
                              && s.tm.user_id == actor
                              && table.owner_org_id s.r is s.t.org_id)
                            _
                            (and_intro
                              (and_intro ((==_iff _ _).1 s.on_resource) ((==_iff _ _).1 s.is_actor))
                              ((is_iff _ _).1 s.same_org))
                            (only-mem
                              (contains permissions (TeamPermission.as_str (table.permission s.g)))
                              _ s.listed (Memᴰ.head s.is_row)))))))))))))
