-- ===== src/Teams/Scoped.antt =====
-- What keeps a team within its organization.
use publaryn.Prelude.{◌≡◌, ◌∙◌, Bool, false, Option, some, List, [], ◌∷◌, Memᴰ, ◌==◌}
use publaryn.Query.Update.{delete_where, delete_where-mem, delete_where-mem_inv}
use publaryn.Domain.TeamPermission.{TeamPermission}
use publaryn.Db.{Db, Uuid, Team}
use publaryn.Teams.Handlers.{is_team}
use publaryn.Teams.Grants.{replaced}

-- Every team has its id and its organization afterwards, too.
abbrev pub Stays : List Team → List Team → Type 0
Stays teams teams' =
    (t : Team)
    → Memᴰ t teams
    → (t' : Team) × Memᴰ t' teams' × (t'.id ≡ t.id) × (t'.org_id ≡ t.org_id)

-- Rows that tie a team to a resource, and the resources with the organization of each.
module _ {G R : Type 0} (team_of resource_of : G → Uuid) (id_of : R → Uuid)
    (org_of : R → Option Uuid) (resources : List R) where
  -- Each row is of a team that there is, on a resource of the team's organization.
  abbrev pub IsOn : List Team → List G → Type 0
  IsOn teams rows =
      (g : G)
      → Memᴰ g rows
      → (t : Team) × (r : R) × Memᴰ t teams
        × (t.id ≡ team_of g)
        × Memᴰ r resources
        × (id_of r ≡ resource_of g)
        × (org_of r ≡ some t.org_id)

  pub Stays-IsOn :
      (teams teams' : List Team) (rows : List G)
      → Stays teams teams'
      → IsOn teams rows
      → IsOn teams' rows
  Stays-IsOn teams teams' rows stays on g m =
      let (t, r, t_mem, of_team, r_mem, of_resource, org) = on g m in
      let (t', t'_mem, same_id, same_org) = stays t t_mem in
      (t', r, t'_mem, same_id ∙ of_team, r_mem, of_resource, rw same_org org)

  pub deleted-IsOn :
      (teams : List Team) (rows : List G) (test : G → Bool)
      → IsOn teams rows
      → IsOn teams (delete_where test rows)
  deleted-IsOn teams rows test on g m = on g (delete_where-mem_inv test rows m).0

  -- A team and all its rows are deleted.
  pub disbanded-IsOn :
      (teams : List Team) (rows : List G) (team_id : Uuid)
      → IsOn teams rows
      → IsOn (delete_where (is_team team_id) teams) (delete_where (λ g. team_of g == team_id) rows)
  disbanded-IsOn teams rows team_id on g m =
      let (g_mem, miss) = delete_where-mem_inv (λ g. team_of g == team_id) rows m in
      let (t, r, t_mem, of_team, r_mem, of_resource, org) = on g g_mem in
      let kept : is_team team_id t ≡ false = rw of_team miss in
      (t, r, delete_where-mem (is_team team_id) teams t_mem kept, of_team, r_mem, of_resource, org)

  pub cons-IsOn :
      (teams : List Team) (rows : List G) (g : G) (t : Team) (r : R)
      → IsOn teams rows
      → Memᴰ t teams
      → t.id ≡ team_of g
      → Memᴰ r resources
      → id_of r ≡ resource_of g
      → org_of r ≡ some t.org_id
      → IsOn teams (g ∷ rows)
  cons-IsOn teams rows g t r on t_mem of_team r_mem of_resource org x (Memᴰ.head e) =
      (t, r, t_mem, rw e of_team, r_mem, rw e of_resource, org)
  cons-IsOn teams rows g t r on t_mem of_team r_mem of_resource org x (Memᴰ.tail m) = on x m

  -- The rows of a team on a resource of its organization are replaced.
  pub replaced-IsOn :
      (teams : List Team) (rows : List G) (t : Team) (r : R) (test : G → Bool)
      (grant : TeamPermission → G) (permission : G → TeamPermission)
      (permissions : List TeamPermission)
      → IsOn teams rows
      → Memᴰ t teams
      → Memᴰ r resources
      → org_of r ≡ some t.org_id
      → ((p : TeamPermission) → (t.id ≡ team_of (grant p)) × (id_of r ≡ resource_of (grant p)))
      → IsOn teams (replaced test grant permission permissions rows)
  replaced-IsOn teams rows t r test grant permission [] on t_mem r_mem org fields =
      deleted-IsOn teams rows test on
  replaced-IsOn teams rows t r test grant permission (p ∷ ps) on t_mem r_mem org fields =
      cons-IsOn teams (replaced test grant permission ps rows) (grant p) t r
        (replaced-IsOn teams rows t r test grant permission ps on t_mem r_mem org fields) t_mem
        (fields p).0 r_mem (fields p).1 org

-- The members of a team are members of its organization, and its grants are on packages,
-- repositories and namespace claims that the organization owns.
pub record IsScoped (db : Db) : Type 0 where
  pub members :
      IsOn
        (λ m. m.team_id)
        (λ m. m.user_id)
        (λ om. om.user_id)
        (λ om. some om.org_id)
        db.org_memberships
        db.teams
        db.team_memberships
  pub package_grants :
      IsOn
        (λ g. g.team_id)
        (λ g. g.package_id)
        (λ p. p.id)
        (λ p. p.owner_org_id)
        db.packages
        db.teams
        db.team_package_access
  pub repository_grants :
      IsOn
        (λ g. g.team_id)
        (λ g. g.repository_id)
        (λ r. r.id)
        (λ r. r.owner_org_id)
        db.repositories
        db.teams
        db.team_repository_access
  pub namespace_grants :
      IsOn
        (λ g. g.team_id)
        (λ g. g.namespace_claim_id)
        (λ c. c.id)
        (λ c. c.owner_org_id)
        db.namespace_claims
        db.teams
        db.team_namespace_access
