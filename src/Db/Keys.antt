-- ===== src/Db/Keys.antt =====
-- What the primary keys, UNIQUE constraints and foreign keys of migrations/ promise of the tables.
use publaryn.Prelude.{◌≡◌, Memᴰ}
use publaryn.Db.Tables.{
  Db, User, Organization, OrgMembership, Package, Repository, NamespaceClaim, Team, TeamMembership,
}

-- PRIMARY KEY (id), and UNIQUE (org_id, user_id) of org_memberships.
pub record IsKeyed (db : Db) : Type 0 where
  pub user_key : (a b : User) → Memᴰ a db.users → Memᴰ b db.users → a.id ≡ b.id → a ≡ b
  pub org_key :
      (a b : Organization) → Memᴰ a db.organizations → Memᴰ b db.organizations → a.id ≡ b.id → a ≡ b
  pub membership_key :
      (a b : OrgMembership)
      → Memᴰ a db.org_memberships
      → Memᴰ b db.org_memberships
      → a.org_id ≡ b.org_id
      → a.user_id ≡ b.user_id
      → a ≡ b
  pub package_key : (a b : Package) → Memᴰ a db.packages → Memᴰ b db.packages → a.id ≡ b.id → a ≡ b
  pub repository_key :
      (a b : Repository) → Memᴰ a db.repositories → Memᴰ b db.repositories → a.id ≡ b.id → a ≡ b
  pub claim_key :
      (a b : NamespaceClaim)
      → Memᴰ a db.namespace_claims
      → Memᴰ b db.namespace_claims
      → a.id ≡ b.id
      → a ≡ b

-- The foreign keys from memberships and teams to users and organizations, and from packages to
-- repositories.
pub record IsLinked (db : Db) : Type 0 where
  pub member_user :
      (m : OrgMembership)
      → Memᴰ m db.org_memberships
      → (u : User) × Memᴰ u db.users × (u.id ≡ m.user_id)
  pub member_org :
      (m : OrgMembership)
      → Memᴰ m db.org_memberships
      → (o : Organization) × Memᴰ o db.organizations × (o.id ≡ m.org_id)
  pub team_org :
      (t : Team)
      → Memᴰ t db.teams
      → (o : Organization) × Memᴰ o db.organizations × (o.id ≡ t.org_id)
  pub team_user :
      (m : TeamMembership)
      → Memᴰ m db.team_memberships
      → (u : User) × Memᴰ u db.users × (u.id ≡ m.user_id)
  pub package_repository :
      (p : Package)
      → Memᴰ p db.packages
      → (r : Repository) × Memᴰ r db.repositories × (r.id ≡ p.repository_id)
