-- ===== src/Samples.antt =====
-- A small registry: an organization with a member who publishes, a team with a grant on a private
-- package, and a release of it.
use publaryn.Prelude.{◌≡◌, refl, true, false, none, some, [], ◌∷◌, Memᴰ, All-mem, unique_by}
use publaryn.Domain.OrgRole
use publaryn.Domain.TeamPermission
use publaryn.Domain.Repository.{Visibility, RepositoryKind}
use publaryn.Domain.Release.{ReleaseStatus}
use publaryn.Auth.Identity.{AuthenticatedIdentity, CredentialKind}
use publaryn.Db.{
  Db, User, Organization, OrgMembership, Team, TeamMembership, TeamPackageAccess, Repository,
  Package, Release, IsKeyed, IsLinked,
}

abbrev pub ada : User
ada = record {
  id = 1;
  username = "ada";
  email = "ada@example.com";
  password_hash = some "hash of ada";
  is_admin = false;
  is_active = true;
  mfa_enabled = true;
  mfa_totp_secret = some "secret";
  mfa_totp_pending_secret = none;
  mfa_recovery_code_hashes = "h1" ∷ "h2" ∷ [];
}

abbrev pub bob : User
bob = record {
  id = 2;
  username = "bob";
  email = "bob@example.com";
  password_hash = some "hash of bob";
  is_admin = false;
  is_active = true;
  mfa_enabled = false;
  mfa_totp_secret = none;
  mfa_totp_pending_secret = none;
  mfa_recovery_code_hashes = [];
}

abbrev pub acme : Organization
acme = record {
  id = 10;
  name = "Acme";
  slug = "acme";
  mfa_required = true;
  member_directory_is_private = false;
}

abbrev pub ada_publishes : OrgMembership
ada_publishes = record { org_id = 10; user_id = 1; role = OrgRole.publisher; invited_by = none }

abbrev pub bob_views : OrgMembership
bob_views = record { org_id = 10; user_id = 2; role = OrgRole.viewer; invited_by = some 1 }

abbrev pub tools : Team
tools = record { id = 20; org_id = 10; name = "Tools"; slug = "tools"; description = none }

abbrev pub bob_in_tools : TeamMembership
bob_in_tools = record { team_id = 20; user_id = 2 }

abbrev pub tools_publish : TeamPackageAccess
tools_publish = record { team_id = 20; package_id = 40; permission = TeamPermission.publish }

abbrev pub main : Repository
main = record {
  id = 30;
  name = "Main";
  slug = "main";
  description = none;
  kind = RepositoryKind.release;
  visibility = Visibility.private;
  owner_user_id = none;
  owner_org_id = some 10;
  upstream_url = none;
}

abbrev pub widget : Package
widget = record {
  id = 40;
  repository_id = 30;
  ecosystem = "npm";
  name = "Widget";
  normalized_name = "widget";
  visibility = Visibility.private;
  owner_user_id = none;
  owner_org_id = some 10;
}

abbrev pub first_release : Release
first_release = record {
  id = 50;
  package_id = 40;
  version = "1.0.0";
  status = ReleaseStatus.published;
  published_by = 1;
  is_prerelease = false;
  is_yanked = false;
  yank_reason = none;
  is_deprecated = false;
  deprecation_message = none;
}

abbrev pub ada_by_token : AuthenticatedIdentity
ada_by_token = record {
  user_id = 1;
  token_id = some 90;
  scopes = "packages:write" ∷ [];
  credential_kind = CredentialKind.api_token;
}

abbrev pub registry : Db
registry = record {
  users = ada ∷ bob ∷ [];
  organizations = acme ∷ [];
  org_memberships = ada_publishes ∷ bob_views ∷ [];
  teams = tools ∷ [];
  team_memberships = bob_in_tools ∷ [];
  team_package_access = tools_publish ∷ [];
  team_repository_access = [];
  team_namespace_access = [];
  namespace_claims = [];
  repositories = main ∷ [];
  packages = widget ∷ [];
  releases = first_release ∷ [];
  artifacts = [];
  security_findings = [];
  audit_logs = [];
  background_jobs = [];
  tokens = [];
  org_invitations = [];
}

pub registry-IsKeyed : IsKeyed registry
registry-IsKeyed = record {
  user_key = unique_by (λ u. u.id) _ refl;
  org_key = unique_by (λ o. o.id) _ refl;
  membership_key = λ a b m n _ e. unique_by (λ k. k.user_id) _ refl a b m n e;
  package_key = unique_by (λ p. p.id) _ refl;
  repository_key = unique_by (λ r. r.id) _ refl;
  claim_key = unique_by (λ c. c.id) _ refl;
}

pub registry-IsLinked : IsLinked registry
registry-IsLinked = record {
  member_user = λ m.
      All-mem (λ m. (u : User) × Memᴰ u registry.users × (u.id ≡ m.user_id))
        registry.org_memberships
        ((ada, Memᴰ.head refl, refl), ((bob, Memᴰ.tail (Memᴰ.head refl), refl), tt));
  member_org = λ m.
      All-mem (λ m. (o : Organization) × Memᴰ o registry.organizations × (o.id ≡ m.org_id))
        registry.org_memberships ((acme, Memᴰ.head refl, refl), ((acme, Memᴰ.head refl, refl), tt));
  team_org = λ t.
      All-mem (λ t. (o : Organization) × Memᴰ o registry.organizations × (o.id ≡ t.org_id))
        registry.teams ((acme, Memᴰ.head refl, refl), tt);
  team_user = λ m.
      All-mem (λ m. (u : User) × Memᴰ u registry.users × (u.id ≡ m.user_id))
        registry.team_memberships ((bob, Memᴰ.tail (Memᴰ.head refl), refl), tt);
  package_repository = λ p.
      All-mem (λ p. (r : Repository) × Memᴰ r registry.repositories × (r.id ≡ p.repository_id))
        registry.packages ((main, Memᴰ.head refl, refl), tt);
}
