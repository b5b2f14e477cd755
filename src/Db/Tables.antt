-- ===== src/Db/Tables.antt =====
-- The rows of migrations/001_initial_schema.sql, 002, 010, 011, 015, 021 and 024, and the database.
use publaryn.Prelude.{ℕ, String, Bool, Option, List}
use publaryn.Domain.OrgRole.{OrgRole}
use publaryn.Domain.TeamPermission.{TeamPermission}
use publaryn.Domain.Repository.{Visibility, RepositoryKind}
use publaryn.Domain.Release.{ReleaseStatus}
use publaryn.Domain.Job.{Job}
use publaryn.Domain.Invitation.{OrganizationInvitation}

abbrev pub Uuid : Type 0
Uuid = ℕ

abbrev pub Time : Type 0
Time = ℕ

pub record User : Type 0 where
  pub id : Uuid
  pub username : String
  pub email : String
  pub password_hash : Option String
  pub is_admin : Bool
  pub is_active : Bool
  pub mfa_enabled : Bool
  pub mfa_totp_secret : Option String
  pub mfa_totp_pending_secret : Option String
  pub mfa_recovery_code_hashes : List String

pub record Organization : Type 0 where
  pub id : Uuid
  pub name : String
  pub slug : String
  pub mfa_required : Bool
  pub member_directory_is_private : Bool

pub record OrgMembership : Type 0 where
  pub org_id : Uuid
  pub user_id : Uuid
  pub role : OrgRole
  pub invited_by : Option Uuid

pub record Team : Type 0 where
  pub id : Uuid
  pub org_id : Uuid
  pub name : String
  pub slug : String
  pub description : Option String

pub record TeamMembership : Type 0 where
  pub team_id : Uuid
  pub user_id : Uuid

pub record TeamPackageAccess : Type 0 where
  pub team_id : Uuid
  pub package_id : Uuid
  pub permission : TeamPermission

pub record TeamRepositoryAccess : Type 0 where
  pub team_id : Uuid
  pub repository_id : Uuid
  pub permission : TeamPermission

pub record TeamNamespaceAccess : Type 0 where
  pub team_id : Uuid
  pub namespace_claim_id : Uuid
  pub permission : TeamPermission

pub record NamespaceClaim : Type 0 where
  pub id : Uuid
  pub ecosystem : String
  pub namespace : String
  pub owner_user_id : Option Uuid
  pub owner_org_id : Option Uuid
  pub is_verified : Bool

pub record Repository : Type 0 where
  pub id : Uuid
  pub name : String
  pub slug : String
  pub description : Option String
  pub kind : RepositoryKind
  pub visibility : Visibility
  pub owner_user_id : Option Uuid
  pub owner_org_id : Option Uuid
  pub upstream_url : Option String

pub record Package : Type 0 where
  pub id : Uuid
  pub repository_id : Uuid
  pub ecosystem : String
  pub name : String
  pub normalized_name : String
  pub visibility : Visibility
  pub owner_user_id : Option Uuid
  pub owner_org_id : Option Uuid

pub record Release : Type 0 where
  pub id : Uuid
  pub package_id : Uuid
  pub version : String
  pub status : ReleaseStatus
  pub published_by : Uuid
  pub is_prerelease : Bool
  pub is_yanked : Bool
  pub yank_reason : Option String
  pub is_deprecated : Bool
  pub deprecation_message : Option String

pub record Artifact : Type 0 where
  pub id : Uuid
  pub release_id : Uuid
  pub filename : String
  pub storage_key : String
  pub sha256 : String

pub record SecurityFinding : Type 0 where
  pub release_id : Uuid
  pub artifact_id : Option Uuid
  pub kind : String
  pub severity : String
  pub is_resolved : Bool

pub record AuditLog : Type 0 where
  pub action : String
  pub actor_user_id : Uuid
  pub actor_token_id : Option Uuid
  pub target_user_id : Option Uuid
  pub target_org_id : Option Uuid
  pub target_package_id : Option Uuid
  pub target_release_id : Option Uuid

-- The columns that the handlers of tokens use.
pub record Token : Type 0 where
  pub id : Uuid
  pub kind : String
  pub token_hash : String
  pub name : String
  pub user_id : Option Uuid
  pub scopes : List String
  pub last_used_at : Option Time
  pub expires_at : Option Time
  pub is_revoked : Bool
  pub created_at : Time

pub record Db : Type 0 where
  pub users : List User
  pub organizations : List Organization
  pub org_memberships : List OrgMembership
  pub teams : List Team
  pub team_memberships : List TeamMembership
  pub team_package_access : List TeamPackageAccess
  pub team_repository_access : List TeamRepositoryAccess
  pub team_namespace_access : List TeamNamespaceAccess
  pub namespace_claims : List NamespaceClaim
  pub repositories : List Repository
  pub packages : List Package
  pub releases : List Release
  pub artifacts : List Artifact
  pub security_findings : List SecurityFinding
  pub audit_logs : List AuditLog
  pub background_jobs : List Job
  pub tokens : List Token
  pub org_invitations : List OrganizationInvitation
