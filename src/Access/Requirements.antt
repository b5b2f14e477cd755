-- ===== src/Access/Requirements.antt =====
-- The access requirements of crates/api/src/request_auth.rs: which roles of the owning
-- organization and which team permissions meet each of them, and the message of a denial.
use publaryn.Prelude.{String, Bool, true, false, Option, none, some, List, [], ◌∷◌}

abbrev pub Names : Type 0
Names = List String

abbrev pub org_admin_roles : Names
org_admin_roles = "owner" ∷ "admin" ∷ []

abbrev pub org_audit_roles : Names
org_audit_roles = "owner" ∷ "admin" ∷ "auditor" ∷ []

abbrev pub org_mfa_required_write_roles : Names
org_mfa_required_write_roles =
    "owner" ∷ "admin" ∷ "maintainer" ∷ "publisher" ∷ "security_manager" ∷ []

abbrev pub package_metadata_roles : Names
package_metadata_roles = "owner" ∷ "admin" ∷ "maintainer" ∷ []

abbrev pub package_publish_roles : Names
package_publish_roles = "owner" ∷ "admin" ∷ "maintainer" ∷ "publisher" ∷ []

abbrev pub package_admin_roles : Names
package_admin_roles = "owner" ∷ "admin" ∷ []

abbrev pub package_management_visibility_roles : Names
package_management_visibility_roles = "owner" ∷ "admin" ∷ "maintainer" ∷ "publisher" ∷ []

-- The TEAM_PACKAGE_*, TEAM_REPOSITORY_* and TEAM_NAMESPACE_* permission lists that are equal share
-- one constant here.
abbrev pub metadata_permissions : Names
metadata_permissions = "admin" ∷ "write_metadata" ∷ []

abbrev pub publish_permissions : Names
publish_permissions = "admin" ∷ "publish" ∷ []

abbrev pub admin_permissions : Names
admin_permissions = "admin" ∷ []

abbrev pub transfer_permissions : Names
transfer_permissions = "admin" ∷ "transfer_ownership" ∷ []

abbrev pub security_review_permissions : Names
security_review_permissions = "admin" ∷ "security_review" ∷ []

abbrev pub management_visibility_permissions : Names
management_visibility_permissions =
    "admin" ∷ "publish" ∷ "write_metadata" ∷ "security_review" ∷ "transfer_ownership" ∷ []

abbrev pub package_creation_permissions : Names
package_creation_permissions = "admin" ∷ "publish" ∷ "write_metadata" ∷ []

pub data PackageAccessRequirement : Type 0 where
  metadata_write publish admin transfer_ownership security_review : PackageAccessRequirement
  management_visibility : PackageAccessRequirement

pub data RepositoryAccessRequirement : Type 0 where
  admin package_creation transfer_ownership : RepositoryAccessRequirement

pub data OrgAccessRequirement : Type 0 where
  admin member_directory audit_log : OrgAccessRequirement

pub data NamespaceClaimAccessRequirement : Type 0 where
  admin transfer_ownership : NamespaceClaimAccessRequirement

-- `PackageAccessRequirement::org_roles`.
unfoldable pub package_org_roles : PackageAccessRequirement → Names
package_org_roles PackageAccessRequirement.metadata_write = package_metadata_roles
package_org_roles PackageAccessRequirement.publish = package_publish_roles
package_org_roles PackageAccessRequirement.admin = package_admin_roles
package_org_roles PackageAccessRequirement.transfer_ownership = package_admin_roles
package_org_roles PackageAccessRequirement.security_review = package_admin_roles
package_org_roles PackageAccessRequirement.management_visibility =
    package_management_visibility_roles

-- `PackageAccessRequirement::team_permissions`.
unfoldable pub package_team_permissions : PackageAccessRequirement → Names
package_team_permissions PackageAccessRequirement.metadata_write = metadata_permissions
package_team_permissions PackageAccessRequirement.publish = publish_permissions
package_team_permissions PackageAccessRequirement.admin = admin_permissions
package_team_permissions PackageAccessRequirement.transfer_ownership = transfer_permissions
package_team_permissions PackageAccessRequirement.security_review = security_review_permissions
package_team_permissions PackageAccessRequirement.management_visibility =
    management_visibility_permissions

-- `PackageAccessRequirement::repository_permissions`.
unfoldable pub package_repository_permissions : PackageAccessRequirement → Names
package_repository_permissions PackageAccessRequirement.metadata_write = metadata_permissions
package_repository_permissions PackageAccessRequirement.publish = publish_permissions
package_repository_permissions PackageAccessRequirement.admin = admin_permissions
package_repository_permissions PackageAccessRequirement.transfer_ownership = transfer_permissions
package_repository_permissions PackageAccessRequirement.security_review =
    security_review_permissions
package_repository_permissions PackageAccessRequirement.management_visibility =
    management_visibility_permissions

pub package_denial_message : PackageAccessRequirement → String
package_denial_message PackageAccessRequirement.metadata_write =
    "You do not have permission to update this package's metadata"
package_denial_message PackageAccessRequirement.publish =
    "You do not have permission to publish or mutate releases for this package"
package_denial_message PackageAccessRequirement.admin =
    "You do not have package administration permission"
package_denial_message PackageAccessRequirement.transfer_ownership =
    "You do not have permission to transfer ownership of this package"
package_denial_message PackageAccessRequirement.security_review =
    "You do not have permission to manage security findings for this package"
package_denial_message PackageAccessRequirement.management_visibility =
    "You do not have permission to manage this package"

-- `OrgAccessRequirement::org_roles`.
unfoldable pub org_access_roles : OrgAccessRequirement → Option Names
org_access_roles OrgAccessRequirement.admin = some org_admin_roles
org_access_roles OrgAccessRequirement.audit_log = some org_audit_roles
org_access_roles OrgAccessRequirement.member_directory = none

unfoldable pub requires_write_role_mfa : OrgAccessRequirement → Bool
requires_write_role_mfa OrgAccessRequirement.admin = true
requires_write_role_mfa _ = false

pub org_denial_message : OrgAccessRequirement → String
org_denial_message OrgAccessRequirement.admin =
    "Organization administration requires owner or admin membership"
org_denial_message OrgAccessRequirement.member_directory =
    "Organization member and team directories require organization membership, and private directories are limited to owners and admins"
org_denial_message OrgAccessRequirement.audit_log =
    "Organization activity log requires owner, admin, or auditor membership"

-- `RepositoryAccessRequirement::team_permissions`.
unfoldable pub repository_team_permissions : RepositoryAccessRequirement → Names
repository_team_permissions RepositoryAccessRequirement.admin = admin_permissions
repository_team_permissions RepositoryAccessRequirement.package_creation =
    package_creation_permissions
repository_team_permissions RepositoryAccessRequirement.transfer_ownership = transfer_permissions

pub repository_denial_message : RepositoryAccessRequirement → String
repository_denial_message RepositoryAccessRequirement.admin =
    "You do not have permission to modify this repository"
repository_denial_message RepositoryAccessRequirement.package_creation =
    "You do not have permission to create packages in this repository"
repository_denial_message RepositoryAccessRequirement.transfer_ownership =
    "You do not have permission to transfer ownership of this repository"

-- `NamespaceClaimAccessRequirement::team_permissions`.
unfoldable pub namespace_team_permissions : NamespaceClaimAccessRequirement → Names
namespace_team_permissions NamespaceClaimAccessRequirement.admin = admin_permissions
namespace_team_permissions NamespaceClaimAccessRequirement.transfer_ownership = transfer_permissions

pub namespace_denial_message : NamespaceClaimAccessRequirement → String
namespace_denial_message NamespaceClaimAccessRequirement.admin =
    "You do not have permission to manage this namespace claim"
namespace_denial_message NamespaceClaimAccessRequirement.transfer_ownership =
    "You do not have permission to transfer this namespace claim"
