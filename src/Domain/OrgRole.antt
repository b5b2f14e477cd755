-- ===== src/Domain/OrgRole.antt =====
-- `OrgRole` of crates/core/src/domain/organization.rs.
use publaryn.Prelude.{
  String, ◌≡◌, refl, Bool, true, false, ◌||◌, List, map, if◌then◌else◌, codes, same_text,
  to_ascii_lower, trim, ℕ,
}
use publaryn.Error.{Result, ok, err, validation}

pub data OrgRole : Type 0 where
  owner admin maintainer publisher security_manager auditor billing_manager viewer : OrgRole

unfoldable pub as_str : OrgRole → String
as_str owner = "owner"
as_str admin = "admin"
as_str maintainer = "maintainer"
as_str publisher = "publisher"
as_str security_manager = "security_manager"
as_str auditor = "auditor"
as_str billing_manager = "billing_manager"
as_str viewer = "viewer"

unfoldable pub is_owner : OrgRole → Bool
is_owner owner = true
is_owner _ = false

-- `value.trim().to_lowercase()`. Only the words below are accepted, and no code point beyond ASCII
-- has a letter of theirs for its lower case, so the ASCII lower case decides the same.
abbrev normalized : String → List ℕ
normalized value = map to_ascii_lower (trim (codes value))

abbrev pub is_word : List ℕ → String → Bool
is_word text word = same_text text (codes word)

of_word : List ℕ → Result OrgRole
of_word w =
    if is_word w "owner"
    then ok owner
    else if is_word w "admin"
    then ok admin
    else if is_word w "maintainer"
    then ok maintainer
    else if is_word w "publisher"
    then ok publisher
    else if is_word w "security_manager" || is_word w "security-manager"
    then ok security_manager
    else if is_word w "auditor"
    then ok auditor
    else if is_word w "billing_manager" || is_word w "billing-manager"
    then ok billing_manager
    else if is_word w "viewer"
    then ok viewer
    else err (validation "Unknown organization role")

unfoldable pub from_str : String → Result OrgRole
unfolding of_word
from_str value = of_word (normalized value)

-- Every role is read back from its wire name.
pub from_str-as_str : (role : OrgRole) → from_str (as_str role) ≡ ok role
unfolding from_str as_str
from_str-as_str owner = refl
from_str-as_str admin = refl
from_str-as_str maintainer = refl
from_str-as_str publisher = refl
from_str-as_str security_manager = refl
from_str-as_str auditor = refl
from_str-as_str billing_manager = refl
from_str-as_str viewer = refl
