-- ===== src/Domain/TeamPermission.antt =====
-- `TeamPermission` of crates/core/src/domain/team.rs.
use publaryn.Prelude.{
  String, ◌≡◌, refl, ◌||◌, List, map, if◌then◌else◌, codes, to_ascii_lower, trim, ℕ,
}
use publaryn.Error.{Result, ok, err, validation}
use publaryn.Domain.OrgRole.{is_word}

pub data TeamPermission : Type 0 where
  admin publish write_metadata read_private security_review transfer_ownership : TeamPermission

unfoldable pub as_str : TeamPermission → String
as_str admin = "admin"
as_str publish = "publish"
as_str write_metadata = "write_metadata"
as_str read_private = "read_private"
as_str security_review = "security_review"
as_str transfer_ownership = "transfer_ownership"

of_word : List ℕ → Result TeamPermission
of_word w =
    if is_word w "admin"
    then ok admin
    else if is_word w "publish"
    then ok publish
    else if is_word w "write_metadata" || is_word w "write-metadata"
    then ok write_metadata
    else if is_word w "read_private" || is_word w "read-private"
    then ok read_private
    else if is_word w "security_review" || is_word w "security-review"
    then ok security_review
    else if is_word w "transfer_ownership" || is_word w "transfer-ownership"
    then ok transfer_ownership
    else err (validation "Unknown team permission")

unfoldable pub from_str : String → Result TeamPermission
unfolding of_word
from_str value = of_word (map to_ascii_lower (trim (codes value)))

-- Every permission is read back from its wire name.
from_str-as_str : (p : TeamPermission) → from_str (as_str p) ≡ ok p
unfolding from_str as_str
from_str-as_str admin = refl
from_str-as_str publish = refl
from_str-as_str write_metadata = refl
from_str-as_str read_private = refl
from_str-as_str security_review = refl
from_str-as_str transfer_ownership = refl
