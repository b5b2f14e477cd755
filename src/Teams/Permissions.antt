-- ===== src/Teams/Permissions.antt =====
-- The permissions of a grant: `normalize_team_permissions` of crates/api/src/routes/orgs.rs.
use publaryn.Prelude.{
  String, Bool, true, false, not, ◌&&◌, List, [], ◌∷◌, map, if◌then◌else◌, contains,
}
use publaryn.Error.{Result, ok, ◌>>=◌, ◌>>◌, ensure, validation}
use publaryn.Domain.TeamPermission.{TeamPermission, from_str, as_str}
use publaryn.Auth.Scopes.{str_leb}

unfoldable pub parse_permissions : List String → Result (List TeamPermission)
parse_permissions [] = ok []
parse_permissions (raw ∷ input) = do
  permission ← from_str raw
  rest ← parse_permissions input
  ok (permission ∷ rest)

-- The first of each, `seen` being the names met before.
unfoldable pub first_of_each : List String → List TeamPermission → List TeamPermission
first_of_each seen [] = []
first_of_each seen (p ∷ ps) =
    let skipped = first_of_each seen ps in
    let kept = first_of_each (as_str p ∷ seen) ps in
    if contains seen (as_str p) then skipped else p ∷ kept

unfoldable pub insert_by_name : TeamPermission → List TeamPermission → List TeamPermission
insert_by_name p [] = p ∷ []
insert_by_name p (q ∷ qs) =
    let rest = insert_by_name p qs in if str_leb (as_str p) (as_str q) then p ∷ q ∷ qs else q ∷ rest

unfoldable pub sort_by_name : List TeamPermission → List TeamPermission
sort_by_name [] = []
sort_by_name (p ∷ ps) = insert_by_name p (sort_by_name ps)

abbrev is_nil : List String → Bool
is_nil [] = true
is_nil _ = false

unfoldable pub normalize_team_permissions : List String → Result (List TeamPermission)
normalize_team_permissions input = do
  ensure (not (is_nil input)) (validation "At least one team permission is required")
  permissions ← parse_permissions input
  ok (sort_by_name (first_of_each [] permissions))

abbrev pub is_delegable : TeamPermission → Bool
is_delegable TeamPermission.admin = true
is_delegable TeamPermission.transfer_ownership = true
is_delegable _ = false

abbrev pub all_delegable : List TeamPermission → Bool
all_delegable [] = true
all_delegable (p ∷ ps) = is_delegable p && all_delegable ps

unfoldable pub normalize_namespace_team_permissions : List String → Result (List TeamPermission)
normalize_namespace_team_permissions input = do
  normalized ← normalize_team_permissions input
  ensure (all_delegable normalized) (
      validation
        "Namespace delegation only supports the 'admin' and 'transfer_ownership' permissions")
  ok normalized

abbrev pub team_permission_strings : List TeamPermission → List String
team_permission_strings permissions = map as_str permissions
