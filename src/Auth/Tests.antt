-- ===== src/Auth/Tests.antt =====
-- A run of the scopes of a new token.
use publaryn.Prelude.{◌≡◌, refl, String, false, List, [], ◌∷◌}
use publaryn.Error.{ok}
use publaryn.Auth.Scopes.{
  insert_sorted, sort, dedup_after, dedup, check_scope, check_scopes, normalize_requested_scopes,
  ensure_scope_grant_allowed,
}

abbrev asked : List String
asked = " tokens:read" ∷ "packages:write" ∷ "tokens:read" ∷ []

abbrev granted : List String
granted = "packages:write" ∷ "tokens:read" ∷ []

normalizes : normalize_requested_scopes asked ≡ ok granted
unfolding normalize_requested_scopes check_scopes check_scope sort insert_sorted dedup dedup_after
normalizes = refl

is_allowed : ensure_scope_grant_allowed granted false ≡ ok tt
unfolding ensure_scope_grant_allowed
is_allowed = refl
