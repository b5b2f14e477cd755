-- ===== src/Auth/Scopes.antt =====
-- crates/api/src/scopes.rs: the scopes that a session gets and that a token may ask for.
use Prim.Native.Nat.{Ordering}
use Prim.Native.String.{compare}
use publaryn.Prelude.{
  String, Bool, true, false, not, ◌||◌, List, [], ◌∷◌, ◌++◌, if◌then◌else◌, contains, find, is_some,
  trim_text, is_empty,
}
use publaryn.Error.{Result, ok, err, ◌>>=◌, ◌>>◌, ensure, validation, forbidden}
use text.Mathlib.Text.{◌==◌ as str_eq}

abbrev pub grantable_scopes : List String
grantable_scopes =
    "profile:write" ∷ "tokens:read" ∷ "tokens:write" ∷ "orgs:write" ∷ "orgs:join" ∷ "orgs:transfer"
    ∷ "namespaces:write" ∷ "namespaces:transfer" ∷ "repositories:write" ∷ "repositories:transfer"
    ∷ "packages:write" ∷ "packages:transfer" ∷ "audit:read" ∷ "admin:write" ∷ []

abbrev pub admin_only_scopes : List String
admin_only_scopes = "audit:read" ∷ "admin:write" ∷ []

abbrev pub default_scopes : List String
default_scopes =
    "profile:write" ∷ "tokens:read" ∷ "tokens:write" ∷ "orgs:write" ∷ "orgs:join" ∷ "orgs:transfer"
    ∷ "namespaces:write" ∷ "namespaces:transfer" ∷ "repositories:write" ∷ "repositories:transfer"
    ∷ "packages:write" ∷ "packages:transfer" ∷ []

unfoldable pub default_session_scopes : Bool → List String
default_session_scopes is_platform_admin =
    if is_platform_admin then default_scopes ++ admin_only_scopes else default_scopes

-- The order of `Vec::sort` on strings.
abbrev pub str_leb : String → String → Bool
str_leb s t = elim (compare s t) [ Ordering.gt ↦ false | _ ↦ true ]

unfoldable pub insert_sorted : String → List String → List String
insert_sorted s [] = s ∷ []
insert_sorted s (t ∷ ts) =
    let rest = insert_sorted s ts in if str_leb s t then s ∷ t ∷ ts else t ∷ rest

unfoldable pub sort : List String → List String
unfolding insert_sorted
sort [] = []
sort (s ∷ ss) = insert_sorted s (sort ss)

-- `Vec::dedup`: `kept` is the element before.
unfoldable pub dedup_after : String → List String → List String
dedup_after kept [] = []
dedup_after kept (s ∷ ss) =
    let same = dedup_after kept ss in
    let other = dedup_after s ss in if str_eq s kept then same else s ∷ other

unfoldable pub dedup : List String → List String
unfolding dedup_after
dedup [] = []
dedup (s ∷ ss) = s ∷ dedup_after s ss

unfoldable pub check_scope : String → Result String
check_scope scope = do
  ensure (not (is_empty scope)) (validation "Token scopes must not contain empty values")
  ensure (contains grantable_scopes scope) (validation "Unknown token scope")
  ok scope

-- `collect::<Result<Vec<_>, _>>()` over the trimmed scopes.
unfoldable pub check_scopes : List String → Result (List String)
check_scopes [] = ok []
check_scopes (scope ∷ scopes) = do
  checked ← check_scope (trim_text scope)
  rest ← check_scopes scopes
  ok (checked ∷ rest)

unfoldable pub normalize_requested_scopes : List String → Result (List String)
normalize_requested_scopes [] =
    err (validation "At least one scope is required when creating an API token")
normalize_requested_scopes (scope ∷ scopes) = do
  normalized ← check_scopes (scope ∷ scopes)
  ok (dedup (sort normalized))

unfoldable pub ensure_scope_grant_allowed : List String → Bool → Result (Unit {0})
ensure_scope_grant_allowed requested_scopes is_platform_admin =
    ensure (is_platform_admin || not (is_some (find (contains admin_only_scopes) requested_scopes)))
      (forbidden "Only platform administrators can grant the scope")
