-- ===== src/Access/Keys.antt =====
-- The functions of apiKeyScopes.ts.
use qc_backend.Base.{
  String, List, [], ◌∷◌, Option, some, none, Bool, not, ◌==◌, if◌then◌else◌, select, find_first,
  any, map, is_empty, trim, Result, ok, err, string_has_eq,
}
use qc_backend.Access.Scopes.{
  ApiKeyRole, api_key_scopes, selector_scope_map, default_scopes_by_role,
}
use qc_backend.Access.Unique.{unique}

-- `ApiKeyScopeError`, by its code, with the text that its message names
pub data ApiKeyScopeError : Type 0 where
  invalid_api_key_scope api_key_scope_unmapped api_key_scope_denied : String → ApiKeyScopeError

abbrev pub is_scope : String → Bool
is_scope s = any (λ x. x == s) api_key_scopes

-- `scope.trim()` of each, without the empty ones, each once
unfoldable pub trimmed_scopes : Option (List String) → List String
unfolding unique trim
trimmed_scopes none = []
trimmed_scopes (some value) = unique (select (λ s. not (is_empty s)) (map trim value))

abbrev pub first_invalid : List String → Option String
first_invalid scopes = find_first (λ s. not (is_scope s)) scopes

abbrev pub unless_invalid : Option String → List String → Result ApiKeyScopeError (List String)
unless_invalid none scopes = ok scopes
unless_invalid (some s) scopes = err (invalid_api_key_scope s)

abbrev pub validated : List String → ApiKeyRole → Result ApiKeyScopeError (List String)
validated [] role = ok (default_scopes_by_role role)
validated (s ∷ ss) role = unless_invalid (first_invalid (s ∷ ss)) (s ∷ ss)

-- `normalizeApiKeyScopes`, which `resolveEffectiveApiKeyScopes` passes on
unfoldable pub normalize_api_key_scopes :
    Option (List String) → ApiKeyRole → Result ApiKeyScopeError (List String)
unfolding trimmed_scopes api_key_scopes default_scopes_by_role
normalize_api_key_scopes value role = validated (trimmed_scopes value) role

abbrev or_first : Option String → Option String → Option String
or_first (some x) y = some x
or_first none y = y

-- `map.get(key)` of a `Map` made from these entries: the last one counts.
abbrev pub map_get : String → List (String × String) → Option String
map_get key [] = none
map_get key ((k, v) ∷ es) = or_first (map_get key es) (if k == key then some v else none)

abbrev pub mapped_or : String → Option String → Result ApiKeyScopeError String
mapped_or selector none = err (api_key_scope_unmapped selector)
mapped_or selector (some s) = ok s

unfoldable pub resolve_scope_for_selector : String → Result ApiKeyScopeError String
unfolding selector_scope_map
resolve_scope_for_selector selector = mapped_or selector (map_get selector selector_scope_map)

abbrev pub scopes_or_none : Option (List String) → List String
scopes_or_none none = []
scopes_or_none (some scopes) = scopes

abbrev pub allowed_by :
    String → List String → Result ApiKeyScopeError String → Result ApiKeyScopeError (Unit {0})
allowed_by selector available (err e) = err e
allowed_by selector available (ok required) =
    if any (λ s. s == required) available then ok tt else err (api_key_scope_denied selector)

unfoldable pub assert_api_key_can_access_selector :
    String → Option (List String) → Result ApiKeyScopeError (Unit {0})
unfolding resolve_scope_for_selector
assert_api_key_can_access_selector selector scopes =
    allowed_by selector (scopes_or_none scopes) (resolve_scope_for_selector selector)
