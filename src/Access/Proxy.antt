-- ===== src/Access/Proxy.antt =====
-- DiamondProxy.ts: `delegateCall`. The facets are a parameter; a registered property is a function,
-- so the proxy's answer 404 has no case here.
use qc_backend.Base.{
  ℕ, String, List, [], ◌∷◌, Option, some, none, Bool, ◌==◌, if◌then◌else◌, any, truthy, Result, ok,
  err, string_has_eq,
}
use qc_backend.Access.Scopes.{ApiKeyRole, facet_registry}
use qc_backend.Access.Keys.{
  ApiKeyScopeError, normalize_api_key_scopes, assert_api_key_can_access_selector, scopes_or_none,
}

-- What the middleware and the body of a request give the proxy; the payload is JSON text.
pub record Request : Type 0 where
  pub selector : Option String
  pub payload : Option String
  pub tenant_id : Option String
  pub api_key_id : Option String
  pub api_key_role : Option ApiKeyRole
  pub api_key_scopes : Option (List String)

-- `secureContext`
pub record SecureContext : Type 0 where
  pub tenant_id : Option String
  pub api_key_id : Option String
  pub role : Option ApiKeyRole
  pub scopes : List String

-- A call of a facet.
pub record Invocation : Type 0 where
  pub selector : String
  pub context : SecureContext
  pub payload : String

-- How a facet ends: with its data, or with an error's `code` and `message`.
pub data Ending : Type 0 where
  returned : (data_text : String) → Ending
  thrown : (code message : Option String) → Ending

pub data Response : Type 0 where
  success : (selector data_text : String) → Response
  bad_request : Response
  scope_error : (status : ℕ) (e : ApiKeyScopeError) → Response
  business_error : (code message : String) → Response
  internal_error : Response

abbrev pub as_some :
    Result ApiKeyScopeError (List String) → Result ApiKeyScopeError (Option (List String))
as_some (ok s) = ok (some s)
as_some (err e) = err e

-- `resolveRequestApiKeyScopes`
abbrev pub resolve_request_api_key_scopes :
    Option ApiKeyRole → Option (List String) → Result ApiKeyScopeError (Option (List String))
resolve_request_api_key_scopes none scopes = ok scopes
resolve_request_api_key_scopes (some role) scopes = as_some (normalize_api_key_scopes scopes role)

-- `req.body.payload || {}`
abbrev pub payload_of : Option String → String
payload_of p = elim (truthy p) [ none ↦ "{}" | some s ↦ s ]

abbrev pub invocation : Request → String → Option (List String) → Invocation
invocation r selector scopes = record {
  selector = selector;
  context = record {
    tenant_id = r.tenant_id;
    api_key_id = r.api_key_id;
    role = r.api_key_role;
    scopes = scopes_or_none scopes;
  };
  payload = payload_of r.payload;
}

abbrev pub error_of : Option String → Option String → Response
error_of (some code) (some message) = business_error code message
error_of _ _ = internal_error

abbrev pub answer_of : String → Ending → Response
answer_of selector (returned d) = success selector d
answer_of selector (thrown code message) = error_of (truthy code) (truthy message)

-- The response, and the calls of facets that were made for it.
abbrev pub Reply : Type 0
Reply = Response × List Invocation

abbrev pub guarded : (Invocation → Ending) → Invocation → Result ApiKeyScopeError (Unit {0}) → Reply
guarded facets i (err e) = (scope_error 403 e, [])
guarded facets i (ok _) = (answer_of i.selector (facets i), i ∷ [])

abbrev pub with_scopes :
    (Invocation → Ending)
    → Request
    → String
    → Result ApiKeyScopeError (Option (List String))
    → Reply
with_scopes facets r selector (err e) = (scope_error 400 e, [])
with_scopes facets r selector (ok scopes) =
    guarded facets (invocation r selector scopes)
      (assert_api_key_can_access_selector selector scopes)

abbrev pub is_registered : String → Bool
is_registered selector = any (λ s. s == selector) facet_registry

abbrev pub with_selector : (Invocation → Ending) → Request → Option String → Reply
with_selector facets r none = (bad_request, [])
with_selector facets r (some selector) =
    if is_registered selector
    then with_scopes facets r selector
        (resolve_request_api_key_scopes r.api_key_role r.api_key_scopes)
    else (bad_request, [])

unfoldable pub delegate_call : (Invocation → Ending) → Request → Reply
unfolding facet_registry
delegate_call facets r = with_selector facets r (truthy r.selector)
