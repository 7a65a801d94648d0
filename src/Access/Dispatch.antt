-- ===== src/Access/Dispatch.antt =====
-- When the proxy calls a facet.
use qc_backend.Base.{
  truthy-some, String, List, Option, some, true, ◌==◌, ◌≡◌, refl, any, All, truthy, Result, ok, err,
  string_has_eq, Bool-cases, Option-cases, Result-cases, inl, inr, length, ◌≤◌, arith,
}
use qc_backend.Access.Keys.{
  ApiKeyScopeError, resolve_scope_for_selector, allowed_by, assert_api_key_can_access_selector,
  scopes_or_none,
}
use qc_backend.Access.Proxy.{
  Request, Invocation, Ending, resolve_request_api_key_scopes, is_registered, delegate_call,
}

-- The call is of a registered selector that the request names; its required scope is among the
-- effective ones; its context comes from the middleware.
pub record IsAuthorised (r : Request) (i : Invocation) : Type 0 where
  pub named : r.selector ≡ some i.selector
  pub registered : is_registered i.selector ≡ true
  pub effective :
      (s : Option (List String)) × (resolve_request_api_key_scopes r.api_key_role r.api_key_scopes
        ≡ ok s)
      × (scopes_or_none s ≡ i.context.scopes)
  pub required :
      (s : String) × (resolve_scope_for_selector i.selector ≡ ok s)
      × (any (λ x. x == s) i.context.scopes ≡ true)
  pub tenant : i.context.tenant_id ≡ r.tenant_id

allowed_by-ok :
    (selector : String) (available : List String) (m : Result ApiKeyScopeError String)
    → allowed_by selector available m ≡ ok tt
    → (s : String) × (m ≡ ok s) × (any (λ x. x == s) available ≡ true)
allowed_by-ok selector available (err e) h = cc
allowed_by-ok selector available (ok s) h = elim (Bool-cases (any (λ x. x == s) available)) [
  | inl there ↦ (s, refl, there)
  | inr absent ↦ let refused = (rw absent at h) in cc
]

-- Every call of a facet that the proxy makes is authorised, whatever the request and the facets;
-- it makes one call at most.
pub delegate_call-IsAuthorised :
    (facets : Invocation → Ending) (r : Request)
    → All (IsAuthorised r) (delegate_call facets r).1 × (length (delegate_call facets r).1 ≤ 1)
unfolding delegate_call assert_api_key_can_access_selector
delegate_call-IsAuthorised facets r = elim (Option-cases (truthy r.selector)) [
  | inl nothing ↦ rw nothing (tt, omega arith)
  | inr (selector, named) ↦ elim (Bool-cases (is_registered selector)) [
    | inr foreign ↦ rw (named, foreign) (tt, omega arith)
    | inl registered ↦
        elim (Result-cases (resolve_request_api_key_scopes r.api_key_role r.api_key_scopes)) [
          | inr (e, bad) ↦ rw (named, registered, bad) (tt, omega arith)
          | inl (scopes, good) ↦
              elim (Result-cases (assert_api_key_can_access_selector selector scopes)) [
                | inr (e, denied) ↦ rw (named, registered, good, denied) (tt, omega arith)
                | inl (u, granted) ↦
                    rw (named, registered, good, granted)
                      (
                        (
                          record {
                            named = truthy-some r.selector selector named;
                            registered = registered;
                            effective = (scopes, good, refl);
                            required = allowed_by-ok selector (scopes_or_none scopes) _ granted;
                            tenant = refl;
                          },
                          tt,
                        ),
                        omega arith,
                      )
              ]
        ]
  ]
]
