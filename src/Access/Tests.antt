-- ===== src/Access/Tests.antt =====
-- The proxy with facets that return at once: the theorems at requests that meet their hypotheses.
use qc_backend.Base.{[], ◌∷◌, some, All, true, ◌≡◌, refl, ok, map, length, ◌≤◌}
use qc_backend.Access.Scopes.{operator, reader}
use qc_backend.Access.Keys.{
  trimmed_scopes, normalize_api_key_scopes, assert_api_key_can_access_selector,
}
use qc_backend.Access.Proxy.{Request, Invocation, Ending, returned, is_registered, delegate_call}
use qc_backend.Access.Catalogue.{catalogue, is_mapped, is_registered-eq-is_mapped}
use qc_backend.Access.Dispatch.{IsAuthorised, delegate_call-IsAuthorised}
use qc_backend.Access.Normal.{IsNormal, normalize_api_key_scopes-IsNormal}
use qc_backend.Access.Readers.{reads, delegate_call-reads}

abbrev facets : Invocation → Ending
facets i = returned "{}"

-- An operator's key moves an asset.
abbrev moving : Request
moving = record {
  selector = some "lifecycle.transition";
  payload = some "{}";
  tenant_id = some "t1";
  api_key_id = some "key";
  api_key_role = some operator;
  api_key_scopes = some ("assets:write" ∷ []);
}

-- A reader's key without scopes looks at an asset.
abbrev looking : Request
looking = record moving {
  selector = some "asset.get";
  api_key_role = some reader;
  api_key_scopes = some (" " ∷ []);
}

calls_made : map (λ i. i.selector) (delegate_call facets looking).1 ≡ "asset.get" ∷ []
unfolding delegate_call catalogue trimmed_scopes normalize_api_key_scopes
    assert_api_key_can_access_selector
calls_made = refl

is_registered-eq-is_mapped_example : is_registered "escrow.lock" ≡ is_mapped "escrow.lock"
is_registered-eq-is_mapped_example = is_registered-eq-is_mapped "escrow.lock"

delegate_call-IsAuthorised_example :
    All (IsAuthorised moving) (delegate_call facets moving).1
    × (length (delegate_call facets moving).1 ≤ 1)
delegate_call-IsAuthorised_example = delegate_call-IsAuthorised facets moving

accepted :
    normalize_api_key_scopes (some (" assets:read " ∷ "assets:read" ∷ [])) operator
    ≡ ok ("assets:read" ∷ [])
unfolding normalize_api_key_scopes catalogue trimmed_scopes
accepted = refl

normalize_api_key_scopes-IsNormal_example :
    IsNormal ("assets:read" ∷ [])
    × (normalize_api_key_scopes (some ("assets:read" ∷ [])) reader ≡ ok ("assets:read" ∷ []))
normalize_api_key_scopes-IsNormal_example =
    normalize_api_key_scopes-IsNormal (some (" assets:read " ∷ "assets:read" ∷ [])) operator reader
      ("assets:read" ∷ []) accepted

blank : trimmed_scopes looking.api_key_scopes ≡ []
unfolding trimmed_scopes
blank = refl

delegate_call-reads_example : All (λ i. reads i.selector ≡ true) (delegate_call facets looking).1
delegate_call-reads_example = delegate_call-reads facets looking refl blank
