-- ===== src/Access/Readers.antt =====
-- A reader's key without scopes of its own only reads.
use qc_backend.Base.{
  String, List, [], ◌∷◌, Option, some, none, Bool, true, not, ◌||◌, ◌==◌, ◌≡◌, refl, ap, ◌∙◌, any,
  every, All, ok, string_has_eq, arith,
}
use qc_backend.Access.Scopes.{ApiKeyRole, reader, selector_scope_map, default_scopes_by_role}
use qc_backend.Access.Keys.{
  trimmed_scopes, validated, normalize_api_key_scopes, resolve_scope_for_selector, map_get,
  mapped_or, scopes_or_none,
}
use qc_backend.Access.Proxy.{
  Request, Invocation, Ending, resolve_request_api_key_scopes, delegate_call,
}
use qc_backend.Access.Catalogue.{catalogue, map_get-every}
use qc_backend.Access.Dispatch.{delegate_call-IsAuthorised}

-- The selectors that look up what is there.
abbrev pub reading_selectors : List String
reading_selectors =
    "asset.get" ∷ "asset.list" ∷ "context.routeAssetRead" ∷ "commissioning.status" ∷ "agent.status"
    ∷ "escrow.status" ∷ "document.verify" ∷ "publicProfile.filter" ∷ []

abbrev pub reads : String → Bool
reads selector = any (λ s. s == selector) reading_selectors

abbrev pub is_reader_scope : String → Bool
is_reader_scope s = any (λ x. x == s) (default_scopes_by_role reader)

abbrev reads_if_reader : String × String → Bool
reads_if_reader (selector, s) = not (is_reader_scope s) || reads selector

reader_entries : every reads_if_reader selector_scope_map ≡ true
unfolding catalogue
reader_entries = refl

mapped_or-ok :
    (selector : String) (o : Option String) (s : String) → mapped_or selector o ≡ ok s → o ≡ some s
mapped_or-ok selector none s h = cc
mapped_or-ok selector (some x) s h = cc

reads-required :
    (selector s : String)
    → resolve_scope_for_selector selector ≡ ok s
    → is_reader_scope s ≡ true
    → reads selector ≡ true
unfolding resolve_scope_for_selector
reads-required selector s h k =
    let found : map_get selector selector_scope_map ≡ some s = mapped_or-ok selector _ s h in
    let entry : reads_if_reader (selector, s) ≡ true =
      map_get-every reads_if_reader selector s selector_scope_map reader_entries found in
    ground arith

All-map {ℓ κ} :
    {P : Invocation → Type ℓ} {Q : Invocation → Type κ} (xs : List Invocation)
    → ((i : Invocation) → P i → Q i)
    → All P xs
    → All Q xs
All-map [] f h = tt
All-map (x ∷ xs) f h = (f x h.0, All-map xs f h.1)

normalize-blank :
    (value : Option (List String)) (role : ApiKeyRole)
    → trimmed_scopes value ≡ []
    → normalize_api_key_scopes value role ≡ ok (default_scopes_by_role role)
unfolding normalize_api_key_scopes
normalize-blank value role blank = ap (λ scopes. validated scopes role) blank

-- Through the proxy, a reader's key whose own scopes are missing or blank calls only facets that
-- read.
pub delegate_call-reads :
    (facets : Invocation → Ending) (r : Request)
    → r.api_key_role ≡ some reader
    → trimmed_scopes r.api_key_scopes ≡ []
    → All (λ i. reads i.selector ≡ true) (delegate_call facets r).1
delegate_call-reads facets r role blank =
    All-map (delegate_call facets r).1
      (λ i h.
        let effective : resolve_request_api_key_scopes r.api_key_role r.api_key_scopes
            ≡ ok (some (default_scopes_by_role reader)) =
          rw (role, normalize-blank r.api_key_scopes reader blank) in
        let same : some (default_scopes_by_role reader) ≡ h.effective.0 = cc (h.effective.1) in
        let own : default_scopes_by_role reader ≡ i.context.scopes =
          ap scopes_or_none same ∙ h.effective.2 in
        reads-required i.selector h.required.0 h.required.1 (rw own h.required.2))
      (delegate_call-IsAuthorised facets r).0
