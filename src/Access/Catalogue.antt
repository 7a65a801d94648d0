-- ===== src/Access/Catalogue.antt =====
-- What the catalogue of scopes and the registry of facets are to one another.
use qc_backend.Base.{
  String, List, [], ◌∷◌, Option, some, none, Bool, true, false, ◌==◌, ◌≡◌, refl, ◌∙◌, sym, any,
  every, trim, eq_iff, string_has_eq, Bool-cases, Option-cases, inl, inr, arith,
}
use qc_backend.Access.Scopes.{
  scope_definitions, api_key_scopes, selector_scope_map, default_scopes_by_role, facet_registry,
}
use qc_backend.Access.Keys.{map_get}
use qc_backend.Access.Proxy.{is_registered}

abbrev pub is_found : Option String → Bool
is_found none = false
is_found (some v) = true

-- The catalogue, computed.
unfoldable pub catalogue : Unit {0}
unfolding scope_definitions api_key_scopes selector_scope_map default_scopes_by_role facet_registry
    trim
catalogue = tt

-- A text that is among others, where all of these pass a test, passes it.
pub any-every :
    (t : String → Bool) (s : String) (xs : List String)
    → every t xs ≡ true
    → any (λ x. x == s) xs ≡ true
    → t s ≡ true
any-every t s [] h k = cc
any-every t s (x ∷ xs) h k = elim (Bool-cases (x == s)) [
  | inl same ↦
      let equal : x ≡ s = (eq_iff x s).0 same in
      let first : t x ≡ true = ground arith in rw equal at first
  | inr differ ↦ any-every t s xs (ground arith) (rw differ at k)
]

-- An entry that `map.get` reads passes what all entries pass.
pub map_get-every :
    (t : String × String → Bool) (key v : String) (es : List (String × String))
    → every t es ≡ true
    → map_get key es ≡ some v
    → t (key, v) ≡ true
map_get-every t key v [] h found = cc
map_get-every t key v ((k, w) ∷ es) h found = elim (Option-cases (map_get key es)) [
  | inr (u, later) ↦
      let same : some u ≡ some v = (rw later at found) in
      map_get-every t key v es (ground arith) (later ∙ same)
  | inl nowhere ↦ elim (Bool-cases (k == key)) [
    | inl same ↦
        let equal : k ≡ key = (eq_iff k key).0 same in
        let value : some w ≡ some v = (rw (nowhere, same) at found) in
        let first : t (k, w) ≡ true = ground arith in
        let word : w ≡ v = cc in (rw (equal, word) at first)
    | inr differ ↦ let nothing : none ≡ some v = (rw (nowhere, differ) at found) in cc
  ]
]

abbrev pub is_mapped : String → Bool
is_mapped s = is_found (map_get s selector_scope_map)

registry_mapped : every is_mapped facet_registry ≡ true
unfolding catalogue
registry_mapped = refl

abbrev is_registered_entry : String × String → Bool
is_registered_entry (selector, s) = is_registered selector

map_registered : every is_registered_entry selector_scope_map ≡ true
unfolding catalogue
map_registered = refl

-- A selector is registered as a facet exactly if some scope of the catalogue has it.
pub is_registered-eq-is_mapped : (s : String) → is_registered s ≡ is_mapped s
is_registered-eq-is_mapped s = elim (Bool-cases (is_registered s)) [
  | inl registered ↦
      registered ∙ sym (any-every is_mapped s facet_registry registry_mapped registered)
  | inr foreign ↦ elim (Option-cases (map_get s selector_scope_map)) [
    | inl nowhere ↦ rw (foreign, nowhere) refl
    | inr (v, found) ↦
        let registered : is_registered s ≡ true =
          map_get-every is_registered_entry s v selector_scope_map map_registered found in
        cc
  ]
]
