-- ===== src/Access/Normal.antt =====
-- What `normalizeApiKeyScopes` accepts.
use qc_backend.Base.{
  subst, String, List, [], ◌∷◌, Option, some, none, Bool, true, not, ◌&&◌, ◌==◌, ◌≡◌, ◌≢◌, refl,
  ◌∙◌, ap, map, every, find_first, select, is_empty, trim, ok, eq_iff, string_has_eq, Option-cases,
  inl, inr, arith,
}
use qc_backend.Access.Scopes.{
  ApiKeyRole, admin, operator, reader, api_key_scopes, default_scopes_by_role,
}
use qc_backend.Access.Unique.{unique, unique_idem}
use qc_backend.Access.Keys.{
  is_scope, first_invalid, trimmed_scopes, validated, normalize_api_key_scopes,
}
use qc_backend.Access.Catalogue.{catalogue, any-every}

abbrev is_trimmed : String → Bool
is_trimmed s = trim s == s && not (is_empty s)

scopes_trimmed : every is_trimmed api_key_scopes ≡ true
unfolding catalogue
scopes_trimmed = refl

defaults_valid : (role : ApiKeyRole) → every is_scope (default_scopes_by_role role) ≡ true
unfolding catalogue
defaults_valid admin = refl
defaults_valid operator = refl
defaults_valid reader = refl

defaults_unique :
    (role : ApiKeyRole) → unique (default_scopes_by_role role) ≡ default_scopes_by_role role
unfolding catalogue unique
defaults_unique admin = refl
defaults_unique operator = refl
defaults_unique reader = refl

-- What no search for an invalid element finds is all valid.
find_first-none :
    (t : String → Bool) (xs : List String)
    → find_first (λ s. not (t s)) xs ≡ none
    → every t xs ≡ true
find_first-none t [] h = refl
find_first-none t (x ∷ xs) h = let rest = find_first-none t xs in ground arith

map-trim :
    (xs : List String)
    → every is_scope xs ≡ true
    → select (λ s. not (is_empty s)) (map trim xs) ≡ xs
map-trim [] h = refl
map-trim (x ∷ xs) h =
    let good : is_trimmed x ≡ true =
      any-every is_trimmed x api_key_scopes scopes_trimmed (ground arith) in
    let same : trim x ≡ x = (eq_iff (trim x) x).0 (ground arith) in
    let full : not (is_empty x) ≡ true = ground arith in rw (same, full, map-trim xs (ground arith))

-- The scopes of a key: known, each once, and not none.
pub record IsNormal (scopes : List String) : Type 0 where
  pub known : every is_scope scopes ≡ true
  pub once : unique scopes ≡ scopes
  pub some_scope : scopes ≢ []

IsNormal-of :
    (x : String) (xs : List String)
    → every is_scope (x ∷ xs) ≡ true
    → unique (x ∷ xs) ≡ x ∷ xs
    → IsNormal (x ∷ xs)
IsNormal-of x xs known once = record { known = known; once = once; some_scope = λ e. cc }

defaults_some : (role : ApiKeyRole) → default_scopes_by_role role ≢ []
unfolding catalogue
defaults_some admin = λ e. cc
defaults_some operator = λ e. cc
defaults_some reader = λ e. cc

validated-IsNormal :
    (scopes : List String) (role : ApiKeyRole) (ys : List String)
    → unique scopes ≡ scopes
    → validated scopes role ≡ ok ys
    → IsNormal ys
validated-IsNormal [] role ys once h =
    let same : default_scopes_by_role role ≡ ys = cc in
    subst IsNormal same (record {
      known = defaults_valid role;
      once = defaults_unique role;
      some_scope = defaults_some role;
    })
validated-IsNormal (x ∷ xs) role ys once h = elim (Option-cases (first_invalid (x ∷ xs))) [
  | inr (bad, found) ↦ let refused = (rw found at h) in cc
  | inl clean ↦
      let accepted : ok (x ∷ xs) ≡ ok ys = (rw clean at h) in
      let same : x ∷ xs ≡ ys = cc in
      subst IsNormal same (IsNormal-of x xs (find_first-none is_scope (x ∷ xs) clean) once)
]

trimmed_scopes_once :
    (value : Option (List String)) → unique (trimmed_scopes value) ≡ trimmed_scopes value
unfolding trimmed_scopes unique
trimmed_scopes_once none = refl
trimmed_scopes_once (some value) = unique_idem (select (λ s. not (is_empty s)) (map trim value))

trimmed_scopes-IsNormal :
    (scopes : List String) → IsNormal scopes → trimmed_scopes (some scopes) ≡ scopes
unfolding trimmed_scopes
trimmed_scopes-IsNormal scopes h = ap unique (map-trim scopes h.known) ∙ h.once

find_first-every :
    (t : String → Bool) (xs : List String)
    → every t xs ≡ true
    → find_first (λ s. not (t s)) xs ≡ none
find_first-every t [] h = refl
find_first-every t (x ∷ xs) h = let rest = find_first-every t xs in ground arith

validated-normal :
    (scopes : List String) (role : ApiKeyRole) → IsNormal scopes → validated scopes role ≡ ok scopes
validated-normal [] role h = absurd (h.some_scope refl)
validated-normal (x ∷ xs) role h = rw (find_first-every is_scope (x ∷ xs) h.known)

-- The scopes of a key, once accepted, are known, each once and at least one, and they are accepted
-- again unchanged, for whichever role.
pub normalize_api_key_scopes-IsNormal :
    (value : Option (List String)) (role role' : ApiKeyRole) (scopes : List String)
    → normalize_api_key_scopes value role ≡ ok scopes
    → IsNormal scopes × (normalize_api_key_scopes (some scopes) role' ≡ ok scopes)
unfolding normalize_api_key_scopes
normalize_api_key_scopes-IsNormal value role role' scopes h =
    let normal =
      validated-IsNormal (trimmed_scopes value) role scopes (trimmed_scopes_once value) h in
    (normal, rw (trimmed_scopes-IsNormal scopes normal) (validated-normal scopes role' normal))
