-- ===== src/Ledger/Balances.antt =====
-- The balance as a sum over the rows in scope, and the projection of Ledger/Table against it.
use qc_backend.Base.{
  ◌==◌, ◌&&◌, string_has_eq, String, List, [], ◌∷◌, Option, some, none, ℤ, pos, ◌+ℤ◌, Bool, ◌≡◌,
  refl, ◌∙◌, ap, ap₂, if◌then◌else◌, select, foldl, is_empty, truthy, inl, inr, Bool-cases,
  int_laws,
}
use qc_backend.Ledger.Types.{EntryType, same_type, Entry}
use qc_backend.Ledger.Table.{
  in_scope, fits_user, Totals, no_totals, add_entry, get_balance_projection,
}

-- The sum of a column over the rows that pass a test.
unfoldable pub sum_over : (Entry → ℤ) → (Entry → Bool) → List Entry → ℤ
sum_over f p [] = pos 0
sum_over f p (e ∷ es) = if p e then f e +ℤ sum_over f p es else sum_over f p es

-- The amounts of one type.
abbrev pub amount_of : EntryType → Entry → ℤ
amount_of t e = if same_type t e.entry_type then e.amount else pos 0

-- The two balances of a scope: a tenant, or one user of it.
unfoldable pub available : String → Option String → List Entry → ℤ
unfolding sum_over
available tenant user = sum_over (λ e. e.available_delta) (in_scope tenant user)

unfoldable pub reserved : String → Option String → List Entry → ℤ
unfolding sum_over
reserved tenant user = sum_over (λ e. e.reserved_delta) (in_scope tenant user)

unfoldable pub amounts : EntryType → String → Option String → List Entry → ℤ
unfolding sum_over
amounts t tenant user = sum_over (amount_of t) (in_scope tenant user)

module _ (p : Entry → Bool) where
  foldl-available :
      (rows : List Entry) (acc : Totals)
      → (foldl add_entry acc (select p rows)).available
        ≡ acc.available +ℤ sum_over (λ e. e.available_delta) p rows
  unfolding sum_over
  foldl-available [] acc = omega int_laws
  foldl-available (e ∷ es) acc = elim (Bool-cases (p e)) [
    | inl kept ↦ rw (kept, foldl-available es (add_entry acc e)) (omega int_laws)
    | inr left_out ↦ rw (left_out, foldl-available es acc)
  ]

  foldl-reserved :
      (rows : List Entry) (acc : Totals)
      → (foldl add_entry acc (select p rows)).reserved
        ≡ acc.reserved +ℤ sum_over (λ e. e.reserved_delta) p rows
  unfolding sum_over
  foldl-reserved [] acc = omega int_laws
  foldl-reserved (e ∷ es) acc = elim (Bool-cases (p e)) [
    | inl kept ↦ rw (kept, foldl-reserved es (add_entry acc e)) (omega int_laws)
    | inr left_out ↦ rw (left_out, foldl-reserved es acc)
  ]

  foldl-by_type :
      (t : EntryType) (rows : List Entry) (acc : Totals)
      → (foldl add_entry acc (select p rows)).by_type t
        ≡ acc.by_type t +ℤ sum_over (amount_of t) p rows
  unfolding sum_over
  foldl-by_type t [] acc = omega int_laws
  foldl-by_type t (e ∷ es) acc = elim (Bool-cases (p e)) [
    | inl kept ↦ elim (Bool-cases (same_type t e.entry_type)) [
      | inl same ↦ rw (kept, foldl-by_type t es (add_entry acc e), same) (omega int_laws)
      | inr other ↦ rw (kept, foldl-by_type t es (add_entry acc e), other) (omega int_laws)
    ]
    | inr left_out ↦ rw (left_out, foldl-by_type t es acc)
  ]

zero-+ℤ : (a : ℤ) → pos 0 +ℤ a ≡ a
zero-+ℤ a = omega int_laws

module _ (tenant : String) (user : Option String) (rows : List Entry) where
  pub projection-available :
      (get_balance_projection tenant user rows).available ≡ available tenant user rows
  unfolding get_balance_projection available
  projection-available = foldl-available (in_scope tenant user) rows no_totals ∙ zero-+ℤ _

  pub projection-reserved :
      (get_balance_projection tenant user rows).reserved ≡ reserved tenant user rows
  unfolding get_balance_projection reserved
  projection-reserved = foldl-reserved (in_scope tenant user) rows no_totals ∙ zero-+ℤ _

  projection-by_type :
      (t : EntryType)
      → (foldl add_entry no_totals (select (in_scope tenant user) rows)).by_type t
        ≡ amounts t tenant user rows
  unfolding amounts
  projection-by_type t = foldl-by_type (in_scope tenant user) t rows no_totals ∙ zero-+ℤ _

  -- The total, and the four figures by type that the identities speak of.
  pub projection-total :
      (get_balance_projection tenant user rows).total
      ≡ available tenant user rows +ℤ reserved tenant user rows
  unfolding get_balance_projection
  projection-total = ap₂ ◌+ℤ◌ projection-available projection-reserved

  pub projection-purchased :
      (get_balance_projection tenant user rows).purchased
      ≡ amounts EntryType.purchased tenant user rows
  unfolding get_balance_projection
  projection-purchased = projection-by_type EntryType.purchased

  pub projection-granted :
      (get_balance_projection tenant user rows).granted ≡ amounts EntryType.granted tenant user rows
  unfolding get_balance_projection
  projection-granted = projection-by_type EntryType.granted

  pub projection-consumed :
      (get_balance_projection tenant user rows).consumed
      ≡ amounts EntryType.consumed tenant user rows
  unfolding get_balance_projection
  projection-consumed = projection-by_type EntryType.consumed

  pub projection-revoked :
      (get_balance_projection tenant user rows).revoked ≡ amounts EntryType.revoked tenant user rows
  unfolding get_balance_projection
  projection-revoked = projection-by_type EntryType.revoked

-- One more row changes the balance of the scopes that it is in.
pub available-cons :
    (tenant : String) (user : Option String) (e : Entry) (rows : List Entry)
    → available tenant user (e ∷ rows) ≡ (
        if in_scope tenant user e
        then e.available_delta +ℤ available tenant user rows
        else available tenant user rows)
unfolding available
available-cons tenant user e rows = refl

pub reserved-cons :
    (tenant : String) (user : Option String) (e : Entry) (rows : List Entry)
    → reserved tenant user (e ∷ rows) ≡ (
        if in_scope tenant user e
        then e.reserved_delta +ℤ reserved tenant user rows
        else reserved tenant user rows)
unfolding reserved
reserved-cons tenant user e rows = refl

truthy_idem : (user : Option String) → truthy (truthy user) ≡ truthy user
truthy_idem none = refl
truthy_idem (some u) = elim (Bool-cases (is_empty u)) [
  | inl blank ↦ rw blank
  | inr given ↦ rw (given, given)
]

-- The empty user is no user.
scope-truthy :
    (tenant : String) (user : Option String) → in_scope tenant (truthy user) ≡ in_scope tenant user
scope-truthy tenant user =
    ap {B = Entry → Bool} (λ o e. e.tenant_id == tenant && fits_user o e) (truthy_idem user)

module _ (tenant : String) (user : Option String) (rows : List Entry) where
  pub available-truthy : available tenant (truthy user) rows ≡ available tenant user rows
  unfolding available
  available-truthy = ap (λ p. sum_over (λ e. e.available_delta) p rows) (scope-truthy tenant user)

  pub reserved-truthy : reserved tenant (truthy user) rows ≡ reserved tenant user rows
  unfolding reserved
  reserved-truthy = ap (λ p. sum_over (λ e. e.reserved_delta) p rows) (scope-truthy tenant user)
