-- ===== src/Qtag/Balances.antt =====
-- The balance of tags as sums over the rows in scope.
use qc_backend.Base.{
  String, List, [], ◌∷◌, Option, ℤ, pos, ◌+ℤ◌, Bool, ◌&&◌, ◌==◌, ◌≡◌, refl, ◌∙◌, if◌then◌else◌,
  select, foldl, truthy, inl, inr, Bool-cases, string_has_eq, int_laws,
}
use qc_backend.Qtag.Types.{Entry}
use qc_backend.Qtag.Table.{is_of_user, is_counted, Totals, nothing_yet, count_entry, balance_of}

-- The sum of a column over the rows that pass a test.
unfoldable sum_of : (Entry → ℤ) → (Entry → Bool) → List Entry → ℤ
sum_of f p [] = pos 0
sum_of f p (e ∷ es) = if p e then f e +ℤ sum_of f p es else sum_of f p es

module _ (p : Entry → Bool) where
  foldl-available :
      (rows : List Entry) (acc : Totals)
      → (foldl count_entry acc (select p rows)).available
        ≡ acc.available +ℤ sum_of (λ e. e.available_delta) p rows
  unfolding sum_of
  foldl-available [] acc = omega int_laws
  foldl-available (e ∷ es) acc = elim (Bool-cases (p e)) [
    | inl kept ↦ rw (kept, foldl-available es (count_entry acc e)) (omega int_laws)
    | inr left_out ↦ rw (left_out, foldl-available es acc)
  ]

  foldl-reserved :
      (rows : List Entry) (acc : Totals)
      → (foldl count_entry acc (select p rows)).reserved
        ≡ acc.reserved +ℤ sum_of (λ e. e.reserved_delta) p rows
  unfolding sum_of
  foldl-reserved [] acc = omega int_laws
  foldl-reserved (e ∷ es) acc = elim (Bool-cases (p e)) [
    | inl kept ↦ rw (kept, foldl-reserved es (count_entry acc e)) (omega int_laws)
    | inr left_out ↦ rw (left_out, foldl-reserved es acc)
  ]

-- The row is the tenant's and, where a user is named, the user's.
abbrev pub of_scope : String → Option String → Entry → Bool
of_scope tenant user e = e.tenant_id == tenant && is_of_user user e

unfoldable pub available_in : String → Option String → List Entry → ℤ
unfolding sum_of
available_in tenant user = sum_of (λ e. e.available_delta) (of_scope tenant user)

unfoldable pub reserved_in : String → Option String → List Entry → ℤ
unfolding sum_of
reserved_in tenant user = sum_of (λ e. e.reserved_delta) (of_scope tenant user)

module _ (tenant : String) (user : Option String) where
  pub available_in-cons :
      (e : Entry) (es : List Entry)
      → available_in tenant user (e ∷ es) ≡ (
          if of_scope tenant user e
          then e.available_delta +ℤ available_in tenant user es
          else available_in tenant user es)
  unfolding available_in
  available_in-cons e es = refl

  pub reserved_in-cons :
      (e : Entry) (es : List Entry)
      → reserved_in tenant user (e ∷ es) ≡ (
          if of_scope tenant user e
          then e.reserved_delta +ℤ reserved_in tenant user es
          else reserved_in tenant user es)
  unfolding reserved_in
  reserved_in-cons e es = refl

  zero-+ℤ : (a : ℤ) → pos 0 +ℤ a ≡ a
  zero-+ℤ a = omega int_laws

  pub balance_of-available :
      (rows : List Entry)
      → (balance_of tenant user rows).available ≡ available_in tenant (truthy user) rows
  unfolding balance_of available_in
  balance_of-available rows = foldl-available (is_counted tenant user) rows nothing_yet ∙ zero-+ℤ _

  pub balance_of-reserved :
      (rows : List Entry)
      → (balance_of tenant user rows).reserved ≡ reserved_in tenant (truthy user) rows
  unfolding balance_of reserved_in
  balance_of-reserved rows = foldl-reserved (is_counted tenant user) rows nothing_yet ∙ zero-+ℤ _
