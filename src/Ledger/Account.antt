-- ===== src/Ledger/Account.antt =====
-- The abstract account of a scope, two numbers, and the operational calls as its refinements.
use qc_backend.Base.{
  String, List, [], ◌∷◌, Option, some, none, ℤ, pos, neg, ◌+ℤ◌, ◌-ℤ◌, ◌≤ℤ◌, ltb_ℤ, Bool, true,
  false, ◌≡◌, refl, inl, inr, is_empty, trim, truthy, if◌then◌else◌, any, find_first, Result, ok,
  err, transaction, Bool-cases, str_eq_refl, string_has_eq, int_laws, arith, ◌∙◌, sym, subst,
}
use qc_backend.Ledger.Types.{
  EntryType, Number, integer, Error, Operational, Draft, Entry, Store, insufficient_credits,
  insufficient_reserved_credits,
}
use qc_backend.Ledger.Guards.{Call, normalize_positive_amount, validate_idempotency_key}
use qc_backend.Ledger.Table.{
  fits_int4, fits_columns, fits_user, in_scope, key_taken, has_parents, stored, inserted,
  with_entry, insert_entry, create_ledger_entry, find_idempotent_entry, get_balance_projection,
}
use qc_backend.Ledger.Operations.{
  draft_of, reserve_in_transaction, reserve_credits, consume_in_transaction,
  consume_reserved_credits, release_in_transaction, release_reserved_credits,
  record_purchased_credits,
}
use qc_backend.Ledger.Balances.{
  available, reserved, available-cons, reserved-cons, projection-available, projection-reserved,
}
use qc_backend.Ledger.Operational.{checked_write, guarded}

pub record Account : Type 0 where
  pub available : ℤ
  pub reserved : ℤ

abbrev pub account : String → Option String → List Entry → Account
account tenant user rows = record {
  available = available tenant user rows;
  reserved = reserved tenant user rows;
}

pub data Move : Type 0 where
  reserve consume release purchase : Move

-- What a move of `n` credits does to an account; `none` where it is refused.
unfoldable pub move : Move → ℤ → Account → Option Account
move reserve n a =
    if ltb_ℤ a.available n
    then none
    else some (record { available = a.available -ℤ n; reserved = a.reserved +ℤ n })
move consume n a =
    if ltb_ℤ a.reserved n
    then none
    else some (record { available = a.available; reserved = a.reserved -ℤ n })
move release n a =
    if ltb_ℤ a.reserved n
    then none
    else some (record { available = a.available +ℤ n; reserved = a.reserved -ℤ n })
move purchase n a = some (record { available = a.available +ℤ n; reserved = a.reserved })

unfoldable pub move_call : Move → Operational → Call Entry
move_call reserve p = reserve_credits p
move_call consume p = consume_reserved_credits p
move_call release p = release_reserved_credits p
move_call purchase p = record_purchased_credits p

-- A call's result agrees with the account that is expected: refused with no change, or an
-- account that has moved.
abbrev pub Agrees :
    String → Option String → Store → Option Account → Result Error Entry × Store → Type 0
Agrees tenant user s none (r, s') = (e : Error) × (r ≡ err e) × (s' ≡ s)
Agrees tenant user s (some a) (r, s') =
    (e : Entry) × (r ≡ ok e) × (account tenant user s'.entries ≡ a)

-- A key that no row has is not found.
find_first-none :
    (p : Entry → Bool) (rows : List Entry) → any p rows ≡ false → find_first p rows ≡ none
find_first-none p [] h = refl
find_first-none p (e ∷ es) h = ground (arith, find_first-none p es)

find-none :
    (tenant key : String) (rows : List Entry)
    → key_taken tenant (some key) rows ≡ false
    → find_idempotent_entry tenant (some key) rows ≡ none
unfolding find_idempotent_entry key_taken
find-none tenant key rows h = elim (Bool-cases (is_empty key)) [
  | inl blank ↦ rw blank
  | inr given ↦ rw given (find_first-none _ rows h)
]

-- A row that a call writes lies in the scope of the call.
in_scope-stored :
    (d : Draft) (s : Store) → in_scope d.tenant_id d.user_id (inserted (stored d) s) ≡ true
in_scope-stored d s =
    rw (str_eq_refl d.tenant_id) (fits_user_self (truthy d.user_id) (inserted (stored d) s) refl)
  where
    fits_user_self : (u : Option String) (e : Entry) → e.user_id ≡ u → fits_user u e ≡ true
    fits_user_self none e h = refl
    fits_user_self (some u) e h = rw h (str_eq_refl u)

module _ (d : Draft) (s : Store) where
  pub account-with_entry :
      account d.tenant_id d.user_id (with_entry (stored d) s).entries ≡ record {
        available = d.available_delta +ℤ available d.tenant_id d.user_id s.entries;
        reserved = d.reserved_delta +ℤ reserved d.tenant_id d.user_id s.entries;
      }
  account-with_entry = rw (available-cons, reserved-cons, in_scope-stored d s)

  insert_entry-fresh :
      fits_columns d ≡ true
      → key_taken d.tenant_id d.idempotency_key s.entries ≡ false
      → has_parents d.tenant_id d.purchase_order_id s ≡ true
      → insert_entry d s ≡ (ok (inserted d s), with_entry d s)
  unfolding insert_entry
  insert_entry-fresh fits fresh there = rw (fits, fresh, there)

pub checked_write-fresh :
    (p : Operational) (fails : Store → Bool) (code : Error) (d : Draft) (s : Store)
    → d.tenant_id ≡ p.tenant_id
    → d.idempotency_key ≡ some p.idempotency_key
    → fits_columns d ≡ true
    → key_taken p.tenant_id (some p.idempotency_key) s.entries ≡ false
    → has_parents p.tenant_id (truthy d.purchase_order_id) s ≡ true
    → checked_write p fails code d s
      ≡ (if fails s then (err code, s) else (ok (inserted (stored d) s), with_entry (stored d) s))
unfolding create_ledger_entry
checked_write-fresh p fails code d s tenant key fits fresh there = elim (Bool-cases (fails s)) [
  | inl short ↦ rw (find-none p.tenant_id p.idempotency_key s.entries fresh, short)
  | inr enough ↦
      rw (find-none p.tenant_id p.idempotency_key s.entries fresh, enough)
        (insert_entry-fresh (stored d) s fits (rw (tenant, key) fresh) (rw tenant there))
]

-- A branch that writes last is its own transaction.
transaction-if :
    (m : Call Entry) (s s' : Store) (b : Bool) (code : Error) (e : Entry)
    → m s ≡ (if b then (err code, s) else (ok e, s'))
    → transaction m s ≡ (if b then (err code, s) else (ok e, s'))
transaction-if m s s' true code e h = rw h
transaction-if m s s' false code e h = rw h

guarded-passed :
    (p : Operational) (body : ℤ → Call Entry) (n : ℤ) (s : Store)
    → p.amount ≡ integer n
    → pos 1 ≤ℤ n
    → is_empty (trim p.idempotency_key) ≡ false
    → guarded p body s ≡ body n s
guarded-passed p body n s amount positive given = rw (passes_amount p.amount amount, passes_key)
  where
    passes_amount : (x : Number) → x ≡ integer n → normalize_positive_amount x ≡ ok n
    passes_amount x e = unfold normalize_positive_amount in ground arith

    passes_key : validate_idempotency_key p.idempotency_key ≡ ok tt
    passes_key = unfold validate_idempotency_key in rw given

-- The move, decided by the test that the call makes.
if-Agrees :
    (tenant : String) (user : Option String) (s s' : Store) (b : Bool) (code : Error) (e : Entry)
    (a : Account)
    → (b ≡ false → account tenant user s'.entries ≡ a)
    → Agrees tenant user s (if b then none else some a) (if b then (err code, s) else (ok e, s'))
if-Agrees tenant user s s' true code e a h = (code, refl, refl)
if-Agrees tenant user s s' false code e a h = (e, refl, h refl)

pub Account-eq :
    (a b c d : ℤ)
    → a ≡ c
    → b ≡ d
    → ◌≡◌ {A = Account}
        (record { available = a; reserved = b })
        (record { available = c; reserved = d })
Account-eq a b c d h k = cc

-- What a caller provides: a positive amount that fits its column, a key that is not blank, and
-- that no entry of the tenant has, a tenant that is there, and no purchase order that is not.
pub record IsFresh (p : Operational) (n : ℤ) (s : Store) : Type 0 where
  pub amount : p.amount ≡ integer n
  pub positive : pos 1 ≤ℤ n
  pub fits : n ≤ℤ pos 2147483647
  pub given : is_empty (trim p.idempotency_key) ≡ false
  pub unused : key_taken p.tenant_id (some p.idempotency_key) s.entries ≡ false
  pub parents : has_parents p.tenant_id (truthy p.purchase_order_id) s ≡ true

fits_columns-all :
    (n : ℤ) → pos 1 ≤ℤ n → n ≤ℤ pos 2147483647 → (fits_int4 n ≡ true) × (fits_int4 (neg n) ≡ true)
fits_columns-all n h k = (grind int_laws, grind int_laws)

module _ (p : Operational) (n : ℤ) (s : Store) (h : IsFresh p n s) where
  -- A call that tests and writes moves the account by the deltas that it writes.
  guarded-Agrees :
      (body : ℤ → Call Entry) (fails : Bool) (code : Error) (type : EntryType) (a r : ℤ)
      (goal : Account)
      → (let d = draft_of p n type a r in
          body n s ≡ (
            if fails then (err code, s) else (ok (inserted (stored d) s), with_entry (stored d) s)))
      → a +ℤ available p.tenant_id p.user_id s.entries ≡ goal.available
      → r +ℤ reserved p.tenant_id p.user_id s.entries ≡ goal.reserved
      → Agrees p.tenant_id p.user_id s (if fails then none else some goal) (guarded p body s)
  guarded-Agrees body fails code type a r goal runs moved_available moved_reserved =
      let d = draft_of p n type a r in
      subst (Agrees p.tenant_id p.user_id s (if fails then none else some goal))
        (sym (guarded-passed p body n s h.amount h.positive h.given ∙ runs))
        (if-Agrees p.tenant_id p.user_id s (with_entry (stored d) s) fails code
          (inserted (stored d) s) goal
          (λ enough. account-with_entry d s ∙ Account-eq _ _ _ _ moved_available moved_reserved))

  -- The body of a call that tests and writes in a transaction.
  transaction-fresh :
      (fails : Store → Bool) (code : Error) (type : EntryType) (a r : ℤ)
      → fits_columns (draft_of p n type a r) ≡ true
      → (let d = draft_of p n type a r in
          transaction (checked_write p fails code d) s ≡ (
            if fails s
            then (err code, s)
            else (ok (inserted (stored d) s), with_entry (stored d) s)))
  transaction-fresh fails code type a r fits =
      let d = draft_of p n type a r in
      transaction-if (checked_write p fails code d) s (with_entry (stored d) s) (fails s) code
        (inserted (stored d) s)
        (checked_write-fresh p fails code d s refl refl fits h.unused h.parents)

  -- The two calls of a registration, as equations.
  pub reserve_credits-fresh :
      (let d = draft_of p n EntryType.reserved (neg n) n in
        reserve_credits p s ≡ (
          if ltb_ℤ (available p.tenant_id p.user_id s.entries) n
          then (err insufficient_credits, s)
          else (ok (inserted (stored d) s), with_entry (stored d) s)))
  unfolding reserve_credits reserve_in_transaction
  reserve_credits-fresh = rw projection-available at (
      guarded-passed p (λ m. transaction (reserve_in_transaction p m)) n s h.amount h.positive
        h.given
      ∙ transaction-fresh
          (λ t. ltb_ℤ (get_balance_projection p.tenant_id p.user_id t.entries).available n)
          insufficient_credits EntryType.reserved (neg n) n
          (rw ((fits_columns-all n h.positive h.fits).0, (fits_columns-all n h.positive h.fits).1)))

  pub consume_reserved_credits-fresh :
      (let d = draft_of p n EntryType.consumed (pos 0) (neg n) in
        consume_reserved_credits p s ≡ (
          if ltb_ℤ (reserved p.tenant_id p.user_id s.entries) n
          then (err insufficient_reserved_credits, s)
          else (ok (inserted (stored d) s), with_entry (stored d) s)))
  unfolding consume_reserved_credits consume_in_transaction
  consume_reserved_credits-fresh = rw projection-reserved at (
      guarded-passed p (λ m. transaction (consume_in_transaction p m)) n s h.amount h.positive
        h.given
      ∙ transaction-fresh
          (λ t. ltb_ℤ (get_balance_projection p.tenant_id p.user_id t.entries).reserved n)
          insufficient_reserved_credits EntryType.consumed (pos 0) (neg n)
          (rw ((fits_columns-all n h.positive h.fits).0, (fits_columns-all n h.positive h.fits).1)))

  fits : fits_int4 n ≡ true
  fits = (fits_columns-all n h.positive h.fits).0

  fits_neg : fits_int4 (neg n) ≡ true
  fits_neg = (fits_columns-all n h.positive h.fits).1

  reserve-Agrees :
      Agrees p.tenant_id p.user_id s
        (move reserve n (account p.tenant_id p.user_id s.entries))
        (reserve_credits p s)
  unfolding reserve_credits reserve_in_transaction move
  reserve-Agrees = rw projection-available at (
      guarded-Agrees (λ m. transaction (reserve_in_transaction p m))
        (ltb_ℤ (get_balance_projection p.tenant_id p.user_id s.entries).available n)
        insufficient_credits EntryType.reserved (neg n) n
        (record {
          available = available p.tenant_id p.user_id s.entries -ℤ n;
          reserved = reserved p.tenant_id p.user_id s.entries +ℤ n;
        })
        (transaction-fresh
          (λ t. ltb_ℤ (get_balance_projection p.tenant_id p.user_id t.entries).available n)
          insufficient_credits EntryType.reserved (neg n) n (rw (fits, fits_neg)))
        (omega int_laws) (omega int_laws))

  consume-Agrees :
      Agrees p.tenant_id p.user_id s
        (move consume n (account p.tenant_id p.user_id s.entries))
        (consume_reserved_credits p s)
  unfolding consume_reserved_credits consume_in_transaction move
  consume-Agrees = rw projection-reserved at (
      guarded-Agrees (λ m. transaction (consume_in_transaction p m))
        (ltb_ℤ (get_balance_projection p.tenant_id p.user_id s.entries).reserved n)
        insufficient_reserved_credits EntryType.consumed (pos 0) (neg n)
        (record {
          available = available p.tenant_id p.user_id s.entries;
          reserved = reserved p.tenant_id p.user_id s.entries -ℤ n;
        })
        (transaction-fresh
          (λ t. ltb_ℤ (get_balance_projection p.tenant_id p.user_id t.entries).reserved n)
          insufficient_reserved_credits EntryType.consumed (pos 0) (neg n) (rw (fits, fits_neg)))
        (omega int_laws) (omega int_laws))

  release-Agrees :
      Agrees p.tenant_id p.user_id s
        (move release n (account p.tenant_id p.user_id s.entries))
        (release_reserved_credits p s)
  unfolding release_reserved_credits release_in_transaction move
  release-Agrees = rw projection-reserved at (
      guarded-Agrees (λ m. transaction (release_in_transaction p m))
        (ltb_ℤ (get_balance_projection p.tenant_id p.user_id s.entries).reserved n)
        insufficient_reserved_credits EntryType.released n (neg n)
        (record {
          available = available p.tenant_id p.user_id s.entries +ℤ n;
          reserved = reserved p.tenant_id p.user_id s.entries -ℤ n;
        })
        (transaction-fresh
          (λ t. ltb_ℤ (get_balance_projection p.tenant_id p.user_id t.entries).reserved n)
          insufficient_reserved_credits EntryType.released n (neg n) (rw (fits, fits_neg)))
        (omega int_laws) (omega int_laws))

  purchase-Agrees :
      Agrees p.tenant_id p.user_id s
        (move purchase n (account p.tenant_id p.user_id s.entries))
        (record_purchased_credits p s)
  unfolding record_purchased_credits move
  purchase-Agrees =
      guarded-Agrees
        (λ m.
          checked_write p (λ t. false) insufficient_credits
            (draft_of p m EntryType.purchased m (pos 0)))
        false insufficient_credits EntryType.purchased n (pos 0)
        (record {
          available = available p.tenant_id p.user_id s.entries +ℤ n;
          reserved = reserved p.tenant_id p.user_id s.entries;
        })
        (checked_write-fresh p (λ t. false) insufficient_credits
          (draft_of p n EntryType.purchased n (pos 0)) s refl refl (rw fits) h.unused h.parents)
        (omega int_laws) (omega int_laws)

-- With a positive amount that fits its column, a key that is not blank and not in use, a tenant
-- that is there, and a purchase order that is there if one is named, each of the four operational
-- calls acts on the available and reserved credits of its scope as the
-- move of the abstract account does: it succeeds with the moved account where the move is
-- possible, and otherwise it is refused and changes nothing.
pub move_call-Agrees :
    (m : Move) (p : Operational) (n : ℤ) (s : Store)
    → IsFresh p n s
    → Agrees p.tenant_id p.user_id s
        (move m n (account p.tenant_id p.user_id s.entries))
        (move_call m p s)
unfolding move_call
move_call-Agrees reserve p n s h = reserve-Agrees p n s h
move_call-Agrees consume p n s h = consume-Agrees p n s h
move_call-Agrees release p n s h = release-Agrees p n s h
move_call-Agrees purchase p n s h = purchase-Agrees p n s h
