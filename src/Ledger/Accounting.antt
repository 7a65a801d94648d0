-- ===== src/Ledger/Accounting.antt =====
-- What the balance projection's figures have to do with one another, and that the ledger only
-- grows.
use qc_backend.Base.{
  String, List, [], ◌∷◌, Option, ℤ, pos, ◌+ℤ◌, Bool, ◌≡◌, if◌then◌else◌, All, Result, inl, inr,
  Bool-cases, int_laws, parts_of_eq,
}
use qc_backend.Ledger.Types.{EntryType, same_type, Error, Entry, Store}
use qc_backend.Ledger.Table.{in_scope, get_balance_projection}
use qc_backend.Ledger.Balances.{
  sum_over, amount_of, available, reserved, amounts, projection-reserved, projection-total,
  projection-consumed, projection-revoked, projection-purchased, projection-granted,
}
use qc_backend.Ledger.Outcomes.{Deltas, Outcome, rejected, replayed, written, audited}
use qc_backend.Ledger.Commands.{Command, perform_all, perform_all-keeps}

-- The deltas of a row are those of its type and amount.
abbrev pub HasDeltas : Entry → Type 0
HasDeltas e = Deltas e.entry_type e.amount e.available_delta e.reserved_delta

Outcome-HasDeltas :
    (t : String) (key : Option String) (s : Store) (r : Result Error Entry × Store)
    → Outcome t key s r
    → All HasDeltas s.entries
    → All HasDeltas r.1.entries
Outcome-HasDeltas t key s r (rejected e h) v = rw h v
Outcome-HasDeltas t key s r (replayed e found h) v = rw h v
Outcome-HasDeltas t key s r (written d a same n h) v = rw h (a.deltas, v)
Outcome-HasDeltas t key s r (audited d x a same n h) v = rw h (a.deltas, v)

-- The change of the available credits by adjustments, with its sign.
abbrev pub adjustment_of : Entry → ℤ
adjustment_of e = if same_type EntryType.adjusted e.entry_type then e.available_delta else pos 0

unfoldable pub adjustments : String → Option String → List Entry → ℤ
unfolding sum_over
adjustments tenant user = sum_over adjustment_of (in_scope tenant user)

-- One row's part in the two identities, by its type.
abbrev part : EntryType → EntryType → ℤ → ℤ
part t type n = if same_type t type then n else pos 0

row_total :
    (type : EntryType) (n a r : ℤ)
    → Deltas type n a r
    → a +ℤ r +ℤ part EntryType.consumed type n +ℤ part EntryType.revoked type n
      ≡ part EntryType.purchased type n
        +ℤ part EntryType.granted type n
        +ℤ part EntryType.adjusted type a
row_total EntryType.purchased n a r h = omega (int_laws, parts_of_eq _ _ h.0, parts_of_eq _ _ h.1)
row_total EntryType.granted n a r h = omega (int_laws, parts_of_eq _ _ h.0, parts_of_eq _ _ h.1)
row_total EntryType.adjusted n a r h = omega (int_laws, parts_of_eq _ _ h.0, parts_of_eq _ _ h.1)
row_total EntryType.reserved n a r h = omega (int_laws, parts_of_eq _ _ h.0, parts_of_eq _ _ h.1)
row_total EntryType.consumed n a r h = omega (int_laws, parts_of_eq _ _ h.0, parts_of_eq _ _ h.1)
row_total EntryType.released n a r h = omega (int_laws, parts_of_eq _ _ h.0, parts_of_eq _ _ h.1)
row_total EntryType.revoked n a r h = omega (int_laws, parts_of_eq _ _ h.0, parts_of_eq _ _ h.1)
row_total EntryType.refunded n a r h = absurd h
row_total EntryType.expired n a r h = absurd h

row_reserved :
    (type : EntryType) (n a r : ℤ)
    → Deltas type n a r
    → r +ℤ part EntryType.consumed type n +ℤ part EntryType.released type n
      ≡ part EntryType.reserved type n
row_reserved EntryType.purchased n a r h =
    omega (int_laws, parts_of_eq _ _ h.0, parts_of_eq _ _ h.1)
row_reserved EntryType.granted n a r h = omega (int_laws, parts_of_eq _ _ h.0, parts_of_eq _ _ h.1)
row_reserved EntryType.adjusted n a r h = omega (int_laws, parts_of_eq _ _ h.0, parts_of_eq _ _ h.1)
row_reserved EntryType.reserved n a r h = omega (int_laws, parts_of_eq _ _ h.0, parts_of_eq _ _ h.1)
row_reserved EntryType.consumed n a r h = omega (int_laws, parts_of_eq _ _ h.0, parts_of_eq _ _ h.1)
row_reserved EntryType.released n a r h = omega (int_laws, parts_of_eq _ _ h.0, parts_of_eq _ _ h.1)
row_reserved EntryType.revoked n a r h = omega (int_laws, parts_of_eq _ _ h.0, parts_of_eq _ _ h.1)
row_reserved EntryType.refunded n a r h = absurd h
row_reserved EntryType.expired n a r h = absurd h

module _ (p : Entry → Bool) where
  sums_total :
      (rows : List Entry)
      → All HasDeltas rows
      → sum_over (λ e. e.available_delta) p rows
          +ℤ sum_over (λ e. e.reserved_delta) p rows
          +ℤ sum_over (amount_of EntryType.consumed) p rows
          +ℤ sum_over (amount_of EntryType.revoked) p rows
        ≡ sum_over (amount_of EntryType.purchased) p rows
          +ℤ sum_over (amount_of EntryType.granted) p rows
          +ℤ sum_over adjustment_of p rows
  unfolding sum_over
  sums_total [] h = omega int_laws
  sums_total (e ∷ es) h = elim (Bool-cases (p e)) [
    | inl kept ↦ rw kept (
        omega (
          int_laws,
          parts_of_eq _ _ (row_total e.entry_type e.amount e.available_delta e.reserved_delta h.0),
          parts_of_eq _ _ (sums_total es h.1),
        ))
    | inr left_out ↦ rw left_out (sums_total es h.1)
  ]

  sums_reserved :
      (rows : List Entry)
      → All HasDeltas rows
      → sum_over (λ e. e.reserved_delta) p rows
          +ℤ sum_over (amount_of EntryType.consumed) p rows
          +ℤ sum_over (amount_of EntryType.released) p rows
        ≡ sum_over (amount_of EntryType.reserved) p rows
  unfolding sum_over
  sums_reserved [] h = omega int_laws
  sums_reserved (e ∷ es) h = elim (Bool-cases (p e)) [
    | inl kept ↦ rw kept (
        omega (
          int_laws,
          parts_of_eq _ _
              (row_reserved e.entry_type e.amount e.available_delta e.reserved_delta h.0),
          parts_of_eq _ _ (sums_reserved es h.1),
        ))
    | inr left_out ↦ rw left_out (sums_reserved es h.1)
  ]

-- The figures of a balance balance: what is left and what was consumed or revoked is what was
-- purchased or granted and the signed adjustments, and what is reserved, consumed or released
-- is what was reserved.
pub record IsBalanced (tenant : String) (user : Option String) (rows : List Entry) : Type 0 where
  pub total :
      let b = get_balance_projection tenant user rows in
      b.total +ℤ b.consumed +ℤ b.revoked ≡ b.purchased +ℤ b.granted +ℤ adjustments tenant user rows
  pub reserved :
      let b = get_balance_projection tenant user rows in
      b.reserved +ℤ b.consumed +ℤ amounts EntryType.released tenant user rows
      ≡ amounts EntryType.reserved tenant user rows

balanced :
    (tenant : String) (user : Option String) (rows : List Entry)
    → All HasDeltas rows
    → IsBalanced tenant user rows
unfolding adjustments amounts available reserved
balanced tenant user rows h = record {
  total =
      rw
        (
          projection-total, projection-consumed, projection-revoked, projection-purchased,
          projection-granted,
        )
        (sums_total (in_scope tenant user) rows h);
  reserved =
      rw (projection-reserved, projection-consumed) (sums_reserved (in_scope tenant user) rows h);
}

-- In every ledger that calls have built from rows with proper deltas, an empty one for instance,
-- the figures of the balance of every tenant and every user balance.
pub perform_all-IsBalanced :
    (tenant : String) (user : Option String) (cs : List Command) (s : Store)
    → All HasDeltas s.entries
    → IsBalanced tenant user (perform_all cs s).entries
perform_all-IsBalanced tenant user cs s h =
    balanced tenant user _
      (perform_all-keeps (λ t. All HasDeltas t.entries) Outcome-HasDeltas cs s h)
