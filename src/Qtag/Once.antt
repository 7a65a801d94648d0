-- ===== src/Qtag/Once.antt =====
-- A reservation is consumed once.
use qc_backend.Base.{
  find_first-none, String, some, none, Bool, true, false, ◌≡◌, refl, ◌∙◌, sym, ap, find_first,
  string_has_eq, is_empty, ltb_ℤ, pos, ok, err, Bool-cases, Option-cases, inl, inr, str_eq_refl,
}
use Prim.Native.String.{◌++◌}
use Prim.Native.String.append
use qc_backend.Qtag.Types.{Entry, World, Outside, insufficient_reserved_qtags, foreign_key}
use qc_backend.Qtag.Table.{
  keyed, new_entry, with_new_entry, create_entry, find_entry, balance_of, has_references,
}
use qc_backend.Qtag.Release.{Consumption, consume_draft, consumed_or_found, consume_reservation}

key_given : (order : String) → is_empty ("qtag-consume:" ++ order) ≡ false
key_given order = rw append.cons refl

keyed_self :
    (o : Outside) (p : Consumption) (w : World)
    → keyed p.tenant_id
        ("qtag-consume:" ++ p.fulfillment_order_id)
        (new_entry o (consume_draft p) w)
      ≡ true
keyed_self o p w =
    rw (str_eq_refl p.tenant_id, str_eq_refl ("qtag-consume:" ++ p.fulfillment_order_id)) refl

-- The clauses of a consumption, by whether its entry is there.
consume-found :
    (o : Outside) (p : Consumption) (w : World) (e : Entry)
    → find_first (keyed p.tenant_id ("qtag-consume:" ++ p.fulfillment_order_id)) w.entries ≡ some e
    → consume_reservation o p w ≡ (ok e, w)
unfolding consume_reservation find_entry
consume-found o p w e found = rw (key_given p.fulfillment_order_id, found) refl

abbrev reserved_short : Consumption → World → Bool
reserved_short p w = ltb_ℤ (balance_of p.tenant_id p.user_id w.entries).reserved (pos 1)

consume-new :
    (o : Outside) (p : Consumption) (w : World)
    → find_first (keyed p.tenant_id ("qtag-consume:" ++ p.fulfillment_order_id)) w.entries ≡ none
    → consume_reservation o p w ≡ consumed_or_found o p none w
unfolding consume_reservation find_entry
consume-new o p w new = rw (key_given p.fulfillment_order_id, new) refl

consumed-new :
    (o : Outside) (p : Consumption) (w : World)
    → find_first (keyed p.tenant_id ("qtag-consume:" ++ p.fulfillment_order_id)) w.entries ≡ none
    → reserved_short p w ≡ false
    → has_references (consume_draft p) w ≡ true
    → consumed_or_found o p none w
      ≡ (ok (new_entry o (consume_draft p) w), with_new_entry o (consume_draft p) w)
unfolding create_entry
consumed-new o p w new enough held =
    let free =
      find_first-none (keyed p.tenant_id ("qtag-consume:" ++ p.fulfillment_order_id)) w.entries
        new in
    rw (enough, free, held) refl

consumed-dangling :
    (o : Outside) (p : Consumption) (w : World)
    → find_first (keyed p.tenant_id ("qtag-consume:" ++ p.fulfillment_order_id)) w.entries ≡ none
    → reserved_short p w ≡ false
    → has_references (consume_draft p) w ≡ false
    → consumed_or_found o p none w ≡ (err foreign_key, w)
unfolding create_entry
consumed-dangling o p w new enough dangling =
    let free =
      find_first-none (keyed p.tenant_id ("qtag-consume:" ++ p.fulfillment_order_id)) w.entries
        new in
    rw (enough, free, dangling) refl

consumed-short :
    (o : Outside) (p : Consumption) (w : World)
    → reserved_short p w ≡ true
    → consumed_or_found o p none w ≡ (err insufficient_reserved_qtags, w)
consumed-short o p w short = rw short refl

-- The reservation of an order that was consumed is not consumed again: a second call, with the same
-- parameters and the tables that the first one left, returns the first one's entry and writes
-- nothing.
pub consume_reservation-once :
    (o : Outside) (p : Consumption) (w w' : World) (e : Entry)
    → consume_reservation o p w ≡ (ok e, w')
    → consume_reservation o p w' ≡ (ok e, w')
consume_reservation-once o p w w' e h =
    let key = "qtag-consume:" ++ p.fulfillment_order_id in
    elim (Option-cases (find_first (keyed p.tenant_id key) w.entries)) [
      | inr (x, found) ↦
          let first : (ok x, w) ≡ (ok e, w') = sym (consume-found o p w x found) ∙ h in
          let same : w ≡ w' = ap (λ r. r.1) first in
          let still : find_first (keyed p.tenant_id key) w'.entries ≡ some x =
            ap (λ v. find_first (keyed p.tenant_id key) v.entries) (sym same) ∙ found in
          consume-found o p w' x still ∙ ap (λ r. (r.0, w')) first
      | inl new ↦ elim (Bool-cases (reserved_short p w)) [
        | inl short ↦
            let refused : err insufficient_reserved_qtags ≡ ok e =
              ap (λ r. r.0) (sym (consume-new o p w new ∙ consumed-short o p w short) ∙ h) in
            cc
        | inr enough ↦ elim (Bool-cases (has_references (consume_draft p) w)) [
          | inr dangling ↦
              let refused : err foreign_key ≡ ok e =
                ap (λ r. r.0)
                  (sym (consume-new o p w new ∙ consumed-dangling o p w new enough dangling) ∙ h) in
              cc
          | inl held ↦
              let x = new_entry o (consume_draft p) w in
              let first : (ok x, with_new_entry o (consume_draft p) w) ≡ (ok e, w') =
                sym (consume-new o p w new ∙ consumed-new o p w new enough held) ∙ h in
              let same : with_new_entry o (consume_draft p) w ≡ w' = ap (λ r. r.1) first in
              let there : find_first (keyed p.tenant_id key) w'.entries ≡ some x =
                ap (λ v. find_first (keyed p.tenant_id key) v.entries) (sym same)
                ∙ rw (keyed_self o p w) refl in
              consume-found o p w' x there ∙ ap (λ r. (r.0, w')) first
        ]
      ]
    ]
