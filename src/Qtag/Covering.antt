-- ===== src/Qtag/Covering.antt =====
-- An entry that the balance covers leaves no user with a negative balance of tags.
use qc_backend.Base.{
  String, List, Option, some, ℤ, pos, negsuc, ◌≤ℤ◌, ltb_ℤ, true, false, ◌==◌, ◌≡◌, subst, inl, inr,
  truthy, Bool-cases, eq_iff, string_has_eq, is_some_of, ok, int_laws, arith, Kept, finished,
  failed,
}
use qc_backend.Ledger.Types.{Number, integer, fraction, not_finite}
use qc_backend.Ledger.Outcomes.{Covered}
use qc_backend.Ledger.Solvency.{Covered-nonneg, eq-some_of_is_some_of}
use qc_backend.Qtag.Types.{Draft, Entry, World, Outside}
use qc_backend.Qtag.Guards.{normalize_positive_quantity}
use qc_backend.Qtag.Table.{
  is_taken, fits_numbers, has_references, new_entry, with_new_entry, create_entry,
}
use qc_backend.Qtag.Balances.{
  of_scope, available_in, reserved_in, available_in-cons, reserved_in-cons,
}

-- What a passed test says of the balance after a tag is taken from it.
pub Covered-one : (b : ℤ) → ltb_ℤ b (pos 1) ≡ false → Covered b (negsuc 0)
Covered-one b h = inr (grind int_laws)

pub normalize_positive_quantity-ok :
    (x : Number) (n : ℤ) → normalize_positive_quantity x ≡ ok n → pos 0 ≤ℤ n
unfolding normalize_positive_quantity
normalize_positive_quantity-ok (integer m) n h = ground arith
normalize_positive_quantity-ok (fraction m) n h = cc
normalize_positive_quantity-ok not_finite n h = cc

-- The two balances of a user of a tenant are at least zero.
abbrev pub Covers : String → String → World → Type 0
Covers tenant user w =
    (pos 0 ≤ℤ available_in tenant (some user) w.entries)
    × (pos 0 ≤ℤ reserved_in tenant (some user) w.entries)

module _ (tenant user : String) where
  of_scope-columns :
      (o : Outside) (d : Draft) (w : World)
      → of_scope tenant (some user) (new_entry o d w) ≡ true
      → (d.tenant_id ≡ tenant) × (truthy d.user_id ≡ some user)
  of_scope-columns o d w h =
      let named : is_some_of (truthy d.user_id) user ≡ true = ground arith in
      let own : (d.tenant_id == tenant) ≡ true = ground arith in
      ((eq_iff d.tenant_id tenant).0 own, eq-some_of_is_some_of (truthy d.user_id) user named)

  same_scope :
      (f : String → Option String → List Entry → ℤ) (d : Draft) (rows : List Entry) (delta : ℤ)
      → (d.tenant_id ≡ tenant) × (truthy d.user_id ≡ some user)
      → Covered (f d.tenant_id (truthy d.user_id) rows) delta
      → Covered (f tenant (some user) rows) delta
  same_scope f d rows delta (own, named) h =
      subst (λ x. Covered (f tenant x rows) delta) named
        (subst (λ t. Covered (f t (truthy d.user_id) rows) delta) own h)

  with_new_entry-Covers :
      (o : Outside) (d : Draft) (w : World)
      → Covered (available_in d.tenant_id (truthy d.user_id) w.entries) d.available_delta
      → Covered (reserved_in d.tenant_id (truthy d.user_id) w.entries) d.reserved_delta
      → Covers tenant user w
      → Covers tenant user (with_new_entry o d w)
  with_new_entry-Covers o d w a r h =
      elim (Bool-cases (of_scope tenant (some user) (new_entry o d w))) [
        | inl inside ↦
            let scope = of_scope-columns o d w inside in
            (
              rw (available_in-cons, inside)
                  (Covered-nonneg _ _ (same_scope available_in d w.entries _ scope a) h.0),
              rw (reserved_in-cons, inside)
                  (Covered-nonneg _ _ (same_scope reserved_in d w.entries _ scope r) h.1),
            )
        | inr outside ↦ (rw (available_in-cons, outside) h.0, rw (reserved_in-cons, outside) h.1)
      ]

  pub create_entry-Covers :
      (o : Outside) (d : Draft) (w : World)
      → Covered (available_in d.tenant_id (truthy d.user_id) w.entries) d.available_delta
      → Covered (reserved_in d.tenant_id (truthy d.user_id) w.entries) d.reserved_delta
      → Covers tenant user w
      → Kept (Covers tenant user) (λ _. Unit {0}) (create_entry o d w)
  unfolding create_entry
  create_entry-Covers o d w a r h = elim (Bool-cases (fits_numbers d)) [
    | inr large ↦ rw large (failed h)
    | inl fits ↦ elim (Bool-cases (is_taken d.tenant_id d.idempotency_key w.entries)) [
      | inl taken ↦ rw (fits, taken) (failed h)
      | inr free ↦ elim (Bool-cases (has_references d w)) [
        | inr dangling ↦ rw (fits, free, dangling) (failed h)
        | inl held ↦ rw (fits, free, held) (finished (with_new_entry-Covers o d w a r h) tt)
      ]
    ]
  ]
