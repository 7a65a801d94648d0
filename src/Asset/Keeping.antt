-- ===== src/Asset/Keeping.antt =====
-- Calls that keep a property of the tables: what each step needs for it, and what the rest of
-- the call learns from the step.
use qc_backend.Base.{
  Kept, finished, failed, Kept-or_raise, String, ◌∷◌, some, Bool, true, false, ◌≡◌, refl, continue,
  raise_if, modify, any, map, Bool-cases, inl, inr, ◌==◌, string_has_eq,
}
use qc_backend.Asset.Types.{World, unique_constraint, Status, EscrowRow, Outside, Transition}
use qc_backend.Asset.Rows.{
  find_asset, require_asset, with_status, set_assets, update_asset, find_escrow, require_escrow,
  create_escrow, set_escrows, execute,
}

module _ {P : World → Type 0} where
  pub Kept-require_asset :
      (tenant id : String) (w : World)
      → P w
      → Kept P (λ a. find_asset tenant id w.assets ≡ some a) (require_asset tenant id w)
  unfolding require_asset
  Kept-require_asset tenant id w p = Kept-or_raise (find_asset tenant id w.assets) _ w p

  pub Kept-require_escrow :
      (tenant id : String) (w : World)
      → P w
      → Kept P (λ e. find_escrow tenant id w.escrows ≡ some e) (require_escrow tenant id w)
  unfolding require_escrow
  Kept-require_escrow tenant id w p = Kept-or_raise (find_escrow tenant id w.escrows) _ w p

  pub Kept-execute :
      (o : Outside) (t : Transition) (w : World)
      → P w
      → Kept P (λ tx. o.execute t ≡ some tx) (execute o t w)
  Kept-execute o t w p = Kept-or_raise (o.execute t) _ w p

  pub Kept-update_asset :
      (id : String) (status : Status) (w : World)
      → P w
      → P (set_assets (map (with_status id status)) w)
      → Kept P (λ _. Unit {0}) (update_asset id status w)
  unfolding update_asset
  Kept-update_asset id status w p moved = elim (Bool-cases (any (λ a. a.id == id) w.assets)) [
    | inl known ↦ rw known (finished moved tt)
    | inr missing ↦ rw missing (failed p)
  ]

  insert_tested :
      (b : Bool) (e : EscrowRow) (w : World)
      → P w
      → (b ≡ false → P (set_escrows (λ rows. e ∷ rows) w))
      → Kept P
          (λ _. b ≡ false)
          (continue (λ _. modify (set_escrows (λ rows. e ∷ rows))) (raise_if b unique_constraint w))
  insert_tested true e w p added = failed p
  insert_tested false e w p added = finished (added refl) refl

  pub Kept-create_escrow :
      (e : EscrowRow) (w : World)
      → P w
      → (any (λ x. x.escrow_id == e.escrow_id) w.escrows ≡ false
          → P (set_escrows (λ rows. e ∷ rows) w))
      → Kept P (λ _. any (λ x. x.escrow_id == e.escrow_id) w.escrows ≡ false) (create_escrow e w)
  unfolding create_escrow
  Kept-create_escrow e w p added =
      insert_tested (any (λ x. x.escrow_id == e.escrow_id) w.escrows) e w p added
