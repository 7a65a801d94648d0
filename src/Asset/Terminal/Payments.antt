-- ===== src/Asset/Terminal/Payments.antt =====
-- Lifecycle calls, transfers and the payment webhook leave an asset at rest.
use qc_backend.Base.{
  Kept, finished, failed, Kept-then, Kept-rolled, Kept-raise_if, Kept-or_raise, find_first-every, ℕ,
  String, Option, some, none, Bool, true, false, not, ◌||◌, ◌==◌, string_has_eq, Bool-cases,
  Option-cases, ◌≡◌, refl, ◌&&◌, find_first, arith, inl, inr,
}
use qc_backend.Asset.Types.{
  Asset, World, Outside, Context, active, locked_in_escrow, awaiting_payment, Owner,
  invalid_asset_state, insufficient_permissions, asset_locked_in_escrow, state_transition_forbidden,
  insufficient_role_for_transition, billing_failed,
}
use qc_backend.Asset.Rows.{is_active}
use qc_backend.Asset.Lifecycle.{
  TransitionRequest, transition, same_status, has_target, has_role, transition_rules,
}
use qc_backend.Asset.Escrow.{is_admin, is_operator}
use qc_backend.Asset.Transfer.{
  TransferRequest, initiate_transfer, owner_or_create, find_owner, digits,
}
use qc_backend.Asset.Billing.{
  create_payment_preference, Payment, settle_payment, settle_for, settle_found, find_paid,
  activate_if, process_identified,
}
use qc_backend.Asset.Keeping.{Kept-require_asset}
use qc_backend.Asset.Terminal.{
  IsTerminal, resting_if, is_terminal, is_terminal-is_active, is_terminal-is_awaiting,
  is_terminal-has_target, live-differs, Kept-move,
}

module _ (id : String) where
  found-differs :
      (p : Asset → Bool) (w : World) (a : Asset)
      → IsTerminal id w
      → find_first p w.assets ≡ some a
      → is_terminal a.status ≡ false
      → (a.id == id) ≡ false
  found-differs p w a (rest, free) found live =
      let good = find_first-every (resting_if id) p w.assets a rest found in ground arith

  pub transition-keeps :
      (o : Outside) (now : ℕ) (ctx : Context) (p : TransitionRequest) (w : World)
      → IsTerminal id w
      → Kept (IsTerminal id) (λ _. Unit {0}) (transition o now ctx p w)
  unfolding transition
  transition-keeps o now ctx p w₀ h₀ =
      Kept-then _ _ (Kept-require_asset ctx.tenant_id p.asset_id w₀ h₀) λ a w h found.
        Kept-then _ _
          (Kept-raise_if (same_status a.status locked_in_escrow) asset_locked_in_escrow w h)
          λ _ w h _.
            Kept-then _ _
              (Kept-raise_if (not (has_target (transition_rules a.status) p.target_state))
                state_transition_forbidden w h)
              λ _ w h good.
                Kept-then _ _
                  (Kept-raise_if (not (has_role (transition_rules a.status) ctx.role))
                    insufficient_role_for_transition w h)
                  λ _ w h _.
                    let differs =
                      live-differs id ctx.tenant_id p.asset_id w₀ a h₀ found
                        (is_terminal-has_target a.status p.target_state good) in
                    Kept-then _ _
                      (Kept-rolled {Q = λ _. Unit {0}} w _ h (
                        Kept-then _ _ (Kept-move id p.asset_id p.target_state w differs h)
                          λ _ w h _. finished h tt))
                      λ _ w h _. finished h tt

  Kept-owner :
      (asset document kind : String) (found : Option Owner) (w : World)
      → IsTerminal id w
      → Kept (IsTerminal id) (λ _. Unit {0}) (owner_or_create asset document kind found w)
  Kept-owner asset document kind none w h = finished h tt
  Kept-owner asset document kind (some owner) w h = finished h tt

  Kept-preference :
      (o : Outside) (asset title : String) (fee : ℕ) (owner : String) (w : World)
      → IsTerminal id w
      → Kept (IsTerminal id) (λ _. Unit {0}) (create_payment_preference o asset title fee owner w)
  unfolding create_payment_preference
  Kept-preference o asset title fee owner w h =
      elim (Option-cases (o.create_preference asset title fee owner)) [
        | inl missing ↦ rw missing (failed h)
        | inr (link, made) ↦ rw made (finished h tt)
      ]

  pub initiate_transfer-keeps :
      (o : Outside) (now : ℕ) (ctx : Context) (p : TransferRequest) (w : World)
      → IsTerminal id w
      → Kept (IsTerminal id) (λ _. Unit {0}) (initiate_transfer o now ctx p w)
  unfolding initiate_transfer
  initiate_transfer-keeps o now ctx p w h =
      Kept-then _ _
        (Kept-raise_if (not (is_admin ctx.role || is_operator ctx.role)) insufficient_permissions w
          h)
        λ _ w₀ h₀ _.
          Kept-then _ _ (Kept-require_asset ctx.tenant_id p.asset_id w₀ h₀) λ a w h found.
            Kept-then _ _ (Kept-raise_if (not (is_active a.status)) invalid_asset_state w h)
              λ _ w h good.
                let differs =
                  found-differs (λ a. a.id == p.asset_id && a.tenant_id == ctx.tenant_id) w₀ a h₀
                    found (is_terminal-is_active a.status good) in
                Kept-then _ _
                  (Kept-owner p.asset_id (digits p.buyer_document) p.document_type
                    (find_owner p.asset_id (digits p.buyer_document) w.owners) w h)
                  λ _ w h _.
                    Kept-then _ _ (Kept-move id a.id awaiting_payment w differs h) λ _ w h _.
                      Kept-then _ _ (Kept-preference o _ _ _ _ _ h) λ _ w h _. finished h tt

  activate_if-keeps :
      (b : Bool) (payment_id : String) (payment : Payment) (a : Asset) (w : World)
      → (b ≡ true → (a.id == id) ≡ false)
      → IsTerminal id w
      → Kept (IsTerminal id) (λ _. Unit {0}) (activate_if b payment_id payment a w)
  activate_if-keeps false payment_id payment a w differs h = finished h tt
  activate_if-keeps true payment_id payment a w differs h =
      Kept-then _ _ (Kept-move id a.id active w (differs refl) h) λ _ w h _. finished h tt

  settle_found-keeps :
      (payment_id : String) (payment : Payment) (found : Option Asset) (w : World)
      → ((a : Asset) → found ≡ some a → resting_if id a ≡ true)
      → IsTerminal id w
      → Kept (IsTerminal id) (λ _. Unit {0}) (settle_found payment_id payment found w)
  settle_found-keeps payment_id payment none w rest h = finished h tt
  settle_found-keeps payment_id payment (some a) w rest h =
      activate_if-keeps _ _ _ a w
        (λ waiting.
          let good = rest a refl in
          let live = is_terminal-is_awaiting a.status waiting in ground arith)
        h

  settle_for-keeps :
      (payment_id : String) (payment : Payment) (tenant : Option String) (w : World)
      → IsTerminal id w
      → Kept (IsTerminal id) (λ _. Unit {0}) (settle_for payment_id payment tenant w)
  settle_for-keeps payment_id payment none w h = finished h tt
  settle_for-keeps payment_id payment (some tenant) w h =
      settle_found-keeps _ _ (find_paid payment.external_reference tenant w.assets) w
        (λ a found. find_first-every (resting_if id) _ w.assets a h.0 found) h

  settle_payment-keeps :
      (tenant : Option String) (payment_id : String) (payment : Payment) (w : World)
      → IsTerminal id w
      → Kept (IsTerminal id) (λ _. Unit {0}) (settle_payment tenant payment_id payment w)
  unfolding settle_payment
  settle_payment-keeps tenant payment_id payment w h =
      elim (Bool-cases (payment.status == "approved")) [
        | inl approved ↦ rw approved (settle_for-keeps payment_id payment _ w h)
        | inr other ↦ rw other (finished h tt)
      ]

  pub process_identified-keeps :
      (lookup : String → Option Payment) (tenant notice : Option String) (w : World)
      → IsTerminal id w
      → Kept (IsTerminal id) (λ _. Unit {0}) (process_identified lookup tenant notice w)
  unfolding process_identified
  process_identified-keeps lookup tenant none w h = finished h tt
  process_identified-keeps lookup tenant (some notice) w h =
      Kept-then _ _ (Kept-or_raise (lookup notice) billing_failed w h)
        λ payment w h _. settle_payment-keeps tenant notice payment w h
