-- ===== src/Asset/Terminal/Escrows.antt =====
-- Escrow calls leave an asset at rest: a lock refuses it, and a release or a cancellation that
-- names another asset does not reach it.
use qc_backend.Base.{
  Kept, finished, Kept-then, Kept-raise_if, ◌≡◌, refl, false, ℕ, String, none, not, ◌||◌, ◌&&◌,
  ◌==◌, string_has_eq, leb, ltb, is_empty,
}
use qc_backend.Asset.Types.{
  World, Outside, Context, active, locked_in_escrow, Operation, insufficient_role,
  invalid_unlock_timestamp, invalid_asset_state, insufficient_permissions,
  missing_escrow_identifier, escrow_already_closed, release_mode_mismatch, unlock_not_reached,
}
use qc_backend.Asset.Rows.{is_closed, is_active}
use qc_backend.Asset.Escrow.{
  is_admin, is_operator, is_auto, escrow_worker_key, lock_escrow, release_escrow, cancel_escrow,
  lock_transition, closing, row_of, released_row, cancelled_row,
}
use qc_backend.Asset.Escrow
use qc_backend.Asset.Tikin
use qc_backend.Asset.Keeping.{Kept-require_asset, Kept-require_escrow, Kept-execute}
use qc_backend.Asset.Terminal.{
  IsTerminal, is_terminal-is_active, IsTerminal-rewrite, live-differs, Kept-move, Kept-insert,
}

module _ (id : String) where
  pub lock_escrow-keeps :
      (o : Outside) (now : ℕ) (ctx : Context) (p : Escrow.LockRequest) (w : World)
      → IsTerminal id w
      → Kept (IsTerminal id) (λ _. Unit {0}) (lock_escrow o now ctx p w)
  unfolding lock_escrow
  lock_escrow-keeps o now ctx p w h =
      Kept-then _ _
        (Kept-raise_if (not (is_admin ctx.role || is_operator ctx.role)) insufficient_role w h)
        λ _ w h _.
          Kept-then _ _ (Kept-raise_if (leb p.unlock_timestamp now) invalid_unlock_timestamp w h)
            λ _ w₀ h₀ _.
              Kept-then _ _ (Kept-require_asset ctx.tenant_id p.asset_id w₀ h₀) λ a w h found.
                Kept-then _ _ (Kept-raise_if (not (is_active a.status)) invalid_asset_state w h)
                  λ _ w h good.
                    let differs =
                      live-differs id ctx.tenant_id p.asset_id w₀ a h₀ found
                        (is_terminal-is_active a.status good) in
                    Kept-then _ _ (Kept-insert id (row_of ctx.tenant_id p none) w differs h)
                      λ _ w h _. Kept-then _ _ (Kept-execute o (lock_transition p) w h) λ tx w h _.
                        Kept-then _ _
                          (Kept-move id p.asset_id locked_in_escrow _ differs
                            (IsTerminal-rewrite id p.escrow_id _ w (λ _. refl) h))
                          λ _ w h _. finished h tt

  pub tikin_lock_escrow-keeps :
      (o : Outside) (ctx : Context) (p : Tikin.LockRequest) (w : World)
      → IsTerminal id w
      → Kept (IsTerminal id) (λ _. Unit {0}) (Tikin.lock_escrow o ctx p w)
  unfolding Tikin.lock_escrow
  tikin_lock_escrow-keeps o ctx p w h =
      Kept-then _ _
        (Kept-raise_if (is_empty (Tikin.identifier p.escrow_id p.escrow_record_id))
          missing_escrow_identifier w h)
        λ _ w h _.
          Kept-then _ _
            (Kept-raise_if (not (is_admin ctx.role || is_operator ctx.role))
              insufficient_permissions w h)
            λ _ w₀ h₀ _.
              Kept-then _ _ (Kept-require_asset ctx.tenant_id p.asset_id w₀ h₀) λ a w h found.
                Kept-then _ _ (Kept-raise_if (not (is_active a.status)) invalid_asset_state w h)
                  λ _ w h good.
                    let differs =
                      live-differs id ctx.tenant_id p.asset_id w₀ a h₀ found
                        (is_terminal-is_active a.status good) in
                    Kept-then _ _
                      (Kept-execute o
                        (Tikin.lock_transition (Tikin.identifier p.escrow_id p.escrow_record_id) p)
                        w h)
                      λ tx w h _.
                        Kept-then _ _
                          (Kept-insert id
                            (Tikin.row_of ctx.tenant_id
                              (Tikin.identifier p.escrow_id p.escrow_record_id) p tx)
                            w differs h)
                          λ _ w h _.
                            Kept-then _ _ (Kept-move id p.asset_id locked_in_escrow _ differs h)
                              λ _ w h _. finished h tt

  pub release_escrow-keeps :
      (o : Outside) (now : ℕ) (ctx : Context) (p : Escrow.CloseRequest) (w : World)
      → (p.asset_id == id) ≡ false
      → IsTerminal id w
      → Kept (IsTerminal id) (λ _. Unit {0}) (release_escrow o now ctx p w)
  unfolding release_escrow
  release_escrow-keeps o now ctx p w differs h =
      Kept-then _ _
        (Kept-raise_if
          (not (ctx.api_key_id == escrow_worker_key)
            && not (is_admin ctx.role || is_operator ctx.role))
          insufficient_role w h)
        λ _ w h _. Kept-then _ _ (Kept-require_escrow ctx.tenant_id p.escrow_id w h) λ e w h _.
          Kept-then _ _ (Kept-raise_if (is_closed e.status) escrow_already_closed w h) λ _ w h _.
            Kept-then _ _
              (Kept-raise_if (not (ctx.api_key_id == escrow_worker_key) && is_auto e.release_mode)
                release_mode_mismatch w h)
              λ _ w h _.
                Kept-then _ _ (Kept-execute o (closing Operation.release e) w h) λ tx w h _.
                  Kept-then _ _
                    (Kept-move id p.asset_id active _ differs
                      (IsTerminal-rewrite id e.escrow_id _ w (λ _. refl) h))
                    λ _ w h _. finished h tt

  pub cancel_escrow-keeps :
      (o : Outside) (ctx : Context) (p : Escrow.CloseRequest) (w : World)
      → (p.asset_id == id) ≡ false
      → IsTerminal id w
      → Kept (IsTerminal id) (λ _. Unit {0}) (cancel_escrow o ctx p w)
  unfolding cancel_escrow
  cancel_escrow-keeps o ctx p w differs h =
      Kept-then _ _ (Kept-raise_if (not (is_admin ctx.role)) insufficient_role w h) λ _ w h _.
        Kept-then _ _ (Kept-require_escrow ctx.tenant_id p.escrow_id w h) λ e w h _.
          Kept-then _ _ (Kept-raise_if (is_closed e.status) escrow_already_closed w h) λ _ w h _.
            Kept-then _ _ (Kept-execute o (closing Operation.cancel e) w h) λ tx w h _.
              Kept-then _ _
                (Kept-move id p.asset_id active _ differs
                  (IsTerminal-rewrite id e.escrow_id _ w (λ _. refl) h))
                λ _ w h _. finished h tt

  pub tikin_release_escrow-keeps :
      (o : Outside) (now : ℕ) (ctx : Context) (p : Tikin.CloseRequest) (w : World)
      → (p.asset_id == id) ≡ false
      → IsTerminal id w
      → Kept (IsTerminal id) (λ _. Unit {0}) (Tikin.release_escrow o now ctx p w)
  unfolding Tikin.release_escrow
  tikin_release_escrow-keeps o now ctx p w differs h =
      Kept-then _ _
        (Kept-raise_if (is_empty (Tikin.identifier p.escrow_id p.escrow_record_id))
          missing_escrow_identifier w h)
        λ _ w h _.
          Kept-then _ _
            (Kept-raise_if (not (is_admin ctx.role || is_operator ctx.role))
              insufficient_permissions w h)
            λ _ w h _.
              Kept-then _ _
                (Kept-require_escrow ctx.tenant_id (Tikin.identifier p.escrow_id p.escrow_record_id)
                  w h)
                λ e w h _.
                  Kept-then _ _ (Kept-raise_if (is_closed e.status) escrow_already_closed w h)
                    λ _ w h _.
                      Kept-then _ _
                        (Kept-raise_if
                          (is_auto e.release_mode && ltb now (Tikin.seconds_of e.unlock_timestamp))
                          unlock_not_reached w h)
                        λ _ w h _.
                          Kept-then _ _
                            (Kept-execute o
                              (Tikin.closing Operation.release
                                (Tikin.identifier p.escrow_id p.escrow_record_id) e)
                              w h)
                            λ tx w h _.
                              Kept-then _ _
                                (Kept-move id p.asset_id active _ differs
                                  (IsTerminal-rewrite id e.escrow_id _ w (λ _. refl) h))
                                λ _ w h _. finished h tt

  pub tikin_cancel_escrow-keeps :
      (o : Outside) (ctx : Context) (p : Tikin.CloseRequest) (w : World)
      → (p.asset_id == id) ≡ false
      → IsTerminal id w
      → Kept (IsTerminal id) (λ _. Unit {0}) (Tikin.cancel_escrow o ctx p w)
  unfolding Tikin.cancel_escrow
  tikin_cancel_escrow-keeps o ctx p w differs h =
      Kept-then _ _
        (Kept-raise_if (is_empty (Tikin.identifier p.escrow_id p.escrow_record_id))
          missing_escrow_identifier w h)
        λ _ w h _.
          Kept-then _ _ (Kept-raise_if (not (is_admin ctx.role)) insufficient_permissions w h)
            λ _ w h _.
              Kept-then _ _
                (Kept-require_escrow ctx.tenant_id (Tikin.identifier p.escrow_id p.escrow_record_id)
                  w h)
                λ e w h _.
                  Kept-then _ _ (Kept-raise_if (is_closed e.status) escrow_already_closed w h)
                    λ _ w h _.
                      Kept-then _ _
                        (Kept-execute o
                          (Tikin.closing Operation.cancel
                            (Tikin.identifier p.escrow_id p.escrow_record_id) e)
                          w h)
                        λ tx w h _.
                          Kept-then _ _
                            (Kept-move id p.asset_id active _ differs
                              (IsTerminal-rewrite id e.escrow_id _ w (λ _. refl) h))
                            λ _ w h _. finished h tt
