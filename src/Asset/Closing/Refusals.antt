-- ===== src/Asset/Closing/Refusals.antt =====
-- A closed escrow cannot be closed once more: the four calls that close escrows, of both facets.
use qc_backend.Base.{
  find_first-every, find_first-passes, ℕ, String, some, Bool, true, false, not, ◌||◌, ◌&&◌, ◌==◌,
  ◌≡◌, Result, err, raise_if, continue, is_empty, string_has_eq, arith, Option-cases, inl, inr,
  ◌>>◌,
}
use qc_backend.Asset.Types.{
  EscrowRow, World, Outside, Context, Fault, escrow_already_closed, insufficient_role,
  insufficient_permissions, missing_escrow_identifier,
}
use qc_backend.Asset.Rows.{Call, find_escrow, require_escrow, is_closed}
use qc_backend.Asset.Escrow.{
  is_admin, is_operator, escrow_worker_key, release_escrow, cancel_escrow,
}
use qc_backend.Asset.Escrow
use qc_backend.Asset.Tikin
use qc_backend.Asset.Closing.{IsClosed, closed_if}

-- The call fails and leaves the tables as they are.
pub data IsRefused {A : Type 0} (w : World) : Result Fault A × World → Type 0 where
  refusal : (e : Fault) → IsRefused w (err e, w)

guard-IsRefused :
    {A : Type 0} (b : Bool) (e : Fault) (w : World) (f : Unit {0} → World → Result Fault A × World)
    → IsRefused w (f tt w)
    → IsRefused w (continue f (raise_if b e w))
guard-IsRefused true e w f h = refusal e
guard-IsRefused false e w f h = h

module _ (id tenant : String) (w : World) (closed : IsClosed id w) where
  found-is_closed :
      (e : EscrowRow) → find_escrow tenant id w.escrows ≡ some e → is_closed e.status ≡ true
  found-is_closed e found =
      let good = find_first-every (closed_if id) _ w.escrows e closed.1 found in
      let named : e.escrow_id == id && e.tenant_id == tenant ≡ true =
        find_first-passes _ w.escrows e found in
      ground arith

  -- Whatever a call does with an escrow that is open, it is refused here.
  require_escrow-IsRefused :
      {A : Type 0} (rest : EscrowRow → Call A)
      → IsRefused w (
          continue
            (λ e. raise_if (is_closed e.status) escrow_already_closed >> rest e)
            (require_escrow tenant id w))
  unfolding require_escrow
  require_escrow-IsRefused rest = elim (Option-cases (find_escrow tenant id w.escrows)) [
    | inl missing ↦ rw missing (refusal _)
    | inr (e, found) ↦ rw (found, found-is_closed e found) (refusal _)
  ]

-- Where the escrow that a release or a cancellation names is closed already, each of the four calls
-- fails and changes no table, whoever calls.
pub closing_calls-IsRefused :
    (o : Outside) (now : ℕ) (ctx : Context) (p : Escrow.CloseRequest) (q : Tikin.CloseRequest)
    (w : World)
    → IsClosed p.escrow_id w
    → IsClosed (Tikin.identifier q.escrow_id q.escrow_record_id) w
    → IsRefused w (release_escrow o now ctx p w)
      × IsRefused w (cancel_escrow o ctx p w)
      × IsRefused w (Tikin.release_escrow o now ctx q w)
      × IsRefused w (Tikin.cancel_escrow o ctx q w)
unfolding release_escrow cancel_escrow Tikin.release_escrow Tikin.cancel_escrow
closing_calls-IsRefused o now ctx p q w h k =
    let id = Tikin.identifier q.escrow_id q.escrow_record_id in
    (
      guard-IsRefused
          (not (ctx.api_key_id == escrow_worker_key)
            && not (is_admin ctx.role || is_operator ctx.role))
          insufficient_role w _ (require_escrow-IsRefused p.escrow_id ctx.tenant_id w h _),
      guard-IsRefused (not (is_admin ctx.role)) insufficient_role w _
          (require_escrow-IsRefused p.escrow_id ctx.tenant_id w h _),
      guard-IsRefused (is_empty id) missing_escrow_identifier w _ (
          guard-IsRefused (not (is_admin ctx.role || is_operator ctx.role)) insufficient_permissions
            w _ (require_escrow-IsRefused id ctx.tenant_id w k _)),
      guard-IsRefused (is_empty id) missing_escrow_identifier w _ (
          guard-IsRefused (not (is_admin ctx.role)) insufficient_permissions w _
            (require_escrow-IsRefused id ctx.tenant_id w k _)),
    )
