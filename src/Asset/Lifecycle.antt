-- ===== src/Asset/Lifecycle.antt =====
-- LifecycleFacet.ts: the transition matrix and `transition`. The queue run that it starts
-- without waiting is no part of the call.
use qc_backend.Base.{
  ℕ, String, List, [], ◌∷◌, Option, some, none, Bool, true, false, not, any, transaction, raise_if,
  pure, ◌>>=◌, ◌>>◌,
}
use qc_backend.Asset.Types.{
  Status, draft, active, suspended, archived, burned, awaiting_payment, locked_in_escrow, alert,
  inactive, KeyRole, admin, operator, reader, Context, lifecycle_transition, Outside,
  asset_locked_in_escrow, state_transition_forbidden, insufficient_role_for_transition,
}
use qc_backend.Asset.Rows.{Call, require_asset, update_asset, create_event}

abbrev pub same_status : Status → Status → Bool
same_status draft draft = true
same_status active active = true
same_status suspended suspended = true
same_status archived archived = true
same_status burned burned = true
same_status awaiting_payment awaiting_payment = true
same_status locked_in_escrow locked_in_escrow = true
same_status alert alert = true
same_status inactive inactive = true
same_status _ _ = false

abbrev pub same_role : KeyRole → KeyRole → Bool
same_role admin admin = true
same_role operator operator = true
same_role reader reader = true
same_role _ _ = false

pub record Rules : Type 0 where
  pub targets : List Status
  pub roles : List KeyRole

-- `TRANSITION_RULES`; a state that is not in the map has no exit.
unfoldable pub transition_rules : Status → Option Rules
transition_rules draft = some (record { targets = active ∷ []; roles = admin ∷ operator ∷ [] })
transition_rules active =
    some (record { targets = suspended ∷ archived ∷ burned ∷ []; roles = admin ∷ [] })
transition_rules suspended = some (record { targets = active ∷ []; roles = admin ∷ [] })
transition_rules _ = none

abbrev pub has_target : Option Rules → Status → Bool
has_target none target = false
has_target (some r) target = any (same_status target) r.targets

abbrev pub has_role : Option Rules → KeyRole → Bool
has_role none role = false
has_role (some r) role = any (same_role role) r.roles

-- `LifecyclePayload`
pub record TransitionRequest : Type 0 where
  pub asset_id : String
  pub target_state : Status
  pub reason : Option String

-- The `issuerId: apiKeyId || 'lifecycle.transition'` of the event.
abbrev pub issuer_or : String → String → String
issuer_or String.[] default = default
issuer_or (String.◌∷◌ c s) default = String.◌∷◌ c s

pub record Transitioned : Type 0 where
  pub asset_id : String
  pub previous_state : Status
  pub current_state : Status

unfoldable pub transition : Outside → ℕ → Context → TransitionRequest → Call Transitioned
transition o now ctx p = do
  asset ← require_asset ctx.tenant_id p.asset_id
  raise_if (same_status asset.status locked_in_escrow) asset_locked_in_escrow
  raise_if (not (has_target (transition_rules asset.status) p.target_state))
      state_transition_forbidden
  raise_if (not (has_role (transition_rules asset.status) ctx.role))
      insufficient_role_for_transition
  let payload = lifecycle_transition asset.status p.target_state p.reason now
  transaction do
    update_asset p.asset_id p.target_state
    create_event (record {
      asset_id = p.asset_id;
      tenant_id = ctx.tenant_id;
      origin = "LIFECYCLE";
      issuer_id = some (issuer_or ctx.api_key_id "lifecycle.transition");
      payload = payload;
      chain_tx_id = none;
      signature_hash = some (o.signature_hash payload);
    })
  pure (record {
    asset_id = p.asset_id;
    previous_state = asset.status;
    current_state = p.target_state;
  })
