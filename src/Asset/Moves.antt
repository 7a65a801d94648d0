-- ===== src/Asset/Moves.antt =====
-- LifecycleFacet.transition against the moves that the matrix allows, listed one by one.
use qc_backend.Base.{
  find_first-any, ℕ, ◌∷◌, some, none, true, false, ◌==◌, ◌≡◌, refl, Result, ok, err, map, any,
  Bool-cases, Option-cases, inl, inr, arith, string_has_eq,
}
use qc_backend.Asset.Types.{
  Status, draft, active, suspended, archived, burned, awaiting_payment, locked_in_escrow, alert,
  inactive, KeyRole, admin, operator, reader, unknown, Context, Asset, Event, World, Fault, Outside,
  lifecycle_transition, asset_not_found, asset_locked_in_escrow, state_transition_forbidden,
  insufficient_role_for_transition,
}
use qc_backend.Asset.Rows.{find_asset, require_asset, update_asset, with_status}
use qc_backend.Asset.Lifecycle.{
  same_status, transition_rules, has_target, has_role, TransitionRequest, Transitioned, transition,
  issuer_or,
}

-- A role may move an asset from one status to another.
pub data Allowed : Status → Status → KeyRole → Type 0 where
  publish : Allowed draft active admin
  publish_operator : Allowed draft active operator
  suspend : Allowed active suspended admin
  archive : Allowed active archived admin
  burn : Allowed active burned admin
  resume : Allowed suspended active admin

abbrev InRules : Status → Status → KeyRole → Type 0
InRules s t r =
    (same_status s locked_in_escrow ≡ false)
    × (has_target (transition_rules s) t ≡ true)
    × (has_role (transition_rules s) r ≡ true)

Allowed-has_target :
    (s t : Status) (r : KeyRole)
    → has_target (transition_rules s) t ≡ true
    → has_role (transition_rules s) r ≡ true
    → Allowed s t r
unfolding transition_rules
Allowed-has_target draft draft r h k = cc
Allowed-has_target draft active admin h k = publish
Allowed-has_target draft active operator h k = publish_operator
Allowed-has_target draft active reader h k = cc
Allowed-has_target draft active unknown h k = cc
Allowed-has_target draft suspended r h k = cc
Allowed-has_target draft archived r h k = cc
Allowed-has_target draft burned r h k = cc
Allowed-has_target draft awaiting_payment r h k = cc
Allowed-has_target draft locked_in_escrow r h k = cc
Allowed-has_target draft alert r h k = cc
Allowed-has_target draft inactive r h k = cc
Allowed-has_target active draft r h k = cc
Allowed-has_target active active r h k = cc
Allowed-has_target active suspended admin h k = suspend
Allowed-has_target active suspended operator h k = cc
Allowed-has_target active suspended reader h k = cc
Allowed-has_target active suspended unknown h k = cc
Allowed-has_target active archived admin h k = archive
Allowed-has_target active archived operator h k = cc
Allowed-has_target active archived reader h k = cc
Allowed-has_target active archived unknown h k = cc
Allowed-has_target active burned admin h k = burn
Allowed-has_target active burned operator h k = cc
Allowed-has_target active burned reader h k = cc
Allowed-has_target active burned unknown h k = cc
Allowed-has_target active awaiting_payment r h k = cc
Allowed-has_target active locked_in_escrow r h k = cc
Allowed-has_target active alert r h k = cc
Allowed-has_target active inactive r h k = cc
Allowed-has_target suspended draft r h k = cc
Allowed-has_target suspended active admin h k = resume
Allowed-has_target suspended active operator h k = cc
Allowed-has_target suspended active reader h k = cc
Allowed-has_target suspended active unknown h k = cc
Allowed-has_target suspended suspended r h k = cc
Allowed-has_target suspended archived r h k = cc
Allowed-has_target suspended burned r h k = cc
Allowed-has_target suspended awaiting_payment r h k = cc
Allowed-has_target suspended locked_in_escrow r h k = cc
Allowed-has_target suspended alert r h k = cc
Allowed-has_target suspended inactive r h k = cc
Allowed-has_target archived t r h k = cc
Allowed-has_target burned t r h k = cc
Allowed-has_target awaiting_payment t r h k = cc
Allowed-has_target locked_in_escrow t r h k = cc
Allowed-has_target alert t r h k = cc
Allowed-has_target inactive t r h k = cc

Allowed-InRules : (s t : Status) (r : KeyRole) → Allowed s t r → InRules s t r
unfolding transition_rules
Allowed-InRules _ _ _ publish = (refl, refl, refl)
Allowed-InRules _ _ _ publish_operator = (refl, refl, refl)
Allowed-InRules _ _ _ suspend = (refl, refl, refl)
Allowed-InRules _ _ _ archive = (refl, refl, refl)
Allowed-InRules _ _ _ burn = (refl, refl, refl)
Allowed-InRules _ _ _ resume = (refl, refl, refl)

-- The event of a move.
abbrev pub move_event : Outside → ℕ → Context → TransitionRequest → Status → Event
move_event o now ctx p old =
    let payload = lifecycle_transition old p.target_state p.reason now in
    record {
      asset_id = p.asset_id;
      tenant_id = ctx.tenant_id;
      origin = "LIFECYCLE";
      issuer_id = some (issuer_or ctx.api_key_id "lifecycle.transition");
      payload = payload;
      chain_tx_id = none;
      signature_hash = some (o.signature_hash payload);
    }

-- The tables after a move: the asset's row has the target status, and the event is logged.
abbrev pub moved_world : Outside → ℕ → Context → TransitionRequest → Status → World → World
moved_world o now ctx p old w = record w {
  assets = map (with_status p.asset_id p.target_state) w.assets;
  events = move_event o now ctx p old ∷ w.events;
}

abbrev pub moved_reply : TransitionRequest → Status → Transitioned
moved_reply p old = record {
  asset_id = p.asset_id;
  previous_state = old;
  current_state = p.target_state;
}

-- A call moves the caller's asset where its move is allowed, and else changes nothing.
pub data Outcome (o : Outside) (now : ℕ) (ctx : Context) (p : TransitionRequest) (w : World)
    : Result Fault Transitioned × World → Type 0 where
  moved :
      {r : Result Fault Transitioned × World} (a : Asset)
      (found : find_asset ctx.tenant_id p.asset_id w.assets ≡ some a)
      (allowed : Allowed a.status p.target_state ctx.role)
      (same : r ≡ (ok (moved_reply p a.status), moved_world o now ctx p a.status w))
      → Outcome o now ctx p w r
  missing :
      {r : Result Fault Transitioned × World}
      (absent : find_asset ctx.tenant_id p.asset_id w.assets ≡ none)
      (same : r ≡ (err asset_not_found, w))
      → Outcome o now ctx p w r
  refused :
      {r : Result Fault Transitioned × World} (a : Asset) (e : Fault)
      (found : find_asset ctx.tenant_id p.asset_id w.assets ≡ some a)
      (forbidden : ¬ (Allowed a.status p.target_state ctx.role)) (same : r ≡ (err e, w))
      → Outcome o now ctx p w r

module _ (o : Outside) (now : ℕ) (ctx : Context) (p : TransitionRequest) (w : World) (a : Asset)
    (found : find_asset ctx.tenant_id p.asset_id w.assets ≡ some a) where
  moves :
      same_status a.status locked_in_escrow ≡ false
      → has_target (transition_rules a.status) p.target_state ≡ true
      → has_role (transition_rules a.status) ctx.role ≡ true
      → transition o now ctx p w ≡ (ok (moved_reply p a.status), moved_world o now ctx p a.status w)
  unfolding transition require_asset update_asset
  moves free target role =
      let known : any (λ x. x.id == p.asset_id) w.assets ≡ true =
        find_first-any _ _ w.assets a (λ x both. ground arith) found in
      rw (found, free, target, role, known)

  found-Outcome : Outcome o now ctx p w (transition o now ctx p w)
  unfolding transition require_asset
  found-Outcome = elim (Bool-cases (same_status a.status locked_in_escrow)) [
    | inl locked ↦
        refused a asset_locked_in_escrow found (λ can. let h = (Allowed-InRules _ _ _ can).0 in cc)
          (rw (found, locked))
    | inr free ↦ elim (Bool-cases (has_target (transition_rules a.status) p.target_state)) [
      | inr no_target ↦
          refused a state_transition_forbidden found
            (λ can. let h = (Allowed-InRules _ _ _ can).1 in cc) (rw (found, free, no_target))
      | inl target ↦ elim (Bool-cases (has_role (transition_rules a.status) ctx.role)) [
        | inr no_role ↦
            refused a insufficient_role_for_transition found
              (λ can. let h = (Allowed-InRules _ _ _ can).2 in cc)
              (rw (found, free, target, no_role))
        | inl role ↦ moved a found (Allowed-has_target _ _ _ target role) (moves free target role)
      ]
    ]
  ]

-- A lifecycle call moves the caller's asset exactly where its status, the target and the role are
-- an allowed move, with the event of the move; it fails with no change on a missing asset and on
-- every other move.
pub transition-Outcome :
    (o : Outside) (now : ℕ) (ctx : Context) (p : TransitionRequest) (w : World)
    → Outcome o now ctx p w (transition o now ctx p w)
unfolding transition require_asset
transition-Outcome o now ctx p w =
    elim (Option-cases (find_asset ctx.tenant_id p.asset_id w.assets)) [
      | inl absent ↦ missing absent (rw absent)
      | inr (a, found) ↦ found-Outcome o now ctx p w a found
    ]
