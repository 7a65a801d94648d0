-- ===== src/Ledger/Tests.antt =====
-- Concrete ledgers: runs of the calls, and the theorems at inputs that meet their hypotheses.
use qc_backend.Base.{
  String, List, [], ◌∷◌, Option, some, none, ℤ, pos, negsuc, neg, ◌+ℤ◌, ◌-ℤ◌, ◌≤ℤ◌, ◌≡◌, refl, trim,
  All, ok, err, arith,
}
use qc_backend.Ledger.Types.{
  EntryType, integer, platform_admin, Actor, Operational, Mutation, Entry, Store, Balance,
  insufficient_credits,
}
use qc_backend.Ledger.Guards.{
  normalize_positive_amount, normalize_non_zero_delta, validate_idempotency_key,
  ensure_platform_actor, ensure_tenant_exists, require_reason,
}
use qc_backend.Ledger.Table.{
  key_taken, insert_entry, create_ledger_entry, find_idempotent_entry, get_balance_projection,
  has_parents, inserted, with_entry,
}
use qc_backend.Ledger.Operations.{
  reserve_in_transaction, reserve_credits, consume_in_transaction, consume_reserved_credits,
  release_in_transaction, release_reserved_credits, record_purchased_credits,
}
use qc_backend.Ledger.Admin.{
  write_in_transaction, write_admin_ledger_entry, grant_credits, adjust_credits, revoke_credits,
}
use qc_backend.Ledger.Registration.{grant_initial_registration_bonus}
use qc_backend.Ledger.Balances.{available, reserved}
use qc_backend.Ledger.Commands.{
  Command, purchase, reserve, consume, release, grant, revoke, adjust, bonus, perform, perform_all,
}
use qc_backend.Ledger.Solvency.{IsSolvent, perform_all-IsSolvent}
use qc_backend.Ledger.Replay.{perform-replay}
use qc_backend.Ledger.Accounting.{IsBalanced, perform_all-IsBalanced}
use qc_backend.Ledger.AuditTrail.{
  Extends, perform_all-Extends, IsLogged, perform_all-IsLogged, IsPrivileged, granting,
  admin_command-IsPrivileged,
}
use qc_backend.Ledger.Account.{account, Move, Agrees, move, move_call, move_call-Agrees}
use qc_backend.Ledger.Registration.{Kind, Registration, consume_for_registration, get_summary}
use qc_backend.Ledger.Paying.{
  account_of, consume_for_registration-pays, consume_for_registration-refused,
}
use qc_backend.Ledger.Gaps.{reserve_credits-overdraws}

-- All that a run computes with.
ledger : Unit {0}
unfolding normalize_positive_amount normalize_non_zero_delta validate_idempotency_key
    ensure_platform_actor ensure_tenant_exists require_reason key_taken insert_entry
    create_ledger_entry find_idempotent_entry get_balance_projection has_parents
    reserve_in_transaction reserve_credits consume_in_transaction consume_reserved_credits
    release_in_transaction release_reserved_credits record_purchased_credits write_in_transaction
    write_admin_ledger_entry grant_credits adjust_credits revoke_credits
    grant_initial_registration_bonus perform perform_all trim neg ◌+ℤ◌ ◌-ℤ◌
ledger = tt

abbrev empty : Store
empty = record { tenants = "t" ∷ []; purchase_orders = []; entries = []; audit = []; next_id = 0 }

abbrev request : String → ℤ → String → Operational
request user n key = record {
  tenant_id = "t";
  user_id = some user;
  amount = integer n;
  idempotency_key = key;
  reference_type = none;
  reference_id = none;
  reason = none;
  metadata = none;
  purchase_order_id = none;
}

abbrev admin : Actor
admin = record {
  actor_user_id = "root";
  actor_tenant_id = "platform";
  tenant_id = none;
  role = platform_admin;
  reason = some "support case";
  correlation_id = none;
}

abbrev change : ℤ → Option String → Mutation
change n key = record {
  user_id = some "u";
  quantity = integer n;
  reason = none;
  idempotency_key = key;
  reference_type = none;
  reference_id = none;
  metadata = none;
  ip_address = none;
  user_agent = none;
}

abbrev commands : List Command
commands =
    purchase (request "u" (pos 10) "k1")
    ∷ reserve (request "u" (pos 4) "k2")
    ∷ reserve (request "u" (pos 4) "k2")
    ∷ consume (request "u" (pos 3) "k3")
    ∷ release (request "u" (pos 2) "k4")
    ∷ release (request "u" (pos 1) "k5")
    ∷ grant admin "t" (change (pos 6) (some "k6"))
    ∷ adjust admin "t" (change (negsuc 4) none)
    ∷ revoke admin "t" (change (pos 100) none)
    ∷ bonus "t" "v" "{}"
    ∷ []

abbrev figures : Balance → List ℤ
figures b =
    b.available ∷ b.reserved ∷ b.total ∷ b.purchased ∷ b.granted ∷ b.adjusted ∷ b.consumed ∷ []

run_figures :
    figures (get_balance_projection "t" (some "u") (perform_all commands empty).entries)
    ≡ pos 8 ∷ pos 0 ∷ pos 8 ∷ pos 10 ∷ pos 6 ∷ pos 5 ∷ pos 3 ∷ []
unfolding ledger
run_figures = refl

perform_all-IsSolvent_example : IsSolvent "t" "u" (perform_all commands empty).entries
unfolding available reserved
perform_all-IsSolvent_example =
    perform_all-IsSolvent "t" "u" commands empty refl
      (record { available = omega arith; reserved = omega arith })

perform_all-IsBalanced_example : IsBalanced "t" none (perform_all commands empty).entries
perform_all-IsBalanced_example = perform_all-IsBalanced "t" none commands empty tt

perform_all-Extends_example :
    Extends
      (perform_all commands empty).entries
      (perform_all commands (perform_all commands empty)).entries
perform_all-Extends_example = perform_all-Extends commands (perform_all commands empty)

perform_all-IsLogged_example :
    All (IsLogged (perform_all commands empty).audit) (perform_all commands empty).entries
perform_all-IsLogged_example = perform_all-IsLogged commands empty tt

-- The purchase of `commands`, alone.
abbrev bought : Store
bought =
    with_entry
      (record {
        tenant_id = "t";
        user_id = some "u";
        purchase_order_id = none;
        entry_type = EntryType.purchased;
        amount = pos 10;
        available_delta = pos 10;
        reserved_delta = pos 0;
        reference_type = none;
        reference_id = none;
        idempotency_key = some "k1";
        actor_user_id = none;
        reason = none;
        metadata = some "{}";
      })
      empty

abbrev bought_entry : Entry
bought_entry = record {
  id = 0;
  draft = record {
    tenant_id = "t";
    user_id = some "u";
    purchase_order_id = none;
    entry_type = EntryType.purchased;
    amount = pos 10;
    available_delta = pos 10;
    reserved_delta = pos 0;
    reference_type = none;
    reference_id = none;
    idempotency_key = some "k1";
    actor_user_id = none;
    reason = none;
    metadata = some "{}";
  };
}

perform-replay_example :
    perform (purchase (request "u" (pos 10) "k1")) bought ≡ (ok bought_entry, bought)
unfolding ledger
perform-replay_example =
    perform-replay (purchase (request "u" (pos 10) "k1")) "k1" empty bought bought_entry refl refl
      refl refl

admin_command-IsPrivileged_example : IsPrivileged admin (change (pos 6) (some "k6"))
unfolding ledger
admin_command-IsPrivileged_example =
    admin_command-IsPrivileged granting admin "t" (change (pos 6) (some "k6")) empty
      (perform (grant admin "t" (change (pos 6) (some "k6"))) empty).1
      (inserted
        (record {
          tenant_id = "t";
          user_id = some "u";
          purchase_order_id = none;
          entry_type = EntryType.granted;
          amount = pos 6;
          available_delta = pos 6;
          reserved_delta = pos 0;
          reference_type = none;
          reference_id = none;
          idempotency_key = some "k6";
          actor_user_id = some "root";
          reason = some "support case";
          metadata = some "{}";
        })
        empty)
      refl

move_call-Agrees_example :
    let p = request "u" (pos 4) "k2" in
    Agrees "t"
      (some "u")
      bought
      (move Move.reserve (pos 4) (account "t" (some "u") bought.entries))
      (move_call Move.reserve p bought)
unfolding ledger
move_call-Agrees_example =
    move_call-Agrees Move.reserve (request "u" (pos 4) "k2") (pos 4) bought (record {
      amount = refl;
      positive = omega arith;
      fits = omega arith;
      given = refl;
      unused = refl;
      parents = refl;
    })

abbrev registering : Registration
registering = record {
  tenant_id = "t";
  user_id = "u";
  idempotency_key = "k7";
  reference_id = none;
  reason = none;
  metadata = none;
}

consume_for_registration-pays_example :
    let r = consume_for_registration Kind.asset registering bought in
    (r.0 ≡ ok (get_summary "t" "u" r.1.entries))
    × ((account_of registering r.1).available ≡ (account_of registering bought).available -ℤ pos 1)
    × ((account_of registering r.1).reserved ≡ (account_of registering bought).reserved)
unfolding ledger available reserved
consume_for_registration-pays_example =
    consume_for_registration-pays Kind.asset registering bought
      (record { given = refl; unused = refl; unused_consume = refl; known = refl }) (omega arith)
      (omega arith)

consume_for_registration-refused_example :
    consume_for_registration Kind.asset registering empty ≡ (err insufficient_credits, empty)
unfolding ledger available reserved
consume_for_registration-refused_example =
    consume_for_registration-refused Kind.asset registering empty
      (record { given = refl; unused = refl; unused_consume = refl; known = refl }) (omega arith)

-- Eight of the tenant's ten credits are revoked, without a user.
abbrev shared : Store
shared =
    with_entry
      (record {
        tenant_id = "t";
        user_id = none;
        purchase_order_id = none;
        entry_type = EntryType.revoked;
        amount = pos 8;
        available_delta = neg (pos 8);
        reserved_delta = pos 0;
        reference_type = none;
        reference_id = none;
        idempotency_key = some "k8";
        actor_user_id = some "root";
        reason = some "support case";
        metadata = some "{}";
      })
      bought

reserve_credits-overdraws_example :
    let r = reserve_credits (request "u" (pos 10) "k9") shared in
    ((e : Entry) × (r.0 ≡ ok e)) × (available "t" none r.1.entries ≤ℤ negsuc 0)
unfolding ledger available reserved
reserve_credits-overdraws_example =
    reserve_credits-overdraws (request "u" (pos 10) "k9") (pos 10) shared
      (record {
        amount = refl;
        positive = omega arith;
        fits = omega arith;
        given = refl;
        unused = refl;
        parents = refl;
      })
      (omega arith) (omega arith)
