-- ===== src/Qtag/Tests.antt =====
-- One asset whose tag is ordered: the theorems at inputs that meet their hypotheses.
use qc_backend.Base.{arith, ◌+ℤ◌, List, [], ◌∷◌, some, none, ◌≡◌, refl, pos, negsuc, ok}
use qc_backend.Ledger.Types.{platform_admin, Actor}
use qc_backend.Qtag.Types.{
  EntryType, reserved, OrderStatus, activated, cancelled, Entry, Order, Session, in_progress, World,
  Outside,
}
use qc_backend.Qtag.Table.{balance_of, new_entry, has_references}
use qc_backend.Qtag.Release.{Release, Consumption, consume_draft, consume_reservation, Change}
use qc_backend.Qtag.Activated.{IsActivated}
use qc_backend.Qtag.Runs.{Command, perform_all, perform_all-IsActivated}
use qc_backend.Qtag.Holding.{HasTags, perform_all-HasTags}
use qc_backend.Qtag.Orders.{Reservation}
use qc_backend.Qtag.Once.{consume_reservation-once}

abbrev outside : Outside
outside = record {
  cuid = λ n. "id";
  sign = λ asset uid metadata. none;
  layout_b64 = λ uid dat hash metadata. none;
  fresh_key = λ purpose n. "key";
  wrap_user_key = λ key. key;
  to_lower_case = λ s. s;
}

abbrev admin : Actor
admin = record {
  actor_user_id = "u0";
  actor_tenant_id = "t0";
  tenant_id = none;
  role = platform_admin;
  reason = none;
  correlation_id = none;
}

abbrev order : OrderStatus → Order
order status = record {
  id = "o1";
  tenant_id = "t1";
  user_id = none;
  asset_id = "a1";
  status = status;
  sku = none;
  shipping_recipient = none;
  tracking_code = none;
  carrier = none;
  notes = none;
  attempts = 0;
  last_error = none;
  claimed_by_actor_id = none;
  dispatched_at = none;
  delivered_at = none;
  activated_at = none;
  cancelled_at = none;
  cancellation_reason = none;
}

abbrev reservation : Entry
reservation = record {
  id = "e1";
  draft = record {
    tenant_id = "t1";
    user_id = none;
    purchase_order_id = none;
    fulfillment_order_id = some "o2";
    entry_type = reserved;
    quantity = pos 1;
    available_delta = negsuc 0;
    reserved_delta = pos 1;
    idempotency_key = some "r1";
    reference_type = none;
    reference_id = none;
    actor_user_id = none;
    reason = none;
    metadata = none;
  };
}

abbrev session : Session
session = record {
  id = "s1";
  tenant_id = "t1";
  asset_id = "a1";
  fulfillment_order_id = some "o1";
  ntag_uid = "04";
  status = in_progress;
  attempt_no = 1;
  station_id = none;
  operator_id = none;
  layout_b64 = "";
  sdm_mac_key_id = "m";
  sdm_enc_key_id = "e";
  locked_at = none;
}

abbrev tables : OrderStatus → World
tables status = record {
  tenants = "t1" ∷ [];
  purchase_orders = [];
  assets = [];
  entries = reservation ∷ [];
  orders = order status ∷ [];
  sessions = session ∷ [];
  devices = [];
  events = [];
  audits = [];
  drawn = 0;
}

abbrev second_release : Release
second_release = record {
  reason = some "again";
  idempotency_key = some "other";
  ip_address = none;
  user_agent = none;
}

abbrev moving : Change
moving = record {
  status = cancelled;
  reason = some "move";
  tracking_code = none;
  carrier = none;
  notes = none;
  claimed_by_actor_id = none;
  last_error = none;
  ip_address = none;
  user_agent = none;
}

abbrev attempts : List Command
attempts =
    Command.change 5 admin "t1" "o1" moving
    ∷ Command.give_back 6 admin "t1" "o1" second_release
    ∷ []

perform_all-IsActivated_example :
    IsActivated "o1" [] (perform_all outside attempts (tables activated))
perform_all-IsActivated_example =
    perform_all-IsActivated outside "o1" [] attempts (tables activated) (refl, refl, refl)

abbrev consumption : Consumption
consumption = record {
  tenant_id = "t1";
  fulfillment_order_id = "o1";
  asset_id = "a1";
  user_id = none;
  reason = none;
  metadata = none;
}

abbrev after_one : World
after_one = record (tables activated) {
  entries = new_entry outside (consume_draft consumption) (tables activated) ∷ reservation ∷ [];
  drawn = 1;
}

consumed_first :
    consume_reservation outside consumption (tables activated)
    ≡ (ok (new_entry outside (consume_draft consumption) (tables activated)), after_one)
unfolding consume_reservation has_references ◌+ℤ◌
consumed_first = refl

consume_reservation-once_example :
    consume_reservation outside consumption after_one
    ≡ (ok (new_entry outside (consume_draft consumption) (tables activated)), after_one)
consume_reservation-once_example =
    consume_reservation-once outside consumption (tables activated) after_one
      (new_entry outside (consume_draft consumption) (tables activated)) consumed_first

-- Two tags that the user u1 has bought, and an asset without a tag.
abbrev stocked : World
stocked = record (tables activated) {
  assets = record { id = "a2"; tenant_id = "t1"; device_id = none } ∷ [];
  entries =
      record reservation {
        draft = record (Entry.draft reservation) {
          user_id = some "u1";
          fulfillment_order_id = none;
          entry_type = EntryType.purchased;
          quantity = pos 2;
          available_delta = pos 2;
          reserved_delta = pos 0;
        };
      }
      ∷ [];
}

abbrev wish : Reservation
wish = record {
  user_id = some "u1";
  asset_id = "a2";
  reason = some "order";
  idempotency_key = none;
  shipping_recipient = none;
  sku = none;
  metadata = none;
  ip_address = none;
  user_agent = none;
}

perform_all-HasTags_example :
    HasTags "t1" "u1" (perform_all outside (Command.reserve admin "t1" wish ∷ attempts) stocked)
unfolding balance_of ◌+ℤ◌
perform_all-HasTags_example =
    perform_all-HasTags outside "t1" "u1" (Command.reserve admin "t1" wish ∷ attempts) stocked refl
      (record { available = omega arith; reserved = omega arith })
