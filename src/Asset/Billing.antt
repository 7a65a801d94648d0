-- ===== src/Asset/Billing.antt =====
-- BillingFacet.ts: `createPaymentPreference` and `processPaymentWebhook`. The payment provider is
-- outside: `Outside.create_preference`, and `lookup` for `paymentEndpoint.get`.
use qc_backend.Base.{
  ℕ, String, List, Option, some, none, Bool, true, false, ◌&&◌, ◌==◌, if◌then◌else◌, truthy,
  find_first, string_has_eq, pure, gets, or_raise, ◌>>=◌, ◌>>◌,
}
use qc_backend.Asset.Types.{
  Status, active, awaiting_payment, Asset, payment_confirmed, Outside, billing_failed,
}
use qc_backend.Asset.Rows.{Call, update_asset, create_event}
use qc_backend.Asset.Tikin.{or_else}

-- The link of the checkout. The owner's text goes to the provider as the payer's address.
unfoldable pub create_payment_preference :
    Outside → (asset_id title : String) → ℕ → (owner : String) → Call String
create_payment_preference o asset_id title amount owner =
    or_raise (o.create_preference asset_id title amount owner) billing_failed

-- The provider's record of a payment, as far as the webhook reads it.
pub record Payment : Type 0 where
  pub status : String
  pub external_reference : Option String
  pub metadata_tenant : Option String
  pub metadata_tenant_id : Option String

-- The payload of the webhook.
pub record Notice : Type 0 where
  pub data_id : Option String
  pub id : Option String

pub data WebhookReply : Type 0 where
  no_payment_id missing_tenant : WebhookReply
  not_processed : (status : String) → WebhookReply
  activated : (asset_id : String) → WebhookReply

-- `payload.data?.id || payload.id`
abbrev pub payment_id_of : Notice → Option String
payment_id_of n = or_else (truthy n.data_id) (truthy n.id)

-- A missing reference is `undefined`, which a `where` ignores.
abbrev pub matches : Option String → String → Bool
matches none id = true
matches (some reference) id = id == reference

abbrev pub find_paid : Option String → String → List Asset → Option Asset
find_paid reference tenant = find_first (λ a. matches reference a.id && a.tenant_id == tenant)

abbrev pub is_awaiting : Status → Bool
is_awaiting awaiting_payment = true
is_awaiting _ = false

abbrev pub activate_if : Bool → String → Payment → Asset → Call WebhookReply
activate_if false payment_id payment asset = pure (not_processed payment.status)
activate_if true payment_id payment asset = do
  update_asset asset.id active
  create_event (record {
    asset_id = asset.id;
    tenant_id = asset.tenant_id;
    origin = "SYSTEM_BILLING";
    issuer_id = none;
    payload = payment_confirmed payment_id;
    chain_tx_id = none;
    signature_hash = none;
  })
  pure (activated asset.id)

abbrev pub settle_found : String → Payment → Option Asset → Call WebhookReply
settle_found payment_id payment none = pure (not_processed payment.status)
settle_found payment_id payment (some asset) =
    activate_if (is_awaiting asset.status) payment_id payment asset

abbrev pub settle_for : String → Payment → Option String → Call WebhookReply
settle_for payment_id payment none = pure missing_tenant
settle_for payment_id payment (some tenant) = do
  found ← gets (λ w. find_paid payment.external_reference tenant w.assets)
  settle_found payment_id payment found

-- `secure_tenant` is `secureContext?.tenantId`.
unfoldable pub settle_payment : Option String → String → Payment → Call WebhookReply
settle_payment secure_tenant payment_id payment =
    if payment.status == "approved"
    then settle_for payment_id payment (
        truthy (or_else payment.metadata_tenant (or_else payment.metadata_tenant_id secure_tenant)))
    else pure (not_processed payment.status)

unfoldable pub process_identified :
    (String → Option Payment) → Option String → Option String → Call WebhookReply
process_identified lookup secure_tenant none = pure no_payment_id
process_identified lookup secure_tenant (some id) = do
  payment ← or_raise (lookup id) billing_failed
  settle_payment secure_tenant id payment

unfoldable pub process_payment_webhook :
    (String → Option Payment) → Option String → Notice → Call WebhookReply
process_payment_webhook lookup secure_tenant n =
    process_identified lookup secure_tenant (payment_id_of n)
