-- ===== src/Asset/Transfer.antt =====
-- TransferRegistryFacet.ts: `initiateTransfer`. The queue run that it starts without waiting is
-- no part of the call; a fee is in cents, and an owner's id counts the owners before it.
use Prim.Native.Char.{code}
use Prim.Native.String.{◌++◌}
use qc_backend.Base.{
  ℕ, zero, suc, String, List, ◌∷◌, Option, some, none, Bool, not, ◌&&◌, ◌||◌, leb, ◌==◌,
  if◌then◌else◌, find_first, length, string_has_eq, raise_if, pure, gets, modify, ◌>>=◌, ◌>>◌,
}
use qc_backend.Asset.Types.{
  Status, awaiting_payment, Context, Owner, World, transfer_initiated, Outside, invalid_asset_state,
  insufficient_permissions,
}
use qc_backend.Asset.Rows.{Call, require_asset, update_asset, is_active, create_event}
use qc_backend.Asset.Lifecycle.{issuer_or}
use qc_backend.Asset.Escrow.{is_admin, is_operator}
use qc_backend.Asset.Billing.{create_payment_preference}

pub record TransferRequest : Type 0 where
  pub asset_id : String
  pub buyer_document : String
  pub document_type : String

pub record TransferReply : Type 0 where
  pub asset_id : String
  pub status : Status
  pub payment_link : String
  pub buyer_document : String
  pub document_type : String
  pub buyer_owner_id : ℕ

abbrev pub is_digit : ℕ → Bool
is_digit c = leb 48 c && leb c 57

-- `.replace(/\D/g, '')`
unfoldable pub digits : String → String
digits String.[] = String.[]
digits (String.◌∷◌ c s) =
    let rest = digits s in if is_digit (code c) then String.◌∷◌ c rest else rest

-- `customTransferFee || 49.99`
abbrev pub fee_or_default : Option (String × ℕ) → ℕ
fee_or_default none = 4999
fee_or_default (some (tenant, zero)) = 4999
fee_or_default (some (tenant, suc n)) = suc n

abbrev pub is_fee_of : String → String × ℕ → Bool
is_fee_of tenant (t, n) = t == tenant

abbrev pub fee_of : String → List (String × ℕ) → ℕ
fee_of tenant fees = fee_or_default (find_first (is_fee_of tenant) fees)

abbrev pub find_owner : String → String → List Owner → Option Owner
find_owner asset document = find_first (λ w. w.asset_id == asset && w.document == document)

abbrev pub new_owner : String → String → String → World → Owner
new_owner asset document kind w = record {
  id = length w.owners;
  asset_id = asset;
  document = document;
  document_type = kind;
}

abbrev pub owner_or_create : String → String → String → Option Owner → Call Owner
owner_or_create asset document kind (some owner) = pure owner
owner_or_create asset document kind none = do
  owner ← gets (new_owner asset document kind)
  modify (λ w. record w { owners = owner ∷ w.owners })
  pure owner

unfoldable pub initiate_transfer : Outside → ℕ → Context → TransferRequest → Call TransferReply
unfolding digits
initiate_transfer o now ctx p = do
  let document = digits p.buyer_document
  raise_if (not (is_admin ctx.role || is_operator ctx.role)) insufficient_permissions
  asset ← require_asset ctx.tenant_id p.asset_id
  raise_if (not (is_active asset.status)) invalid_asset_state
  fee ← gets (λ w. fee_of asset.tenant_id w.fees)
  found ← gets (λ w. find_owner p.asset_id document w.owners)
  owner ← owner_or_create p.asset_id document p.document_type found
  update_asset asset.id awaiting_payment
  let payload = transfer_initiated (o.sha256 document) p.document_type fee owner.id now
  create_event (record {
    asset_id = asset.id;
    tenant_id = asset.tenant_id;
    origin = "TRANSFER";
    issuer_id = some (issuer_or ctx.api_key_id "transfer.initiate");
    payload = payload;
    chain_tx_id = none;
    signature_hash = some (o.signature_hash payload);
  })
  link ←
      create_payment_preference o asset.id ("Ownership Transfer: " ++ asset.external_id) fee
        document
  pure (record {
    asset_id = asset.id;
    status = awaiting_payment;
    payment_link = link;
    buyer_document = document;
    document_type = p.document_type;
    buyer_owner_id = owner.id;
  })
