-- ===== src/Asset/Rows.antt =====
-- The database calls on assets, escrows and events.
use qc_backend.Base.{
  String, List, ◌∷◌, Option, Bool, true, false, ◌&&◌, not, ◌==◌, if◌then◌else◌, find_first, any,
  map, string_has_eq, Action, raise_if, or_raise, gets, modify, ◌>>=◌, ◌>>◌,
}
use qc_backend.Asset.Types.{
  Status, active, Asset, EscrowRow, EscrowStatus, released, cancelled, Event, World, Fault,
  asset_not_found, escrow_not_found, record_not_found, unique_constraint, chain_failed, Outside,
  Transition,
}

abbrev pub Call : Type 0 → Type 0
Call A = Action World Fault A

-- `findUnique({ where: { id, tenantId } })`
abbrev pub find_asset : String → String → List Asset → Option Asset
find_asset tenant id = find_first (λ a. a.id == id && a.tenant_id == tenant)

unfoldable pub require_asset : String → String → Call Asset
require_asset tenant id = do
  found ← gets (λ w. find_asset tenant id w.assets)
  or_raise found asset_not_found

abbrev pub with_status : String → Status → Asset → Asset
with_status id status a = if a.id == id then record a { status = status } else a

abbrev pub set_assets : (List Asset → List Asset) → World → World
set_assets f w = record w { assets = f w.assets }

-- `prisma.asset.update({ where: { id }, data: { status } })`, which throws on a missing row.
unfoldable pub update_asset : String → Status → Call (Unit {0})
update_asset id status = do
  known ← gets (λ w. any (λ a. a.id == id) w.assets)
  raise_if (not known) record_not_found
  modify (set_assets (map (with_status id status)))

abbrev pub is_active : Status → Bool
is_active active = true
is_active _ = false

-- `findFirst({ where: { escrowId, tenantId } })`
abbrev pub find_escrow : String → String → List EscrowRow → Option EscrowRow
find_escrow tenant id = find_first (λ e. e.escrow_id == id && e.tenant_id == tenant)

unfoldable pub require_escrow : String → String → Call EscrowRow
require_escrow tenant id = do
  found ← gets (λ w. find_escrow tenant id w.escrows)
  or_raise found escrow_not_found

abbrev pub is_closed : EscrowStatus → Bool
is_closed released = true
is_closed cancelled = true
is_closed _ = false

abbrev pub set_escrows : (List EscrowRow → List EscrowRow) → World → World
set_escrows f w = record w { escrows = f w.escrows }

-- `escrow.create`; `escrowId` is unique over all tenants.
unfoldable pub create_escrow : EscrowRow → Call (Unit {0})
create_escrow e = do
  raise_if (← gets (λ w. any (λ x. x.escrow_id == e.escrow_id) w.escrows)) unique_constraint
  modify (set_escrows (λ rows. e ∷ rows))

-- An update of the row with this (unique) escrow id.
abbrev pub rewrite_escrow : String → (EscrowRow → EscrowRow) → EscrowRow → EscrowRow
rewrite_escrow id f e = if e.escrow_id == id then f e else e

abbrev pub update_escrow : String → (EscrowRow → EscrowRow) → Call (Unit {0})
update_escrow id f = modify (set_escrows (map (rewrite_escrow id f)))

abbrev pub create_event : Event → Call (Unit {0})
create_event e = modify (λ w. record w { events = e ∷ w.events })

-- A call of a chain's adapter, with the transaction id that it returns.
abbrev pub execute : Outside → Transition → Call String
execute o t = or_raise (o.execute t) chain_failed
