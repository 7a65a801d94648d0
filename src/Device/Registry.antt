-- ===== src/Device/Registry.antt =====
-- How devices come to be: `registerDevice` of DeviceRegistryFacet.ts and of DeviceGuardFacet.ts.
use qc_backend.Base.{
  ℕ, ◌+◌, String, ◌∷◌, Option, some, none, Bool, true, false, not, ◌||◌, ◌==◌, any, find_first, map,
  is_empty, if◌then◌else◌, nat_has_eq, string_has_eq, pure, raise_if, gets, modify, or_raise,
  transaction, ◌>>=◌, ◌>>◌,
}
use qc_backend.Device.Types.{
  StoredKey, Device, DeviceAsset, device_registered, World, unique_constraint, missing_parameters,
  asset_not_found, foreign_asset, already_linked, Call, Outside,
}
use qc_backend.Device.Keys.{encrypt_json}

abbrev pub with_device : Device → World → World
with_device d w = record w { devices = d ∷ w.devices; next_id = w.next_id + 1 }

abbrev pub new_device : String → String → ℕ → Option StoredKey → World → Device
new_device uid tenant counter key w = record {
  id = w.next_id;
  uid = uid;
  tenant_id = tenant;
  is_active = true;
  last_counter = counter;
  last_tap_ip = none;
  total_taps = 0;
  master_key = key;
}

-- `device.create`; `uid` is unique.
unfoldable pub create_device : String → String → ℕ → Option StoredKey → Call Device
create_device uid tenant counter key = do
  taken ← gets (λ w. any (λ (d : Device). d.uid == uid) w.devices)
  raise_if taken unique_constraint
  d ← gets (new_device uid tenant counter key)
  modify (with_device d)
  pure d

-- `registerDevice` of DeviceGuardFacet, whose counter is 0 unless it is given
unfoldable pub register_device : Outside → String → String → Option ℕ → Call Device
unfolding create_device
register_device o tenant uid none = create_device (o.to_upper_case uid) tenant 0 none
register_device o tenant uid (some counter) =
    create_device (o.to_upper_case uid) tenant counter none

abbrev pub is_linked : Option ℕ → Bool
is_linked none = false
is_linked (some d) = true

abbrev link : String → ℕ → DeviceAsset → DeviceAsset
link id device a = if a.id == id then record a { device_id = some device } else a

-- `registerDevice` of DeviceRegistryFacet
unfoldable pub provision_device : Outside → (asset_id tenant uid master_key : String) → Call Device
unfolding create_device encrypt_json
provision_device o asset_id tenant uid master_key = do
  raise_if (is_empty asset_id || (is_empty tenant || (is_empty uid || is_empty master_key)))
      missing_parameters
  transaction do
    found ← gets (λ w. find_first (λ (a : DeviceAsset). a.id == asset_id) w.assets)
    asset ← or_raise found asset_not_found
    raise_if (not (asset.tenant_id == tenant)) foreign_asset
    raise_if (is_linked asset.device_id) already_linked
    d ← create_device uid tenant 0 (some (encrypt_json o master_key))
    modify (λ w. record w { assets = map (link asset.id d.id) w.assets })
    modify (λ w. record w {
      audits =
          record { tenant_id = tenant; action = device_registered; resource_id = d.id } ∷ w.audits;
    })
    pure d
