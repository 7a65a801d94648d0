-- ===== src/Device/Types.antt =====
-- The rows of devices and taps (prisma/schema.prisma: Device, DeviceTapLog, AuditLog), and what a
-- tap asks of the outside world.
use qc_backend.Base.{ℕ, String, List, Option, Bool, Action}

-- `TapVerdict`
pub data TapVerdict : Type 0 where
  valid replay_blocked cmac_invalid device_inactive device_not_found relay_attack : TapVerdict

-- A stored key: raw, or as `encryptJson` stores it.
pub data StoredKey : Type 0 where
  raw : String → StoredKey
  sealed : (ciphertext iv tag : String) → StoredKey

-- A value of `JSON.parse`, as far as a key is concerned: a text, a falsy value, or any other, such
-- as a number or a list, by its JSON text.
pub data KeyValue : Type 0 where
  text other : String → KeyValue
  falsy : KeyValue

-- The device with the parts of its asset that a tap reads.
pub record Device : Type 0 where
  pub id : ℕ
  pub uid : String
  pub tenant_id : String
  pub is_active : Bool
  pub last_counter : ℕ
  pub last_tap_ip : Option String
  pub total_taps : ℕ
  pub master_key : Option StoredKey

pub record DeviceAsset : Type 0 where
  pub id : String
  pub tenant_id : String
  pub status : String
  pub device_id : Option ℕ

pub record TapLog : Type 0 where
  pub device_id : ℕ
  pub counter_value : ℕ
  pub cmac_received : String
  pub cmac_valid : Bool
  pub verdict : TapVerdict
  pub ip_address : Option String
  pub user_agent : Option String
  pub raw_url : Option String

pub data AuditAction : Type 0 where
  nfc_tap_valid nfc_tap_replay_blocked nfc_tap_cmac_invalid device_registered : AuditAction

pub record Audit : Type 0 where
  pub tenant_id : String
  pub action : AuditAction
  pub resource_id : ℕ

-- The tables, newest row first; `next_id` is the id of the next device.
pub record World : Type 0 where
  pub devices : List Device
  pub assets : List DeviceAsset
  pub taps : List TapLog
  pub audits : List Audit
  pub next_id : ℕ

pub data Fault : Type 0 where
  unique_constraint missing_parameters asset_not_found foreign_asset already_linked : Fault
  race_condition context_failed : Fault

abbrev pub Call : Type 0 → Type 0
Call A = Action World Fault A

-- A tap's parameters. The counter is a natural number.
pub record Tap : Type 0 where
  pub uid : String
  pub ctr : ℕ
  pub cmac : String
  pub tenant_id : String
  pub ip_address : Option String
  pub user_agent : Option String
  pub raw_url : Option String

-- The outside world: AES (`none` where a call throws), the environment's key, `JSON.parse` (`none`
-- where it throws), `JSON.stringify` of an object with these parts, the bytes that `Buffer.from`
-- makes of a value with this JSON text that is neither a text nor falsy (`none` where it throws),
-- upper case, and the public view of an asset (`none` where reading it throws).
pub record Outside : Type 0 where
  pub aes_cmac : (key message : List ℕ) → Option String
  pub ntag_sun_key : Option String
  pub encrypt : String → String × String × String
  pub decrypt : (ciphertext iv tag : String) → Option String
  pub parse_json : String → Option KeyValue
  pub stringify : (ciphertext iv tag : String) → String
  pub buffer_of : (json : String) → Option (List ℕ)
  pub to_upper_case : String → String
  pub route_asset_read : (asset_id : String) → Option String
