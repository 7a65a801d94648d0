-- ===== src/Device/Guard.antt =====
-- DeviceGuardFacet.ts: a tap is checked against the row that it read (`check_tap`) and then written
-- (`commit_tap`), which tests the counter again, in the update.
use qc_backend.Base.{
  ℕ, ◌+◌, String, List, ◌∷◌, Option, some, none, Bool, true, false, not, ◌&&◌, leb, ltb, ◌==◌, any,
  find_first, map, is_some_of, if◌then◌else◌, nat_has_eq, string_has_eq, Result, ok, err, pure,
  raise, raise_if, gets, modify, transaction, continue, ◌>>=◌, ◌>>◌,
}
use qc_backend.Device.Types.{
  TapVerdict, valid, replay_blocked, cmac_invalid, device_inactive, device_not_found, StoredKey,
  KeyValue, falsy, Device, DeviceAsset, TapLog, AuditAction, nfc_tap_valid, nfc_tap_replay_blocked,
  nfc_tap_cmac_invalid, World, Fault, race_condition, context_failed, Call, Tap, Outside,
}
use qc_backend.Device.Cmac.{validate_sun_cmac}
use qc_backend.Device.Keys.{decrypt_json}

-- The answer to a tap: a verdict that is not VALID, or the asset's status and public view.
pub data Answer : Type 0 where
  refused : (verdict : TapVerdict) (device_id : Option ℕ) (counter : ℕ) → Answer
  accepted : (status : String) (asset_id public_view : Option String) → Answer

abbrev pub tap_log : ℕ → Bool → TapVerdict → Tap → TapLog
tap_log device cmac_valid verdict p = record {
  device_id = device;
  counter_value = p.ctr;
  cmac_received = p.cmac;
  cmac_valid = cmac_valid;
  verdict = verdict;
  ip_address = p.ip_address;
  user_agent = p.user_agent;
  raw_url = p.raw_url;
}

abbrev pub action_of : TapVerdict → AuditAction
action_of replay_blocked = nfc_tap_replay_blocked
action_of _ = nfc_tap_cmac_invalid

abbrev pub with_tap : TapLog → AuditAction → String → World → World
with_tap l action tenant w = record w {
  taps = l ∷ w.taps;
  audits = record { tenant_id = tenant; action = action; resource_id = l.device_id } ∷ w.audits;
}

-- `logTap`
unfoldable pub log_tap : ℕ → Bool → TapVerdict → Tap → Call (Unit {0})
log_tap device cmac_valid verdict p =
    modify (with_tap (tap_log device cmac_valid verdict p) (action_of verdict) p.tenant_id)

-- What the checks of a tap decide: an answer at once, or the device to write, with its asset.
pub data Checked : Type 0 where
  stop : Answer → Checked
  go : Device → Option DeviceAsset → Checked

-- `device.asset`
abbrev pub linked_asset : ℕ → List DeviceAsset → Option DeviceAsset
linked_asset id assets = find_first (λ a. is_some_of a.device_id id) assets

abbrev pub session_key : Outside → Option StoredKey → KeyValue
session_key o none = falsy
session_key o (some k) = decrypt_json o k

abbrev pub refuse : Device → TapVerdict → Tap → Call Checked
refuse d verdict p = do
  log_tap d.id false verdict p
  pure (stop (refused verdict (some d.id) p.ctr))

abbrev pub checked_cmac : Bool → Device → Option DeviceAsset → Tap → Call Checked
checked_cmac true d a p = pure (go d a)
checked_cmac false d a p = refuse d cmac_invalid p

abbrev pub checked_counter : Outside → Bool → Device → Option DeviceAsset → Tap → Call Checked
checked_counter o true d a p = refuse d replay_blocked p
checked_counter o false d a p =
    checked_cmac (validate_sun_cmac o (session_key o d.master_key) p) d a p

-- Steps 2 to 5, on the row that was read.
abbrev pub check_device : Outside → Tap → Option Device → List DeviceAsset → Call Checked
check_device o p none assets = pure (stop (refused device_not_found none p.ctr))
check_device o p (some d) assets =
    if not (d.tenant_id == p.tenant_id)
    then pure (stop (refused device_not_found none p.ctr))
    else if not d.is_active
    then pure (stop (refused device_inactive none p.ctr))
    else checked_counter o (leb p.ctr d.last_counter) d (linked_asset d.id assets) p

unfoldable pub check_tap : Outside → Tap → Call Checked
unfolding log_tap validate_sun_cmac decrypt_json
check_tap o p = do
  found ← gets (λ w. find_first (λ (d : Device). d.uid == p.uid) w.devices)
  assets ← gets (λ w. w.assets)
  check_device o p found assets

-- The `where` of the update.
abbrev pub is_behind : ℕ → ℕ → Device → Bool
is_behind id ctr d = d.id == id && ltb d.last_counter ctr

unfoldable pub advanced : ℕ → Tap → Device → Device
advanced id p d =
    if is_behind id p.ctr d
    then record d {
      last_counter = p.ctr;
      last_tap_ip = p.ip_address;
      total_taps = d.total_taps + 1;
    }
    else d

abbrev pub set_devices : (List Device → List Device) → World → World
set_devices f w = record w { devices = f w.devices }

unfoldable pub write_tap : Device → Tap → Call (Unit {0})
unfolding advanced
write_tap d p = transaction do
  behind ← gets (λ w. any (is_behind d.id p.ctr) w.devices)
  raise_if (not behind) race_condition
  modify (set_devices (map (advanced d.id p)))
  modify (with_tap (tap_log d.id true valid p) nfc_tap_valid p.tenant_id)

-- The `catch` of the transaction.
abbrev pub caught :
    Device → Tap → Result Fault (Unit {0}) × World → Result Fault (Option Answer) × World
caught d p (ok _, w) = (ok none, w)
caught d p (err race_condition, w) =
    continue (λ _. pure (some (refused replay_blocked (some d.id) p.ctr)))
      (log_tap d.id true replay_blocked p w)
caught d p (err e, w) = (err e, w)

-- Step 6: `none` where the tap is written.
unfoldable pub commit_tap : Device → Tap → Call (Option Answer)
unfolding write_tap log_tap
commit_tap d p w = caught d p (write_tap d p w)

abbrev pub viewed : DeviceAsset → Option String → Call Answer
viewed a none = raise context_failed
viewed a (some view) = pure (accepted a.status (some a.id) (some view))

abbrev pub with_context : Outside → Option DeviceAsset → Call Answer
with_context o none = pure (accepted "UNLINKED" none none)
with_context o (some a) = viewed a (o.route_asset_read a.id)

abbrev pub after_commit : Outside → Option DeviceAsset → Option Answer → Call Answer
after_commit o asset (some a) = pure a
after_commit o asset none = with_context o asset

abbrev pub after_check : Outside → Tap → Checked → Call Answer
after_check o p (stop a) = pure a
after_check o p (go d asset) = do ended ← commit_tap d p; after_commit o asset ended

-- `validateAndRecordTap`, run without interruption
unfoldable pub validate_and_record_tap : Outside → Tap → Call Answer
unfolding check_tap commit_tap
validate_and_record_tap o p = do checked ← check_tap o p; after_check o p checked
