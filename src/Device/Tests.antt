-- ===== src/Device/Tests.antt =====
-- One device whose tag has been tapped once: the theorems at inputs that meet their hypotheses.
use qc_backend.Base.{ℕ, List, [], ◌∷◌, some, none, true, ◌≡◌, refl}
use qc_backend.Device.Types.{Device, valid, World, Tap, Outside, text}
use qc_backend.Device.Keys.{encrypt_json, decrypt_json}
use qc_backend.Device.Guard.{tap_log}
use qc_backend.Device.Steps.{Step, run_steps}
use qc_backend.Device.Replay.{IsGuarded}
use qc_backend.Device.Runs.{run_steps-IsGuarded}
use qc_backend.Device.Messages.{Opens, decrypt_json-encrypt_json}

-- A cipher that writes the text beside a tag, a MAC that is the same for all, and a key that is no
-- JSON.
abbrev outside : Outside
outside = record {
  aes_cmac = λ key message. some "0102030405060708ffffffffffffffff";
  ntag_sun_key = none;
  encrypt = λ s. (s, "iv", "tag");
  decrypt = λ c iv t. some c;
  parse_json = λ s. none;
  stringify = λ c iv t. c;
  buffer_of = λ json. none;
  to_upper_case = λ s. s;
  route_asset_read = λ a. none;
}

abbrev tap : ℕ → Tap
tap ctr = record {
  uid = "04112233445566";
  ctr = ctr;
  cmac = "0102030405060708";
  tenant_id = "t1";
  ip_address = none;
  user_agent = none;
  raw_url = none;
}

abbrev device : Device
device = record {
  id = 3;
  uid = "04112233445566";
  tenant_id = "t1";
  is_active = true;
  last_counter = 6;
  last_tap_ip = none;
  total_taps = 1;
  master_key = none;
}

abbrev registry : World
registry = record {
  devices = device ∷ [];
  assets = [];
  taps = tap_log 3 true valid (tap 6) ∷ [];
  audits = [];
  next_id = 4;
}

-- Two taps with one counter, both checked before either is written.
abbrev racing : List Step
racing =
    Step.check (tap 7)
    ∷ Step.check (tap 7)
    ∷ Step.commit device (tap 7)
    ∷ Step.commit device (tap 7)
    ∷ Step.whole (tap 9)
    ∷ []

run_steps-IsGuarded_example : IsGuarded 3 (run_steps outside racing registry)
run_steps-IsGuarded_example = run_steps-IsGuarded outside 3 racing registry ((refl, tt), refl, refl)

outside-Opens : Opens outside
outside-Opens plain h = rw h refl

decrypt_json-encrypt_json_example :
    decrypt_json outside (encrypt_json outside "00112233445566778899aabbccddeeff")
    ≡ text "00112233445566778899aabbccddeeff"
decrypt_json-encrypt_json_example =
    decrypt_json-encrypt_json outside "00112233445566778899aabbccddeeff" outside-Opens refl refl
