-- ===== src/Device/Cmac.antt =====
-- NfcValidationFacet.ts: `validateSunCmac`, up to the messages of its errors. The comparison is of
-- bytes, so that the upper case of the computed digits makes no difference.
use qc_backend.Base.{
  take_text, ℕ, ◌/◌, ◌%◌, String, List, [], ◌∷◌, ◌++◌, Option, some, none, Bool, true, false, ◌&&◌,
  ltb, nat_eq, truthy, length, all_hex, text_length, hex_bytes,
}
use qc_backend.Device.Types.{KeyValue, text, falsy, other, Tap, Outside}

abbrev pub master_key_default : String
master_key_default = "00000000000000000000000000000000"

abbrev text_or : Option String → KeyValue → KeyValue
text_or none rest = rest
text_or (some x) rest = text x

-- `masterKey || process.env.NTAG_SUN_KEY || MASTER_KEY_DEFAULT`
abbrev pub key_value : KeyValue → Option String → KeyValue
key_value (text s) environment =
    text_or (truthy (some s)) (text_or (truthy environment) (text master_key_default))
key_value falsy environment = text_or (truthy environment) (text master_key_default)
key_value (other json) environment = other json

-- The counter, in three bytes, big end first: `writeUIntBE(ctr, 0, 3)` where it fits.
abbrev pub ctr_bytes : ℕ → List ℕ
ctr_bytes ctr = ctr / 65536 ∷ ctr / 256 % 256 ∷ ctr % 256 ∷ []

-- What is authenticated: the prefix, the id and the counter.
unfoldable pub sun_message : String → ℕ → List ℕ
sun_message uid ctr = 0xC1 ∷ 0xAD ∷ 0x54 ∷ (hex_bytes uid ++ ctr_bytes ctr)

abbrev pub same_bytes : List ℕ → List ℕ → Bool
same_bytes [] [] = true
same_bytes (a ∷ more) (b ∷ others) = nat_eq a b && same_bytes more others
same_bytes _ _ = false

abbrev pub is_hex_of : ℕ → String → Bool
is_hex_of n s = nat_eq (text_length s) n && all_hex s

-- `timingSafeEqual` on buffers of one length
abbrev pub matches_cmac : Outside → String → Option String → Bool
matches_cmac o received none = false
matches_cmac o received (some computed) =
    same_bytes (hex_bytes (o.to_upper_case (take_text 16 computed))) (hex_bytes received)

-- `Buffer.from(key, 'hex')`; a falsy key has been replaced before.
abbrev pub key_bytes : Outside → KeyValue → Option (List ℕ)
key_bytes o falsy = none
key_bytes o (text key) = some (hex_bytes key)
key_bytes o (other json) = o.buffer_of json

abbrev pub check_bytes : Outside → Tap → Option (List ℕ) → Bool
check_bytes o p none = false
check_bytes o p (some key) =
    nat_eq (length key) 16
    && (ltb p.ctr 16777216 && matches_cmac o p.cmac (o.aes_cmac key (sun_message p.uid p.ctr)))

abbrev pub check_with : Outside → Tap → KeyValue → Bool
check_with o p key = check_bytes o p (key_bytes o key)

-- `isValid` of the result
unfoldable pub validate_sun_cmac : Outside → KeyValue → Tap → Bool
unfolding sun_message
validate_sun_cmac o master_key p =
    is_hex_of 14 p.uid
    && (is_hex_of 16 p.cmac && check_with o p (key_value master_key o.ntag_sun_key))
