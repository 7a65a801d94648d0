-- ===== src/Device/Keys.antt =====
-- CryptoService.ts: `encryptJson` on texts, and `decryptJson`. The cipher is outside.
use qc_backend.Base.{String, Option, some, none, ◌||◌, is_empty, if◌then◌else◌}
use qc_backend.Device.Types.{StoredKey, raw, sealed, KeyValue, text, falsy, other, Outside}

abbrev pub seal_of : String × String × String → StoredKey
seal_of (ciphertext, iv, tag) = sealed ciphertext iv tag

-- A text has no `_enc`, so that it is always encrypted.
unfoldable pub encrypt_json : Outside → String → StoredKey
encrypt_json o plaintext = seal_of (o.encrypt plaintext)

abbrev pub parsed_or : String → Option KeyValue → KeyValue
parsed_or plain none = text plain
parsed_or plain (some v) = v

abbrev opened : Outside → Option String → KeyValue
opened o none = falsy
opened o (some plain) = parsed_or plain (o.parse_json plain)

-- A part that is missing leaves the object as it is. A failed decryption gives
-- `null`; a decrypted text is parsed where it is JSON.
unfoldable pub decrypt_json : Outside → StoredKey → KeyValue
decrypt_json o (raw s) = text s
decrypt_json o (sealed ciphertext iv tag) =
    if is_empty ciphertext || (is_empty iv || is_empty tag)
    then other (o.stringify ciphertext iv tag)
    else opened o (o.decrypt ciphertext iv tag)
