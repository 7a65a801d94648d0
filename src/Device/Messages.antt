-- ===== src/Device/Messages.antt =====
-- The authenticated message can be read back, and a provisioned key is the one that taps use.
use qc_backend.Base.{
  is_empty, ◌||◌, ℕ, ◌+◌, ◌*◌, String, List, [], ◌∷◌, Option, some, none, false, ◌≡◌, refl,
  Bool-cases, inl, inr, if◌then◌else◌,
}
use qc_backend.Device.Types.{KeyValue, text, Outside}
use qc_backend.Device.Keys.{encrypt_json, decrypt_json, seal_of, parsed_or}

-- The counter that three bytes stand for.
abbrev pub counter_of : List ℕ → ℕ
counter_of (a ∷ b ∷ c ∷ []) = 65536 * a + 256 * b + c
counter_of _ = 0

abbrev pub opened_again : Outside → String × String × String → Option String
opened_again o (ciphertext, iv, tag) =
    if is_empty ciphertext || (is_empty iv || is_empty tag)
    then none
    else o.decrypt ciphertext iv tag

-- The cipher makes texts that are not empty of such texts, and opens what it has sealed.
abbrev pub Opens : Outside → Type 0
Opens o = (plain : String) → is_empty plain ≡ false → opened_again o (o.encrypt plain) ≡ some plain

decrypt_json-seal_of :
    (o : Outside) (key : String) (v : KeyValue) (parts : String × String × String)
    → opened_again o parts ≡ some key
    → parsed_or key (o.parse_json key) ≡ v
    → decrypt_json o (seal_of parts) ≡ v
unfolding decrypt_json
decrypt_json-seal_of o key v (ciphertext, iv, tag) opens parsed =
    elim (Bool-cases (is_empty ciphertext || (is_empty iv || is_empty tag))) [
      | inl blank ↦ let nothing : none ≡ some key = (rw blank at opens) in cc
      | inr full ↦
          let there : o.decrypt ciphertext iv tag ≡ some key = (rw full at opens) in
          rw (full, there) parsed
    ]

-- With a cipher that opens what it has sealed, a stored key that is not empty and no JSON text is
-- read back as it was.
pub decrypt_json-encrypt_json :
    (o : Outside) (key : String)
    → Opens o
    → is_empty key ≡ false
    → o.parse_json key ≡ none
    → decrypt_json o (encrypt_json o key) ≡ text key
unfolding encrypt_json
decrypt_json-encrypt_json o key opens full no_json =
    decrypt_json-seal_of o key (text key) (o.encrypt key) (opens key full) (rw no_json refl)
