-- ===== src/Base/Hex.antt =====
-- `Buffer.from(text, 'hex')` and the tests for hexadecimal digits; a byte is a number.
use Prim.Native.Nat.{ℕ, zero, suc, ◌+◌, ◌-◌, ◌*◌}
use Prim.Native.Char.{code}
use Prim.Native.String.{String}
use mathlib.Core.Path.{◌≡◌, refl}
use mathlib.Core.Bool.{Bool, true, false, ◌&&◌}
use mathlib.Core.Option.{Option, none, some}
use mathlib.Core.List.{List, [], ◌∷◌}
use native.Mathlib.Omega.{arith}
use qc_backend.Base.Tests.{leb, if◌then◌else◌}
use qc_backend.Base.Lists.{length}

unfoldable pub hex_digit : ℕ → Option ℕ
hex_digit c =
    if leb 48 c && leb c 57
    then some (c - 48)
    else if leb 65 c && leb c 70
    then some (c - 55)
    else if leb 97 c && leb c 102
    then some (c - 87)
    else none

abbrev is_digit_value : Option ℕ → Bool
is_digit_value none = false
is_digit_value (some d) = true

abbrev pub is_hex_char : ℕ → Bool
is_hex_char c = is_digit_value (hex_digit c)

-- Every character is a hexadecimal digit.
unfoldable pub all_hex : String → Bool
unfolding hex_digit
all_hex String.[] = true
all_hex (String.◌∷◌ c s) = is_hex_char (code c) && all_hex s

abbrev pub text_length : String → ℕ
text_length String.[] = 0
text_length (String.◌∷◌ c s) = suc (text_length s)

abbrev pair_with : Option ℕ → Option ℕ → List ℕ → List ℕ
pair_with (some a) (some b) rest = (16 * a + b) ∷ rest
pair_with _ _ rest = []

-- The bytes of the pairs of digits, up to the first that is none; an odd last digit is dropped.
unfoldable pub hex_bytes : String → List ℕ
unfolding hex_digit
hex_bytes String.[] = []
hex_bytes (String.◌∷◌ c String.[]) = []
hex_bytes (String.◌∷◌ c (String.◌∷◌ d s)) =
    pair_with (hex_digit (code c)) (hex_digit (code d)) (hex_bytes s)

-- A text of hexadecimal digits has half as many bytes.
pub length-hex_bytes :
    (n : ℕ) (s : String) → text_length s ≡ n + n → all_hex s ≡ true → length (hex_bytes s) ≡ n
unfolding hex_bytes all_hex
length-hex_bytes zero String.[] h k = refl
length-hex_bytes zero (String.◌∷◌ c s) h k = absurd (omega arith)
length-hex_bytes (suc n) String.[] h k = absurd (omega arith)
length-hex_bytes (suc n) (String.◌∷◌ c String.[]) h k = absurd (omega arith)
length-hex_bytes (suc n) (String.◌∷◌ c (String.◌∷◌ d s)) h k =
    let rest = length-hex_bytes n s (omega arith) in ground arith
