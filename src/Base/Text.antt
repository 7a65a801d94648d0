-- ===== src/Base/Text.antt =====
-- Texts: JavaScript's truth test and `trim`, and optional texts.
use Prim.Native.Nat.{ℕ, zero, suc}
use Prim.Native.Char.{code}
use Prim.Native.String.{String, ◌++◌}
use Prim.Native.String.append
use mathlib.Core.Path.{◌≡◌, refl, sym, ap, ◌∙◌}
use mathlib.Core.Logic.{◌≢◌}
use native.Mathlib.Omega.{arith}
use text.Mathlib.TextLemmas.{append_cancel_left, append-nil}
use mathlib.Core.Bool.{Bool, true, false, ◌&&◌, ◌||◌}
use mathlib.Core.Option.{Option, none, some}
use mathlib.Core.List.{List, [], ◌∷◌}
use qc_backend.Base.Tests.{leb, nat_eq, if◌then◌else◌}
use qc_backend.Base.Lists.{any}

abbrev pub is_empty : String → Bool
is_empty String.[] = true
is_empty (String.◌∷◌ c s) = false

-- The first characters, as `substring(0, n)` gives them.
abbrev pub take_text : ℕ → String → String
take_text zero s = String.[]
take_text (suc n) String.[] = String.[]
take_text (suc n) (String.◌∷◌ c s) = String.◌∷◌ c (take_text n s)

-- `value || undefined`: the empty text is falsy.
abbrev pub truthy : Option String → Option String
truthy none = none
truthy (some s) = if is_empty s then none else some s

-- The code points that `String.prototype.trim` removes, beside U+2000 to U+200A.
abbrev white_space : List ℕ
white_space =
    9 ∷ 10 ∷ 11 ∷ 12 ∷ 13 ∷ 32 ∷ 160 ∷ 0x1680 ∷ 0x2028 ∷ 0x2029 ∷ 0x202f ∷ 0x205f ∷ 0x3000 ∷ 0xfeff
    ∷ []

pub is_space : ℕ → Bool
is_space c = any (nat_eq c) white_space || (leb 0x2000 c && leb c 0x200a)

trim_start : String → String
unfolding is_space
trim_start String.[] = String.[]
trim_start (String.◌∷◌ c s) =
    let rest = trim_start s in if is_space (code c) then rest else String.◌∷◌ c s

trim_end : String → String
unfolding is_space
trim_end String.[] = String.[]
trim_end (String.◌∷◌ c s) =
    let rest = trim_end s in
    if is_space (code c) && is_empty rest then String.[] else String.◌∷◌ c rest

-- `s.trim()`
unfoldable pub trim : String → String
unfolding trim_start trim_end
trim s = trim_end (trim_start s)

-- Every character is white space.
abbrev pub is_blank : String → Bool
is_blank String.[] = true
is_blank (String.◌∷◌ c s) = is_space (code c) && is_blank s

is_blank-trim_start : (s : String) → is_blank (trim_start s) ≡ is_blank s
unfolding trim_start
is_blank-trim_start String.[] = refl
is_blank-trim_start (String.◌∷◌ c s) = ground (arith, is_blank-trim_start s)

is_empty-trim_end : (s : String) → is_empty (trim_end s) ≡ is_blank s
unfolding trim_end
is_empty-trim_end String.[] = refl
is_empty-trim_end (String.◌∷◌ c s) = ground (arith, is_empty-trim_end s)

-- `!value.trim()` is the test for a blank text.
pub is_empty-trim : (s : String) → is_empty (trim s) ≡ is_blank s
unfolding trim
is_empty-trim s = is_empty-trim_end (trim_start s) ∙ is_blank-trim_start s

pub is_blank-append : (s t : String) → is_blank (s ++ t) ≡ is_blank s && is_blank t
is_blank-append String.[] t = rw append.nil
is_blank-append (String.◌∷◌ c s) t = rw append.cons (ground (arith, is_blank-append s t))

-- A text grows by a suffix that is not empty.
pub append-ne_self : (s t : String) → is_empty t ≡ false → s ++ t ≢ s
append-ne_self s t h e =
    let nothing : t ≡ "" = append_cancel_left s t "" (e ∙ sym (append-nil s)) in
    let blank : is_empty t ≡ true = ap is_empty nothing in cc

-- What is truthy is there.
pub truthy-some : (o : Option String) (s : String) → truthy o ≡ some s → o ≡ some s
truthy-some none s h = cc
truthy-some (some x) s h = ground arith
