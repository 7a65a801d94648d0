-- ===== src/Base/Calls.antt =====
-- A call of the program: state, and errors as values. A write that precedes an error stays
-- written, except in a transaction, which is rolled back.
use mathlib.Core.Path.{◌≡◌, refl}
use mathlib.Core.Logic.{◌⊎◌, inl, inr}
use mathlib.Core.Bool.{Bool, true, false}
use mathlib.Core.Option.{Option, none, some}

pub data Result (E A : Type 0) : Type 0 where
  ok : A → Result E A
  err : E → Result E A

abbrev pub Action : Type 0 → Type 0 → Type 0 → Type 0
Action S E A = S → Result E A × S

module _ {S E A : Type 0} where
  abbrev pub pure : A → Action S E A
  pure a s = (ok a, s)

  abbrev pub raise : E → Action S E A
  raise e s = (err e, s)

  -- A guard of the program that reads no state.
  abbrev pub from_result : Result E A → Action S E A
  from_result r s = (r, s)

  abbrev pub gets : (S → A) → Action S E A
  gets f s = (ok (f s), s)

  abbrev pub or_raise : Option A → E → Action S E A
  or_raise none e = raise e
  or_raise (some a) e = pure a

  -- `prisma.$transaction`: an error undoes the writes.
  abbrev pub rolled_back : S → Result E A × S → Result E A × S
  rolled_back s (ok a, s') = (ok a, s')
  rolled_back s (err e, s') = (err e, s)

  abbrev pub transaction : Action S E A → Action S E A
  transaction m s = rolled_back s (m s)

-- The rest of a call, after a step that has ended.
abbrev pub continue : {S E A B : Type 0} → (A → Action S E B) → Result E A × S → Result E B × S
continue f (ok a, s) = f a s
continue f (err e, s) = (err e, s)

infixl 5 ◌>>=◌ ◌>>◌
abbrev pub ◌>>=◌ : {S E A B : Type 0} → Action S E A → (A → Action S E B) → Action S E B
◌>>=◌ m f s = continue f (m s)

abbrev pub ◌>>◌ : {S E A B : Type 0} → Action S E A → Action S E B → Action S E B
m >> k = m >>= λ _. k

abbrev pub raise_if : {S E : Type 0} → Bool → E → Action S E (Unit {0})
raise_if true e s = (err e, s)
raise_if false e s = (ok tt, s)

abbrev pub modify : {S E : Type 0} → (S → S) → Action S E (Unit {0})
modify f s = (ok tt, f s)

-- What a finished call returned and left behind.
pub Result-cases :
    {E A : Type 0} (r : Result E A) → ((a : A) × (r ≡ ok a)) ⊎ ((e : E) × (r ≡ err e))
Result-cases (ok a) = inl (a, refl)
Result-cases (err e) = inr (e, refl)

-- The state that a finished call leaves.
abbrev pub left_by : {S E A : Type 0} → Result E A × S → S
left_by (r, s) = s
