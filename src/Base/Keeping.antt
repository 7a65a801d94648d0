-- ===== src/Base/Keeping.antt =====
-- Calls that keep a property of the state: what a step needs for it, and what the rest of the call
-- learns from the step.
use mathlib.Core.Path.{◌≡◌, refl}
use mathlib.Core.Bool.{Bool, true, false}
use mathlib.Core.Option.{Option, none, some}
use qc_backend.Base.Calls.{
  Result, ok, err, continue, raise_if, or_raise, rolled_back, left_by, from_result,
}

-- The property holds of the tables, and `Q` of the value.
pub data Kept {S E : Type 0} (P : S → Type 0) {A : Type 0} (Q : A → Type 0)
    : Result E A × S → Type 0 where
  finished : {a : A} {w : S} (p : P w) (q : Q a) → Kept P Q (ok a, w)
  failed : {e : E} {w : S} (p : P w) → Kept P Q (err e, w)

module _ {S E : Type 0} {P : S → Type 0} where
  pub Kept-left_by : {A : Type 0} {Q : A → Type 0} (r : Result E A × S) → Kept P Q r → P (left_by r)
  Kept-left_by _ (finished p q) = p
  Kept-left_by _ (failed p) = p

  pub Kept-then :
      {A B : Type 0} {Q : A → Type 0} {R : B → Type 0} (f : A → S → Result E B × S)
      (r : Result E A × S)
      → Kept P Q r
      → ((a : A) (w : S) → P w → Q a → Kept P R (f a w))
      → Kept P R (continue f r)
  Kept-then f _ (finished p q) next = next _ _ p q
  Kept-then f _ (failed p) next = failed p

  pub Kept-rolled :
      {A : Type 0} {Q : A → Type 0} (w : S) (r : Result E A × S)
      → P w
      → Kept P Q r
      → Kept P Q (rolled_back w r)
  Kept-rolled w _ p (finished p' q) = finished p' q
  Kept-rolled w _ p (failed p') = failed p

  pub Kept-raise_if : (b : Bool) (e : E) (w : S) → P w → Kept P (λ _. b ≡ false) (raise_if b e w)
  Kept-raise_if true e w p = failed p
  Kept-raise_if false e w p = finished p refl

  pub Kept-or_raise :
      {A : Type 0} (o : Option A) (e : E) (w : S) → P w → Kept P (λ a. o ≡ some a) (or_raise o e w)
  Kept-or_raise none e w p = failed p
  Kept-or_raise (some a) e w p = finished p refl

  pub Kept-from_result :
      {A : Type 0} (r : Result E A) (w : S) → P w → Kept P (λ a. r ≡ ok a) (from_result r w)
  Kept-from_result (ok a) w p = finished p refl
  Kept-from_result (err e) w p = failed p
