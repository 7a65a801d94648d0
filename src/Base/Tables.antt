-- ===== src/Base/Tables.antt =====
-- Tests that every row of a table passes: what a query learns from them and what an update of
-- the rows must keep.
use Prim.Native.Nat.{ℕ, zero, suc}
use mathlib.Core.Path.{◌≡◌, refl}
use mathlib.Core.Logic.{inl, inr}
use mathlib.Core.Bool.{Bool, true, false, ◌&&◌}
use mathlib.Core.Option.{some, none}
use mathlib.Core.List.{List, [], ◌∷◌, map}
use native.Mathlib.Omega.{arith}
use qc_backend.Base.Tests.{Bool-cases}
use qc_backend.Base.Lists.{find_first, select, take, any}

module _ {A : Type 0} where
  -- `Array.every`
  abbrev pub every : (A → Bool) → List A → Bool
  every t [] = true
  every t (x ∷ xs) = t x && every t xs

  pub find_first-every :
      (t p : A → Bool) (xs : List A) (a : A)
      → every t xs ≡ true
      → find_first p xs ≡ some a
      → t a ≡ true
  find_first-every t p [] a h found = cc
  find_first-every t p (x ∷ xs) a h found = let rest = find_first-every t p xs a in ground arith

  pub find_first-passes :
      (p : A → Bool) (xs : List A) (a : A) → find_first p xs ≡ some a → p a ≡ true
  find_first-passes p [] a found = cc
  find_first-passes p (x ∷ xs) a found = elim (Bool-cases (p x)) [
    | inl hit ↦ let same : some x ≡ some a = (rw hit at found) in grind arith
    | inr miss ↦ find_first-passes p xs a (rw miss at found)
  ]

  pub every-map :
      (t : A → Bool) (f : A → A) (xs : List A)
      → ((a : A) → t a ≡ true → t (f a) ≡ true)
      → every t xs ≡ true
      → every t (map f xs) ≡ true
  every-map t f [] keep h = refl
  every-map t f (x ∷ xs) keep h =
      let first = keep x in let rest = every-map t f xs keep in ground arith

  pub any-map :
      (t : A → Bool) (f : A → A) (xs : List A)
      → ((a : A) → t (f a) ≡ t a)
      → any t (map f xs) ≡ any t xs
  any-map t f [] keep = refl
  any-map t f (x ∷ xs) keep = let rest = any-map t f xs keep in rw (keep x, rest)

  pub every-select :
      (t p u : A → Bool) (xs : List A)
      → ((a : A) → t a ≡ true → p a ≡ true → u a ≡ true)
      → every t xs ≡ true
      → every u (select p xs) ≡ true
  every-select t p u [] learn h = refl
  every-select t p u (x ∷ xs) learn h =
      let first = learn x in let rest = every-select t p u xs learn in ground arith

  pub every-take :
      (t : A → Bool) (n : ℕ) (xs : List A) → every t xs ≡ true → every t (take n xs) ≡ true
  every-take t zero xs h = refl
  every-take t (suc n) [] h = refl
  every-take t (suc n) (x ∷ xs) h = let rest = every-take t n xs in ground arith

  -- What is found shows that some row passes a weaker test.
  pub find_first-any :
      (p q : A → Bool) (xs : List A) (a : A)
      → ((x : A) → p x ≡ true → q x ≡ true)
      → find_first p xs ≡ some a
      → any q xs ≡ true
  find_first-any p q [] a weaker found = cc
  find_first-any p q (x ∷ xs) a weaker found = elim (Bool-cases (p x)) [
    | inl hit ↦ rw (weaker x hit)
    | inr miss ↦ let rest = find_first-any p q xs a weaker (rw miss at found) in ground arith
  ]

  -- The updated rows pass another test.
  pub every-map_to :
      (t u : A → Bool) (f : A → A) (xs : List A)
      → ((a : A) → t a ≡ true → u (f a) ≡ true)
      → every t xs ≡ true
      → every u (map f xs) ≡ true
  every-map_to t u f [] keep h = refl
  every-map_to t u f (x ∷ xs) keep h =
      let first = keep x in let rest = every-map_to t u f xs keep in ground arith

  pub every-weaken :
      (t u : A → Bool) (xs : List A)
      → ((a : A) → t a ≡ true → u a ≡ true)
      → every t xs ≡ true
      → every u xs ≡ true
  every-weaken t u [] weaker h = refl
  every-weaken t u (x ∷ xs) weaker h =
      let first = weaker x in let rest = every-weaken t u xs weaker in ground arith

  -- Where none is found, none passes.
  pub find_first-none : (p : A → Bool) (xs : List A) → find_first p xs ≡ none → any p xs ≡ false
  find_first-none p [] h = refl
  find_first-none p (x ∷ xs) h = let rest = find_first-none p xs in ground arith
