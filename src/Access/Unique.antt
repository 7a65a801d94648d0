-- ===== src/Access/Unique.antt =====
-- `Array.from(new Set(xs))`: each text once, where it stands first.
use qc_backend.Base.{
  String, List, [], ◌∷◌, Bool, true, false, not, ◌==◌, ◌≡◌, refl, ap, ◌∙◌, select, eq_iff,
  string_has_eq, Bool-cases, inl, inr, arith, every, every-select,
}

abbrev differs : String → String → Bool
differs x y = not (y == x)

unfoldable pub unique : List String → List String
unique [] = []
unique (x ∷ xs) = x ∷ select (differs x) (unique xs)

module _ (p q : String → Bool) where
  select_comm : (xs : List String) → select p (select q xs) ≡ select q (select p xs)
  select_comm [] = refl
  select_comm (x ∷ xs) = let rest = select_comm xs in ground arith

select_idem : (p : String → Bool) (xs : List String) → select p (select p xs) ≡ select p xs
select_idem p [] = refl
select_idem p (x ∷ xs) = let rest = select_idem p xs in ground arith

-- What a test refuses may be removed before the test.
select-differs :
    (p : String → Bool) (x : String) (xs : List String)
    → p x ≡ false
    → select p (select (differs x) xs) ≡ select p xs
select-differs p x [] h = refl
select-differs p x (y ∷ ys) h = elim (Bool-cases (y == x)) [
  | inl same ↦
      let equal : y ≡ x = (eq_iff y x).0 same in
      let refused : p y ≡ false = rw equal h in rw (same, refused, select-differs p x ys h)
  | inr differ ↦ elim (Bool-cases (p y)) [
    | inl hit ↦ rw (differ, hit, select-differs p x ys h)
    | inr miss ↦ rw (differ, miss, select-differs p x ys h)
  ]
]

unique-select : (p : String → Bool) (xs : List String) → unique (select p xs) ≡ select p (unique xs)
unfolding unique
unique-select p [] = refl
unique-select p (x ∷ xs) = elim (Bool-cases (p x)) [
  | inl hit ↦ rw (hit, unique-select p xs, select_comm p (differs x) (unique xs))
  | inr miss ↦ rw (miss, unique-select p xs, select-differs p x (unique xs) miss)
]

pub unique_idem : (xs : List String) → unique (unique xs) ≡ unique xs
unfolding unique
unique_idem [] = refl
unique_idem (x ∷ xs) =
    ap (λ ys. x ∷ ys)
      (ap (select (differs x))
          (unique-select (differs x) (unique xs) ∙ ap (select (differs x)) (unique_idem xs))
        ∙ select_idem (differs x) (unique xs))

pub every-unique :
    (t : String → Bool) (xs : List String) → every t xs ≡ true → every t (unique xs) ≡ true
unfolding unique
every-unique t [] h = refl
every-unique t (x ∷ xs) h =
    let rest =
      every-select t (differs x) t (unique xs) (λ a h k. h) (every-unique t xs (ground arith)) in
    ground arith
