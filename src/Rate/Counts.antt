-- ===== src/Rate/Counts.antt =====
-- What an update of a counter does to the counts.
use qc_backend.Base.{
  ℕ, ◌+◌, String, List, [], ◌∷◌, true, false, ◌≡◌, refl, any, map, find_first, str_eq_refl,
  string_has_eq, arith, Bool-cases, inl, inr,
}
use qc_backend.Rate.Types.{Window, minute, daily, same_window, Counter}
use qc_backend.Rate.Limiter.{is_counter, counted_if, first_count, upsert, count_or_zero, count_of}

module _ (tenant : String) (window : Window) (key : String) where
  is_counter-counted :
      (t : String) (v : Window) (k : String) (c : Counter)
      → is_counter t v k (counted_if tenant window key c) ≡ is_counter t v k c
  is_counter-counted t v k c = elim (Bool-cases (is_counter tenant window key c)) [
    | inl own ↦ rw own refl
    | inr other ↦ rw other refl
  ]

  find-counted :
      (cs : List Counter)
      → any (is_counter tenant window key) cs ≡ true
      → count_or_zero
          (find_first (is_counter tenant window key) (map (counted_if tenant window key) cs))
        ≡ count_or_zero (find_first (is_counter tenant window key) cs) + 1
  find-counted [] h = cc
  find-counted (c ∷ cs) h = elim (Bool-cases (is_counter tenant window key c)) [
    | inl own ↦ rw (is_counter-counted tenant window key c, own) refl
    | inr other ↦
        rw (is_counter-counted tenant window key c, other) (find-counted cs (rw other at h))
  ]

  find-new :
      (cs : List Counter)
      → any (is_counter tenant window key) cs ≡ false
      → count_or_zero (find_first (is_counter tenant window key) cs) ≡ 0
  find-new [] h = refl
  find-new (c ∷ cs) h = let rest = find-new cs in ground arith

  same_window_self : (v : Window) → same_window v v ≡ true
  same_window_self minute = refl
  same_window_self daily = refl

  -- An update counts one more.
  pub count_of-upsert :
      (time : ℕ) (cs : List Counter)
      → count_of tenant window key (upsert tenant window key time cs)
        ≡ count_of tenant window key cs + 1
  unfolding count_of upsert
  count_of-upsert time cs = elim (Bool-cases (any (is_counter tenant window key) cs)) [
    | inl there ↦ rw there (find-counted cs there)
    | inr new ↦
        rw (new, find-new cs new, str_eq_refl tenant, same_window_self window, str_eq_refl key) refl
  ]

  find-others :
      (t : String) (v : Window) (k : String) (cs : List Counter)
      → ((c : Counter) → is_counter t v k c ≡ true → is_counter tenant window key c ≡ false)
      → count_or_zero (find_first (is_counter t v k) (map (counted_if tenant window key) cs))
        ≡ count_or_zero (find_first (is_counter t v k) cs)
  find-others t v k [] apart = refl
  find-others t v k (c ∷ cs) apart = elim (Bool-cases (is_counter t v k c)) [
    | inl own ↦ rw (is_counter-counted t v k c, own, apart c own) refl
    | inr other ↦ rw (is_counter-counted t v k c, other) (find-others t v k cs apart)
  ]

  -- It leaves the counts of other keys.
  pub count_of-upsert_other :
      (t : String) (v : Window) (k : String) (time : ℕ) (cs : List Counter)
      → ((c : Counter) → is_counter t v k c ≡ true → is_counter tenant window key c ≡ false)
      → is_counter t v k (first_count tenant window key time) ≡ false
      → count_of t v k (upsert tenant window key time cs) ≡ count_of t v k cs
  unfolding count_of upsert
  count_of-upsert_other t v k time cs apart new_apart =
      elim (Bool-cases (any (is_counter tenant window key) cs)) [
        | inl there ↦ rw there (find-others t v k cs apart)
        | inr new ↦ rw (new, new_apart) refl
      ]
