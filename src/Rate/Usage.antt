-- ===== src/Rate/Usage.antt =====
-- What a check leaves in the counters, and the usage that is reported after it.
use qc_backend.Base.{
  ℕ, ◌+◌, String, List, true, false, not, ◌&&◌, ◌||◌, ◌==◌, ◌≡◌, refl, ◌∙◌, sym, ltb, eq_iff,
  string_has_eq, arith, Bool-cases, inl, inr,
}
use qc_backend.Rate.Types.{Window, minute, daily, same_window, Counter, Moment, World}
use qc_backend.Rate.Limiter.{is_counter, count_of, minute_key, daily_key, incremented, judged}
use qc_backend.Rate.Counts.{count_of-upsert, count_of-upsert_other}

window_apart : (v : Window) → same_window v minute ≡ true → same_window v daily ≡ false
window_apart minute h = refl
window_apart daily h = absurd cc

daily_apart :
    (t t' k k' : String) (c : Counter)
    → is_counter t minute k c ≡ true
    → is_counter t' daily k' c ≡ false
daily_apart t t' k k' c h = let apart = window_apart c.window_type in ground arith

same_text : (a b c : String) → (a == b) ≡ true → (a == c) ≡ true → (c == b) ≡ true
same_text a b c h k = (eq_iff c b).1 (sym ((eq_iff a c).0 k) ∙ (eq_iff a b).0 h)

other_counter :
    (t t' k k' : String) (c : Counter)
    → t' == t && k' == k ≡ false
    → is_counter t minute k c ≡ true
    → is_counter t' minute k' c ≡ false
other_counter t t' k k' c apart h = elim (Bool-cases (is_counter t' minute k' c)) [
  | inr other ↦ other
  | inl both ↦
      let tenants = same_text c.tenant_id t t' (ground arith) (ground arith) in
      let keys = same_text c.window_key k k' (ground arith) (ground arith) in absurd (ground arith)
]

-- A check counts the request in its minute and in its day.
pub incremented-minute :
    (t : String) (m : Moment) (cs : List Counter)
    → count_of t minute (minute_key m) (incremented t m cs)
      ≡ count_of t minute (minute_key m) cs + 1
incremented-minute t m cs =
    count_of-upsert_other t daily (daily_key m) t minute (minute_key m) m.time _
      (λ c h. daily_apart t t (minute_key m) (daily_key m) c h) (ground arith)
    ∙ count_of-upsert t minute (minute_key m) m.time cs

-- It leaves the minutes of other tenants, and other minutes.
pub incremented-others :
    (t t' k : String) (m : Moment) (cs : List Counter)
    → t' == t && minute_key m == k ≡ false
    → count_of t minute k (incremented t' m cs) ≡ count_of t minute k cs
incremented-others t t' k m cs apart =
    count_of-upsert_other t' daily (daily_key m) t minute k m.time _
      (λ c h. daily_apart t t' k (daily_key m) c h) (ground arith)
    ∙ count_of-upsert_other t' minute (minute_key m) t minute k m.time cs
        (λ c h. other_counter t t' k (minute_key m) c apart h) (ground arith)

-- What a check answers and leaves.
pub judged_lem :
    (t : String) (m : Moment) (a b l n : ℕ) (w : World)
    → ((judged t m a b l n w).0.allowed ≡ not (ltb l a || ltb n b))
      × ((judged t m a b l n w).0.current_minute_count ≡ a)
      × ((judged t m a b l n w).0.current_daily_count ≡ b)
      × ((judged t m a b l n w).1.counters ≡ w.counters)
      × ((judged t m a b l n w).1.tenants ≡ w.tenants)
      × ((judged t m a b l n w).1.answers ≡ w.answers)
judged_lem t m a b l n w = elim (Bool-cases (ltb l a || ltb n b)) [
  | inl over ↦ rw over (refl, refl, refl, refl, refl, refl)
  | inr under ↦ rw under (refl, refl, refl, refl, refl, refl)
]
