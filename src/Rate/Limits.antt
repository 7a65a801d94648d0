-- ===== src/Rate/Limits.antt =====
-- How many requests of a tenant pass in a minute.
use qc_backend.Base.{
  ℕ, ◌+◌, ◌-◌, ◌≤◌, String, List, [], ◌∷◌, Option, some, none, Bool, true, false, not, ◌&&◌, ◌||◌,
  ◌==◌, ◌≡◌, refl, ◌∙◌, sym, ap, subst, ltb, find_first-passes, truthy, truthy-some, is_empty,
  eq_iff, string_has_eq, is_some_of, if◌then◌else◌, arith, Bool-cases, Option-cases, inl, inr,
}
use qc_backend.Rate.Types.{minute, daily, Tenant, Moment, World}
use qc_backend.Rate.Limiter.{
  count_of, limit_or, plan_minute_limit, plan_daily_limit, minute_key, daily_key, incremented,
  check_and_increment,
}
use qc_backend.Rate.Middleware.{
  Verdict, next, tenant_not_found, too_many, retry_header, verdict_of, checked, tenant_named,
  tenant_rate_limiter,
}
use qc_backend.Rate.Usage.{incremented-minute, incremented-others, judged_lem}

-- The tenant's limit for a minute.
abbrev pub minute_limit_of : Tenant → ℕ
minute_limit_of t = limit_or t.max_requests_per_minute (plan_minute_limit t.plan_tier)

abbrev pub is_next : Verdict → Bool
is_next next = true
is_next _ = false

abbrev pub counts_for : String → String → Moment → Option String → Verdict → ℕ
counts_for tenant key m id v =
    if is_some_of id tenant && (minute_key m == key && is_next v) then 1 else 0

-- How many requests of the tenant the middleware passes on in the minute.
unfoldable pub passed_in : (tenant key : String) → List (Moment × Option String) → World → ℕ
passed_in tenant key [] w = 0
passed_in tenant key ((m, id) ∷ rs) w =
    let r = tenant_rate_limiter m id w in
    counts_for tenant key m id r.0 + passed_in tenant key rs r.1

if_true : {A : Type 0} (b : Bool) (x y : A) → b ≡ true → (if b then x else y) ≡ x
if_true b x y h = rw h refl

limiter-asked :
    (m : Moment) (id : Option String) (s : String) (w : World)
    → truthy id ≡ some s
    → w.answers ≡ true
    → tenant_rate_limiter m id w ≡ checked m (tenant_named s w.tenants) w
unfolding tenant_rate_limiter
limiter-asked m id s w given answers =
    rw given (if_true w.answers (checked m (tenant_named s w.tenants) w) (next, w) answers)

module _ (tenant key : String) (row : Tenant) (full : is_empty tenant ≡ false) where
  -- The tables with the tenant, whose counter of the minute has this count.
  abbrev Counts : ℕ → World → Type 0
  Counts n w =
      (w.answers ≡ true)
      × (tenant_named tenant w.tenants ≡ some row)
      × (count_of tenant minute key w.counters ≡ n)

  -- What a request does: the room that it leaves in the minute, with itself if it passes, is at most
  -- the room before it.
  abbrev Counted : ℕ → Moment → Option String → Verdict × World → Type 0
  Counted n m id r =
      (n' : ℕ) × Counts n' r.1
      × (counts_for tenant key m id r.0 + (minute_limit_of row - n') ≤ minute_limit_of row - n)

  stays :
      (n : ℕ) (m : Moment) (id : Option String) (v : Verdict) (w : World)
      → is_some_of id tenant ≡ false
      → Counts n w
      → Counted n m id (v, w)
  stays n m id v w other h = (n, h, rw other (omega arith))

  none_named : (id : Option String) → truthy id ≡ none → is_some_of id tenant ≡ false
  none_named none h = refl
  none_named (some s) h = elim (Bool-cases (s == tenant)) [
    | inr other ↦ other
    | inl same ↦
        let equal : s ≡ tenant = (eq_iff s tenant).0 same in
        let blank : truthy (some tenant) ≡ none = (rw equal at h) in
        let kept : truthy (some tenant) ≡ some tenant = rw full refl in cc
  ]

  -- A check for a tenant keeps the tables, but for the counters.
  check_lem :
      (m : Moment) (t : Tenant) (w : World)
      → let r =
          check_and_increment m t.id t.plan_tier t.max_requests_per_minute t.max_requests_per_day
            w in
        let cs = incremented t.id m w.counters in
        (r.1.counters ≡ cs)
        × (r.1.tenants ≡ w.tenants)
        × (r.1.answers ≡ w.answers)
        × (r.0.allowed
            ≡ not (
                ltb (minute_limit_of t) (count_of t.id minute (minute_key m) cs)
                || ltb
                    (limit_or t.max_requests_per_day (plan_daily_limit t.plan_tier))
                    (count_of t.id daily (daily_key m) cs)))
  unfolding check_and_increment
  check_lem m t w =
      let cs = incremented t.id m w.counters in
      let (allowed, minutes, days, counters, tenants, answers) =
        judged_lem t.id m (count_of t.id minute (minute_key m) cs)
          (count_of t.id daily (daily_key m) cs) (minute_limit_of t)
          (limit_or t.max_requests_per_day (plan_daily_limit t.plan_tier))
          (record w { counters = cs }) in
      (counters, tenants, answers, allowed)

  -- The state after a check for a tenant, whose counter of the minute has this count then.
  after_check :
      (n : ℕ) (m : Moment) (t : Tenant) (w : World)
      → Counts n w
      → (n' : ℕ) → count_of tenant minute key (incremented t.id m w.counters) ≡ n'
      → Counts n'
          (verdict_of (
            check_and_increment m t.id t.plan_tier t.max_requests_per_minute t.max_requests_per_day
              w)).1
  after_check n m t w (answers, named, count) n' new =
      let (counters, tenants, still, allowed) = check_lem m t w in
      (
        still ∙ answers,
        ap (tenant_named tenant) tenants ∙ named,
        ap (count_of tenant minute key) counters ∙ new,
      )

  row_id : (w : World) → tenant_named tenant w.tenants ≡ some row → row.id ≡ tenant
  row_id w named =
      (eq_iff row.id tenant).0
        (find_first-passes (λ (t : Tenant). t.id == tenant) w.tenants row named)

  new_count :
      (n : ℕ) (m : Moment) (w : World)
      → Counts n w
      → minute_key m ≡ key
      → count_of row.id minute (minute_key m) (incremented row.id m w.counters) ≡ n + 1
  new_count n m w (answers, named, count) same =
      incremented-minute row.id m w.counters
      ∙ ap (λ k. count_of row.id minute k w.counters + 1) same
      ∙ ap (λ t. count_of t minute key w.counters + 1) (row_id w named)
      ∙ ap (λ k. k + 1) count

  one_at_most : (m : Moment) (id : Option String) (v : Verdict) → counts_for tenant key m id v ≤ 1
  one_at_most m id v = ground arith

  none_refused :
      (m : Moment) (id : Option String) (s : ℕ) → counts_for tenant key m id (too_many s) ≡ 0
  none_refused m id s = ground arith

  -- A check of the tenant in the minute passes only within the limit.
  allowed_room :
      (n : ℕ) (m : Moment) (w : World)
      → Counts n w
      → minute_key m ≡ key
      → (check_and_increment m row.id row.plan_tier row.max_requests_per_minute
          row.max_requests_per_day w).0.allowed
        ≡ true
      → n + 1 ≤ minute_limit_of row
  allowed_room n m w h same passes =
      let (counters, tenants, still, allowed) = check_lem m row w in
      let new = new_count n m w h same in
      let within = sym allowed ∙ passes in
      let under : not (
            ltb (minute_limit_of row) (n + 1)
            || ltb (limit_or row.max_requests_per_day (plan_daily_limit row.plan_tier))
                (count_of row.id daily (daily_key m) (incremented row.id m w.counters)))
          ≡ true =
        (rw new at within) in
      ground arith

  room_left :
      (n : ℕ) (m : Moment) (w : World)
      → Counts n w
      → minute_key m ≡ key
      → counts_for tenant key m (some tenant) (checked m (some row) w).0
          + (minute_limit_of row - (n + 1))
        ≤ minute_limit_of row - n
  room_left n m w h same =
      let r =
        check_and_increment m row.id row.plan_tier row.max_requests_per_minute
          row.max_requests_per_day w in
      elim (Bool-cases r.0.allowed) [
        | inl passes ↦
            let room = allowed_room n m w h same passes in
            let one = one_at_most m (some tenant) (checked m (some row) w).0 in omega arith
        | inr refused ↦
            rw (refused, none_refused m (some tenant) (retry_header r.0.retry_after_seconds))
              (omega arith)
      ]

  own_step :
      (n : ℕ) (m : Moment) (w : World)
      → Counts n w
      → Counted n m (some tenant) (checked m (some row) w)
  own_step n m w h = elim (Bool-cases (minute_key m == key)) [
    | inr other ↦ (
      n,
      after_check n m row w h n
          (incremented-others tenant row.id key m w.counters (rw other (ground arith)) ∙ h.2),
      rw other (ground arith),
    )
    | inl same ↦
        let equal : minute_key m ≡ key = (eq_iff (minute_key m) key).0 same in
        let new = new_count n m w h equal in
        let moved : count_of tenant minute key (incremented row.id m w.counters) ≡ n + 1 =
          ap (λ k. count_of tenant minute k (incremented row.id m w.counters)) (sym equal)
          ∙ ap (λ t. count_of t minute (minute_key m) (incremented row.id m w.counters))
              (sym (row_id w h.1))
          ∙ new in
        (n + 1, after_check n m row w h (n + 1) moved, room_left n m w h equal)
  ]

  checked_step :
      (n : ℕ) (m : Moment) (id : String) (w : World)
      → Counts n w
      → Counted n m (some id) (checked m (tenant_named id w.tenants) w)
  checked_step n m id w h = elim (Bool-cases (id == tenant)) [
    | inl same ↦
        let equal : id ≡ tenant = (eq_iff id tenant).0 same in rw (equal, h.1) (own_step n m w h)
    | inr other ↦ elim (Option-cases (tenant_named id w.tenants)) [
      | inl nobody ↦ rw nobody (stays n m (some id) tenant_not_found w other h)
      | inr (t, found) ↦
          let named : t.id ≡ id =
            (eq_iff t.id id).0 (find_first-passes (λ (t : Tenant). t.id == id) w.tenants t found) in
          rw found (
            n,
            after_check n m t w h n
                (incremented-others tenant t.id key m w.counters (rw (named, other) refl) ∙ h.2),
            rw other (omega arith),
          )
    ]
  ]

  limiter_step :
      (n : ℕ) (m : Moment) (id : Option String) (w : World)
      → Counts n w
      → Counted n m id (tenant_rate_limiter m id w)
  unfolding tenant_rate_limiter
  limiter_step n m id w h = elim (Option-cases (truthy id)) [
    | inl nobody ↦ rw nobody (stays n m id next w (none_named id nobody) h)
    | inr (s, given) ↦ subst (Counted n m id) (sym (limiter-asked m id s w given h.0)) (
        subst (λ i. Counted n m i (checked m (tenant_named s w.tenants) w))
          (sym (truthy-some id s given)) (checked_step n m s w h))
  ]

  passed_in-room :
      (n : ℕ) (rs : List (Moment × Option String)) (w : World)
      → Counts n w
      → passed_in tenant key rs w ≤ minute_limit_of row - n
  unfolding passed_in
  passed_in-room n [] w h = omega arith
  passed_in-room n ((m, id) ∷ rs) w h =
      let (n', h', room) = limiter_step n m id w h in
      let rest = passed_in-room n' rs (tenant_rate_limiter m id w).1 h' in omega arith

-- While the database answers, of all requests that come in one minute, of whatever tenants, no more
-- of a tenant's pass than the limit of its row or plan allows, less those that the minute's counter
-- has already counted.
pub passed_in-bounds :
    (tenant key : String) (row : Tenant) (rs : List (Moment × Option String)) (w : World)
    → is_empty tenant ≡ false
    → w.answers ≡ true
    → tenant_named tenant w.tenants ≡ some row
    → passed_in tenant key rs w ≤ minute_limit_of row - count_of tenant minute key w.counters
passed_in-bounds tenant key row rs w full answers named =
    passed_in-room tenant key row full (count_of tenant minute key w.counters) rs w
      (answers, named, refl)
