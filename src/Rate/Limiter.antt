-- ===== src/Rate/Limiter.antt =====
-- RateLimiterFacet.ts, where the database answers. The two counters are updated one after the other.
use qc_backend.Base.{
  ℕ, ◌+◌, ◌-◌, ◌/◌, String, List, ◌∷◌, Option, some, none, Bool, true, false, not, ◌&&◌, ◌||◌, ◌==◌,
  ltb, any, map, select, find_first, length, take_text, if◌then◌else◌, string_has_eq,
}
use qc_backend.Rate.Types.{
  PlanTier, free, professional, enterprise, Window, minute, daily, same_window, Counter, Moment,
  Exceeded, World,
}

-- `PLAN_TIER_LIMITS`, for a minute and for a day
abbrev pub plan_minute_limit : PlanTier → ℕ
plan_minute_limit free = 10
plan_minute_limit professional = 60
plan_minute_limit enterprise = 1000

abbrev pub plan_daily_limit : PlanTier → ℕ
plan_daily_limit free = 500
plan_daily_limit professional = 10000
plan_daily_limit enterprise = 1000000

-- `custom ?? default`
abbrev pub limit_or : Option ℕ → ℕ → ℕ
limit_or none n = n
limit_or (some m) n = m

abbrev pub minute_key : Moment → String
minute_key m = take_text 16 m.iso

abbrev pub daily_key : Moment → String
daily_key m = take_text 10 m.iso

abbrev pub seconds_until_next_minute : Moment → ℕ
seconds_until_next_minute m = 60 - m.seconds

abbrev pub seconds_until_next_day : Moment → ℕ
seconds_until_next_day m = (m.left_of_day + 999) / 1000

-- The unique key of a counter.
abbrev pub is_counter : String → Window → String → Counter → Bool
is_counter tenant window key c =
    c.tenant_id == tenant && (same_window c.window_type window && c.window_key == key)

abbrev pub counted : Counter → Counter
counted c = record c { request_count = c.request_count + 1 }

abbrev pub counted_if : String → Window → String → Counter → Counter
counted_if tenant window key c = if is_counter tenant window key c then counted c else c

abbrev pub first_count : String → Window → String → ℕ → Counter
first_count tenant window key time = record {
  tenant_id = tenant;
  window_type = window;
  window_key = key;
  request_count = 1;
  created_at = time;
}

-- `rateLimitCounter.upsert`
unfoldable pub upsert : String → Window → String → ℕ → List Counter → List Counter
upsert tenant window key time cs =
    if any (is_counter tenant window key) cs
    then map (counted_if tenant window key) cs
    else first_count tenant window key time ∷ cs

abbrev pub count_or_zero : Option Counter → ℕ
count_or_zero none = 0
count_or_zero (some c) = c.request_count

-- `counter?.requestCount ?? 0` of `findUnique`
unfoldable pub count_of : String → Window → String → List Counter → ℕ
count_of tenant window key cs = count_or_zero (find_first (is_counter tenant window key) cs)

-- `RateLimitResult`
pub record RateLimitResult : Type 0 where
  pub allowed : Bool
  pub current_minute_count : ℕ
  pub current_daily_count : ℕ
  pub minute_limit : ℕ
  pub daily_limit : ℕ
  pub retry_after_seconds : Option ℕ

abbrev pub retry_after : Bool → Moment → ℕ
retry_after true m = seconds_until_next_minute m
retry_after false m = seconds_until_next_day m

abbrev pub exceeded_window : Bool → Window
exceeded_window true = minute
exceeded_window false = daily

abbrev pub with_exceeded : Exceeded → World → World
with_exceeded e w = record w { audits = e ∷ w.audits }

-- What the counts decide.
abbrev pub judged : String → Moment → ℕ → ℕ → ℕ → ℕ → World → RateLimitResult × World
judged tenant m minute_count daily_count minute_limit daily_limit w =
    let minute_exceeded = ltb minute_limit minute_count in
    if minute_exceeded || ltb daily_limit daily_count
    then (
      record {
        allowed = false;
        current_minute_count = minute_count;
        current_daily_count = daily_count;
        minute_limit = minute_limit;
        daily_limit = daily_limit;
        retry_after_seconds = some (retry_after minute_exceeded m);
      },
      with_exceeded
          (record {
            tenant_id = tenant;
            minute_count = minute_count;
            daily_count = daily_count;
            minute_limit = minute_limit;
            daily_limit = daily_limit;
            window_type = exceeded_window minute_exceeded;
          })
          w,
    )
    else (
      record {
        allowed = true;
        current_minute_count = minute_count;
        current_daily_count = daily_count;
        minute_limit = minute_limit;
        daily_limit = daily_limit;
        retry_after_seconds = none;
      },
      w,
    )

abbrev pub incremented : String → Moment → List Counter → List Counter
incremented tenant m cs =
    upsert tenant daily (daily_key m) m.time (upsert tenant minute (minute_key m) m.time cs)

unfoldable pub check_and_increment :
    Moment
    → (tenant : String) → PlanTier
    → (custom_minute custom_daily : Option ℕ) → World
    → RateLimitResult × World
check_and_increment m tenant tier custom_minute custom_daily w =
    let cs = incremented tenant m w.counters in
    judged tenant m (count_of tenant minute (minute_key m) cs)
      (count_of tenant daily (daily_key m) cs) (limit_or custom_minute (plan_minute_limit tier))
      (limit_or custom_daily (plan_daily_limit tier)) (record w { counters = cs })

pub record UsageOf : Type 0 where
  pub count : ℕ
  pub limit : ℕ
  pub window_key : String

pub record UsageStats : Type 0 where
  pub current_minute : UsageOf
  pub current_day : UsageOf
  pub plan_tier : PlanTier

unfoldable pub get_usage_stats : Moment → String → PlanTier → World → UsageStats
get_usage_stats m tenant tier w = record {
  current_minute = record {
    count = count_of tenant minute (minute_key m) w.counters;
    limit = plan_minute_limit tier;
    window_key = minute_key m;
  };
  current_day = record {
    count = count_of tenant daily (daily_key m) w.counters;
    limit = plan_daily_limit tier;
    window_key = daily_key m;
  };
  plan_tier = tier;
}

-- `cleanupOldCounters`, with the time before which counters are old
unfoldable pub cleanup_old_counters : (cutoff : ℕ) → World → ℕ × World
cleanup_old_counters cutoff w = (
  length (select (λ c. ltb c.created_at cutoff) w.counters),
  record w { counters = select (λ c. not (ltb c.created_at cutoff)) w.counters },
)
