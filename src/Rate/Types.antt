-- ===== src/Rate/Types.antt =====
-- The counters of requests (prisma/schema.prisma: RateLimitCounter, Tenant), and the readings of the
-- clock that the limiter uses.
use qc_backend.Base.{ℕ, String, List, Option, Bool, true, false}

-- `PlanTier`
pub data PlanTier : Type 0 where
  free professional enterprise : PlanTier

-- `RateLimitWindow`
pub data Window : Type 0 where
  minute daily : Window

abbrev pub same_window : Window → Window → Bool
same_window minute minute = true
same_window daily daily = true
same_window _ _ = false

-- `RateLimitCounter`; times are in milliseconds.
pub record Counter : Type 0 where
  pub tenant_id : String
  pub window_type : Window
  pub window_key : String
  pub request_count : ℕ
  pub created_at : ℕ

-- The tenant's columns that the middleware selects; limits are natural numbers.
pub record Tenant : Type 0 where
  pub id : String
  pub plan_tier : PlanTier
  pub max_requests_per_minute : Option ℕ
  pub max_requests_per_day : Option ℕ

-- A moment, by its time, its ISO text in UTC, its seconds, and the milliseconds that are left of the
-- local day.
pub record Moment : Type 0 where
  pub time : ℕ
  pub iso : String
  pub seconds : ℕ
  pub left_of_day : ℕ

-- One row of the audit log about an exceeded limit.
pub record Exceeded : Type 0 where
  pub tenant_id : String
  pub minute_count : ℕ
  pub daily_count : ℕ
  pub minute_limit : ℕ
  pub daily_limit : ℕ
  pub window_type : Window

-- The tables, and whether the database answers.
pub record World : Type 0 where
  pub tenants : List Tenant
  pub counters : List Counter
  pub audits : List Exceeded
  pub answers : Bool
