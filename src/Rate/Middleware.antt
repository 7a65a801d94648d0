-- ===== src/Rate/Middleware.antt =====
-- middleware/rateLimiter.ts: `tenantRateLimiter`. The headers that tell of the limits are left out.
use qc_backend.Base.{
  ℕ, String, List, Option, some, none, ◌==◌, find_first, truthy, if◌then◌else◌, nat_eq,
  string_has_eq,
}
use qc_backend.Rate.Types.{Tenant, Moment, World}
use qc_backend.Rate.Limiter.{RateLimitResult, check_and_increment}

pub data Verdict : Type 0 where
  next : Verdict
  tenant_not_found : Verdict
  too_many : (retry_after : ℕ) → Verdict

-- `retryAfterSeconds || 60`
abbrev pub retry_header : Option ℕ → ℕ
retry_header none = 60
retry_header (some n) = if nat_eq n 0 then 60 else n

abbrev pub verdict_of : RateLimitResult × World → Verdict × World
verdict_of (r, w) = (if r.allowed then next else too_many (retry_header r.retry_after_seconds), w)

abbrev pub checked : Moment → Option Tenant → World → Verdict × World
checked m none w = (tenant_not_found, w)
checked m (some t) w =
    verdict_of
      (check_and_increment m t.id t.plan_tier t.max_requests_per_minute t.max_requests_per_day w)

abbrev pub tenant_named : String → List Tenant → Option Tenant
tenant_named id tenants = find_first (λ t. t.id == id) tenants

abbrev pub for_tenant : Moment → Option String → World → Verdict × World
for_tenant m none w = (next, w)
for_tenant m (some id) w = if w.answers then checked m (tenant_named id w.tenants) w else (next, w)

-- A failing database lets a request through.
unfoldable pub tenant_rate_limiter : Moment → Option String → World → Verdict × World
unfolding check_and_increment
tenant_rate_limiter m tenant_id w = for_tenant m (truthy tenant_id) w
