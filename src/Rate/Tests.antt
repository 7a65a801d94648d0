-- ===== src/Rate/Tests.antt =====
-- A tenant with a limit of its own: the theorems at inputs that meet their hypotheses.
use qc_backend.Base.{String, List, [], ◌∷◌, Option, some, none, true, ◌≡◌, refl, ◌≤◌, ◌-◌}
use qc_backend.Rate.Types.{free, minute, Tenant, Moment, World}
use qc_backend.Rate.Middleware.{tenant_rate_limiter}
use qc_backend.Rate.Limiter.{upsert, count_of}
use qc_backend.Rate.Limits.{minute_limit_of, passed_in, passed_in-bounds}

abbrev tenant : Tenant
tenant = record {
  id = "t1";
  plan_tier = free;
  max_requests_per_minute = some 2;
  max_requests_per_day = none;
}

abbrev tables : World
tables = record { tenants = tenant ∷ []; counters = []; audits = []; answers = true }

abbrev moment : Moment
moment = record {
  time = 1000;
  iso = "2026-02-21T00:15:03.000Z";
  seconds = 3;
  left_of_day = 85496999;
}

abbrev four : List (Moment × Option String)
four = (moment, some "t1") ∷ (moment, some "t1") ∷ (moment, some "t2") ∷ (moment, some "t1") ∷ []

two_pass : passed_in "t1" "2026-02-21T00:15" four tables ≡ 2
unfolding passed_in tenant_rate_limiter count_of upsert
two_pass = refl

passed_in-bounds_example :
    passed_in "t1" "2026-02-21T00:15" four tables
    ≤ minute_limit_of tenant - count_of "t1" minute "2026-02-21T00:15" tables.counters
passed_in-bounds_example =
    passed_in-bounds "t1" "2026-02-21T00:15" tenant four tables refl refl refl
