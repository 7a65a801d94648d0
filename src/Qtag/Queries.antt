-- ===== src/Qtag/Queries.antt =====
-- QTagFulfillmentFacet.ts: the calls that only read.
use qc_backend.Base.{
  raise, ◌/◌, ℕ, ◌+◌, ◌-◌, ◌*◌, String, List, Option, some, none, ℤ, pos, Bool, true, ◌&&◌, select,
  length, take, drop, pure, from_result, gets, ◌>>=◌, ◌>>◌, string_has_eq,
}
use qc_backend.Ledger.Types.{Number, Actor}
use qc_backend.Qtag.Types.{EntryType, same_type, Entry, World, Call, negative_skip}
use qc_backend.Qtag.Guards.{
  ensure_reader, ensure_tenant, normalize_queue_page, normalize_queue_limit,
}
use qc_backend.Qtag.Table.{QtagBalance, balance_of, is_counted}

-- `getQTagBalance`
unfoldable pub get_qtag_balance : Actor → String → Option String → Call QtagBalance
unfolding balance_of
get_qtag_balance actor tenant user = do
  from_result (ensure_reader actor tenant)
  ensure_tenant tenant
  gets (λ (w : World). balance_of tenant user w.entries)

abbrev is_of_type : Option EntryType → Entry → Bool
is_of_type none e = true
is_of_type (some t) e = same_type t e.entry_type

pub record EntryPage : Type 0 where
  pub entries : List Entry
  pub page : ℤ
  pub limit : ℕ
  pub total : ℕ
  pub total_pages : ℕ

-- The rows before the page when it is at least 1; a negative `skip` is refused.
abbrev rows_before : ℤ → ℕ → Call ℕ
rows_before (pos (ℕ.suc k)) limit = pure (k * limit)
rows_before _ limit = raise negative_skip

-- `listLedgerEntries`
unfoldable pub list_qtag_entries :
    Actor
    → String
    → Option String
    → Option EntryType
    → Option Number
    → Option Number
    → Call EntryPage
list_qtag_entries actor tenant user type page limit = do
  from_result (ensure_reader actor tenant)
  ensure_tenant tenant
  let n = normalize_queue_limit limit
  skip ← rows_before (normalize_queue_page page) n
  found ←
      gets (λ (w : World). select (λ e. is_counted tenant user e && is_of_type type e) w.entries)
  pure (record {
    entries = take n (drop skip found);
    page = normalize_queue_page page;
    limit = n;
    total = length found;
    total_pages = (length found + n - 1) / n;
  })
