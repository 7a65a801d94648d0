-- ===== src/Asset/Worker.antt =====
-- EscrowReleaseWorker.ts: the release of expired escrows, a batch at a time.
use qc_backend.Base.{
  ℕ, ◌+◌, String, List, [], ◌∷◌, Option, some, none, Bool, true, false, ◌&&◌, leb, if◌then◌else◌,
  select, take, map, ok, err, Result,
}
use qc_backend.Asset.Types.{EscrowStatus, Fault, admin, Context, EscrowRow, World, Outside}
use qc_backend.Asset.Rows.{rewrite_escrow}
use qc_backend.Asset.Tikin.{seconds_of}
use qc_backend.Asset.Escrow.{is_auto, escrow_worker_key, EscrowReply, release_escrow}

abbrev pub is_active_escrow : EscrowStatus → Bool
is_active_escrow EscrowStatus.active = true
is_active_escrow _ = false

abbrev pub reached : ℕ → Option ℕ → Bool
reached now none = false
reached now (some t) = leb t now

-- The `where` of the worker's query.
abbrev pub is_expired : ℕ → EscrowRow → Bool
is_expired now e =
    is_active_escrow e.status && (is_auto e.release_mode && reached now e.unlock_timestamp)

abbrev pub unlock_of : EscrowRow → ℕ
unlock_of e = seconds_of e.unlock_timestamp

-- `orderBy: { unlockTimestamp: 'asc' }`
abbrev pub insert_by_unlock : EscrowRow → List EscrowRow → List EscrowRow
insert_by_unlock e [] = e ∷ []
insert_by_unlock e (x ∷ xs) =
    let rest = insert_by_unlock e xs in
    if leb (unlock_of e) (unlock_of x) then e ∷ x ∷ xs else x ∷ rest

abbrev pub sort_by_unlock : List EscrowRow → List EscrowRow
sort_by_unlock [] = []
sort_by_unlock (e ∷ es) = insert_by_unlock e (sort_by_unlock es)

-- The rows of one round.
abbrev pub expired_batch : ℕ → List EscrowRow → List EscrowRow
expired_batch now rows = take 10 (sort_by_unlock (select (is_expired now) rows))

abbrev pub worker_context : EscrowRow → Context
worker_context e = record { tenant_id = e.tenant_id; api_key_id = escrow_worker_key; role = admin }

abbrev pub with_escrow_status : EscrowStatus → EscrowRow → EscrowRow
with_escrow_status status e = record e { status = status }

-- `escrow.assetId ?? ''`
abbrev pub asset_or_empty : Option String → String
asset_or_empty none = ""
asset_or_empty (some a) = a

pub record Tally : Type 0 where
  pub released : ℕ
  pub failed : ℕ

abbrev pub mark : String → EscrowStatus → World → World
mark id status w = record w {
  escrows = map (rewrite_escrow id (with_escrow_status status)) w.escrows;
}

-- What follows a release: a failure sets the row back to ACTIVE.
abbrev pub settle : EscrowRow → Tally → Result Fault EscrowReply × World → Tally × World
settle e t (ok reply, w) = (record t { released = t.released + 1 }, w)
settle e t (err fault, w) =
    (record t { failed = t.failed + 1 }, mark e.escrow_id EscrowStatus.active w)

-- One round of the loop.
unfoldable pub release_one : Outside → ℕ → EscrowRow → Tally × World → Tally × World
release_one o now e (t, w) = settle e t (
    release_escrow o now (worker_context e)
      (record { escrow_id = e.escrow_id; asset_id = asset_or_empty e.asset_id })
      (mark e.escrow_id EscrowStatus.processing w))

unfoldable pub release_each : Outside → ℕ → List EscrowRow → Tally × World → Tally × World
unfolding release_one
release_each o now [] state = state
release_each o now (e ∷ es) state = release_each o now es (release_one o now e state)

-- `processReleases`, ten escrows at most.
unfoldable pub process_releases : Outside → ℕ → World → Tally × World
unfolding release_each
process_releases o now w =
    release_each o now (expired_batch now w.escrows) (record { released = 0; failed = 0 }, w)
