-- ===== src/Qtag/Runs.antt =====
-- Runs of the calls on orders of tags.
use qc_backend.Base.{ℕ, String, List, [], ◌∷◌, true, refl, left_by, Kept-left_by}
use qc_backend.Ledger.Types.{Actor}
use qc_backend.Qtag.Types.{Entry, World, Outside}
use qc_backend.Qtag.Orders.{
  Grant, grant_qtags, Purchase, purchase_confirmed, Reservation, reserve_for_asset,
}
use qc_backend.Qtag.Release.{Release, release_reservation, Change, transition_fulfillment_status}
use qc_backend.Qtag.Commissioning.{Caller, Start, start}
use qc_backend.Qtag.Confirming.{Confirmation, confirm}
use qc_backend.Qtag.Activated.{IsActivated}
use qc_backend.Qtag.Keeping.{
  grant_qtags-keeps, purchase_confirmed-keeps, reserve_for_asset-keeps, release_reservation-keeps,
  transition_fulfillment_status-keeps,
}
use qc_backend.Qtag.Encoding.{start-keeps, confirm-keeps}

-- The calls; `written` is a confirmation of a written tag, whatever its payload says of success.
pub data Command : Type 0 where
  grant : (actor : Actor) (tenant : String) (p : Grant) → Command
  purchase : (p : Purchase) → Command
  reserve : (actor : Actor) (tenant : String) (p : Reservation) → Command
  give_back : (now : ℕ) (actor : Actor) (tenant order : String) (p : Release) → Command
  change : (now : ℕ) (actor : Actor) (tenant order : String) (p : Change) → Command
  encode : (ctx : Caller) (p : Start) → Command
  written : (now : ℕ) (ctx : Caller) (p : Confirmation) → Command

unfoldable pub perform : Outside → Command → World → World
perform o (Command.grant actor tenant p) w = left_by (grant_qtags o actor tenant p w)
perform o (Command.purchase p) w = left_by (purchase_confirmed o p w)
perform o (Command.reserve actor tenant p) w = left_by (reserve_for_asset o actor tenant p w)
perform o (Command.give_back now actor tenant order p) w =
    left_by (release_reservation o now actor tenant order p w)
perform o (Command.change now actor tenant order p) w =
    left_by (transition_fulfillment_status now actor tenant order p w)
perform o (Command.encode ctx p) w = left_by (start o ctx p w)
perform o (Command.written now ctx p) w =
    left_by (confirm o now ctx (record p { success = true }) w)

unfoldable pub perform_all : Outside → List Command → World → World
perform_all o [] w = w
perform_all o (c ∷ cs) w = perform_all o cs (perform o c w)

module _ (o : Outside) (id : String) (rs : List Entry) where
  perform-IsActivated :
      (c : Command) (w : World) → IsActivated id rs w → IsActivated id rs (perform o c w)
  unfolding perform
  perform-IsActivated (Command.grant actor tenant p) w h =
      Kept-left_by _ (grant_qtags-keeps id rs o actor tenant p w h)
  perform-IsActivated (Command.purchase p) w h =
      Kept-left_by _ (purchase_confirmed-keeps id rs o p w h)
  perform-IsActivated (Command.reserve actor tenant p) w h =
      Kept-left_by _ (reserve_for_asset-keeps id rs o actor tenant p w h)
  perform-IsActivated (Command.give_back now actor tenant order p) w h =
      Kept-left_by _ (release_reservation-keeps id rs o now actor tenant order p w h)
  perform-IsActivated (Command.change now actor tenant order p) w h =
      Kept-left_by _ (transition_fulfillment_status-keeps id rs now actor tenant order p w h)
  perform-IsActivated (Command.encode ctx p) w h = Kept-left_by _ (start-keeps id rs o ctx p w h)
  perform-IsActivated (Command.written now ctx p) w h =
      Kept-left_by _ (confirm-keeps id rs o now ctx (record p { success = true }) w refl h)

  -- An activated order stays activated, and no further ledger entry gives its tag back, whatever
  -- grants, purchases, reservations, releases, changes of status, encodings and confirmations of
  -- written tags run, for this order and others.
  pub perform_all-IsActivated :
      (cs : List Command) (w : World) → IsActivated id rs w → IsActivated id rs (perform_all o cs w)
  unfolding perform_all
  perform_all-IsActivated [] w h = h
  perform_all-IsActivated (c ∷ cs) w h =
      perform_all-IsActivated cs (perform o c w) (perform-IsActivated c w h)
