-- ===== src/Consistency/History.antt =====
-- The histories of requests that leave no booking inconsistent.
use waleed_bus.Base.{◌≡◌, true, get_or, AllRows, List, [], ◌∷◌}
use waleed_bus.Schema.{Db, BookingStatus, is_confirmed}
use waleed_bus.Inventory.History.{
  Request, creates, cancels, force_cancels, reinstates, overrides, verifies, fails, refunds, boards,
  drops, pays, rates, fleet_creates, fleet_updates, fleet_removes, after-keeps, after_write-keeps,
  serve, run,
}
use waleed_bus.Consistency.Writes
use waleed_bus.Consistency.Rated.{rate_by_passenger-AllConsistent}
use waleed_bus.Consistency.ByFleet.{
  create-AllConsistent, update_booking-AllConsistent, remove-AllConsistent,
}
use waleed_bus.Consistency.Writes.{
  AllConsistent, cancel-AllConsistent, force_cancel-AllConsistent, reinstate-AllConsistent,
  override-AllConsistent, verify-AllConsistent, fail-AllConsistent, refund-AllConsistent,
  board-AllConsistent, drop_off-AllConsistent, cash_payment-AllConsistent,
}

-- No booking becomes cancelled by the fleet's own hand, which records no time of it.
abbrev pub CancelsNothing : Request → Type 0
CancelsNothing (fleet_creates fresh now ctx input) =
    is_confirmed (get_or input.status BookingStatus.confirmed) ≡ true
CancelsNothing (fleet_updates ctx i input) =
    is_confirmed (get_or input.status BookingStatus.confirmed) ≡ true
CancelsNothing _ = Unit {0}

serve-AllConsistent :
    (q : Request) (db : Db) → CancelsNothing q → AllConsistent db → AllConsistent (serve q db)
unfolding serve
serve-AllConsistent (creates once fresh now actor input) db fine all =
    after-keeps AllConsistent db _ all (Writes.create-AllConsistent once fresh now actor input db)
serve-AllConsistent (cancels now actor i n reason) db fine all =
    after-keeps AllConsistent db _ all (cancel-AllConsistent now actor i n reason db)
serve-AllConsistent (force_cancels now actor i reason) db fine all =
    after-keeps AllConsistent db _ all (force_cancel-AllConsistent now actor i reason db)
serve-AllConsistent (reinstates actor i) db fine all =
    after-keeps AllConsistent db _ all (reinstate-AllConsistent actor i db)
serve-AllConsistent (overrides now actor i o) db fine all =
    after-keeps AllConsistent db _ all (override-AllConsistent now actor i o db)
serve-AllConsistent (verifies now actor i dto) db fine all =
    after-keeps AllConsistent db _ all (verify-AllConsistent now actor i dto db)
serve-AllConsistent (fails actor i reason notes) db fine all =
    after-keeps AllConsistent db _ all (fail-AllConsistent actor i reason notes db)
serve-AllConsistent (refunds actor i dto) db fine all =
    after-keeps AllConsistent db _ all (refund-AllConsistent actor i dto db)
serve-AllConsistent (boards now ctx actor t i) db fine all =
    after-keeps AllConsistent db _ all (board-AllConsistent now ctx actor t i db)
serve-AllConsistent (drops now ctx actor t i input) db fine all =
    after-keeps AllConsistent db _ all (drop_off-AllConsistent now ctx actor t i input db)
serve-AllConsistent (pays now ctx actor t i method) db fine all =
    after-keeps AllConsistent db _ all (cash_payment-AllConsistent now ctx actor t i method db)
serve-AllConsistent (rates now actor i bus driver) db fine all =
    after_write-keeps AllConsistent db _ all
      (rate_by_passenger-AllConsistent now actor i bus driver db)
serve-AllConsistent (fleet_creates fresh now ctx input) db fine all =
    after-keeps AllConsistent db _ all (create-AllConsistent fresh now ctx input fine db)
serve-AllConsistent (fleet_updates ctx i input) db fine all =
    after-keeps AllConsistent db _ all (update_booking-AllConsistent ctx i input fine db)
serve-AllConsistent (fleet_removes ctx i) db fine all =
    after-keeps AllConsistent db _ all (remove-AllConsistent ctx i db)

-- After a history of the requests that write bookings, served one after another, from a database
-- whose bookings are consistent, every booking is: its refunds are within its price up to 0.001, it
-- has the time of its payment if it is paid, of its cancellation if it is cancelled and of its
-- drop-off if it is dropped off, and it has both the time and the author of a boarding or neither.
-- The fleet's own creations and edits of bookings are in such a history only if they do not give the
-- status CANCELLED, for which they record no time; all other requests are those of passengers,
-- administrators and drivers in any order, and the fleet's removals.
pub run-AllConsistent :
    (qs : List Request) (db : Db)
    → AllRows CancelsNothing qs
    → AllConsistent db
    → AllConsistent (run qs db)
unfolding run
run-AllConsistent [] db fine all = all
run-AllConsistent (q ∷ qs) db fine all =
    run-AllConsistent qs (serve q db) fine.1 (serve-AllConsistent q db fine.0 all)
