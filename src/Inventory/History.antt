-- ===== src/Inventory/History.antt =====
-- A history of the requests that write bookings, by passengers, administrators, drivers and fleets,
-- each served as a whole, one after another. A request that throws leaves the database as it was,
-- since its transaction is rolled back. Requests that change trips or buses are not part of a history.
use waleed_bus.Base.{
  ℕ, ◌≡◌, refl, false, get_or, AllRows, Bool, List, [], ◌∷◌, Option, Result, ok, err,
}
use waleed_bus.Base.Text.{Text}
use waleed_bus.Schema.{Db, BookingStatus, PaymentMethod, WithinCapacity, is_confirmed}
use waleed_bus.Bookings.Create.Input.{CreatePassengerBooking}
use waleed_bus.Bookings.Create.Commit.{create_passenger_booking}
use waleed_bus.Bookings.Rating.{rate_by_passenger}
use waleed_bus.Bookings.Fleet.{CreateBooking, UpdateBooking, create, update_booking, remove}
use waleed_bus.Bookings.Cancel.{cancel_passenger_booking}
use waleed_bus.Admin.Lifecycle.{OperationalOverride, force_cancel, reinstate, override_operational}
use waleed_bus.Admin.Payment.{
  VerifyPayment, verify_payment, fail_payment, RefundPayment, process_refund,
}
use waleed_bus.Driver.Anchor.{FleetContext}
use waleed_bus.Driver.Board.{board}
use waleed_bus.Driver.DropOff.{DropOff, drop_off}
use waleed_bus.Driver.CashPayment.{cash_payment}
use waleed_bus.Inventory.Reserve
use waleed_bus.Inventory.Rated.{rate_by_passenger-WithinCapacity}
use waleed_bus.Inventory.ByFleet.{
  create-WithinCapacity, update_booking-WithinCapacity, remove-WithinCapacity,
}
use waleed_bus.Inventory.Release.{cancel-WithinCapacity, force_cancel-WithinCapacity}
use waleed_bus.Inventory.Readmit.{reinstate-WithinCapacity}
use waleed_bus.Inventory.Unchanged.{
  verify-WithinCapacity, fail-WithinCapacity, refund-WithinCapacity, override-WithinCapacity,
}
use waleed_bus.Inventory.OnBoard.{
  board-WithinCapacity, drop_off-WithinCapacity, cash_payment-WithinCapacity,
}

-- A request with its caller, its time and its arguments.
pub data Request : Type 0 where
  creates : Bool → ℕ → ℕ → ℕ → CreatePassengerBooking → Request
  cancels : ℕ → ℕ → ℕ → Option ℕ → Option Text → Request
  force_cancels : ℕ → ℕ → ℕ → Text → Request
  reinstates : ℕ → ℕ → Request
  overrides : ℕ → ℕ → ℕ → OperationalOverride → Request
  verifies : ℕ → ℕ → ℕ → VerifyPayment → Request
  fails : ℕ → ℕ → Text → Option Text → Request
  refunds : ℕ → ℕ → RefundPayment → Request
  boards : ℕ → FleetContext → ℕ → ℕ → ℕ → Request
  drops : ℕ → FleetContext → ℕ → ℕ → ℕ → DropOff → Request
  pays : ℕ → FleetContext → ℕ → ℕ → ℕ → PaymentMethod → Request
  rates : ℕ → ℕ → ℕ → ℕ → ℕ → Request
  fleet_creates : ℕ → ℕ → FleetContext → CreateBooking → Request
  fleet_updates : FleetContext → ℕ → UpdateBooking → Request
  fleet_removes : FleetContext → ℕ → Request

-- The state after a call: what it committed, or what was there.
abbrev pub after : {A : Type 0} → Db → Result (A × Db) → Db
after db (ok (a, db')) = db'
after db (err e) = db

abbrev pub after_write : Db → Result Db → Db
after_write db (ok db') = db'
after_write db (err e) = db

unfoldable pub serve : Request → Db → Db
serve (creates once fresh now actor input) db =
    after db (create_passenger_booking once fresh now actor input db)
serve (cancels now actor i n reason) db =
    after db (cancel_passenger_booking now actor i n reason db)
serve (force_cancels now actor i reason) db = after db (force_cancel now actor i reason db)
serve (reinstates actor i) db = after db (reinstate actor i db)
serve (overrides now actor i o) db = after db (override_operational now actor i o db)
serve (verifies now actor i dto) db = after db (verify_payment now actor i dto db)
serve (fails actor i reason notes) db = after db (fail_payment actor i reason notes db)
serve (refunds actor i dto) db = after db (process_refund actor i dto db)
serve (boards now ctx actor t i) db = after db (board now ctx actor t i db)
serve (drops now ctx actor t i input) db = after db (drop_off now ctx actor t i input db)
serve (pays now ctx actor t i method) db = after db (cash_payment now ctx actor t i method db)
serve (rates now actor i bus driver) db =
    after_write db (rate_by_passenger now actor i bus driver db)
serve (fleet_creates fresh now ctx input) db = after db (create fresh now ctx input db)
serve (fleet_updates ctx i input) db = after db (update_booking ctx i input db)
serve (fleet_removes ctx i) db = after db (remove ctx i db)

unfoldable pub run : List Request → Db → Db
run [] db = db
run (q ∷ qs) db = run qs (serve q db)

-- What holds before a call and after its success holds after the call.
pub after-keeps {ℓ} :
    {A : Type 0} (P : Db → Type ℓ) (db : Db) (res : Result (A × Db))
    → P db
    → ((r : A) (db' : Db) → res ≡ ok (r, db') → P db → P db')
    → P (after db res)
after-keeps P db (ok (r, db')) inv keep = keep r db' refl inv
after-keeps P db (err e) inv keep = inv

pub after_write-keeps {ℓ} :
    (P : Db → Type ℓ) (db : Db) (res : Result Db)
    → P db
    → ((db' : Db) → res ≡ ok db' → P db → P db')
    → P (after_write db res)
after_write-keeps P db (ok db') inv keep = keep db' refl inv
after_write-keeps P db (err e) inv keep = inv

-- No booking becomes confirmed by the fleet's own hand: a new one is entered as cancelled, and an
-- edit does not set the status to CONFIRMED.
abbrev pub TakesNoSeat : Request → Type 0
TakesNoSeat (fleet_creates fresh now ctx input) =
    is_confirmed (get_or input.status BookingStatus.confirmed) ≡ false
TakesNoSeat (fleet_updates ctx i input) =
    is_confirmed (get_or input.status BookingStatus.cancelled) ≡ false
TakesNoSeat _ = Unit {0}

-- A request keeps the inventory, whether it succeeds or throws.
serve-WithinCapacity :
    (q : Request) (db : Db) → TakesNoSeat q → WithinCapacity db → WithinCapacity (serve q db)
unfolding serve
serve-WithinCapacity (creates once fresh now actor input) db fine inv =
    after-keeps WithinCapacity db _ inv
      (Reserve.create-WithinCapacity once fresh now actor input db)
serve-WithinCapacity (cancels now actor i n reason) db fine inv =
    after-keeps WithinCapacity db _ inv (cancel-WithinCapacity now actor i n reason db)
serve-WithinCapacity (force_cancels now actor i reason) db fine inv =
    after-keeps WithinCapacity db _ inv (force_cancel-WithinCapacity now actor i reason db)
serve-WithinCapacity (reinstates actor i) db fine inv =
    after-keeps WithinCapacity db _ inv (reinstate-WithinCapacity actor i db)
serve-WithinCapacity (overrides now actor i o) db fine inv =
    after-keeps WithinCapacity db _ inv (override-WithinCapacity now actor i o db)
serve-WithinCapacity (verifies now actor i dto) db fine inv =
    after-keeps WithinCapacity db _ inv (verify-WithinCapacity now actor i dto db)
serve-WithinCapacity (fails actor i reason notes) db fine inv =
    after-keeps WithinCapacity db _ inv (fail-WithinCapacity actor i reason notes db)
serve-WithinCapacity (refunds actor i dto) db fine inv =
    after-keeps WithinCapacity db _ inv (refund-WithinCapacity actor i dto db)
serve-WithinCapacity (boards now ctx actor t i) db fine inv =
    after-keeps WithinCapacity db _ inv (board-WithinCapacity now ctx actor t i db)
serve-WithinCapacity (drops now ctx actor t i input) db fine inv =
    after-keeps WithinCapacity db _ inv (drop_off-WithinCapacity now ctx actor t i input db)
serve-WithinCapacity (pays now ctx actor t i method) db fine inv =
    after-keeps WithinCapacity db _ inv (cash_payment-WithinCapacity now ctx actor t i method db)
serve-WithinCapacity (rates now actor i bus driver) db fine inv =
    after_write-keeps WithinCapacity db _ inv
      (rate_by_passenger-WithinCapacity now actor i bus driver db)
serve-WithinCapacity (fleet_creates fresh now ctx input) db fine inv =
    after-keeps WithinCapacity db _ inv (create-WithinCapacity fresh now ctx input fine db)
serve-WithinCapacity (fleet_updates ctx i input) db fine inv =
    after-keeps WithinCapacity db _ inv (update_booking-WithinCapacity ctx i input fine db)
serve-WithinCapacity (fleet_removes ctx i) db fine inv =
    after-keeps WithinCapacity db _ inv (remove-WithinCapacity ctx i db)

-- No history of the requests that write bookings, served one after another, oversells a trip: if no
-- trip has sold more seats than its bus holds before, none has after. The fleet's own creations and
-- edits of bookings, which check no capacity, are in such a history only if they leave no booking
-- CONFIRMED that was not; all other requests are those of passengers, administrators and drivers in
-- any order, and the fleet's removals.
pub run-WithinCapacity :
    (qs : List Request) (db : Db)
    → AllRows TakesNoSeat qs
    → WithinCapacity db
    → WithinCapacity (run qs db)
unfolding run
run-WithinCapacity [] db fine inv = inv
run-WithinCapacity (q ∷ qs) db fine inv =
    run-WithinCapacity qs (serve q db) fine.1 (serve-WithinCapacity q db fine.0 inv)
