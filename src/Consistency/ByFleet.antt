-- ===== src/Consistency/ByFleet.antt =====
-- The fleet's own operations on bookings and the consistency of their columns.
use waleed_bus.Base.{
  ℕ, ◌≡◌, true, ok, arith, get_or, AllRows-append, AllRows-update_always, AllRows-delete_many,
}
use waleed_bus.Schema.{Booking, BookingStatus, Db, is_confirmed, has_id}
use waleed_bus.Driver.Anchor.{FleetContext}
use waleed_bus.Bookings.Fleet.{
  CreateBooking, UpdateBooking, fleet_row, create, updated_row, update_booking, remove,
}
use waleed_bus.Inventory.ByFleet.{create-row, update_booking-row, remove-rows}
use waleed_bus.Consistency.Row.{IsConsistent}
use waleed_bus.Consistency.Writes.{AllConsistent}

fleet_row-IsConsistent :
    (fresh now fleet : ℕ) (input : CreateBooking)
    → is_confirmed (get_or input.status BookingStatus.confirmed) ≡ true
    → IsConsistent (fleet_row fresh now fleet input)
unfolding fleet_row
fleet_row-IsConsistent fresh now fleet input h = ground arith

updated_row-IsConsistent :
    (input : UpdateBooking)
    → is_confirmed (get_or input.status BookingStatus.confirmed) ≡ true
    → (b : Booking) → IsConsistent b
    → IsConsistent (updated_row input b)
unfolding updated_row
updated_row-IsConsistent input h b v = ground arith

pub create-AllConsistent :
    (fresh now : ℕ) (ctx : FleetContext) (input : CreateBooking)
    → is_confirmed (get_or input.status BookingStatus.confirmed) ≡ true
    → (db : Db) (r : Booking) (db' : Db) → create fresh now ctx input db ≡ ok (r, db')
    → AllConsistent db
    → AllConsistent db'
create-AllConsistent fresh now ctx input on db r db' h all =
    rw (create-row fresh now ctx input db r db' h) (
      AllRows-append IsConsistent db.bookings (fleet_row fresh now ctx.fleet_id input) all
        (fleet_row-IsConsistent fresh now ctx.fleet_id input on))

pub update_booking-AllConsistent :
    (ctx : FleetContext) (i : ℕ) (input : UpdateBooking)
    → is_confirmed (get_or input.status BookingStatus.confirmed) ≡ true
    → (db : Db) (r : Booking) (db' : Db) → update_booking ctx i input db ≡ ok (r, db')
    → AllConsistent db
    → AllConsistent db'
update_booking-AllConsistent ctx i input on db r db' h all =
    rw (update_booking-row ctx i input db r db' h) (
      AllRows-update_always IsConsistent (has_id i) (updated_row input) db.bookings
        (updated_row-IsConsistent input on) all)

pub remove-AllConsistent :
    (ctx : FleetContext) (i : ℕ) (db : Db) (r : Booking) (db' : Db)
    → remove ctx i db ≡ ok (r, db')
    → AllConsistent db
    → AllConsistent db'
remove-AllConsistent ctx i db r db' h all =
    rw (remove-rows ctx i db r db' h).2
      (AllRows-delete_many IsConsistent (has_id i) db.bookings all)
