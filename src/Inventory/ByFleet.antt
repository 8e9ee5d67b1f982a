-- ===== src/Inventory/ByFleet.antt =====
-- The fleet's own operations on bookings and the seat inventory.
use waleed_bus.Base.{
  ℕ, ◌≤◌, ◌≡◌, refl, sym, ap, false, none, some, ok, arith, get_or, update, delete_many, sum_of,
  sum_of-update_le, [], ◌∷◌, ◌++◌, Bool, List, Option, ok_eq, >>=-eq-ok, require-eq-ok,
}
use waleed_bus.Schema.{
  Booking, BookingStatus, Db, is_confirmed, has_id, seats_on, trip_by_id, WithinCapacity,
  WithinCapacity-frame,
}
use waleed_bus.Driver.Anchor.{FleetContext, fleet_path}
use waleed_bus.Bookings.Fleet.{
  CreateBooking, UpdateBooking, visible_trip, fleet_row, create, find_one, updated_row,
  update_booking, remove,
}
use waleed_bus.Inventory.Reserve.{booked_seats-append}

-- What a success of each operation has written.
pub create-row :
    (fresh now : ℕ) (ctx : FleetContext) (input : CreateBooking) (db : Db) (r : Booking) (db' : Db)
    → create fresh now ctx input db ≡ ok (r, db')
    → db' ≡ record db { bookings = db.bookings ++ fleet_row fresh now ctx.fleet_id input ∷ [] }
unfolding create
create-row fresh now ctx input db r db' h =
    let (_, _, h1) = >>=-eq-ok (fleet_path ctx) _ h in
    let (_, _, last) = require-eq-ok (visible_trip ctx (trip_by_id db input.trip_id)) _ _ _ h1 in
    sym (ap (λ (x : Booking × Db). x.1) (ok_eq last))

pub update_booking-row :
    (ctx : FleetContext) (i : ℕ) (input : UpdateBooking) (db : Db) (r : Booking) (db' : Db)
    → update_booking ctx i input db ≡ ok (r, db')
    → db' ≡ record db { bookings = update (has_id i) (updated_row input) db.bookings }
unfolding update_booking
update_booking-row ctx i input db r db' h =
    let (_, _, last) = >>=-eq-ok (find_one ctx i db) _ h in
    sym (ap (λ (x : Booking × Db). x.1) (ok_eq last))

pub remove-rows :
    (ctx : FleetContext) (i : ℕ) (db : Db) (r : Booking) (db' : Db)
    → remove ctx i db ≡ ok (r, db')
    → (db'.trips ≡ db.trips)
      × (db'.buses ≡ db.buses)
      × (db'.bookings ≡ delete_many (has_id i) db.bookings)
unfolding remove
remove-rows ctx i db r db' h =
    let (_, _, last) = >>=-eq-ok (find_one ctx i db) _ h in
    let state = sym (ap (λ (x : Booking × Db). x.1) (ok_eq last)) in
    (ap (λ d. d.trips) state, ap (λ d. d.buses) state, ap (λ d. d.bookings) state)

fleet_row-seats :
    (t fresh now fleet : ℕ) (input : CreateBooking)
    → is_confirmed (get_or input.status BookingStatus.confirmed) ≡ false
    → seats_on t (fleet_row fresh now fleet input) ≡ 0
unfolding fleet_row
fleet_row-seats t fresh now fleet input h = ground arith

updated_row-le :
    (t : ℕ) (input : UpdateBooking) (b : Booking)
    → is_confirmed (get_or input.status BookingStatus.cancelled) ≡ false
    → seats_on t (updated_row input b) ≤ seats_on t b
unfolding updated_row
updated_row-le t input b h = by_status input.status refl
  where
    by_status :
        (o : Option BookingStatus)
        → input.status ≡ o
        → seats_on t (updated_row input b) ≤ seats_on t b
    by_status none e = rw e (omega arith)
    by_status (some s) e = ground arith

delete_many-le :
    (w : Booking → ℕ) (p : Booking → Bool) (bs : List Booking)
    → sum_of w (delete_many p bs) ≤ sum_of w bs
unfolding sum_of delete_many
delete_many-le w p [] = omega arith
delete_many-le w p (b ∷ bs) = ground (arith, delete_many-le w p bs)

-- A booking that the fleet enters as cancelled takes no seat.
pub create-WithinCapacity :
    (fresh now : ℕ) (ctx : FleetContext) (input : CreateBooking)
    → is_confirmed (get_or input.status BookingStatus.confirmed) ≡ false
    → (db : Db) (r : Booking) (db' : Db) → create fresh now ctx input db ≡ ok (r, db')
    → WithinCapacity db
    → WithinCapacity db'
create-WithinCapacity fresh now ctx input off db r db' h =
    let state = create-row fresh now ctx input db r db' h in
    let new = fleet_row fresh now ctx.fleet_id input in
    WithinCapacity-frame db db' (ap (λ d. d.trips) state) (ap (λ d. d.buses) state)
      λ t trip bus g le. rw state (
        omega
          (arith, booked_seats-append t new db, fleet_row-seats t fresh now ctx.fleet_id input off))

-- An edit that does not confirm the booking takes no seat.
pub update_booking-WithinCapacity :
    (ctx : FleetContext) (i : ℕ) (input : UpdateBooking)
    → is_confirmed (get_or input.status BookingStatus.cancelled) ≡ false
    → (db : Db) (r : Booking) (db' : Db) → update_booking ctx i input db ≡ ok (r, db')
    → WithinCapacity db
    → WithinCapacity db'
update_booking-WithinCapacity ctx i input off db r db' h =
    let state = update_booking-row ctx i input db r db' h in
    WithinCapacity-frame db db' (ap (λ d. d.trips) state) (ap (λ d. d.buses) state)
      λ t trip bus g le. rw state (
        omega (
          arith,
          sum_of-update_le (seats_on t) (has_id i) (updated_row input)
              (λ b. updated_row-le t input b off) db.bookings,
        ))

pub remove-WithinCapacity :
    (ctx : FleetContext) (i : ℕ) (db : Db) (r : Booking) (db' : Db)
    → remove ctx i db ≡ ok (r, db')
    → WithinCapacity db
    → WithinCapacity db'
remove-WithinCapacity ctx i db r db' h =
    let (trips, buses, rows) = remove-rows ctx i db r db' h in
    WithinCapacity-frame db db' trips buses
      λ t trip bus g le. rw rows (omega (arith, delete_many-le (seats_on t) (has_id i) db.bookings))
