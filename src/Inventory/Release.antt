-- ===== src/Inventory/Release.antt =====
-- The operations that give seats back or leave them alone, and the seat inventory.
use waleed_bus.Base.{ℕ, ◌≤◌, ◌≡◌, ap, Bool, true, some, Option, ok, arith, update, sum_of-update}
use waleed_bus.Base.Text.{Text}
use waleed_bus.Schema.{
  Booking, Db, is_confirmed, has_id, booking_by_id, seats_on, WithinCapacity, WithinCapacity-frame,
}
use waleed_bus.Bookings.Cancel.{cancelled_row, cancel_passenger_booking}
use waleed_bus.Bookings.Cancelled.{cancel-Cancelled}
use waleed_bus.Admin.Lifecycle.{force_cancelled_row, force_cancel}
use waleed_bus.Admin.Inversion.{force_cancel-ForceCancelled}

-- A change of one row that does not raise the seats that the row takes keeps the inventory.
pub release-WithinCapacity :
    (db db' : Db) (i : ℕ) (b : Booking) (f : Booking → Booking)
    → db'.trips ≡ db.trips
    → db'.buses ≡ db.buses
    → db'.bookings ≡ update (has_id i) f db.bookings
    → booking_by_id db i ≡ some b
    → ((t : ℕ) → seats_on t (f b) ≤ seats_on t b)
    → WithinCapacity db
    → WithinCapacity db'
release-WithinCapacity db db' i b f trips buses rows found less inv =
    WithinCapacity-frame db db' trips buses
      (λ t trip bus g le.
        rw rows
          (omega (arith, less t, sum_of-update (seats_on t) (has_id i) f db.bookings b found)))
      inv

-- What is left of a confirmed row takes no more seats than the row did.
cancelled_row-le :
    (t now actor n : ℕ) (reason : Option Text) (b : Booking)
    → is_confirmed b.status ≡ true
    → seats_on t (cancelled_row now actor n reason b) ≤ seats_on t b
unfolding cancelled_row
cancelled_row-le t now actor n reason b h = ground arith

-- A cancellation by the passenger, of some seats or of all, keeps the inventory.
pub cancel-WithinCapacity :
    (now actor i : ℕ) (n : Option ℕ) (reason : Option Text) (db : Db) (r : Booking) (db' : Db)
    → cancel_passenger_booking now actor i n reason db ≡ ok (r, db')
    → WithinCapacity db
    → WithinCapacity db'
cancel-WithinCapacity now actor i n reason db r db' h =
    let c = cancel-Cancelled now actor i n reason db r db' h in
    release-WithinCapacity db db' i c.booking (cancelled_row now actor c.seats reason)
      (ap (λ d. d.trips) c.state) (ap (λ d. d.buses) c.state) (ap (λ d. d.bookings) c.state) c.found
      (λ t. cancelled_row-le t now actor c.seats reason c.booking c.confirmed)

force_cancelled_row-le :
    (t now actor : ℕ) (reason : Text) (b : Booking)
    → seats_on t (force_cancelled_row now actor reason b) ≤ seats_on t b
unfolding force_cancelled_row
force_cancelled_row-le t now actor reason b = ground arith

-- So does a cancellation by an administrator.
pub force_cancel-WithinCapacity :
    (now actor i : ℕ) (reason : Text) (db : Db) (r : Booking × Bool) (db' : Db)
    → force_cancel now actor i reason db ≡ ok (r, db')
    → WithinCapacity db
    → WithinCapacity db'
force_cancel-WithinCapacity now actor i reason db r db' h =
    let c = force_cancel-ForceCancelled now actor i reason db r db' h in
    release-WithinCapacity db db' i c.booking (force_cancelled_row now actor reason)
      (ap (λ d. d.trips) c.state) (ap (λ d. d.buses) c.state) (ap (λ d. d.bookings) c.state) c.found
      (λ t. force_cancelled_row-le t now actor reason c.booking)
