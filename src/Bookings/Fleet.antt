-- ===== src/Bookings/Fleet.antt =====
-- src/bookings/fleet-booking.service.ts: the bookings that a fleet enters and edits itself.
use waleed_bus.Base.{
  ℕ, Bool, Option, none, some, [], ◌∷◌, ◌++◌, ◌==◌, if◌then◌else◌, get_or, or_else, update,
  delete_many, Result, ok, ◌>>=◌, ◌>>◌, require, not_found,
}
use waleed_bus.Base.Text.{Text}
use waleed_bus.Schema.{
  Trip, Booking, Db, BookingStatus, BookingFor, has_id, trip_by_id, booking_by_id,
}
use waleed_bus.Driver.Anchor.{FleetContext, fleet_path}

pub record CreateBooking : Type 0 where
  pub trip_id : ℕ
  pub passenger_name : Text
  pub passenger_phone : Option Text
  pub status : Option BookingStatus

pub record UpdateBooking : Type 0 where
  pub passenger_name : Option Text
  pub passenger_phone : Option Text
  pub status : Option BookingStatus

abbrev pub visible_trip : FleetContext → Option Trip → Option Trip
visible_trip ctx none = none
visible_trip ctx (some t) = if t.fleet_id == ctx.fleet_id then some t else none

-- One seat, and the defaults of the columns.
unfoldable pub fleet_row : ℕ → ℕ → ℕ → CreateBooking → Booking
fleet_row fresh now fleet input = record {
  id = fresh;
  fleet_id = fleet;
  trip_id = input.trip_id;
  passenger_name = input.passenger_name;
  passenger_phone = input.passenger_phone;
  booking_for = BookingFor.self;
  note = none;
  boarding_station_id = none;
  landing_station_id = none;
  pickup_address = none;
  pickup_location_confirmed = Bool.false;
  passenger_user_id = none;
  booked_by_user_id = none;
  seats = 1;
  status = get_or input.status BookingStatus.confirmed;
  total_amount = none;
  confirmed_at = now;
  cancelled_at = none;
  cancelled_by = none;
  cancellation_reason = none;
  boarded_at = none;
  boarded_by = none;
  drop_status = none;
  drop_station_id = none;
  drop_reason = none;
  dropped_at = none;
  payment_method = none;
  payment_status = none;
  paid_at = none;
  payment_marked_by = none;
  payment_reference = none;
  refunded_amount = 0;
  refund_reference = none;
  payment_notes = none;
  promotion_id = none;
  promo_code = none;
  discount_amount = 0;
  bus_rating = none;
  driver_rating = none;
  bus_rated_at = none;
  driver_rated_at = none;
}

unfoldable pub create : ℕ → ℕ → FleetContext → CreateBooking → Db → Result (Booking × Db)
create fresh now ctx input db = do
  fleet_path ctx
  t ← require (visible_trip ctx (trip_by_id db input.trip_id)) 404 not_found
  let row = fleet_row fresh now ctx.fleet_id input
  ok (row, record db { bookings = db.bookings ++ row ∷ [] })

abbrev pub owned : FleetContext → Option Booking → Option Booking
owned ctx none = none
owned ctx (some b) = if b.fleet_id == ctx.fleet_id then some b else none

unfoldable pub find_one : FleetContext → ℕ → Db → Result Booking
find_one ctx i db = do fleet_path ctx; require (owned ctx (booking_by_id db i)) 404 not_found

unfoldable pub updated_row : UpdateBooking → Booking → Booking
updated_row input b = record b {
  passenger_name = get_or input.passenger_name b.passenger_name;
  passenger_phone = or_else input.passenger_phone b.passenger_phone;
  status = get_or input.status b.status;
}

unfoldable pub update_booking : FleetContext → ℕ → UpdateBooking → Db → Result (Booking × Db)
unfolding find_one
update_booking ctx i input db = do
  b ← find_one ctx i db
  ok (
    updated_row input b,
    record db { bookings = update (has_id i) (updated_row input) db.bookings },
  )

-- The row goes, and with it the shares that refer to it.
unfoldable pub remove : FleetContext → ℕ → Db → Result (Booking × Db)
unfolding find_one
remove ctx i db = do
  b ← find_one ctx i db
  ok (
    b,
    record db {
      bookings = delete_many (has_id i) db.bookings;
      shares = delete_many (λ s. s.booking_id == i) db.shares;
    },
  )
