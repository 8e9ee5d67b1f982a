-- ===== src/Bookings/Create/Checks.antt =====
-- src/bookings/passenger-booking.service.ts: the checks of `createPassengerBooking`.
use waleed_bus.Base.{
  ℕ, ◌+◌, ◌*◌, Bool, true, false, not, ◌&&◌, ◌||◌, [], ◌∷◌, Option, none, some, ◌==◌, leb, ltb,
  if◌then◌else◌, is_none, holds, get_or, find?, Result, ok, err, ◌>>=◌, ◌>>◌, refuse_if, require,
  coded, phone_not_verified, trip_not_bookable, trip_already_started, trip_route_missing,
  invalid_trip_stops, duplicate_time_booking, booking_seat_limit_exceeded, validation_failed,
  seats_unavailable,
}
use waleed_bus.Base.Text.{Text, truthy, trimmed, text_eq}
use waleed_bus.Schema.{
  User, Bus, Trip, Booking, Db, is_scheduled, is_running, is_confirmed, is_other, BookingFor,
  user_by_id, trip_by_id, booked_seats,
}
use waleed_bus.Bookings.Stops.{route_stops, stops_invalid}
use waleed_bus.Bookings.Create.Input.{CreatePassengerBooking}

-- PLATFORM_DEFAULT_MAX_BOOKING_SEATS.
abbrev pub platform_default_max_booking_seats : ℕ
platform_default_max_booking_seats = 5

unfoldable pub effective_max_booking_seats : Option ℕ → ℕ
effective_max_booking_seats limit = get_or limit platform_default_max_booking_seats

-- The caller, with a phone number that is verified.
unfoldable pub verified_caller : Db → ℕ → Result User
verified_caller db actor = do
  u ← require (user_by_id db actor) 403 phone_not_verified
  refuse_if (is_none (truthy u.phone_number) || is_none u.phone_verified_at) 403 phone_not_verified
  ok u

-- The trip takes bookings: it is scheduled and departs later than `now`.
unfoldable pub check_bookable : Trip → ℕ → Result (Unit {0})
check_bookable trip now = do
  refuse_if (not (is_scheduled trip.status)) 409 trip_not_bookable
  refuse_if (leb trip.depart_at now) 409 trip_already_started

-- The stops: two stations, which the route serves in this order.
unfoldable pub check_stops : Db → Trip → CreatePassengerBooking → Result (Unit {0})
check_stops db trip input = do
  route ← require trip.route_id 409 trip_route_missing
  refuse_if (input.boarding_station_id == input.landing_station_id) 422 invalid_trip_stops
  refuse_if
      (stops_invalid (route_stops db route) input.boarding_station_id input.landing_station_id) 422
      invalid_trip_stops

-- Two hours, in milliseconds.
abbrev pub two_hours : ℕ
two_hours = 2 * 3600 * 1000

-- `departAt` lies in the window of two hours before and after.
abbrev pub near : ℕ → ℕ → Bool
near depart other = leb depart (other + two_hours) && leb other (depart + two_hours)

abbrev pub trip_clashes : Option Trip → ℕ → Bool
trip_clashes none depart = false
trip_clashes (some t) depart = is_running t.status && near depart t.depart_at

abbrev pub clashes : Db → ℕ → ℕ → Booking → Bool
clashes db actor depart b =
    holds b.passenger_user_id actor
    && is_confirmed b.status
    && trip_clashes (trip_by_id db b.trip_id) depart

abbrev pub no_clash_or_confirmed : Option Booking → Bool → Result (Unit {0})
no_clash_or_confirmed none confirmed = ok tt
no_clash_or_confirmed (some b) true = ok tt
no_clash_or_confirmed (some b) false = err (coded 409 (duplicate_time_booking b.id b.trip_id))

-- Another booking of the caller within two hours must have been confirmed as intended.
unfoldable pub check_time_conflict : Db → Trip → ℕ → CreatePassengerBooking → Result (Unit {0})
check_time_conflict db trip actor input =
    no_clash_or_confirmed (find? (clashes db actor trip.depart_at) db.bookings)
      (get_or input.confirm_time_conflict false)

unfoldable pub check_seat_limit : User → ℕ → Result (Unit {0})
unfolding effective_max_booking_seats
check_seat_limit caller seat_count =
    let limit = effective_max_booking_seats caller.max_booking_seats in
    refuse_if (ltb limit seat_count) 422 (booking_seat_limit_exceeded limit)

-- Who travels: the account, the name and the phone that the row keeps.
pub record Traveller : Type 0 where
  pub user_id : Option ℕ
  pub name : Text
  pub phone : Option Text

abbrev pub default_name : Text
default_name = b'P' ∷ b'a' ∷ b's' ∷ b's' ∷ b'e' ∷ b'n' ∷ b'g' ∷ b'e' ∷ b'r' ∷ []

-- `phoneNumber: otherPhone, isActive: true`.
abbrev pub active_with_phone : Text → User → Bool
active_with_phone p u = elim u.phone_number [ none ↦ false | some q ↦ text_eq q p ] && u.is_active

abbrev pub account_id : Option User → Option ℕ
account_id none = none
account_id (some u) = some u.id

abbrev pub other_traveller : Db → Option Text → Option Text → Result Traveller
other_traveller db (some name) (some phone) = ok (record {
  user_id = account_id (find? (active_with_phone phone) db.users);
  name = name;
  phone = some phone;
})
other_traveller db _ _ = err (coded 400 validation_failed)

unfoldable pub traveller_of : Db → User → CreatePassengerBooking → Result Traveller
traveller_of db caller input =
    if is_other (get_or input.booking_for BookingFor.self)
    then other_traveller db (trimmed input.passenger_name) (trimmed input.passenger_phone)
    else ok (record {
      user_id = some caller.id;
      name = get_or caller.name default_name;
      phone = caller.phone_number;
    })

-- The confirmed seats and the new ones fit the bus.
unfoldable pub check_capacity : Db → Trip → Bus → ℕ → Result (Unit {0})
check_capacity db trip bus seat_count =
    refuse_if (ltb bus.capacity (booked_seats trip.id db.bookings + seat_count)) 409
      seats_unavailable
