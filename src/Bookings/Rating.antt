-- ===== src/Bookings/Rating.antt =====
-- src/bookings/passenger-rating.service.ts: the ratings that a passenger gives after a trip.
pub mod Final
use waleed_bus.Base.{
  ℕ, Bool, true, false, not, ◌&&◌, Option, none, some, ◌==◌, if◌then◌else◌, is_none, or_else, count,
  update, update_many, Result, ok, ◌>>=◌, ◌>>◌, refuse_if, require, not_found, rating_not_allowed,
}
use waleed_bus.Base.Text.{Text, truthy, text_eq}
use waleed_bus.Schema.{
  User, Trip, Booking, Db, is_completed, has_id, user_by_id, trip_by_id, booking_by_id,
}
use waleed_bus.Phone.{normalize_phone}

-- The canonical phone, or null when it is absent, unverified or not a phone.
unfoldable pub verified_phone : Option Text → Option ℕ → Option Text
verified_phone phone verified_at = elim (truthy phone) [
  | none ↦ none
  | some p ↦ if is_none verified_at then none else normalize_phone p
]

abbrev pub caller_phone : Option User → Option Text
caller_phone none = none
caller_phone (some u) = verified_phone u.phone_number u.phone_verified_at

abbrev pub phones_differ : Option Text → Text → Bool
phones_differ none q = true
phones_differ (some p) q = not (text_eq p q)

-- `stored !== null && stored !== input[side]`.
abbrev pub conflicts : Option ℕ → ℕ → Bool
conflicts none rating = false
conflicts (some r) rating = not (r == rating)

-- The two sides of a row must be open, or hold what is given.
unfoldable pub check_sides : Booking → ℕ → ℕ → Result (Unit {0})
check_sides b bus driver = do
  refuse_if (conflicts b.bus_rating bus) 409 rating_not_allowed
  refuse_if (conflicts b.driver_rating driver) 409 rating_not_allowed

abbrev pub unrated : ℕ → Booking → Bool
unrated i b = has_id i b && is_none b.bus_rating && is_none b.driver_rating

unfoldable pub rated_row : ℕ → ℕ → ℕ → Booking → Booking
rated_row now bus driver b = record b {
  bus_rating = some bus;
  bus_rated_at = some now;
  driver_rating = some driver;
  driver_rated_at = some now;
}

-- The sides that are still open are filled.
unfoldable pub completed_row : ℕ → ℕ → ℕ → Booking → Booking
completed_row now bus driver b = record b {
  bus_rating = or_else b.bus_rating (some bus);
  bus_rated_at = if is_none b.bus_rating then some now else b.bus_rated_at;
  driver_rating = or_else b.driver_rating (some driver);
  driver_rated_at = if is_none b.driver_rating then some now else b.driver_rated_at;
}

-- Where the conditional update touches no row, the sides that are still open are filled.
abbrev pub rate_late : ℕ → ℕ → ℕ → ℕ → Db → Result Db
rate_late now bus driver i db = do
  current ← require (booking_by_id db i) 404 not_found
  check_sides current bus driver
  ok (record db { bookings = update (has_id i) (completed_row now bus driver) db.bookings })

abbrev pub rate_all : ℕ → ℕ → ℕ → ℕ → Db → Db
rate_all now bus driver i db = record db {
  bookings = update_many (unrated i) (rated_row now bus driver) db.bookings;
}

-- The write, over a database that may have changed since the row was read.
unfoldable pub rate_write : ℕ → ℕ → ℕ → ℕ → Db → Result Db
unfolding check_sides
rate_write now bus driver i db =
    if count (unrated i) db.bookings == 0
    then rate_late now bus driver i db
    else ok (rate_all now bus driver i db)

abbrev pub trip_completed : Option Trip → Bool
trip_completed none = false
trip_completed (some t) = is_completed t.status

unfoldable pub rate_by_passenger : ℕ → ℕ → ℕ → ℕ → ℕ → Db → Result Db
rate_by_passenger now actor i bus driver db = do
  phone ← require (caller_phone (user_by_id db actor)) 404 not_found
  b ← require (booking_by_id db i) 404 not_found
  refuse_if (phones_differ (verified_phone b.passenger_phone (some now)) phone) 404 not_found
  refuse_if (not (trip_completed (trip_by_id db b.trip_id))) 409 rating_not_allowed
  check_sides b bus driver
  rate_write now bus driver b.id db
