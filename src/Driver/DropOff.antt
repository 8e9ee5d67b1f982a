-- ===== src/Driver/DropOff.antt =====
-- src/driver-ops/driver-ops.service.ts: `dropOff`, which is final for a booking.
use waleed_bus.Base.{
  not_found, ℕ, Bool, ◌&&◌, Option, none, some, ◌==◌, if◌then◌else◌, is_none, count, update_many,
  Result, ok, err, ◌>>=◌, ◌>>◌, refuse_if, require, coded, invalid_dropoff_state,
}
use waleed_bus.Base.Text.{Text, truthy}
use waleed_bus.Schema.{Booking, Db, DropStatus, Action, drop_eq, has_id, booking_by_id, log}
use waleed_bus.Driver.Anchor.{FleetContext, fleet_path, assert_assignment}

pub record DropOff : Type 0 where
  pub status : DropStatus
  pub station_id : Option Text
  pub reason : Option Text

-- A drop-off names its station, and a missed one its reason.
unfoldable pub check_drop_off : DropOff → Result (Unit {0})
check_drop_off input = elim input.status [
  | DropStatus.dropped_off ↦ refuse_if (is_none (truthy input.station_id)) 409 invalid_dropoff_state
  | DropStatus.not_dropped_off ↦ refuse_if (is_none (truthy input.reason)) 409 invalid_dropoff_state
]

abbrev pub undropped : ℕ → Booking → Bool
undropped i b = has_id i b && is_none b.drop_status

abbrev pub if_dropped : DropStatus → Option Text → Option Text
if_dropped DropStatus.dropped_off t = t
if_dropped DropStatus.not_dropped_off t = none

abbrev pub if_missed : DropStatus → Option Text → Option Text
if_missed DropStatus.dropped_off t = none
if_missed DropStatus.not_dropped_off t = t

unfoldable pub dropped_row : ℕ → DropOff → Booking → Booking
dropped_row now input b = record b {
  drop_status = some input.status;
  drop_station_id = if_dropped input.status input.station_id;
  drop_reason = if_missed input.status input.reason;
  dropped_at = some now;
}

-- What is recorded already stands if it is the same status, and is a conflict otherwise.
abbrev pub recorded : Option DropStatus → Option ℕ → DropStatus → Result (DropStatus × Option ℕ)
recorded none at wanted = err (coded 409 invalid_dropoff_state)
recorded (some s) at wanted =
    if drop_eq s wanted then ok (s, at) else err (coded 409 invalid_dropoff_state)

abbrev pub drop_read : DropStatus → ℕ → Db → Result ((DropStatus × Option ℕ) × Db)
drop_read wanted i db = do
  current ← require (booking_by_id db i) 404 not_found
  r ← recorded current.drop_status current.dropped_at wanted
  ok (r, db)

abbrev pub drop_all : ℕ → DropOff → ℕ → Db → Db
drop_all now input i db = record db {
  bookings = update_many (undropped i) (dropped_row now input) db.bookings;
}

unfoldable pub drop_write : ℕ → DropOff → ℕ → Db → Result ((DropStatus × Option ℕ) × Db)
drop_write now input i db =
    if count (undropped i) db.bookings == 0
    then drop_read input.status i db
    else ok ((input.status, some now), drop_all now input i db)

abbrev pub drop_row : ℕ → DropOff → Booking → Db → Result ((DropStatus × Option ℕ) × Db)
drop_row now input b db = elim b.drop_status [
  | some s ↦ recorded (some s) b.dropped_at input.status >>= λ r. ok (r, db)
  | none ↦ drop_write now input b.id db
]

unfoldable pub drop_off :
    ℕ → FleetContext → ℕ → ℕ → ℕ → DropOff → Db → Result ((DropStatus × Option ℕ) × Db)
drop_off now ctx actor trip_id i input db = do
  check_drop_off input
  fleet_path ctx
  found ← assert_assignment ctx actor trip_id i db
  refuse_if (is_none (found.1).boarded_at) 409 invalid_dropoff_state
  done ← drop_row now input found.1 db
  ok (done.0, log (some actor) Action.driver_dropoff (some i) done.1)
