-- ===== src/Admin/Lifecycle.antt =====
-- src/bookings/admin-booking-lifecycle.service.ts: forced cancellation, reinstatement and the
-- operational override.
use waleed_bus.Base.{
  ℕ, ◌+◌, Bool, true, false, not, ◌&&◌, Option, none, some, ltb, if◌then◌else◌, is_none, or_else,
  update, Result, ok, ◌>>=◌, ◌>>◌, refuse_if, require, booking_not_found, booking_already_cancelled,
  booking_not_cancelled, trip_not_found, seats_unavailable, justification_required,
}
use waleed_bus.Base.Text.{Text, trimmed}
use waleed_bus.Schema.{
  Trip, Bus, Booking, Db, BookingStatus, PaymentStatus, DropStatus, Action, is_confirmed, is_paid,
  is_pending, is_cash, has_id, booking_by_id, trip_by_id, trip_with_bus, booked_seats, log,
}

-- A payment that was made is to be refunded; cash that was never collected is cancelled.
abbrev pub payment_after_cancel : Booking → Option PaymentStatus
payment_after_cancel b =
    if is_paid b.payment_status
    then some PaymentStatus.refund_pending
    else if is_pending b.payment_status && is_cash b.payment_method
    then some PaymentStatus.cancelled
    else b.payment_status

unfoldable pub force_cancelled_row : ℕ → ℕ → Text → Booking → Booking
force_cancelled_row now actor reason b = record b {
  status = BookingStatus.cancelled;
  cancelled_at = some now;
  cancelled_by = some actor;
  cancellation_reason = some reason;
  payment_status = payment_after_cancel b;
}

-- `new Date(departAt).getTime() > Date.now()`.
abbrev pub departs_later : Trip → ℕ → Bool
departs_later t now = ltb now t.depart_at

-- The row is joined to its trip. The result holds the row and whether its seats come back in time.
unfoldable pub force_cancel : ℕ → ℕ → ℕ → Text → Db → Result ((Booking × Bool) × Db)
force_cancel now actor i reason db = do
  b ← require (booking_by_id db i) 404 booking_not_found
  t ← require (trip_by_id db b.trip_id) 404 booking_not_found
  refuse_if (not (is_confirmed b.status)) 409 booking_already_cancelled
  ok (
    (force_cancelled_row now actor reason b, departs_later t now),
    log (some actor) Action.booking_force_cancel (some i) (record db {
      bookings = update (has_id i) (force_cancelled_row now actor reason) db.bookings;
    }),
  )

unfoldable pub reinstated_row : Booking → Booking
reinstated_row b = record b {
  status = BookingStatus.confirmed;
  cancelled_at = none;
  cancelled_by = none;
  cancellation_reason = none;
}

-- `availableSeats < booking.seats`, where the available seats may be negative.
abbrev pub no_room : Db → Trip → Bus → Booking → Bool
no_room db trip bus b = ltb bus.capacity (booked_seats trip.id db.bookings + b.seats)

unfoldable pub reinstate : ℕ → ℕ → Db → Result (Booking × Db)
reinstate actor i db = do
  b ← require (booking_by_id db i) 404 booking_not_found
  refuse_if (is_confirmed b.status) 409 booking_not_cancelled
  found ← require (trip_with_bus db b.trip_id) 404 trip_not_found
  refuse_if (no_room db found.0 found.1 b) 409 seats_unavailable
  ok (
    reinstated_row b,
    log (some actor) Action.booking_reinstate (some i)
        (record db { bookings = update (has_id i) reinstated_row db.bookings }),
  )

pub record OperationalOverride : Type 0 where
  pub justification : Option Text
  pub boarded : Option Bool
  pub drop_status : Option DropStatus
  pub drop_station_id : Option Text
  pub drop_reason : Option Text

abbrev pub override_boarded : Option Bool → ℕ → ℕ → Booking → Booking
override_boarded none now actor b = b
override_boarded (some true) now actor b = record b {
  boarded_at = some now;
  boarded_by = some actor;
}
override_boarded (some false) now actor b = record b { boarded_at = none; boarded_by = none }

abbrev pub override_drop : Option DropStatus → ℕ → Booking → Booking
override_drop none now b = b
override_drop (some DropStatus.dropped_off) now b = record b {
  drop_status = some DropStatus.dropped_off;
  dropped_at = some now;
}
override_drop (some DropStatus.not_dropped_off) now b = record b {
  drop_status = some DropStatus.not_dropped_off;
}

unfoldable pub overridden_row : OperationalOverride → ℕ → ℕ → Booking → Booking
overridden_row o now actor b =
    let c = override_drop o.drop_status now (override_boarded o.boarded now actor b) in
    record c {
      drop_station_id = or_else o.drop_station_id c.drop_station_id;
      drop_reason = or_else o.drop_reason c.drop_reason;
    }

unfoldable pub override_operational : ℕ → ℕ → ℕ → OperationalOverride → Db → Result (Booking × Db)
override_operational now actor i o db = do
  refuse_if (is_none (trimmed o.justification)) 400 justification_required
  b ← require (booking_by_id db i) 404 booking_not_found
  ok (
    overridden_row o now actor b,
    log (some actor) Action.booking_override_operational (some i)
        (record db { bookings = update (has_id i) (overridden_row o now actor) db.bookings }),
  )
