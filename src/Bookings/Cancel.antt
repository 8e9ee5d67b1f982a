-- ===== src/Bookings/Cancel.antt =====
-- src/bookings/passenger-booking.service.ts: `cancelPassengerBooking`, of some seats or of all,
-- and the reads by owner.
use waleed_bus.Base.{
  ℕ, ◌-◌, Bool, true, not, ◌||◌, Option, none, some, ◌==◌, leb, ltb, if◌then◌else◌, is_some, holds,
  get_or, update, Result, ok, ◌>>=◌, ◌>>◌, refuse_if, require, booking_not_found,
  booking_already_cancelled, booking_not_cancellable, trip_already_started, invalid_seat_count,
}
use waleed_bus.Base.Text.{Text}
use waleed_bus.Schema.{
  Trip, Booking, Db, BookingStatus, PaymentStatus, Action, is_scheduled, is_confirmed, has_id,
  booking_by_id, trip_by_id, log,
}

-- A row that the caller owns; any other is answered as if it did not exist.
unfoldable pub owned_booking : Db → ℕ → ℕ → Result Booking
owned_booking db actor i = do
  b ← require (booking_by_id db i) 404 booking_not_found
  refuse_if (not (holds b.passenger_user_id actor)) 404 booking_not_found
  ok b

abbrev pub trip_started : Option Trip → ℕ → Bool
trip_started none now = true
trip_started (some t) now = not (is_scheduled t.status) || leb t.depart_at now

-- The row after `seats` of its seats are given back.
unfoldable pub cancelled_row : ℕ → ℕ → ℕ → Option Text → Booking → Booking
cancelled_row now actor seats reason b =
    let remaining = b.seats - seats in
    record b {
      seats = remaining;
      status = if remaining == 0 then BookingStatus.cancelled else BookingStatus.confirmed;
      payment_status = some PaymentStatus.refund_pending;
      cancelled_at = some now;
      cancelled_by = some actor;
      cancellation_reason = reason;
    }

unfoldable pub check_cancellable : Db → Booking → ℕ → Result (Unit {0})
check_cancellable db b now = do
  refuse_if (not (is_confirmed b.status)) 409 booking_already_cancelled
  refuse_if (is_some b.boarded_at) 409 booking_not_cancellable
  refuse_if (trip_started (trip_by_id db b.trip_id) now) 409 trip_already_started

unfoldable pub cancel_passenger_booking :
    ℕ → ℕ → ℕ → Option ℕ → Option Text → Db → Result (Booking × Db)
cancel_passenger_booking now actor i seats_to_cancel reason db = do
  b ← owned_booking db actor i
  check_cancellable db b now
  let seats = get_or seats_to_cancel b.seats
  refuse_if (ltb seats 1 || ltb b.seats seats) 400 invalid_seat_count
  ok (
    cancelled_row now actor seats reason b,
    log (some actor) Action.booking_cancel (some i) (record db {
      bookings = update (has_id i) (cancelled_row now actor seats reason) db.bookings;
    }),
  )
