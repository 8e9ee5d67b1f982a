-- ===== src/Bookings/Cancelled.antt =====
-- What a successful `cancelPassengerBooking` has passed through.
use waleed_bus.Base.{
  ℕ, ◌≤◌, ◌≡◌, refl, sym, true, false, not, ◌||◌, Option, some, ltb, get_or, is_some, holds, update,
  ok, arith, >>=-eq-ok, refuse_if-eq-ok, refuse_if-ok, require-eq-ok, ok_pair, booking_not_found,
  booking_already_cancelled, booking_not_cancellable, trip_already_started, invalid_seat_count,
}
use waleed_bus.Base.Text.{Text}
use waleed_bus.Schema.{Booking, Db, Action, is_confirmed, has_id, booking_by_id, trip_by_id, log}
use waleed_bus.Bookings.Cancel.{
  owned_booking, cancelled_row, check_cancellable, cancel_passenger_booking, trip_started,
}

pub owned_booking-ok :
    (db : Db) (actor i : ℕ) (b : Booking)
    → owned_booking db actor i ≡ ok b
    → (booking_by_id db i ≡ some b) × (holds b.passenger_user_id actor ≡ true)
unfolding owned_booking
owned_booking-ok db actor i b h =
    let (found, e1, h1) = require-eq-ok (booking_by_id db i) 404 booking_not_found _ h in
    let (e2, h2) =
      refuse_if-eq-ok (not (holds found.passenger_user_id actor)) 404 booking_not_found _ h1 in
    ground arith

pub check_cancellable-ok :
    (db : Db) (b : Booking) (now : ℕ)
    → check_cancellable db b now ≡ ok tt
    → (is_confirmed b.status ≡ true)
      × (is_some b.boarded_at ≡ false)
      × (trip_started (trip_by_id db b.trip_id) now ≡ false)
unfolding check_cancellable
check_cancellable-ok db b now h =
    let (e1, h1) =
      refuse_if-eq-ok (not (is_confirmed b.status)) 409 booking_already_cancelled _ h in
    let (e2, h2) = refuse_if-eq-ok (is_some b.boarded_at) 409 booking_not_cancellable _ h1 in
    let started = trip_started (trip_by_id db b.trip_id) now in
    (ground arith, e2, refuse_if-ok started 409 trip_already_started h2)

module _ (now actor i : ℕ) (seats_to_cancel : Option ℕ) (reason : Option Text) (db : Db) where
  pub record Cancelled (r : Booking) (db' : Db) : Type 0 where
    pub booking : Booking
    pub seats : ℕ
    pub found : booking_by_id db i ≡ some booking
    pub owned : holds booking.passenger_user_id actor ≡ true
    pub confirmed : is_confirmed booking.status ≡ true
    pub unboarded : is_some booking.boarded_at ≡ false
    pub future : trip_started (trip_by_id db booking.trip_id) now ≡ false
    pub asked : seats ≡ get_or seats_to_cancel booking.seats
    pub some_seats : 1 ≤ seats
    pub enough : seats ≤ booking.seats
    pub row : r ≡ cancelled_row now actor seats reason booking
    pub state :
        db'
        ≡ log (some actor) Action.booking_cancel (some i) (record db {
          bookings = update (has_id i) (cancelled_row now actor seats reason) db.bookings;
        })

  pub cancel-Cancelled :
      (r : Booking) (db' : Db)
      → cancel_passenger_booking now actor i seats_to_cancel reason db ≡ ok (r, db')
      → Cancelled r db'
  unfolding cancel_passenger_booking
  cancel-Cancelled r db' h =
      let (b, e1, h1) = >>=-eq-ok (owned_booking db actor i) _ h in
      let (_, e2, h2) = >>=-eq-ok (check_cancellable db b now) _ h1 in
      let seats = get_or seats_to_cancel b.seats in
      let (e3, h3) =
        refuse_if-eq-ok (ltb seats 1 || ltb b.seats seats) 400 invalid_seat_count _ h2 in
      let (found, owned) = owned_booking-ok db actor i b e1 in
      let (confirmed, unboarded, future) = check_cancellable-ok db b now e2 in
      record {
        booking = b;
        seats = seats;
        found = found;
        owned = owned;
        confirmed = confirmed;
        unboarded = unboarded;
        future = future;
        asked = refl;
        some_seats = ground arith;
        enough = ground arith;
        row = sym (ok_pair h3).0;
        state = sym (ok_pair h3).1;
      }
