-- ===== src/Inventory/Returned.antt =====
-- Which seats the cancellations give back, and what follows them.
use waleed_bus.Base.{
  ℕ, ◌+◌, ◌≤◌, ◌≡◌, ◌↔◌, refl, ap, sym, subst, get_or, ◌∙◌, true, false, some, Option, ◌==◌, ok,
  err, coded, arith, find?-update, find?-holds, update, sum_of-update, holds,
  booking_already_cancelled, if◌then◌else◌,
}
use waleed_bus.Base.Text.{Text}
use waleed_bus.Schema.{
  Trip, Bus, Booking, Db, is_confirmed, has_id, booking_by_id, trip_with_bus, seats_on,
  booked_seats,
}
use waleed_bus.Bookings.Cancel.{
  owned_booking, check_cancellable, cancelled_row, cancel_passenger_booking,
}
use waleed_bus.Bookings.Cancelled.{Cancelled, cancel-Cancelled}
use waleed_bus.Admin.Lifecycle.{force_cancelled_row, reinstated_row, no_room, reinstate}

cancelled_row-seats :
    (t now actor n : ℕ) (reason : Option Text) (b : Booking)
    → is_confirmed b.status ≡ true
    → n ≤ b.seats
    → seats_on t (cancelled_row now actor n reason b) + (if b.trip_id == t then n else 0)
      ≡ seats_on t b
unfolding cancelled_row
cancelled_row-seats t now actor n reason b h le = ground arith

cancelled_row-status :
    (now actor n : ℕ) (reason : Option Text) (b : Booking)
    → n ≤ b.seats
    → (is_confirmed (cancelled_row now actor n reason b).status ≡ false) ↔ (n ≡ b.seats)
unfolding cancelled_row
cancelled_row-status now actor n reason b le = ground arith

cancelled_row-id :
    (i now actor n : ℕ) (reason : Option Text) (b : Booking)
    → has_id i b ≡ true
    → has_id i (cancelled_row now actor n reason b) ≡ true
unfolding cancelled_row
cancelled_row-id i now actor n reason b h = h

-- The seats that were asked come back to the trip of the booking, no other trip changes, and the
-- booking stays confirmed exactly if some of its seats are left.
pub record Returned (i n : ℕ) (db : Db) (r : Booking) (db' : Db) : Type 0 where
  pub booking : Booking
  pub found : booking_by_id db i ≡ some booking
  pub seats :
      (t : ℕ)
      → booked_seats t db'.bookings + (if booking.trip_id == t then n else 0)
        ≡ booked_seats t db.bookings
  pub ended : (is_confirmed r.status ≡ false) ↔ (n ≡ booking.seats)
  pub stored : booking_by_id db' i ≡ some r

module _ (now actor i : ℕ) (asked : Option ℕ) (reason : Option Text) (db : Db) where
  Cancelled-Returned :
      (r : Booking) (db' : Db) (c : Cancelled now actor i asked reason db r db')
      → Returned i c.seats db r db'
  Cancelled-Returned r db' c =
      let f = cancelled_row now actor c.seats reason in
      let rows = ap (λ (d : Db). d.bookings) c.state in
      record {
        booking = c.booking;
        found = c.found;
        seats = λ t. rw rows (
            omega (
              arith,
              sum_of-update (seats_on t) (has_id i) f db.bookings c.booking c.found,
              cancelled_row-seats t now actor c.seats reason c.booking c.confirmed c.enough,
            ));
        ended = rw c.row (cancelled_row-status now actor c.seats reason c.booking c.enough);
        stored =
            rw (rows, c.row)
              (find?-update (has_id i) f db.bookings c.booking c.found (
                cancelled_row-id i now actor c.seats reason c.booking
                  (find?-holds (has_id i) db.bookings c.booking c.found)));
      }

  -- A passenger's cancellation of some seats gives exactly the seats that were asked for, or all
  -- seats of the booking if no number was given, back to the trip of the booking and none to another;
  -- these are at least one; the booking ends exactly if they are all its seats, and the row that is
  -- returned is the one that is stored.
  pub cancel-Returned :
      (r : Booking) (db' : Db)
      → cancel_passenger_booking now actor i asked reason db ≡ ok (r, db')
      → (b : Booking) × (booking_by_id db i ≡ some b)
        × (1 ≤ get_or asked b.seats)
        × Returned i (get_or asked b.seats) db r db'
  cancel-Returned r db' h =
      let c = cancel-Cancelled now actor i asked reason db r db' h in
      (
        c.booking,
        c.found,
        subst (λ n. 1 ≤ n) c.asked c.some_seats,
        subst (λ n. Returned i n db r db') c.asked (Cancelled-Returned r db' c),
      )

-- A booking of the caller that has ended is not cancelled again.
cancel-ended :
    (now actor i : ℕ) (asked : Option ℕ) (reason : Option Text) (db : Db) (b : Booking)
    → booking_by_id db i ≡ some b
    → holds b.passenger_user_id actor ≡ true
    → is_confirmed b.status ≡ false
    → cancel_passenger_booking now actor i asked reason db
      ≡ err (coded 409 booking_already_cancelled)
unfolding cancel_passenger_booking owned_booking check_cancellable
cancel-ended now actor i asked reason db b found owned ended = rw (found, owned, ended) refl

cancelled_row-owner :
    (now actor n : ℕ) (reason : Option Text) (b : Booking)
    → (cancelled_row now actor n reason b).passenger_user_id ≡ b.passenger_user_id
unfolding cancelled_row
cancelled_row-owner now actor n reason b = refl

-- A passenger who has cancelled all seats of a booking, by naming their number or none, cannot
-- cancel it again in the state that this leaves, at any time and for any number of seats: the second
-- request is refused with BOOKING_ALREADY_CANCELLED.
pub cancel-cancel :
    (now later actor i : ℕ) (first asked : Option ℕ) (reason again : Option Text) (db : Db)
    (b r : Booking) (db' : Db)
    → booking_by_id db i ≡ some b
    → get_or first b.seats ≡ b.seats
    → cancel_passenger_booking now actor i first reason db ≡ ok (r, db')
    → cancel_passenger_booking later actor i asked again db'
      ≡ err (coded 409 booking_already_cancelled)
cancel-cancel now later actor i first asked reason again db b r db' at all h =
    let c = cancel-Cancelled now actor i first reason db r db' h in
    let back = Cancelled-Returned now actor i first reason db r db' c in
    let same : c.booking ≡ b = cc (c.found, at) in
    let whole : c.seats ≡ (c.booking).seats =
      c.asked
      ∙ ap (λ (x : Booking). get_or first x.seats) same
      ∙ all
      ∙ ap (λ (x : Booking). x.seats) (sym same) in
    let owner =
      ap (λ (b : Booking). b.passenger_user_id) c.row
      ∙ cancelled_row-owner now actor c.seats reason c.booking in
    let ended : is_confirmed r.status ≡ false =
      rw c.row ((cancelled_row-status now actor c.seats reason c.booking c.enough).1 whole) in
    cancel-ended later actor i asked again db' r back.stored (rw owner c.owned) ended

pub reinstate-ok :
    (actor i : ℕ) (db : Db) (b : Booking) (trip : Trip) (bus : Bus)
    → booking_by_id db i ≡ some b
    → is_confirmed b.status ≡ false
    → trip_with_bus db b.trip_id ≡ some (trip, bus)
    → booked_seats trip.id db.bookings + b.seats ≤ bus.capacity
    → (db' : Db) × (reinstate actor i db ≡ ok (reinstated_row b, db'))
      × (db'.bookings ≡ update (has_id i) reinstated_row db.bookings)
unfolding reinstate
reinstate-ok actor i db b trip bus found ended on room =
    let fits : no_room db trip bus b ≡ false = ground arith in
    rw (found, ended, on, fits) (_, refl, refl)

pub force_cancelled_row-seats :
    (t now actor : ℕ) (reason : Text) (b : Booking)
    → is_confirmed b.status ≡ true
    → seats_on t (force_cancelled_row now actor reason b) + (if b.trip_id == t then b.seats else 0)
      ≡ seats_on t b
unfolding force_cancelled_row
force_cancelled_row-seats t now actor reason b h = ground arith

pub force_cancelled_row-kept :
    (i now actor : ℕ) (reason : Text) (b : Booking)
    → let f = force_cancelled_row now actor reason b in
      (f.trip_id ≡ b.trip_id)
      × (f.seats ≡ b.seats)
      × (is_confirmed f.status ≡ false)
      × (has_id i f ≡ has_id i b)
unfolding force_cancelled_row
force_cancelled_row-kept i now actor reason b = (refl, refl, refl, refl)
