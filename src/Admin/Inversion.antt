-- ===== src/Admin/Inversion.antt =====
-- What the operations of the administrators have passed through when they succeed.
use waleed_bus.Base.{
  ℕ, ◌+◌, ◌≤◌, ◌≡◌, sym, Bool, true, false, not, some, is_none, update, ok, arith, refuse_if-eq-ok,
  require-eq-ok, ok_pair, booking_not_found, booking_already_cancelled, booking_not_cancelled,
  trip_not_found, seats_unavailable, justification_required,
}
use waleed_bus.Base.Text.{Text, trimmed}
use waleed_bus.Schema.{
  Trip, Bus, Booking, Db, Action, is_confirmed, has_id, booking_by_id, trip_by_id, trip_with_bus,
  booked_seats, log,
}
use waleed_bus.Admin.Lifecycle.{
  force_cancelled_row, departs_later, force_cancel, reinstated_row, no_room, reinstate,
  OperationalOverride, overridden_row, override_operational,
}

module _ (now actor i : ℕ) (reason : Text) (db : Db) where
  pub record ForceCancelled (r : Booking × Bool) (db' : Db) : Type 0 where
    pub booking : Booking
    pub trip : Trip
    pub found : booking_by_id db i ≡ some booking
    pub on : trip_by_id db booking.trip_id ≡ some trip
    pub confirmed : is_confirmed booking.status ≡ true
    pub row : r ≡ (force_cancelled_row now actor reason booking, departs_later trip now)
    pub state :
        db'
        ≡ log (some actor) Action.booking_force_cancel (some i) (record db {
          bookings = update (has_id i) (force_cancelled_row now actor reason) db.bookings;
        })

  pub force_cancel-ForceCancelled :
      (r : Booking × Bool) (db' : Db)
      → force_cancel now actor i reason db ≡ ok (r, db')
      → ForceCancelled r db'
  unfolding force_cancel
  force_cancel-ForceCancelled r db' h =
      let (b, e1, h1) = require-eq-ok (booking_by_id db i) 404 booking_not_found _ h in
      let (t, e2, h2) = require-eq-ok (trip_by_id db b.trip_id) 404 booking_not_found _ h1 in
      let (e3, h3) =
        refuse_if-eq-ok (not (is_confirmed b.status)) 409 booking_already_cancelled _ h2 in
      record {
        booking = b;
        trip = t;
        found = e1;
        on = e2;
        confirmed = ground arith;
        row = sym (ok_pair h3).0;
        state = sym (ok_pair h3).1;
      }

module _ (actor i : ℕ) (db : Db) where
  pub record Reinstated (r : Booking) (db' : Db) : Type 0 where
    pub booking : Booking
    pub trip : Trip
    pub bus : Bus
    pub found : booking_by_id db i ≡ some booking
    pub cancelled : is_confirmed booking.status ≡ false
    pub on : trip_with_bus db booking.trip_id ≡ some (trip, bus)
    pub room : booked_seats trip.id db.bookings + booking.seats ≤ bus.capacity
    pub row : r ≡ reinstated_row booking
    pub state :
        db'
        ≡ log
            (some actor)
            Action.booking_reinstate
            (some i)
            (record db { bookings = update (has_id i) reinstated_row db.bookings })

  pub reinstate-Reinstated :
      (r : Booking) (db' : Db) → reinstate actor i db ≡ ok (r, db') → Reinstated r db'
  unfolding reinstate
  reinstate-Reinstated r db' h =
      let (b, e1, h1) = require-eq-ok (booking_by_id db i) 404 booking_not_found _ h in
      let (e2, h2) = refuse_if-eq-ok (is_confirmed b.status) 409 booking_not_cancelled _ h1 in
      let (found, e3, h3) = require-eq-ok (trip_with_bus db b.trip_id) 404 trip_not_found _ h2 in
      let (e4, h4) = refuse_if-eq-ok (no_room db found.0 found.1 b) 409 seats_unavailable _ h3 in
      record {
        booking = b;
        trip = found.0;
        bus = found.1;
        found = e1;
        cancelled = e2;
        on = e3;
        room = ground arith;
        row = sym (ok_pair h4).0;
        state = sym (ok_pair h4).1;
      }

module _ (now actor i : ℕ) (o : OperationalOverride) (db : Db) where
  pub record Overridden (r : Booking) (db' : Db) : Type 0 where
    pub booking : Booking
    pub justified : is_none (trimmed o.justification) ≡ false
    pub found : booking_by_id db i ≡ some booking
    pub row : r ≡ overridden_row o now actor booking
    pub state :
        db'
        ≡ log
            (some actor)
            Action.booking_override_operational
            (some i)
            (record db { bookings = update (has_id i) (overridden_row o now actor) db.bookings })

  pub override-Overridden :
      (r : Booking) (db' : Db)
      → override_operational now actor i o db ≡ ok (r, db')
      → Overridden r db'
  unfolding override_operational
  override-Overridden r db' h =
      let (e1, h1) =
        refuse_if-eq-ok (is_none (trimmed o.justification)) 400 justification_required _ h in
      let (b, e2, h2) = require-eq-ok (booking_by_id db i) 404 booking_not_found _ h1 in
      record {
        booking = b;
        justified = e1;
        found = e2;
        row = sym (ok_pair h2).0;
        state = sym (ok_pair h2).1;
      }
