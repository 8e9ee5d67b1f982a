-- ===== src/Driver/Inversion.antt =====
-- What the driver's operations have passed through when they succeed.
use waleed_bus.Base.{
  ℕ, ◌≡◌, sym, ap, subst, ◌∙◌, true, false, not, ◌||◌, Option, some, ◌==◌, is_none, find?, ok,
  arith, >>=-eq-ok, refuse_if-eq-ok, require-eq-ok, ok_pair, ok_eq, trip_access_denied,
  booking_not_on_trip, invalid_trip_state, invalid_dropoff_state, payment_not_allowed,
}
use waleed_bus.Schema.{
  Trip, Booking, Db, DropStatus, PaymentStatus, PaymentMethod, Action, trip_cancelled, is_confirmed,
  trip_by_id, booking_by_id, log,
}
use waleed_bus.Driver.Anchor.{
  FleetContext, fleet_path, operates, visible_booking, assert_trip, assert_assignment,
}
use waleed_bus.Driver.Board.{board_row, board}
use waleed_bus.Driver.DropOff.{DropOff, check_drop_off, drop_row, drop_off}
use waleed_bus.Driver.CashPayment.{other_method, pay_row, cash_payment}

-- The driver operates the bus of the trip, in the fleet of the context.
abbrev pub OnTrip : FleetContext → ℕ → ℕ → Db → Trip → Type 0
OnTrip ctx driver trip_id db t =
    (trip_by_id db trip_id ≡ some t)
    × (t.fleet_id ≡ ctx.fleet_id)
    × (is_none (find? (operates t.bus_id driver ctx.fleet_id) db.assignments) ≡ false)

pub assert_trip-OnTrip :
    (ctx : FleetContext) (driver trip_id : ℕ) (db : Db) (t : Trip)
    → assert_trip ctx driver trip_id db ≡ ok t
    → OnTrip ctx driver trip_id db t
unfolding assert_trip
assert_trip-OnTrip ctx driver trip_id db t h =
    let (u, e1, h1) = require-eq-ok (trip_by_id db trip_id) 404 trip_access_denied _ h in
    let (e2, h2) = refuse_if-eq-ok (not (u.fleet_id == ctx.fleet_id)) 404 trip_access_denied _ h1 in
    let (e3, h3) =
      refuse_if-eq-ok (is_none (find? (operates u.bus_id driver ctx.fleet_id) db.assignments)) 404
        trip_access_denied _ h2 in
    subst (OnTrip ctx driver trip_id db) (ok_eq h3) (e1, ground arith, e3)

-- The same, and the booking is on the trip.
abbrev pub Anchored : FleetContext → ℕ → ℕ → ℕ → Db → Trip → Booking → Type 0
Anchored ctx driver trip_id i db t b =
    OnTrip ctx driver trip_id db t × (booking_by_id db i ≡ some b) × (b.trip_id ≡ t.id)

visible_booking-some :
    (ctx : FleetContext) (o : Option Booking) (b : Booking)
    → visible_booking ctx o ≡ some b
    → o ≡ some b
visible_booking-some ctx o b h = ground arith

pub assert_assignment-Anchored :
    (ctx : FleetContext) (driver trip_id i : ℕ) (db : Db) (found : Trip × Booking)
    → assert_assignment ctx driver trip_id i db ≡ ok found
    → Anchored ctx driver trip_id i db found.0 found.1
unfolding assert_assignment
assert_assignment-Anchored ctx driver trip_id i db found h =
    let (t, e1, h1) = >>=-eq-ok (assert_trip ctx driver trip_id db) _ h in
    let (b, e2, h2) =
      require-eq-ok (visible_booking ctx (booking_by_id db i)) 404 booking_not_on_trip _ h1 in
    let (e3, h3) = refuse_if-eq-ok (not (b.trip_id == t.id)) 404 booking_not_on_trip _ h2 in
    subst (λ f. Anchored ctx driver trip_id i db f.0 f.1) (ok_eq h3)
      (assert_trip-OnTrip ctx driver trip_id db t e1, visible_booking-some ctx _ b e2, ground arith)

module _ (now : ℕ) (ctx : FleetContext) (actor trip_id i : ℕ) (db : Db) where
  pub record Boarded (r : Option ℕ) (db' : Db) : Type 0 where
    pub trip : Trip
    pub booking : Booking
    pub written : Db
    pub anchored : Anchored ctx actor trip_id i db trip booking
    pub running : trip_cancelled trip.status ≡ false
    pub confirmed : is_confirmed booking.status ≡ true
    pub row : board_row now actor booking db ≡ ok (r, written)
    pub state : db' ≡ log (some actor) Action.driver_board (some i) written

  pub board-Boarded :
      (r : Option ℕ) (db' : Db) → board now ctx actor trip_id i db ≡ ok (r, db') → Boarded r db'
  unfolding board
  board-Boarded r db' h =
      let (_, e0, h0) = >>=-eq-ok (fleet_path ctx) _ h in
      let (found, e1, h1) = >>=-eq-ok (assert_assignment ctx actor trip_id i db) _ h0 in
      let (e2, h2) =
        refuse_if-eq-ok (trip_cancelled (found.0).status) 409 invalid_trip_state _ h1 in
      let (e3, h3) =
        refuse_if-eq-ok (not (is_confirmed (found.1).status)) 409 invalid_trip_state _ h2 in
      let (done, e4, h4) = >>=-eq-ok (board_row now actor found.1 db) _ h3 in
      record {
        trip = found.0;
        booking = found.1;
        written = done.1;
        anchored = assert_assignment-Anchored ctx actor trip_id i db found e1;
        running = e2;
        confirmed = ground arith;
        row = e4 ∙ ap (λ x. ok (x, done.1)) (ok_pair h4).0;
        state = sym (ok_pair h4).1;
      }

module _ (now : ℕ) (ctx : FleetContext) (actor trip_id i : ℕ) (input : DropOff) (db : Db) where
  pub record Dropped (r : DropStatus × Option ℕ) (db' : Db) : Type 0 where
    pub trip : Trip
    pub booking : Booking
    pub written : Db
    pub complete : check_drop_off input ≡ ok tt
    pub anchored : Anchored ctx actor trip_id i db trip booking
    pub boarded : is_none booking.boarded_at ≡ false
    pub row : drop_row now input booking db ≡ ok (r, written)
    pub state : db' ≡ log (some actor) Action.driver_dropoff (some i) written

  pub drop_off-Dropped :
      (r : DropStatus × Option ℕ) (db' : Db)
      → drop_off now ctx actor trip_id i input db ≡ ok (r, db')
      → Dropped r db'
  unfolding drop_off
  drop_off-Dropped r db' h =
      let (_, e, h') = >>=-eq-ok (check_drop_off input) _ h in
      let (_, e0, h0) = >>=-eq-ok (fleet_path ctx) _ h' in
      let (found, e1, h1) = >>=-eq-ok (assert_assignment ctx actor trip_id i db) _ h0 in
      let (e2, h2) =
        refuse_if-eq-ok (is_none (found.1).boarded_at) 409 invalid_dropoff_state _ h1 in
      let (done, e3, h3) = >>=-eq-ok (drop_row now input found.1 db) _ h2 in
      record {
        trip = found.0;
        booking = found.1;
        written = done.1;
        complete = e;
        anchored = assert_assignment-Anchored ctx actor trip_id i db found e1;
        boarded = e2;
        row = e3 ∙ ap (λ x. ok (x, done.1)) (ok_pair h3).0;
        state = sym (ok_pair h3).1;
      }

module _ (now : ℕ) (ctx : FleetContext) (actor trip_id i : ℕ) (method : PaymentMethod)
    (db : Db) where
  pub record Paid (r : Option PaymentStatus × Option ℕ) (db' : Db) : Type 0 where
    pub trip : Trip
    pub booking : Booking
    pub written : Db
    pub anchored : Anchored ctx actor trip_id i db trip booking
    pub boarded : is_none booking.boarded_at ≡ false
    pub confirmed : is_confirmed booking.status ≡ true
    pub agreed : other_method booking.payment_method method ≡ false
    pub row : pay_row now actor method booking db ≡ ok (r, written)
    pub state : db' ≡ log (some actor) Action.driver_payment (some i) written

  pub cash_payment-Paid :
      (r : Option PaymentStatus × Option ℕ) (db' : Db)
      → cash_payment now ctx actor trip_id i method db ≡ ok (r, db')
      → Paid r db'
  unfolding cash_payment
  cash_payment-Paid r db' h =
      let (_, e0, h0) = >>=-eq-ok (fleet_path ctx) _ h in
      let (found, e1, h1) = >>=-eq-ok (assert_assignment ctx actor trip_id i db) _ h0 in
      let (e2, h2) =
        refuse_if-eq-ok (is_none (found.1).boarded_at || not (is_confirmed (found.1).status)) 409
          payment_not_allowed _ h1 in
      let (e3, h3) =
        refuse_if-eq-ok (other_method (found.1).payment_method method) 409 payment_not_allowed _
          h2 in
      let (done, e4, h4) = >>=-eq-ok (pay_row now actor method found.1 db) _ h3 in
      record {
        trip = found.0;
        booking = found.1;
        written = done.1;
        anchored = assert_assignment-Anchored ctx actor trip_id i db found e1;
        boarded = ground arith;
        confirmed = ground arith;
        agreed = e3;
        row = e4 ∙ ap (λ x. ok (x, done.1)) (ok_pair h4).0;
        state = sym (ok_pair h4).1;
      }
