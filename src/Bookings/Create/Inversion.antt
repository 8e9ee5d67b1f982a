-- ===== src/Bookings/Create/Inversion.antt =====
-- What a successful `createPassengerBooking` has passed through.
use waleed_bus.Base.{
  ℕ, ◌*◌, ◌≡◌, sym, ap, Bool, some, ok, >>=-eq-ok, ok_pair, require-eq-ok, trip_not_found,
}
use waleed_bus.Schema.{User, Trip, Bus, Db, Action, log, trip_with_bus}
use waleed_bus.Bookings.Create.Input.{CreatePassengerBooking}
use waleed_bus.Bookings.Create.Checks.{
  Traveller, verified_caller, check_bookable, check_stops, check_time_conflict, check_seat_limit,
  traveller_of, check_capacity,
}
use waleed_bus.Bookings.Create.Commit.{
  Price, CreatedBooking, price_of, booking_row, insert_booking, redeem, create_passenger_booking,
}

module _ (once : Bool) (fresh now actor : ℕ) (input : CreatePassengerBooking) (db : Db) where
  -- The checks that passed, the values that they produced, and the state that was committed.
  pub record Created (r : CreatedBooking) (db' : Db) : Type 0 where
    pub caller : User
    pub trip : Trip
    pub bus : Bus
    pub who : Traveller
    pub price : Price
    pub verified : verified_caller db actor ≡ ok caller
    pub found : trip_with_bus db input.trip_id ≡ some (trip, bus)
    pub bookable : check_bookable trip now ≡ ok tt
    pub stops : check_stops db trip input ≡ ok tt
    pub timely : check_time_conflict db trip actor input ≡ ok tt
    pub limited : check_seat_limit caller input.seat_count ≡ ok tt
    pub travels : traveller_of db caller input ≡ ok who
    pub fits : check_capacity db trip bus input.seat_count ≡ ok tt
    pub priced :
        price_of once db input.promo_code actor (trip.fare * input.seat_count) now ≡ ok price
    pub row : r.booking ≡ booking_row fresh now actor trip who price input
    pub state :
        db'
        ≡ log (some actor) Action.booking_create (some fresh) (
            redeem price actor fresh
              (insert_booking (booking_row fresh now actor trip who price input) db))

  pub create-Created :
      (r : CreatedBooking) (db' : Db)
      → create_passenger_booking once fresh now actor input db ≡ ok (r, db')
      → Created r db'
  unfolding create_passenger_booking
  create-Created r db' h =
      let (caller, e1, h1) = >>=-eq-ok (verified_caller db actor) _ h in
      let (found, e2, h2) =
        require-eq-ok (trip_with_bus db input.trip_id) 404 trip_not_found _ h1 in
      let (_, e3, h3) = >>=-eq-ok (check_bookable found.0 now) _ h2 in
      let (_, e4, h4) = >>=-eq-ok (check_stops db found.0 input) _ h3 in
      let (_, e5, h5) = >>=-eq-ok (check_time_conflict db found.0 actor input) _ h4 in
      let (_, e6, h6) = >>=-eq-ok (check_seat_limit caller input.seat_count) _ h5 in
      let (who, e7, h7) = >>=-eq-ok (traveller_of db caller input) _ h6 in
      let (_, e8, h8) = >>=-eq-ok (check_capacity db found.0 found.1 input.seat_count) _ h7 in
      let (price, e9, h9) =
        >>=-eq-ok (price_of once db input.promo_code actor ((found.0).fare * input.seat_count) now)
          _ h8 in
      record {
        caller = caller;
        trip = found.0;
        bus = found.1;
        who = who;
        price = price;
        verified = e1;
        found = e2;
        bookable = e3;
        stops = e4;
        timely = e5;
        limited = e6;
        travels = e7;
        fits = e8;
        priced = e9;
        row = sym (ap (λ (c : CreatedBooking). c.booking) (ok_pair h9).0);
        state = sym (ok_pair h9).1;
      }
