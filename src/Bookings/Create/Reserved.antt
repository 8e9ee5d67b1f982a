-- ===== src/Bookings/Create/Reserved.antt =====
-- What a reservation that succeeds guarantees.
use waleed_bus.Base.{
  ℕ, ◌+◌, ◌*◌, ◌≤◌, ◌<◌, ◌%◌, ◌≡◌, refl, sym, ap, ◌∙◌, Bool, true, false, not, ◌||◌, some, [], ◌∷◌,
  ◌++◌, arith, ok, refuse_if-eq-ok, refuse_if-ok, require-eq-ok, is_none, leb, ◌==◌,
  phone_not_verified, trip_not_bookable, trip_already_started, trip_route_missing,
  invalid_trip_stops,
}
use waleed_bus.Base.Text.{truthy}
use waleed_bus.Schema.{
  User, Bus, Trip, Booking, Db, BookingStatus, PaymentStatus, is_scheduled, user_by_id,
  trip_with_bus, booked_seats,
}
use waleed_bus.Bookings.Stops.{route_stops, stops_invalid}
use waleed_bus.Bookings.Stops.Order.{CanTravel, stops_valid-CanTravel}
use waleed_bus.Bookings.Create.Input.{CreatePassengerBooking}
use waleed_bus.Bookings.Create.Checks.{
  Traveller, effective_max_booking_seats, verified_caller, check_bookable, check_stops,
  check_seat_limit,
}
use waleed_bus.Bookings.Create.Commit.{
  Price, CreatedBooking, payable_amount, booking_row, insert_booking, create_passenger_booking,
}
use waleed_bus.Bookings.Create.Inversion.{Created, create-Created}
use waleed_bus.Bookings.Create.Charge.{price_of-Charged, Charged-payable}
use waleed_bus.Inventory.Reserve.{redeem-frame, check_capacity-le}

verified_caller-ok :
    (db : Db) (actor : ℕ) (u : User)
    → verified_caller db actor ≡ ok u
    → (user_by_id db actor ≡ some u)
      × (is_none (truthy u.phone_number) ≡ false)
      × (is_none u.phone_verified_at ≡ false)
unfolding verified_caller
verified_caller-ok db actor u h =
    let (v, e1, h1) = require-eq-ok (user_by_id db actor) 403 phone_not_verified _ h in
    let (e2, h2) =
      refuse_if-eq-ok (is_none (truthy v.phone_number) || is_none v.phone_verified_at) 403
        phone_not_verified _ h1 in
    ground arith

check_bookable-ok :
    (trip : Trip) (now : ℕ)
    → check_bookable trip now ≡ ok tt
    → (is_scheduled trip.status ≡ true) × (now < trip.depart_at)
unfolding check_bookable
check_bookable-ok trip now h =
    let (e1, h1) = refuse_if-eq-ok (not (is_scheduled trip.status)) 409 trip_not_bookable _ h in
    let e2 = refuse_if-ok (leb trip.depart_at now) 409 trip_already_started h1 in
    (ground arith, ground arith)

check_stops-ok :
    (db : Db) (trip : Trip) (input : CreatePassengerBooking)
    → check_stops db trip input ≡ ok tt
    → (route : ℕ) × (trip.route_id ≡ some route)
      × CanTravel db route input.boarding_station_id input.landing_station_id
unfolding check_stops
check_stops-ok db trip input h =
    let (route, e1, h1) = require-eq-ok trip.route_id 409 trip_route_missing _ h in
    let (e2, h2) =
      refuse_if-eq-ok (input.boarding_station_id == input.landing_station_id) 422 invalid_trip_stops
        _ h1 in
    let valid =
      refuse_if-ok
        (stops_invalid (route_stops db route) input.boarding_station_id input.landing_station_id)
        422 invalid_trip_stops h2 in
    (
      route,
      e1,
      stops_valid-CanTravel db route input.boarding_station_id input.landing_station_id valid,
    )

check_seat_limit-le :
    (u : User) (n : ℕ)
    → check_seat_limit u n ≡ ok tt
    → n ≤ effective_max_booking_seats u.max_booking_seats
unfolding check_seat_limit
check_seat_limit-le u n h = ground arith

-- The row of a new booking, by its columns.
pub record IsNew (fresh actor : ℕ) (trip : Trip) (input : CreatePassengerBooking) (b : Booking)
    : Type 0 where
  pub id : b.id ≡ fresh
  pub trip_id : b.trip_id ≡ trip.id
  pub seats : b.seats ≡ input.seat_count
  pub status : b.status ≡ BookingStatus.confirmed
  pub payment : b.payment_status ≡ some PaymentStatus.pending
  pub booked_by : b.booked_by_user_id ≡ some actor
  pub boarding : b.boarding_station_id ≡ some input.boarding_station_id
  pub landing : b.landing_station_id ≡ some input.landing_station_id

booking_row-IsNew :
    (fresh now actor : ℕ) (trip : Trip) (who : Traveller) (price : Price)
    (input : CreatePassengerBooking)
    → IsNew fresh actor trip input (booking_row fresh now actor trip who price input)
unfolding booking_row
booking_row-IsNew fresh now actor trip who price input = ground arith

module _ (once : Bool) (fresh now actor : ℕ) (input : CreatePassengerBooking) (db : Db) where
  -- The caller is verified, the trip is open and still to depart, the stops can be travelled, the
  -- caller's limit and the bus admit the seats, and the new row is the one change of the table.
  pub record Reserved (b : Booking) (db' : Db) : Type 0 where
    pub caller : User
    pub trip : Trip
    pub bus : Bus
    pub called : user_by_id db actor ≡ some caller
    pub has_phone : is_none (truthy caller.phone_number) ≡ false
    pub verified : is_none caller.phone_verified_at ≡ false
    pub on : trip_with_bus db input.trip_id ≡ some (trip, bus)
    pub scheduled : is_scheduled trip.status ≡ true
    pub future : now < trip.depart_at
    pub route : ℕ
    pub routed : trip.route_id ≡ some route
    pub travels : CanTravel db route input.boarding_station_id input.landing_station_id
    pub limited : input.seat_count ≤ effective_max_booking_seats caller.max_booking_seats
    pub fits : booked_seats trip.id db.bookings + input.seat_count ≤ bus.capacity
    pub new : IsNew fresh actor trip input b
    pub appended : db'.bookings ≡ db.bookings ++ b ∷ []

  Created-Reserved :
      (r : CreatedBooking) (db' : Db)
      → Created once fresh now actor input db r db'
      → Reserved r.booking db'
  Created-Reserved r db' c =
      let row = booking_row fresh now actor c.trip c.who c.price input in
      let (called, has_phone, verified) = verified_caller-ok db actor c.caller c.verified in
      let (scheduled, future) = check_bookable-ok c.trip now c.bookable in
      let (route, routed, travels) = check_stops-ok db c.trip input c.stops in
      let frame = redeem-frame c.price actor fresh (insert_booking row db) in
      record {
        caller = c.caller;
        trip = c.trip;
        bus = c.bus;
        called = called;
        has_phone = has_phone;
        verified = verified;
        on = c.found;
        scheduled = scheduled;
        future = future;
        route = route;
        routed = routed;
        travels = travels;
        limited = check_seat_limit-le c.caller input.seat_count c.limited;
        fits = check_capacity-le db c.trip c.bus input.seat_count c.fits;
        new = rw c.row (booking_row-IsNew fresh now actor c.trip c.who c.price input);
        appended =
            ap (λ (d : Db). d.bookings) c.state
            ∙ frame.2
            ∙ ap (λ b. db.bookings ++ b ∷ []) (sym c.row);
      }

  -- A reservation that succeeds was made by a caller with a verified phone, for a scheduled trip
  -- that departs later, between two stops of its route in the order of travel, for no more seats
  -- than the caller's limit and than the bus has left; and its one change of the table of bookings
  -- is the new row, which is confirmed, unpaid, and holds the seats and the stops that were asked.
  pub create-Reserved :
      (r : CreatedBooking) (db' : Db)
      → create_passenger_booking once fresh now actor input db ≡ ok (r, db')
      → Reserved r.booking db'
  create-Reserved r db' h =
      Created-Reserved r db' (create-Created once fresh now actor input db r db' h)

  booking_row-total :
      (trip : Trip) (who : Traveller) (price : Price)
      → let b = booking_row fresh now actor trip who price input in
        (b.total_amount ≡ some (payable_amount price)) × (b.discount_amount ≡ price.discount_amount)
  unfolding booking_row
  booking_row-total trip who price = (refl, refl)

  -- With a fare in whole piastres, the amount that a new booking is to pay and its discount are
  -- together the fare of its seats.
  pub create-charge :
      (r : CreatedBooking) (db' : Db) (trip : Trip) (bus : Bus)
      → create_passenger_booking once fresh now actor input db ≡ ok (r, db')
      → trip_with_bus db input.trip_id ≡ some (trip, bus)
      → trip.fare * input.seat_count % 10 ≡ 0
      → (amount : ℕ) × (r.booking.total_amount ≡ some amount)
        × (amount + r.booking.discount_amount ≡ trip.fare * input.seat_count)
  create-charge r db' trip bus h on whole =
      let c = create-Created once fresh now actor input db r db' h in
      let same : c.trip ≡ trip = cc (c.found, on) in
      let total = (c.trip).fare * input.seat_count in
      let cost : total ≡ trip.fare * input.seat_count =
        ap (λ (t : Trip). t.fare * input.seat_count) same in
      let charged = price_of-Charged once db actor total now input.promo_code c.price c.priced in
      let made = Charged-payable once db actor total now c.price charged (rw cost whole) in
      let cols = booking_row-total c.trip c.who c.price in
      (
        payable_amount c.price,
        ap (λ (b : Booking). b.total_amount) c.row ∙ cols.0,
        omega (arith, made, cost, ap (λ (b : Booking). b.discount_amount) c.row, cols.1),
      )
