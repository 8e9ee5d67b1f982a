-- ===== src/Inventory/Reserve.antt =====
-- `createPassengerBooking` and the seat inventory.
use waleed_bus.Base.{
  ℕ, ◌+◌, ◌≤◌, ◌≡◌, sym, ap, ◌∙◌, Bool, [], ◌∷◌, ◌++◌, some, ◌==◌, ok, arith, Bool-cases, ==_iff,
  inl, inr, sum_of, sum_of-append, if◌then◌else◌,
}
use waleed_bus.Schema.{
  Trip, Bus, Booking, Db, trip_with_bus, seats_on, booked_seats, WithinCapacity,
  WithinCapacity-frame, trip_with_bus-id,
}
use waleed_bus.Promotions.Resolve.{record_usage}
use waleed_bus.Bookings.Create.Input.{CreatePassengerBooking}
use waleed_bus.Bookings.Create.Checks.{Traveller, check_capacity}
use waleed_bus.Bookings.Create.Commit.{
  Price, CreatedBooking, booking_row, insert_booking, redeem, create_passenger_booking,
}
use waleed_bus.Bookings.Create.Inversion.{Created, create-Created}

-- A redemption writes its own table alone.
pub redeem-frame :
    (price : Price) (actor fresh : ℕ) (db : Db)
    → let db' = redeem price actor fresh db in
      (db'.trips ≡ db.trips) × (db'.buses ≡ db.buses) × (db'.bookings ≡ db.bookings)
unfolding redeem record_usage
redeem-frame price actor fresh db = ground arith

pub check_capacity-le :
    (db : Db) (trip : Trip) (bus : Bus) (n : ℕ)
    → check_capacity db trip bus n ≡ ok tt
    → booked_seats trip.id db.bookings + n ≤ bus.capacity
unfolding check_capacity
check_capacity-le db trip bus n h = ground arith

-- The seats of a trip after one row is added.
pub booked_seats-append :
    (t : ℕ) (b : Booking) (db : Db)
    → booked_seats t (db.bookings ++ b ∷ []) ≡ booked_seats t db.bookings + seats_on t b
unfolding sum_of
booked_seats-append t b db = omega (arith, sum_of-append (seats_on t) db.bookings (b ∷ []))

-- The new row takes its seats on its trip, and none on another.
seats_on-row :
    (t fresh now actor : ℕ) (trip : Trip) (who : Traveller) (price : Price)
    (input : CreatePassengerBooking)
    → seats_on t (booking_row fresh now actor trip who price input)
      ≡ (if trip.id == t then input.seat_count else 0)
unfolding booking_row
seats_on-row t fresh now actor trip who price input = ground arith

module _ (once : Bool) (fresh now actor : ℕ) (input : CreatePassengerBooking) (db : Db) where
  module _ (r : CreatedBooking) (db' : Db) (c : Created once fresh now actor input db r db') where
    open c use {trip as booked, bus as on, found, fits}

    -- The trip that is asked about is the one that was booked.
    same_bus :
        (t : ℕ) (trip : Trip) (bus : Bus)
        → trip_with_bus db t ≡ some (trip, bus)
        → booked.id ≡ t
        → on ≡ bus
    same_bus t trip bus g e =
        let asked = trip_with_bus-id db input.trip_id booked on found in
        let again : trip_with_bus db t ≡ trip_with_bus db input.trip_id =
          ap (trip_with_bus db) (sym e ∙ asked) in
        cc (again, found, g)

    grows :
        (t : ℕ) (trip : Trip) (bus : Bus)
        → trip_with_bus db t ≡ some (trip, bus)
        → booked_seats t db.bookings ≤ bus.capacity
        → booked_seats t db.bookings + (if booked.id == t then input.seat_count else 0)
          ≤ bus.capacity
    grows t trip bus g le = elim (Bool-cases (booked.id == t)) [
      | inr other ↦ rw other (omega arith)
      | inl same ↦
          let e = (==_iff booked.id t).0 same in
          rw (same, ← same_bus t trip bus g e, ← e)
            (check_capacity-le db booked on input.seat_count fits)
    ]

    Created-WithinCapacity : WithinCapacity db → WithinCapacity db'
    Created-WithinCapacity inv =
        let row = booking_row fresh now actor booked c.who c.price input in
        let frame = redeem-frame c.price actor fresh (insert_booking row db) in
        rw c.state (
          WithinCapacity-frame db _ frame.0 frame.1
            (λ t trip bus g le.
              rw
                (
                  frame.2,
                  booked_seats-append t row db,
                  seats_on-row t fresh now actor booked c.who c.price input,
                )
                (grows t trip bus g le))
            inv)

  -- A reservation never oversells a trip.
  pub create-WithinCapacity :
      (r : CreatedBooking) (db' : Db)
      → create_passenger_booking once fresh now actor input db ≡ ok (r, db')
      → WithinCapacity db
      → WithinCapacity db'
  create-WithinCapacity r db' h inv =
      Created-WithinCapacity r db' (create-Created once fresh now actor input db r db' h) inv
