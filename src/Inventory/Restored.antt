-- ===== src/Inventory/Restored.antt =====
-- A forced cancellation and the reinstatement that follows it.
use waleed_bus.Base.{
  ℕ, ◌+◌, ◌≤◌, ◌≡◌, refl, sym, ap, ◌∙◌, Bool, true, false, some, ◌==◌, ok, arith, find?-update,
  find?-holds, sum_of-update, if◌then◌else◌, ==_refl,
}
use waleed_bus.Base.Text.{Text}
use waleed_bus.Schema.{
  Trip, Bus, Booking, Db, is_confirmed, has_id, booking_by_id, trip_with_bus, trip_with_bus-frame,
  trip_with_bus-id, seats_on, booked_seats, WithinCapacity,
}
use waleed_bus.Admin.Lifecycle.{force_cancelled_row, force_cancel, reinstated_row, reinstate}
use waleed_bus.Admin.Inversion.{force_cancel-ForceCancelled}
use waleed_bus.Inventory.Returned.{
  reinstate-ok, force_cancelled_row-seats, force_cancelled_row-kept,
}

ended_seats : (t : ℕ) (b : Booking) → is_confirmed b.status ≡ false → seats_on t b ≡ 0
ended_seats t b h = ground arith

back_seats :
    (t now actor : ℕ) (reason : Text) (b : Booking)
    → seats_on t (reinstated_row (force_cancelled_row now actor reason b))
      ≡ (if b.trip_id == t then b.seats else 0)
unfolding reinstated_row force_cancelled_row
back_seats t now actor reason b = ground arith

-- The seats of each trip are those of an earlier state.
abbrev pub SameSeats : Db → Db → Type 0
SameSeats db db' = (t : ℕ) → booked_seats t db'.bookings ≡ booked_seats t db.bookings

-- As long as no trip is oversold, the forced cancellation of a booking can be taken back at once:
-- the reinstatement succeeds, and every trip has the seats sold that it had before the two.
pub force_cancel-reinstate :
    (now actor other i : ℕ) (reason : Text) (db : Db) (b : Booking) (r : Booking × Bool) (db' : Db)
    (trip : Trip) (bus : Bus)
    → booking_by_id db i ≡ some b
    → trip_with_bus db b.trip_id ≡ some (trip, bus)
    → WithinCapacity db
    → force_cancel now actor i reason db ≡ ok (r, db')
    → (back : Booking) × (db'' : Db) × (reinstate other i db' ≡ ok (back, db'')) × SameSeats db db''
force_cancel-reinstate now actor other i reason db b r db' trip bus at on inv h =
    let c = force_cancel-ForceCancelled now actor i reason db r db' h in
    let same : c.booking ≡ b = cc (c.found, at) in
    let f = force_cancelled_row now actor reason in
    let confirmed : is_confirmed b.status ≡ true =
      sym (ap (λ (x : Booking). is_confirmed x.status) same) ∙ c.confirmed in
    let (trip_kept, seats_kept, ended, id) = force_cancelled_row-kept i now actor reason b in
    let rows = ap (λ (d : Db). d.bookings) c.state in
    let stored : booking_by_id db' i ≡ some (f b) =
      rw rows (
        find?-update (has_id i) f db.bookings b at
          (id ∙ find?-holds (has_id i) db.bookings b at)) in
    let on' : trip_with_bus db' (f b).trip_id ≡ some (trip, bus) =
      ap (trip_with_bus db') trip_kept
      ∙ trip_with_bus-frame db db' b.trip_id (ap (λ (d : Db). d.trips) c.state)
          (ap (λ (d : Db). d.buses) c.state)
      ∙ on in
    let freed : (t : ℕ)
        → booked_seats t db'.bookings + (if b.trip_id == t then b.seats else 0)
          ≡ booked_seats t db.bookings =
      λ t. rw rows (
        omega (
          arith,
          sum_of-update (seats_on t) (has_id i) f db.bookings b at,
          force_cancelled_row-seats t now actor reason b confirmed,
        )) in
    let e = trip_with_bus-id db b.trip_id trip bus on in
    let own : b.seats ≡ (if b.trip_id == trip.id then b.seats else 0) =
      rw (e, ==_refl b.trip_id) refl in
    let cap : booked_seats trip.id db.bookings ≤ bus.capacity = rw e (inv b.trip_id trip bus on) in
    let (db'', success, after) =
      reinstate-ok other i db' (f b) trip bus stored ended on'
        (omega (arith, freed trip.id, own, seats_kept, cap)) in
    (
      reinstated_row (f b),
      db'',
      success,
      λ t. rw after (
          omega (
            arith,
            freed t,
            back_seats t now actor reason b,
            sum_of-update (seats_on t) (has_id i) reinstated_row db'.bookings (f b) stored,
            ended_seats t (f b) ended,
          )),
    )
