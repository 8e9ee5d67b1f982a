-- ===== src/Inventory/Readmit.antt =====
-- The reinstatement of a cancelled booking, and the seat inventory.
use waleed_bus.Base.{
  ℕ, ◌+◌, ◌≤◌, ◌≡◌, sym, ap, ◌∙◌, false, some, ◌==◌, ok, arith, inl, inr, Bool-cases, ==_iff,
  update, sum_of-update, if◌then◌else◌,
}
use waleed_bus.Schema.{
  Trip, Bus, Booking, Db, is_confirmed, has_id, trip_with_bus, seats_on, booked_seats,
  WithinCapacity, WithinCapacity-frame, trip_with_bus-id,
}
use waleed_bus.Admin.Lifecycle.{reinstated_row, reinstate}
use waleed_bus.Admin.Inversion.{Reinstated, reinstate-Reinstated}

-- A cancelled row takes no seat, and all of its seats once it is confirmed again.
seats_on-reinstated :
    (t : ℕ) (b : Booking)
    → is_confirmed b.status ≡ false
    → (seats_on t b ≡ 0) × (seats_on t (reinstated_row b) ≡ (if b.trip_id == t then b.seats else 0))
unfolding reinstated_row
seats_on-reinstated t b h = (ground arith, ground arith)

module _ (actor i : ℕ) (db : Db) (r : Booking) (db' : Db) (c : Reinstated actor i db r db') where
  open c use {booking, trip as booked, bus as on, found, cancelled, room}

  same_bus :
      (t : ℕ) (trip : Trip) (bus : Bus)
      → trip_with_bus db t ≡ some (trip, bus)
      → booking.trip_id ≡ t
      → (on ≡ bus) × (booked.id ≡ t)
  same_bus t trip bus g e =
      let again : trip_with_bus db t ≡ trip_with_bus db booking.trip_id =
        ap (trip_with_bus db) (sym e) in
      (cc (again, c.on, g), trip_with_bus-id db booking.trip_id booked on c.on ∙ e)

  grows :
      (t : ℕ) (trip : Trip) (bus : Bus)
      → trip_with_bus db t ≡ some (trip, bus)
      → booked_seats t db.bookings ≤ bus.capacity
      → booked_seats t db.bookings + (if booking.trip_id == t then booking.seats else 0)
        ≤ bus.capacity
  grows t trip bus g le = elim (Bool-cases (booking.trip_id == t)) [
    | inr other ↦ rw other (omega arith)
    | inl same ↦
        let e = same_bus t trip bus g ((==_iff booking.trip_id t).0 same) in
        rw (same, ← e.0, ← e.1) room
  ]

  bookings-after : db'.bookings ≡ update (has_id i) reinstated_row db.bookings
  bookings-after = ap (λ d. d.bookings) c.state

  Reinstated-WithinCapacity : WithinCapacity db → WithinCapacity db'
  Reinstated-WithinCapacity =
      WithinCapacity-frame db db' (ap (λ d. d.trips) c.state) (ap (λ d. d.buses) c.state)
        λ t trip bus g le.
          let free = seats_on-reinstated t booking cancelled in
          let moved =
            sum_of-update (seats_on t) (has_id i) reinstated_row db.bookings booking found in
          rw bookings-after (omega (arith, grows t trip bus g le, moved, free.0, free.1))

-- A reinstated booking finds its seats free.
pub reinstate-WithinCapacity :
    (actor i : ℕ) (db : Db) (r : Booking) (db' : Db)
    → reinstate actor i db ≡ ok (r, db')
    → WithinCapacity db
    → WithinCapacity db'
reinstate-WithinCapacity actor i db r db' h =
    Reinstated-WithinCapacity actor i db r db' (reinstate-Reinstated actor i db r db' h)
