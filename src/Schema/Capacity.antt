-- ===== src/Schema/Capacity.antt =====
-- The invariant of the seat inventory: no trip has sold more seats than its bus holds.
use waleed_bus.Base.{
  ℕ, ◌≤◌, ◌≡◌, refl, sym, ◌∙◌, Option, some, ◌==◌, arith, Option-cases, inl, inr, find?-holds,
}
use waleed_bus.Schema.Enums.{Action}
use waleed_bus.Schema.Tables.{Trip, Bus, Db}
use waleed_bus.Schema.Queries.{trip_by_id, bus_by_id, trip_with_bus, booked_seats, log}

abbrev pub WithinCapacity : Db → Type 0
WithinCapacity db =
    (t : ℕ) (trip : Trip) (bus : Bus)
    → trip_with_bus db t ≡ some (trip, bus)
    → booked_seats t db.bookings ≤ bus.capacity

-- The joined row is that of the trip that was asked for.
pub trip_with_bus-id :
    (db : Db) (t : ℕ) (trip : Trip) (bus : Bus)
    → trip_with_bus db t ≡ some (trip, bus)
    → trip.id ≡ t
unfolding trip_with_bus trip_by_id
trip_with_bus-id db t trip bus h = elim (Option-cases (trip_by_id db t)) [
  | inl missing ↦ ground arith
  | inr (found, e) ↦ ground (arith, find?-holds (λ (x : Trip). x.id == t) db.trips found e)
]

pub trip_with_bus-frame :
    (db db' : Db) (t : ℕ)
    → db'.trips ≡ db.trips
    → db'.buses ≡ db.buses
    → trip_with_bus db' t ≡ trip_with_bus db t
unfolding trip_with_bus trip_by_id bus_by_id
trip_with_bus-frame db db' t trips buses = rw (trips, buses)

-- A state with the same trips and buses is within capacity if no trip outgrows its bus.
pub WithinCapacity-frame :
    (db db' : Db)
    → db'.trips ≡ db.trips
    → db'.buses ≡ db.buses
    → ((t : ℕ) (trip : Trip) (bus : Bus)
        → trip_with_bus db t ≡ some (trip, bus)
        → booked_seats t db.bookings ≤ bus.capacity
        → booked_seats t db'.bookings ≤ bus.capacity)
    → WithinCapacity db
    → WithinCapacity db'
WithinCapacity-frame db db' trips buses grows inv t trip bus h =
    let g = sym (trip_with_bus-frame db db' t trips buses) ∙ h in
    grows t trip bus g (inv t trip bus g)

-- An audit entry changes no seat.
pub log-WithinCapacity :
    (actor : Option ℕ) (act : Action) (resource : Option ℕ) (db : Db)
    → WithinCapacity db
    → WithinCapacity (log actor act resource db)
log-WithinCapacity actor act resource db =
    WithinCapacity-frame db (log actor act resource db) refl refl (λ t trip bus g le. le)
