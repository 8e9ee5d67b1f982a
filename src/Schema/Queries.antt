-- ===== src/Schema/Queries.antt =====
-- Queries that several services make: rows by their keys, the seats that a trip has sold, and
-- the capacity of its bus.
use waleed_bus.Base.{
  ℕ, Bool, ◌&&◌, Option, none, some, ◌++◌, [], ◌∷◌, List, ◌==◌, if◌then◌else◌, find?, sum_of,
}
use waleed_bus.Schema.Enums.{Action, is_confirmed}
use waleed_bus.Schema.Accounts.{User}
use waleed_bus.Schema.Tables.{Bus, Trip, Booking, Db}

abbrev pub has_id : ℕ → Booking → Bool
has_id i b = b.id == i

unfoldable pub user_by_id : Db → ℕ → Option User
user_by_id db i = find? (λ u. u.id == i) db.users

unfoldable pub trip_by_id : Db → ℕ → Option Trip
trip_by_id db i = find? (λ t. t.id == i) db.trips

unfoldable pub bus_by_id : Db → ℕ → Option Bus
bus_by_id db i = find? (λ b. b.id == i) db.buses

abbrev pub booking_by_id : Db → ℕ → Option Booking
booking_by_id db i = find? (has_id i) db.bookings

-- `SELECT … FROM trips t JOIN buses b ON b.id = t.bus_id WHERE t.id = …`.
unfoldable pub trip_with_bus : Db → ℕ → Option (Trip × Bus)
unfolding trip_by_id bus_by_id
trip_with_bus db i = elim (trip_by_id db i) [
  | none ↦ none
  | some t ↦ elim (bus_by_id db t.bus_id) [ none ↦ none | some b ↦ some (t, b) ]
]

-- The seats that a booking takes on the trip: those of its confirmed rows.
abbrev pub seats_on : ℕ → Booking → ℕ
seats_on t b = if b.trip_id == t && is_confirmed b.status then b.seats else 0

-- `aggregate({ where: { tripId, status: 'CONFIRMED' }, _sum: { seats: true } })`.
abbrev pub booked_seats : ℕ → List Booking → ℕ
booked_seats t bs = sum_of (seats_on t) bs

-- `AuditService.log`: the trail grows by an entry. A failed write is swallowed there, and changes
-- nothing that another operation reads.
abbrev pub log : Option ℕ → Action → Option ℕ → Db → Db
log actor act resource db = record db {
  audits = db.audits ++ record { actor_user_id = actor; action = act; resource_id = resource } ∷ [];
}
