-- ===== src/Driver/Anchor.antt =====
-- src/driver-ops/driver-ops.service.ts: the anchor of every driver operation, and the path by which
-- it reaches the database (src/authorization/services/fleet-path.service.ts).
use waleed_bus.Base.{
  ℕ, Bool, not, ◌&&◌, ◌||◌, Option, none, some, ◌==◌, if◌then◌else◌, is_none, find?, Result, ok,
  ◌>>=◌, ◌>>◌, refuse_if, require, trip_access_denied, booking_not_on_trip, forbidden,
}
use waleed_bus.Schema.{Trip, Booking, BusAssignment, Db, is_active, trip_by_id, booking_by_id}

-- `FleetContext` with the verified role of the actor: the platform path has no membership.
pub record FleetContext : Type 0 where
  pub fleet_id : ℕ
  pub membership_id : Option ℕ
  pub is_super_admin : Bool

-- `FleetPathService.run`: which path an operation takes.
unfoldable pub fleet_path : FleetContext → Result (Unit {0})
fleet_path ctx = refuse_if (is_none ctx.membership_id && not ctx.is_super_admin) 403 forbidden

-- On the tenant path row level security shows the rows of the fleet alone.
abbrev pub sees : FleetContext → ℕ → Bool
sees ctx fleet = is_none ctx.membership_id || fleet == ctx.fleet_id

abbrev pub visible_booking : FleetContext → Option Booking → Option Booking
visible_booking ctx none = none
visible_booking ctx (some b) = if sees ctx b.fleet_id then some b else none

abbrev pub operates : ℕ → ℕ → ℕ → BusAssignment → Bool
operates bus driver fleet a =
    a.bus_id == bus && a.driver_user_id == driver && a.fleet_id == fleet && is_active a.status

-- The trip is of the fleet, and the driver is assigned to its bus.
unfoldable pub assert_trip : FleetContext → ℕ → ℕ → Db → Result Trip
assert_trip ctx driver trip_id db = do
  t ← require (trip_by_id db trip_id) 404 trip_access_denied
  refuse_if (not (t.fleet_id == ctx.fleet_id)) 404 trip_access_denied
  refuse_if (is_none (find? (operates t.bus_id driver ctx.fleet_id) db.assignments)) 404
      trip_access_denied
  ok t

-- The trip as above, and a booking on it.
unfoldable pub assert_assignment : FleetContext → ℕ → ℕ → ℕ → Db → Result (Trip × Booking)
assert_assignment ctx driver trip_id booking_id db = do
  t ← assert_trip ctx driver trip_id db
  b ← require (visible_booking ctx (booking_by_id db booking_id)) 404 booking_not_on_trip
  refuse_if (not (b.trip_id == t.id)) 404 booking_not_on_trip
  ok (t, b)
