-- ===== src/Trips/Edit.antt =====
-- src/trips/trips.service.ts: the trips that a fleet creates and changes.
use waleed_bus.Base.{
  ℕ, Bool, false, not, ◌&&◌, Option, none, some, List, [], ◌∷◌, ◌++◌, ◌==◌, is_none, find?, update,
  Result, ok, ◌>>=◌, ◌>>◌, refuse_if, require, not_found, server_error, route_not_assigned_to_bus,
}
use waleed_bus.Base.Text.{Text}
use waleed_bus.Schema.{Bus, Trip, TripStatus, Route, Db, bus_by_id}
use waleed_bus.Driver.Anchor.{FleetContext, fleet_path}
use waleed_bus.Assignments.{bus_in_fleet}

-- `CreateTripInput`, with the status that the column defaults to.
pub record TripInput : Type 0 where
  pub bus_id : ℕ
  pub origin : Text
  pub destination : Text
  pub depart_at : ℕ
  pub status : Option TripStatus
  pub route_id : Option ℕ
  pub fare : Option ℕ

abbrev pub or_else : {A : Type 0} → Option A → A → A
or_else none a = a
or_else (some x) a = x

abbrev pub is_line : Option ℕ → ℕ → Bool
is_line none line = false
is_line (some l) line = l == line

-- The route is active and of the line of the bus.
unfoldable pub route_for : Db → Bus → Option ℕ → Result (Option Route)
route_for db b none = ok none
route_for db b (some i) = do
  r ←
      require (find? (λ (r : Route). r.id == i && r.is_active) db.routes) 422
        route_not_assigned_to_bus
  refuse_if (not (is_line b.line_id r.line_id)) 422 route_not_assigned_to_bus
  ok (some r)

abbrev pub origin_of : Option Route → Text → Text
origin_of none text = text
origin_of (some r) text = r.origin

abbrev pub destination_of : Option Route → Text → Text
destination_of none text = text
destination_of (some r) text = r.destination

unfoldable pub new_trip : ℕ → ℕ → TripInput → Option Route → Trip
new_trip fresh fleet input r = record {
  id = fresh;
  fleet_id = fleet;
  bus_id = input.bus_id;
  depart_at = input.depart_at;
  origin = origin_of r input.origin;
  destination = destination_of r input.destination;
  route_id = input.route_id;
  fare = or_else input.fare 0;
  status = or_else input.status TripStatus.scheduled;
}

abbrev pub with_trips : Db → List Trip → Db
with_trips db ts = record db { trips = ts }

unfoldable pub create_trip : ℕ → FleetContext → TripInput → Db → Result (Trip × Db)
create_trip fresh ctx input db = do
  fleet_path ctx
  b ← require (bus_in_fleet (bus_by_id db input.bus_id) ctx.fleet_id) 404 not_found
  r ← route_for db b input.route_id
  let t = new_trip fresh ctx.fleet_id input r
  ok (t, with_trips db (db.trips ++ t ∷ []))

abbrev pub trip_of : ℕ → ℕ → Trip → Bool
trip_of i fleet t = t.id == i && t.fleet_id == fleet

-- `findOne`.
unfoldable pub find_trip : FleetContext → ℕ → Db → Result Trip
find_trip ctx i db = do
  fleet_path ctx
  require (find? (trip_of i ctx.fleet_id) db.trips) 404 not_found

-- `UpdateTripInput`.
pub record TripChanges : Type 0 where
  pub origin : Option Text
  pub destination : Option Text
  pub depart_at : Option ℕ
  pub status : Option TripStatus
  pub route_id : Option ℕ
  pub fare : Option ℕ

unfoldable pub changed_trip : TripChanges → Trip → Trip
changed_trip c t = record t {
  origin = or_else c.origin t.origin;
  destination = or_else c.destination t.destination;
  depart_at = or_else c.depart_at t.depart_at;
  status = or_else c.status t.status;
  route_id = elim c.route_id [ none ↦ t.route_id | some r ↦ some r ];
  fare = or_else c.fare t.fare;
}

-- The new route must exist, and nothing else is asked of it.
abbrev pub missing_route : Db → Option ℕ → Bool
missing_route db none = false
missing_route db (some i) = is_none (find? (λ (r : Route). r.id == i) db.routes)

unfoldable pub update_trip : FleetContext → ℕ → TripChanges → Db → Result (Trip × Db)
update_trip ctx i changes db = do
  t ← find_trip ctx i db
  refuse_if (missing_route db changes.route_id) 500 server_error
  ok (
    changed_trip changes t,
    with_trips db (update (λ (o : Trip). o.id == i) (changed_trip changes) db.trips),
  )
