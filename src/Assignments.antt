-- ===== src/Assignments.antt =====
-- src/fleet-owner/driver-assignment.service.ts and `claimBus` of
-- src/driver-ops/driver-ops.service.ts: which driver operates which bus.
pub mod Single
pub mod View
pub mod Roster
pub mod Departure
pub mod Orphan
pub mod Progress
pub mod Step
pub mod Keys
pub mod Effect
pub mod History
use waleed_bus.Base.{
  ℕ, ◌+◌, Bool, true, false, not, ◌&&◌, ◌||◌, Option, none, some, List, [], ◌∷◌, ◌++◌, ◌==◌,
  if◌then◌else◌, is_none, find?, update, update_many, count, Result, ok, err, ◌>>=◌, ◌>>◌,
  refuse_if, require, coded, bus_access_denied, driver_assignment_not_allowed, forbidden,
  server_error,
}
use waleed_bus.Base.Text.{Text, text_eq}
use waleed_bus.Schema.{
  User, Session, Role, Fleet, FleetMember, Bus, BusAssignment, AssignmentStatus, Action, Db,
  is_active, is_member, user_by_id, bus_by_id, log,
}
use waleed_bus.Driver.Anchor.{FleetContext, fleet_path, sees}

-- "driver" and "independent_driver".
abbrev pub driver_slug : Text
driver_slug = b'd' ∷ b'r' ∷ b'i' ∷ b'v' ∷ b'e' ∷ b'r' ∷ []

abbrev pub independent_driver_slug : Text
independent_driver_slug =
    b'i' ∷ b'n' ∷ b'd' ∷ b'e' ∷ b'p' ∷ b'e' ∷ b'n' ∷ b'd' ∷ b'e' ∷ b'n' ∷ b't' ∷ b'_' ∷ driver_slug

-- `slug: { in: ['driver', 'independent_driver'] }`.
unfoldable pub is_driver_slug : Text → Bool
is_driver_slug s = text_eq s driver_slug || text_eq s independent_driver_slug

abbrev pub role_by_id : Db → ℕ → Option Role
role_by_id db i = find? (λ (r : Role). r.id == i) db.roles

abbrev pub drives : Option Role → Bool
drives none = false
drives (some r) = is_driver_slug r.slug && r.is_active

-- An active membership of the fleet in a driver's role.
abbrev pub is_driver_member : Db → ℕ → ℕ → FleetMember → Bool
is_driver_member db driver fleet m =
    m.user_id == driver
    && m.fleet_id == fleet
    && is_member m.status
    && drives (role_by_id db m.role_id)

-- The bus of this fleet: the tenant path shows no other, and the platform path filters.
abbrev pub bus_in_fleet : Option Bus → ℕ → Option Bus
bus_in_fleet none fleet = none
bus_in_fleet (some b) fleet = if b.fleet_id == fleet then some b else none

-- `{ busId, status: 'ACTIVE' }` and `{ driverUserId, status: 'ACTIVE' }`.
abbrev pub active_on : ℕ → BusAssignment → Bool
active_on bus a = a.bus_id == bus && is_active a.status

abbrev pub active_of : ℕ → BusAssignment → Bool
active_of driver a = a.driver_user_id == driver && is_active a.status

-- A row that the path of the context can see.
abbrev pub seen : FleetContext → BusAssignment → Bool
seen ctx a = sees ctx a.fleet_id

unfoldable pub ended_row : ℕ → BusAssignment → BusAssignment
ended_row now a = record a { status = AssignmentStatus.ended; ended_at = some now }

-- The prior rows of the bus end, and then those of the driver.
unfoldable pub end_prior : FleetContext → ℕ → ℕ → ℕ → List BusAssignment → List BusAssignment
end_prior ctx now bus driver rows =
    update_many (λ a. seen ctx a && active_of driver a) (ended_row now)
      (update_many (λ a. seen ctx a && active_on bus a) (ended_row now) rows)

-- The partial unique indexes: one active row for each bus, and one for each driver.
unfoldable pub insert_active : BusAssignment → List BusAssignment → Result (List BusAssignment)
insert_active new rows =
    if count (active_on new.bus_id) rows + count (active_of new.driver_user_id) rows == 0
    then ok (rows ++ new ∷ [])
    else err (coded 500 server_error)

unfoldable pub new_assignment : ℕ → ℕ → ℕ → ℕ → ℕ → BusAssignment
new_assignment fresh actor fleet bus driver = record {
  id = fresh;
  fleet_id = fleet;
  bus_id = bus;
  driver_user_id = driver;
  status = AssignmentStatus.active;
  assigned_by = some actor;
  ended_at = none;
}

abbrev pub with_assignments : Db → List BusAssignment → Db
with_assignments db rows = record db { assignments = rows }

-- What follows the checks: the live row as it is, or the prior rows ended and a new one.
unfoldable pub put_assignment :
    FleetContext → ℕ → ℕ → ℕ → ℕ → ℕ → Option BusAssignment → Db → Result (BusAssignment × Db)
put_assignment ctx fresh now actor bus driver (some live) db = ok (live, db)
put_assignment ctx fresh now actor bus driver none db = do
  let new = new_assignment fresh actor ctx.fleet_id bus driver
  rows ← insert_active new (end_prior ctx now bus driver db.assignments)
  ok (new, with_assignments db rows)

abbrev pub live_row : FleetContext → ℕ → ℕ → Db → Option BusAssignment
live_row ctx bus driver db =
    find? (λ a. seen ctx a && active_on bus a && a.driver_user_id == driver) db.assignments

-- `invalidateDriverSessions`: the tokens of the driver die.
unfoldable pub invalidate_sessions : ℕ → ℕ → Db → Db
invalidate_sessions now user db = record db {
  users =
      update (λ (u : User). u.id == user) (λ u. record u { auth_version = u.auth_version + 1 })
        db.users;
  sessions =
      update_many (λ (s : Session). s.user_id == user && is_none s.revoked_at)
        (λ s. record s { revoked_at = some now }) db.sessions;
}

abbrev pub is_live_user : Option User → Bool
is_live_user none = false
is_live_user (some u) = u.is_active

unfoldable pub assign : ℕ → ℕ → FleetContext → ℕ → ℕ → ℕ → Db → Result (BusAssignment × Db)
assign fresh now ctx actor bus driver db = do
  refuse_if (not (is_live_user (user_by_id db driver))) 409 driver_assignment_not_allowed
  fleet_path ctx
  b ← require (bus_in_fleet (bus_by_id db bus) ctx.fleet_id) 404 bus_access_denied
  refuse_if (is_none (find? (is_driver_member db driver ctx.fleet_id) db.members)) 409
      driver_assignment_not_allowed
  done ← put_assignment ctx fresh now actor bus driver (live_row ctx bus driver db) db
  ok (
    done.0,
    log (some actor) Action.driver_assign (some (done.0).id)
        (invalidate_sessions now driver done.1),
  )

abbrev pub owns : Option Fleet → ℕ → Bool
owns none actor = false
owns (some f) actor = f.owner_id == actor

-- An owner takes a bus of the own fleet.
unfoldable pub claim_bus : ℕ → ℕ → FleetContext → ℕ → ℕ → Db → Result (BusAssignment × Db)
claim_bus fresh now ctx actor bus db = do
  fleet_path ctx
  refuse_if (not (owns (find? (λ (f : Fleet). f.id == ctx.fleet_id) db.fleets) actor)) 403 forbidden
  b ← require (bus_in_fleet (bus_by_id db bus) ctx.fleet_id) 404 bus_access_denied
  refuse_if (is_none (find? (is_driver_member db actor ctx.fleet_id) db.members)) 409
      driver_assignment_not_allowed
  done ← put_assignment ctx fresh now actor bus actor (live_row ctx bus actor db) db
  ok (done.0, log (some actor) Action.driver_assign (some (done.0).id) done.1)

abbrev pub active_with_id : ℕ → BusAssignment → Bool
active_with_id i a = a.id == i && is_active a.status

unfoldable pub unassign : ℕ → FleetContext → ℕ → ℕ → Db → Result (BusAssignment × Db)
unassign now ctx actor bus db = do
  fleet_path ctx
  b ← require (bus_in_fleet (bus_by_id db bus) ctx.fleet_id) 404 bus_access_denied
  live ←
      require (find? (λ a. seen ctx a && active_on bus a) db.assignments) 404
        driver_assignment_not_allowed
  let ended = update_many (active_with_id live.id) (ended_row now) db.assignments
  ok (
    live,
    log (some actor) Action.driver_unassign (some live.id)
        (invalidate_sessions now live.driver_user_id (with_assignments db ended)),
  )
