-- ===== src/Buses.antt =====
-- src/fleet-owner/bus-lifecycle.service.ts and bus-trip-line.service.ts: the activity of a bus, and
-- the line that it serves.
pub mod Lifecycle
use waleed_bus.Base.{
  ℕ, Bool, true, false, not, ◌&&◌, Option, none, some, ◌==◌, if◌then◌else◌, is_none, is_some, find?,
  update, Result, ok, ◌>>=◌, ◌>>◌, refuse_if, require, bus_access_denied, bus_action_not_allowed,
  trip_line_not_available,
}
use waleed_bus.Schema.{Bus, Trip, TripStatus, Line, Action, Db, bus_by_id, log}
use waleed_bus.Driver.Anchor.{FleetContext, fleet_path, sees}
use waleed_bus.Assignments.{bus_in_fleet}

-- `findUnique({ id })`: the tenant path shows the buses of the fleet, the platform path shows all.
abbrev pub visible_bus : FleetContext → Option Bus → Option Bus
visible_bus ctx none = none
visible_bus ctx (some b) = if sees ctx b.fleet_id then some b else none

abbrev pub is_departed : TripStatus → Bool
is_departed TripStatus.departed = true
is_departed _ = false

-- A DEPARTED trip on the bus: both paths look among the trips of the fleet of the context.
abbrev pub departed_on : FleetContext → ℕ → Trip → Bool
departed_on ctx bus t = t.bus_id == bus && is_departed t.status && t.fleet_id == ctx.fleet_id

abbrev pub has_bus_id : ℕ → Bus → Bool
has_bus_id i b = b.id == i

unfoldable pub set_active : Bool → Bus → Bus
set_active v b = record b { is_active = v }

unfoldable pub set_line : Option ℕ → Bus → Bus
set_line l b = record b { line_id = l }

abbrev pub with_buses : Db → (Bus → Bus) → ℕ → Db
with_buses db f i = record db { buses = update (has_bus_id i) f db.buses }

unfoldable pub disable : FleetContext → ℕ → ℕ → Db → Result (Bus × Db)
disable ctx actor bus db = do
  fleet_path ctx
  b ← require (visible_bus ctx (bus_by_id db bus)) 404 bus_access_denied
  refuse_if (not b.is_active) 409 bus_action_not_allowed
  refuse_if (is_some (find? (departed_on ctx bus) db.trips)) 409 bus_action_not_allowed
  ok (
    set_active false b,
    log (some actor) Action.bus_disable (some bus) (with_buses db (set_active false) bus),
  )

unfoldable pub reactivate : FleetContext → ℕ → ℕ → Db → Result (Bus × Db)
reactivate ctx actor bus db = do
  fleet_path ctx
  b ← require (visible_bus ctx (bus_by_id db bus)) 404 bus_access_denied
  refuse_if b.is_active 409 bus_action_not_allowed
  ok (
    set_active true b,
    log (some actor) Action.bus_reactivate (some bus) (with_buses db (set_active true) bus),
  )

unfoldable pub assign_line : FleetContext → ℕ → ℕ → ℕ → Db → Result (Bus × Db)
assign_line ctx actor bus line db = do
  refuse_if (is_none (find? (λ (l : Line). l.id == line && l.is_active) db.lines)) 409
      trip_line_not_available
  fleet_path ctx
  b ← require (bus_in_fleet (bus_by_id db bus) ctx.fleet_id) 404 bus_access_denied
  ok (
    set_line (some line) b,
    log (some actor) Action.bus_line_assign (some bus) (with_buses db (set_line (some line)) bus),
  )

unfoldable pub unassign_line : FleetContext → ℕ → ℕ → Db → Result (Bus × Db)
unassign_line ctx actor bus db = do
  fleet_path ctx
  b ← require (bus_in_fleet (bus_by_id db bus) ctx.fleet_id) 404 bus_access_denied
  ok (
    set_line none b,
    log (some actor) Action.bus_line_unassign (some bus) (with_buses db (set_line none) bus),
  )
