-- ===== src/Assignments/Departure.antt =====
-- What a departure from the roster leaves the driver to do.
use waleed_bus.Base.{
  ℕ, ◌≡◌, refl, ap, sym, not, Option, some, none, inl, inr, List, ◌==◌, find?, update_many, arith,
  ok, err, coded, trip_access_denied, ok_eq, >>=-eq-ok, require-eq-ok, require, refuse_if, ◌>>=◌,
  is_none, Bool-cases,
}
use waleed_bus.Base.Unique.{find?-update_many_gone}
use waleed_bus.Schema.{BusAssignment, FleetMember, Trip, Db, trip_by_id}
use waleed_bus.Driver.Anchor.{FleetContext, fleet_path, assert_trip, operates}
use waleed_bus.Assignments.{ended_row, invalidate_sessions}
use waleed_bus.Assignments.Roster.{remove_driver, active_in, is_row_of}

operates_removed :
    (now bus driver fleet : ℕ) (rows : List BusAssignment)
    → find? (operates bus driver fleet) (update_many (active_in driver fleet) (ended_row now) rows)
      ≡ none
unfolding ended_row
operates_removed now bus driver fleet rows =
    find?-update_many_gone (operates bus driver fleet) (active_in driver fleet) (ended_row now)
      (λ a met. ground arith) (λ a met. ground arith) rows

remove_driver-rows :
    (now : ℕ) (ctx : FleetContext) (actor member : ℕ) (db : Db) (m : FleetMember) (db' : Db)
    → remove_driver now ctx actor member db ≡ ok (m, db')
    → update_many (active_in m.user_id ctx.fleet_id) (ended_row now) db.assignments
      ≡ db'.assignments
unfolding remove_driver invalidate_sessions
remove_driver-rows now ctx actor member db m db' h =
    let (_, _, h1) = >>=-eq-ok (fleet_path ctx) _ h in
    let (row, _, last) =
      require-eq-ok (find? (is_row_of member ctx.fleet_id) db.members) _ _ _ h1 in
    let same : row ≡ m = ap (λ (r : FleetMember × Db). r.0) (ok_eq last) in
    rw (sym same) (ap (λ (r : FleetMember × Db). (r.1).assignments) (ok_eq last))

module _ (ctx : FleetContext) (driver trip_id : ℕ) (db : Db) where
  not_operating :
      ((bus : ℕ) → find? (operates bus driver ctx.fleet_id) db.assignments ≡ none)
      → (o : Option Trip)
      → (require o 404 trip_access_denied >>= λ t.
          refuse_if (not (t.fleet_id == ctx.fleet_id)) 404 trip_access_denied >>= λ _.
          refuse_if
            (is_none (find? (operates t.bus_id driver ctx.fleet_id) db.assignments))
            404
            trip_access_denied
          >>= λ _. ok t)
        ≡ err (coded 404 trip_access_denied)
  not_operating k none = refl
  not_operating k (some t) = elim (Bool-cases (t.fleet_id == ctx.fleet_id)) [
    | inl own ↦ rw (own, k t.bus_id) refl
    | inr other ↦ rw other refl
  ]

-- A driver who has left the roster operates no trip of the fleet: after a removal that succeeds,
-- the anchor of every driver operation refuses the driver with TRIP_ACCESS_DENIED, for each trip
-- and each way to reach the fleet.
pub remove_driver-assert_trip :
    (now : ℕ) (ctx : FleetContext) (actor member : ℕ) (db : Db) (m : FleetMember) (db' : Db)
    → remove_driver now ctx actor member db ≡ ok (m, db')
    → (path : FleetContext) (trip_id : ℕ) → path.fleet_id ≡ ctx.fleet_id
    → assert_trip path m.user_id trip_id db' ≡ err (coded 404 trip_access_denied)
unfolding assert_trip
remove_driver-assert_trip now ctx actor member db m db' h path trip_id same =
    let rows = remove_driver-rows now ctx actor member db m db' h in
    not_operating path m.user_id trip_id db'
      (λ bus. rw (same, sym rows) (operates_removed now bus m.user_id ctx.fleet_id db.assignments))
      (trip_by_id db' trip_id)
