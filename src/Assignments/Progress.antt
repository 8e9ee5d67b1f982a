-- ===== src/Assignments/Progress.antt =====
-- On the platform path the unique indexes refuse no assignment.
use waleed_bus.Base.{
  ℕ, ◌≡◌, refl, Bool, true, false, not, ◌&&◌, Option, some, none, List, [], ◌∷◌, ◌++◌, ◌==◌, find?,
  find?-holds, update_many, count, arith, ok, refuse_if, forbidden, is_none,
}
use waleed_bus.Base.Unique.{count-update_many_le, count-find?-none, find?-update_many_gone}
use waleed_bus.Schema.{
  Bus, BusAssignment, User, FleetMember, Db, bus_by_id, user_by_id, log, Action,
}
use waleed_bus.Driver.Anchor.{FleetContext, fleet_path}
use waleed_bus.Assignments.{
  active_on, active_of, seen, ended_row, end_prior, insert_active, new_assignment, put_assignment,
  live_row, assign, is_driver_member, invalidate_sessions, with_assignments,
}
use waleed_bus.Assignments.Single.{ended-unmet}

module _ (ctx : FleetContext) (now bus driver : ℕ) (platform : ctx.membership_id ≡ none) where
  freed :
      (rows : List BusAssignment)
      → (count (active_on bus) (end_prior ctx now bus driver rows) ≡ 0)
        × (count (active_of driver) (end_prior ctx now bus driver rows) ≡ 0)
  unfolding end_prior
  freed rows =
      let on = λ (a : BusAssignment). seen ctx a && active_on bus a in
      let of = λ (a : BusAssignment). seen ctx a && active_of driver a in
      let mid = update_many on (ended_row now) rows in
      let no_bus = count-find?-none (active_on bus) mid (
        find?-update_many_gone (active_on bus) on (ended_row now) (λ a met. rw (platform, met) refl)
          (λ a met. (ended-unmet now bus a).0) rows) in
      let fewer =
        count-update_many_le (active_on bus) of (ended_row now) (λ a met. (ended-unmet now bus a).0)
          mid in
      (
        omega arith,
        count-find?-none (active_of driver) (update_many of (ended_row now) mid) (
            find?-update_many_gone (active_of driver) of (ended_row now)
              (λ a met. rw (platform, met) refl) (λ a met. (ended-unmet now driver a).1) mid),
      )

  put_assignment-placed :
      (fresh actor : ℕ) (db : Db) (o : Option BusAssignment)
      → live_row ctx bus driver db ≡ o
      → (a : BusAssignment) × (d : Db) × (put_assignment ctx fresh now actor bus driver o db
          ≡ ok (a, d))
        × (a.bus_id ≡ bus)
        × (a.driver_user_id ≡ driver)
  unfolding put_assignment insert_active new_assignment
  put_assignment-placed fresh actor db (some live) e =
      let q = λ (r : BusAssignment). seen ctx r && active_on bus r && r.driver_user_id == driver in
      let met = find?-holds q db.assignments live e in (live, db, refl, ground arith, ground arith)
  put_assignment-placed fresh actor db none e =
      let rows = end_prior ctx now bus driver db.assignments in
      let (no_bus, no_driver) = freed db.assignments in
      let new = new_assignment fresh actor ctx.fleet_id bus driver in
      (new, with_assignments db (rows ++ new ∷ []), rw (no_bus, no_driver) refl, refl, refl)

  guard_open : (s t : Bool) → s ≡ true → refuse_if (t && not s) 403 forbidden ≡ ok tt
  guard_open true true h = refl
  guard_open true false h = refl
  guard_open false t h = cc

  path_open : ctx.is_super_admin ≡ true → fleet_path ctx ≡ ok tt
  unfolding fleet_path
  path_open admin = guard_open ctx.is_super_admin (is_none ctx.membership_id) admin

  assign-run :
      (fresh actor : ℕ) (db : Db) (u : User) (b : Bus) (m : FleetMember) (a : BusAssignment)
      (d : Db)
      → ctx.is_super_admin ≡ true
      → user_by_id db driver ≡ some u
      → u.is_active ≡ true
      → bus_by_id db bus ≡ some b
      → (b.fleet_id == ctx.fleet_id) ≡ true
      → find? (is_driver_member db driver ctx.fleet_id) db.members ≡ some m
      → put_assignment ctx fresh now actor bus driver (live_row ctx bus driver db) db ≡ ok (a, d)
      → assign fresh now ctx actor bus driver db
        ≡ ok (
          a,
          log (some actor) Action.driver_assign (some a.id) (invalidate_sessions now driver d),
        )
  unfolding assign
  assign-run fresh actor db u b m a d admin account live found own member put =
      rw (account, live, path_open admin, found, own, member, put) refl

  -- On the platform path an assignment always goes through: if the driver's account is active, the
  -- bus is of the fleet and the driver is an active member of it in a driver's role, then `assign`
  -- succeeds with an assignment of this driver to this bus, whoever operated the bus and whatever
  -- bus the driver operated, in this fleet or another.
  pub assign-placed_platform :
      (fresh actor : ℕ) (db : Db) (u : User) (b : Bus) (m : FleetMember)
      → ctx.is_super_admin ≡ true
      → user_by_id db driver ≡ some u
      → u.is_active ≡ true
      → bus_by_id db bus ≡ some b
      → b.fleet_id ≡ ctx.fleet_id
      → find? (is_driver_member db driver ctx.fleet_id) db.members ≡ some m
      → (a : BusAssignment) × (db' : Db) × (assign fresh now ctx actor bus driver db ≡ ok (a, db'))
        × (a.bus_id ≡ bus)
        × (a.driver_user_id ≡ driver)
  assign-placed_platform fresh actor db u b m admin account live found own member =
      let (a, d, put, at, by) =
        put_assignment-placed fresh actor db (live_row ctx bus driver db) refl in
      let same : (b.fleet_id == ctx.fleet_id) ≡ true = ground arith in
      (
        a,
        log (some actor) Action.driver_assign (some a.id) (invalidate_sessions now driver d),
        assign-run fresh actor db u b m a d admin account live found same member put,
        at,
        by,
      )
