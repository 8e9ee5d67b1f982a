-- ===== src/Assignments/Effect.antt =====
-- What one call leaves of the assignments.
use waleed_bus.Base.{
  ℕ, suc, ◌≡◌, refl, subst, ◌&&◌, Option, some, none, find?, find?-holds, arith, Result, ok, err,
  is_ok, if◌then◌else◌, ok_eq, >>=-eq-ok, require-eq-ok,
}
use waleed_bus.Schema.{BusAssignment, FleetMember, Db}
use waleed_bus.Driver.Anchor.{FleetContext, fleet_path}
use waleed_bus.Assignments.{
  active_on, seen, end_prior, insert_active, put_assignment, new_assignment, unassign, live_row,
  invalidate_sessions,
}
use waleed_bus.Assignments.Roster.{remove_driver, is_row_of}
use waleed_bus.Assignments.Single.{
  ended-SingleActive, unassign-ended, put_assignment-SingleActive, insert_active_unique,
}
use waleed_bus.Assignments.View.{operator, put_assignment-moved}
use waleed_bus.Assignments.Step.{Keyed, WellFormed, Label, Step, departure, after}
use waleed_bus.Assignments.Keys.{
  ended-Keyed, later-Keyed, append-Keyed, unassigned-vacated, removed-quit,
}

-- What a call leaves: the rows well formed, and the view a step of the label further.
abbrev pub Effect : ℕ → Label → Db → Db → Type 0
Effect next l db db' =
    WellFormed (suc next) db'.assignments
    × Step l (operator db.assignments) (operator db'.assignments)

unchanged : (next : ℕ) (db : Db) → WellFormed next db.assignments → Effect next Label.idle db db
unchanged next db h = ((h.0, later-Keyed next db.assignments h.1), λ b. refl)

pub after-Effect :
    {A : Type 0} (next : ℕ) (l : Label) (m : Result (A × Db)) (db : Db)
    → WellFormed next db.assignments
    → ((a : A) (db' : Db) → m ≡ ok (a, db') → Effect next l db db')
    → Effect next (if is_ok m then l else Label.idle) db (after m db)
after-Effect next l (ok (a, db')) db h k = k a db' refl
after-Effect next l (err e) db h k = unchanged next db h

put_assignment-Keyed :
    (ctx : FleetContext) (next now actor bus driver : ℕ) (live : Option BusAssignment) (db : Db)
    (a : BusAssignment) (db' : Db)
    → put_assignment ctx next now actor bus driver live db ≡ ok (a, db')
    → Keyed next db.assignments
    → Keyed (suc next) db'.assignments
unfolding put_assignment insert_active end_prior new_assignment
put_assignment-Keyed ctx next now actor bus driver (some live) db a db' h keyed =
    subst (λ (r : BusAssignment × Db). Keyed (suc next) (r.1).assignments) (ok_eq h)
      (later-Keyed next db.assignments keyed)
put_assignment-Keyed ctx next now actor bus driver none db a db' h keyed =
    let new = new_assignment next actor ctx.fleet_id bus driver in
    let (rows, inserted, last) =
      >>=-eq-ok (insert_active new (end_prior ctx now bus driver db.assignments)) _ h in
    let (_, _, e) = insert_active_unique new _ rows inserted in
    subst (λ (r : BusAssignment × Db). Keyed (suc next) (r.1).assignments) (ok_eq last)
      (subst (λ rs. Keyed (suc next) rs) e
        (append-Keyed next new (end_prior ctx now bus driver db.assignments) refl
          (ended-Keyed next now _ _ (ended-Keyed next now _ db.assignments keyed))))

-- A placement moves the driver to the bus.
pub placed-Effect :
    (ctx : FleetContext) (next now actor bus driver : ℕ) (db : Db) (a : BusAssignment)
    (mid db' : Db)
    → put_assignment ctx next now actor bus driver (live_row ctx bus driver db) db ≡ ok (a, mid)
    → mid.assignments ≡ db'.assignments
    → WellFormed next db.assignments
    → Effect next (Label.placed bus driver) db db'
placed-Effect ctx next now actor bus driver db a mid db' put same h =
    let single = put_assignment-SingleActive ctx next now actor bus driver _ db a mid put h.0 in
    let keyed = put_assignment-Keyed ctx next now actor bus driver _ db a mid put h.1 in
    (
      subst (λ rs. WellFormed (suc next) rs) same (single, keyed),
      subst (λ rs. Step (Label.placed bus driver) (operator db.assignments) (operator rs)) same
          (put_assignment-moved ctx next now actor bus driver db a mid put h.0),
    )

pub unassign-Effect :
    (next now : ℕ) (ctx : FleetContext) (actor bus : ℕ) (db : Db) (a : BusAssignment) (db' : Db)
    → unassign now ctx actor bus db ≡ ok (a, db')
    → WellFormed next db.assignments
    → Effect next (Label.freed bus) db db'
unassign-Effect next now ctx actor bus db a db' h well =
    let (found, same) = unassign-ended now ctx actor bus db a db' h in
    let p = λ (r : BusAssignment). seen ctx r && active_on bus r in
    let met = find?-holds p db.assignments a found in
    subst
      (λ rs.
        WellFormed (suc next) rs × Step (Label.freed bus) (operator db.assignments) (operator rs))
      same
      (
        (
          ended-SingleActive now _ db.assignments well.0,
          later-Keyed next _ (ended-Keyed next now _ db.assignments well.1),
        ),
        λ b. unassigned-vacated next now bus p db.assignments a b well found (ground arith),
      )

pub remove_driver-Effect :
    (next now : ℕ) (ctx : FleetContext) (actor member : ℕ) (db : Db) (m : FleetMember) (db' : Db)
    → remove_driver now ctx actor member db ≡ ok (m, db')
    → WellFormed next db.assignments
    → Effect next (departure ctx db (find? (is_row_of member ctx.fleet_id) db.members)) db db'
unfolding remove_driver invalidate_sessions
remove_driver-Effect next now ctx actor member db m db' h well =
    let (_, _, h1) = >>=-eq-ok (fleet_path ctx) _ h in
    let (row, e, last) =
      require-eq-ok (find? (is_row_of member ctx.fleet_id) db.members) _ _ _ h1 in
    rw e (
      subst (λ (r : FleetMember × Db). Effect next (departure ctx db (some row)) db r.1)
        (ok_eq last)
        (
          (
            ended-SingleActive now _ db.assignments well.0,
            later-Keyed next _ (ended-Keyed next now _ db.assignments well.1),
          ),
          λ b. removed-quit now row.user_id ctx.fleet_id db.assignments b well.0,
        ))
