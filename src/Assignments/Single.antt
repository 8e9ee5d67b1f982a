-- ===== src/Assignments/Single.antt =====
-- One driver for each bus, and one bus for each driver.
use waleed_bus.Base.{
  ℕ, ◌+◌, ◌≤◌, ◌≡◌, ap, sym, subst, Bool, true, false, not, ◌&&◌, Option, some, none, inl, inr,
  List, [], ◌∷◌, ◌++◌, ◌==◌, is_none, find?, update_many, count, count-append, arith, ok, ok_eq,
  if-eq, >>=-eq-ok, refuse_if-eq-ok, require-eq-ok,
}
use waleed_bus.Base.Unique.{count-update_many_le}
use waleed_bus.Schema.{BusAssignment, Db, Fleet, user_by_id, bus_by_id}
use waleed_bus.Driver.Anchor.{FleetContext, fleet_path}
use waleed_bus.Assignments.{
  active_on, active_of, seen, ended_row, end_prior, insert_active, put_assignment, assign,
  claim_bus, unassign, bus_in_fleet, active_with_id, is_live_user, is_driver_member, live_row,
  invalidate_sessions, owns,
}

-- No bus has two active rows, and no driver has.
abbrev pub SingleActive : List BusAssignment → Type 0
SingleActive rows =
    ((bus : ℕ) → count (active_on bus) rows ≤ 1)
    × ((driver : ℕ) → count (active_of driver) rows ≤ 1)

pub ended-unmet :
    (now n : ℕ) (a : BusAssignment)
    → (active_on n (ended_row now a) ≡ false) × (active_of n (ended_row now a) ≡ false)
unfolding ended_row
ended-unmet now n a = (ground arith, ground arith)

-- Rows that end leave at most what there was.
pub ended-SingleActive :
    (now : ℕ) (q : BusAssignment → Bool) (rows : List BusAssignment)
    → SingleActive rows
    → SingleActive (update_many q (ended_row now) rows)
ended-SingleActive now q rows h = (
  λ bus. omega (
    arith,
    h.0 bus,
    count-update_many_le (active_on bus) q (ended_row now) (λ a met. (ended-unmet now bus a).0)
        rows,
  ),
  λ driver. omega (
    arith,
    h.1 driver,
    count-update_many_le (active_of driver) q (ended_row now)
        (λ a met. (ended-unmet now driver a).1) rows,
  ),
)

pub end_prior-SingleActive :
    (ctx : FleetContext) (now bus driver : ℕ) (rows : List BusAssignment)
    → SingleActive rows
    → SingleActive (end_prior ctx now bus driver rows)
unfolding end_prior
end_prior-SingleActive ctx now bus driver rows h =
    ended-SingleActive now _ _ (ended-SingleActive now _ rows h)

-- What the partial unique indexes require of an insertion that succeeds.
pub insert_active_unique :
    (new : BusAssignment) (rows rows' : List BusAssignment)
    → insert_active new rows ≡ ok rows'
    → (count (active_on new.bus_id) rows ≡ 0)
      × (count (active_of new.driver_user_id) rows ≡ 0)
      × (rows ++ new ∷ [] ≡ rows')
unfolding insert_active
insert_active_unique new rows rows' h =
    elim (if-eq (count (active_on new.bus_id) rows + count (active_of new.driver_user_id) rows == 0)
      _ _ h) [ inl (free, e) ↦ (ground arith, ground arith, ok_eq e) | inr (_, e) ↦ cc ]

append-count :
    (p : BusAssignment → Bool) (new : BusAssignment) (rows : List BusAssignment)
    → (p new ≡ true → count p rows ≡ 0)
    → count p rows ≤ 1
    → count p (rows ++ new ∷ []) ≤ 1
unfolding count
append-count p new rows free h = ground (arith, count-append p rows (new ∷ []))

insert_active-SingleActive :
    (new : BusAssignment) (rows rows' : List BusAssignment)
    → insert_active new rows ≡ ok rows'
    → SingleActive rows
    → SingleActive rows'
insert_active-SingleActive new rows rows' h single =
    let (bus_free, driver_free, e) = insert_active_unique new rows rows' h in
    subst SingleActive e (
      λ bus. append-count (active_on bus) new rows (λ met. ground arith) (single.0 bus),
      λ driver. append-count (active_of driver) new rows (λ met. ground arith) (single.1 driver),
    )

-- Each operation keeps the rows single.
pub put_assignment-SingleActive :
    (ctx : FleetContext) (fresh now actor bus driver : ℕ) (live : Option BusAssignment) (db : Db)
    (a : BusAssignment) (db' : Db)
    → put_assignment ctx fresh now actor bus driver live db ≡ ok (a, db')
    → SingleActive db.assignments
    → SingleActive db'.assignments
unfolding put_assignment
put_assignment-SingleActive ctx fresh now actor bus driver (some live) db a db' h single =
    subst (λ (r : BusAssignment × Db). SingleActive (r.1).assignments) (ok_eq h) single
put_assignment-SingleActive ctx fresh now actor bus driver none db a db' h single =
    let (rows, inserted, last) = >>=-eq-ok (insert_active _ _) _ h in
    subst (λ (r : BusAssignment × Db). SingleActive (r.1).assignments) (ok_eq last)
      (insert_active-SingleActive _ _ rows inserted
        (end_prior-SingleActive ctx now bus driver db.assignments single))

-- What an assignment that succeeds has done.
pub assign-placed :
    (fresh now : ℕ) (ctx : FleetContext) (actor bus driver : ℕ) (db : Db) (a : BusAssignment)
    (db' : Db)
    → assign fresh now ctx actor bus driver db ≡ ok (a, db')
    → (placed : Db) × (put_assignment ctx fresh now actor bus driver (live_row ctx bus driver db) db
        ≡ ok (a, placed))
      × (placed.assignments ≡ db'.assignments)
unfolding assign invalidate_sessions
assign-placed fresh now ctx actor bus driver db a db' h =
    let (_, h1) = refuse_if-eq-ok (not (is_live_user (user_by_id db driver))) _ _ _ h in
    let (_, _, h2) = >>=-eq-ok (fleet_path ctx) _ h1 in
    let (b, _, h3) = require-eq-ok (bus_in_fleet (bus_by_id db bus) ctx.fleet_id) _ _ _ h2 in
    let (_, h4) =
      refuse_if-eq-ok (is_none (find? (is_driver_member db driver ctx.fleet_id) db.members)) _ _ _
        h3 in
    let (done, placed, last) =
      >>=-eq-ok (put_assignment ctx fresh now actor bus driver (live_row ctx bus driver db) db) _
        h4 in
    let same : done.0 ≡ a = ap (λ (r : BusAssignment × Db). r.0) (ok_eq last) in
    (
      done.1,
      subst
          (λ x.
            put_assignment ctx fresh now actor bus driver (live_row ctx bus driver db) db
            ≡ ok (x, done.1))
          same placed,
      ap (λ (r : BusAssignment × Db). (r.1).assignments) (ok_eq last),
    )

pub claim_bus-placed :
    (fresh now : ℕ) (ctx : FleetContext) (actor bus : ℕ) (db : Db) (a : BusAssignment) (db' : Db)
    → claim_bus fresh now ctx actor bus db ≡ ok (a, db')
    → (placed : Db) × (put_assignment ctx fresh now actor bus actor (live_row ctx bus actor db) db
        ≡ ok (a, placed))
      × (placed.assignments ≡ db'.assignments)
unfolding claim_bus
claim_bus-placed fresh now ctx actor bus db a db' h =
    let (_, _, h1) = >>=-eq-ok (fleet_path ctx) _ h in
    let (_, h2) =
      refuse_if-eq-ok (not (owns (find? (λ (f : Fleet). f.id == ctx.fleet_id) db.fleets) actor)) _ _
        _ h1 in
    let (b, _, h3) = require-eq-ok (bus_in_fleet (bus_by_id db bus) ctx.fleet_id) _ _ _ h2 in
    let (_, h4) =
      refuse_if-eq-ok (is_none (find? (is_driver_member db actor ctx.fleet_id) db.members)) _ _ _
        h3 in
    let (done, placed, last) =
      >>=-eq-ok (put_assignment ctx fresh now actor bus actor (live_row ctx bus actor db) db) _
        h4 in
    let same : done.0 ≡ a = ap (λ (r : BusAssignment × Db). r.0) (ok_eq last) in
    (
      done.1,
      subst
          (λ x.
            put_assignment ctx fresh now actor bus actor (live_row ctx bus actor db) db
            ≡ ok (x, done.1))
          same placed,
      ap (λ (r : BusAssignment × Db). (r.1).assignments) (ok_eq last),
    )

-- The row that an unassignment ends.
pub unassign-ended :
    (now : ℕ) (ctx : FleetContext) (actor bus : ℕ) (db : Db) (a : BusAssignment) (db' : Db)
    → unassign now ctx actor bus db ≡ ok (a, db')
    → (find? (λ r. seen ctx r && active_on bus r) db.assignments ≡ some a)
      × (update_many (active_with_id a.id) (ended_row now) db.assignments ≡ db'.assignments)
unfolding unassign invalidate_sessions
unassign-ended now ctx actor bus db a db' h =
    let (_, _, h1) = >>=-eq-ok (fleet_path ctx) _ h in
    let (b, _, h2) = require-eq-ok (bus_in_fleet (bus_by_id db bus) ctx.fleet_id) _ _ _ h1 in
    let (live, found, last) =
      require-eq-ok (find? (λ r. seen ctx r && active_on bus r) db.assignments) _ _ _ h2 in
    let same : live ≡ a = ap (λ (r : BusAssignment × Db). r.0) (ok_eq last) in
    (
      rw (sym same) found,
      rw (sym same) (ap (λ (r : BusAssignment × Db). (r.1).assignments) (ok_eq last)),
    )

pub assign-SingleActive :
    (fresh now : ℕ) (ctx : FleetContext) (actor bus driver : ℕ) (db : Db) (a : BusAssignment)
    (db' : Db)
    → assign fresh now ctx actor bus driver db ≡ ok (a, db')
    → SingleActive db.assignments
    → SingleActive db'.assignments
assign-SingleActive fresh now ctx actor bus driver db a db' h single =
    let (placed, put, same) = assign-placed fresh now ctx actor bus driver db a db' h in
    subst SingleActive same
      (put_assignment-SingleActive ctx fresh now actor bus driver _ db a placed put single)

pub claim_bus-SingleActive :
    (fresh now : ℕ) (ctx : FleetContext) (actor bus : ℕ) (db : Db) (a : BusAssignment) (db' : Db)
    → claim_bus fresh now ctx actor bus db ≡ ok (a, db')
    → SingleActive db.assignments
    → SingleActive db'.assignments
claim_bus-SingleActive fresh now ctx actor bus db a db' h single =
    let (placed, put, same) = claim_bus-placed fresh now ctx actor bus db a db' h in
    subst SingleActive same
      (put_assignment-SingleActive ctx fresh now actor bus actor _ db a placed put single)

pub unassign-SingleActive :
    (now : ℕ) (ctx : FleetContext) (actor bus : ℕ) (db : Db) (a : BusAssignment) (db' : Db)
    → unassign now ctx actor bus db ≡ ok (a, db')
    → SingleActive db.assignments
    → SingleActive db'.assignments
unassign-SingleActive now ctx actor bus db a db' h single =
    let (_, same) = unassign-ended now ctx actor bus db a db' h in
    subst SingleActive same (ended-SingleActive now (active_with_id a.id) db.assignments single)
