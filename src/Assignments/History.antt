-- ===== src/Assignments/History.antt =====
-- Any sequence of assignments, claims, unassignments and departures from the roster, against the
-- abstract view of who operates which bus.
use waleed_bus.Base.{ℕ, suc, List, [], ◌∷◌}
use waleed_bus.Schema.{Db}
use waleed_bus.Assignments.{assign, claim_bus, unassign}
use waleed_bus.Assignments.Roster.{remove_driver}
use waleed_bus.Assignments.Single.{SingleActive, assign-placed, claim_bus-placed}
use waleed_bus.Assignments.View.{operator}
use waleed_bus.Assignments.Step.{
  WellFormed, Label, Reaches, Call, perform, perform_all, label_of, labels,
}
use waleed_bus.Assignments.Effect.{
  Effect, unassign-Effect, remove_driver-Effect, placed-Effect, after-Effect,
}

perform-Effect :
    (next : ℕ) (c : Call) (db : Db)
    → WellFormed next db.assignments
    → Effect next (label_of next c db) db (perform next c db)
perform-Effect next (Call.assigned ctx now actor bus driver) db well =
    after-Effect next (Label.placed bus driver) (assign next now ctx actor bus driver db) db well
      (λ a db' h.
        let (mid, put, same) = assign-placed next now ctx actor bus driver db a db' h in
        placed-Effect ctx next now actor bus driver db a mid db' put same well)
perform-Effect next (Call.claimed ctx now actor bus) db well =
    after-Effect next (Label.placed bus actor) (claim_bus next now ctx actor bus db) db well
      (λ a db' h.
        let (mid, put, same) = claim_bus-placed next now ctx actor bus db a db' h in
        placed-Effect ctx next now actor bus actor db a mid db' put same well)
perform-Effect next (Call.unassigned ctx now actor bus) db well =
    after-Effect next (Label.freed bus) (unassign now ctx actor bus db) db well
      (λ a db' h. unassign-Effect next now ctx actor bus db a db' h well)
perform-Effect next (Call.removed ctx now actor member) db well =
    after-Effect next _ (remove_driver now ctx actor member db) db well
      (λ m db' h. remove_driver-Effect next now ctx actor member db m db' h well)

-- No bus has two active assignments and no driver has, whatever sequence of calls runs: if the
-- assignments start so, with distinct ids below the counter that numbers new rows, they are so
-- after any calls of `assign`, `claimBus`, `unassign` and the roster's `remove`, on either path of
-- any fleet, those that throw included.
pub perform_all-SingleActive :
    (next : ℕ) (cs : List Call) (db : Db)
    → WellFormed next db.assignments
    → SingleActive (perform_all next cs db).assignments
perform_all-SingleActive next [] db well = well.0
perform_all-SingleActive next (c ∷ cs) db well =
    perform_all-SingleActive (suc next) cs (perform next c db) (perform-Effect next c db well).0

-- The assignments refine the abstract view of who operates which bus: any sequence of calls of
-- `assign`, `claimBus`, `unassign` and the roster's `remove`, from well-formed assignments, takes the
-- view by the step of each call in turn. Where `assign` or `claimBus` succeeds, its driver, for
-- `claimBus` the caller, leaves every other bus and operates the bus of the call in place of its
-- former driver; where `unassign` succeeds, its bus is left with nobody; where `remove` succeeds, the
-- buses that the member operates in that fleet are left with nobody; all other buses stay as they
-- were, and a call that throws changes nothing.
pub perform_all-Reaches :
    (next : ℕ) (cs : List Call) (db : Db)
    → WellFormed next db.assignments
    → Reaches
        (labels next cs db)
        (operator db.assignments)
        (operator (perform_all next cs db).assignments)
perform_all-Reaches next [] db well = Reaches.here
perform_all-Reaches next (c ∷ cs) db well =
    let (well', moves) = perform-Effect next c db well in
    Reaches.step moves (perform_all-Reaches (suc next) cs (perform next c db) well')
