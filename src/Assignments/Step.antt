-- ===== src/Assignments/Step.antt =====
-- The calls that change an assignment, and the labelled steps of the abstract view that they follow.
use waleed_bus.Base.{
  ℕ, suc, ◌≤◌, ◌≡◌, Bool, Option, some, none, find?, is_ok, if◌then◌else◌, List, [], ◌∷◌, ◌==◌,
  count, Result, ok, err,
}
use waleed_bus.Schema.{BusAssignment, FleetMember, Db}
use waleed_bus.Driver.Anchor.{FleetContext}
use waleed_bus.Assignments.{active_on, assign, claim_bus, unassign}
use waleed_bus.Assignments.Roster.{remove_driver, is_row_of, active_in}
use waleed_bus.Assignments.Single.{SingleActive}
use waleed_bus.Assignments.View.{View, met_by, moved, vacated}

abbrev pub with_id : ℕ → BusAssignment → Bool
with_id i a = a.id == i

-- The ids are distinct, and those from `next` on are free.
abbrev pub Keyed : ℕ → List BusAssignment → Type 0
Keyed next rows =
    ((i : ℕ) → count (with_id i) rows ≤ 1) × ((i : ℕ) → next ≤ i → count (with_id i) rows ≡ 0)

abbrev pub WellFormed : ℕ → List BusAssignment → Type 0
WellFormed next rows = SingleActive rows × Keyed next rows

-- The calls that change an assignment, each with the context and the actor that it runs for.
pub data Call : Type 0 where
  assigned : FleetContext → (now actor bus driver : ℕ) → Call
  claimed : FleetContext → (now actor bus : ℕ) → Call
  unassigned : FleetContext → (now actor bus : ℕ) → Call
  removed : FleetContext → (now actor member : ℕ) → Call

-- What the abstract specification does for a call: the driver comes to the bus, the bus is left with
-- nobody, the driver of some buses leaves them, or nothing happens.
pub data Label : Type 0 where
  placed : (bus driver : ℕ) → Label
  freed : (bus : ℕ) → Label
  quit : (leaves : ℕ → Bool) → Label
  idle : Label

-- The view after a label, on every bus.
abbrev pub Step : Label → View → View → Type 0
Step (placed bus driver) v w = (b : ℕ) → w b ≡ moved v bus driver b
Step (freed bus) v w = (b : ℕ) → w b ≡ vacated v bus b
Step (quit leaves) v w = (b : ℕ) → w b ≡ (if leaves b then none else v b)
Step idle v w = (b : ℕ) → w b ≡ v b

pub data Reaches : List Label → View → View → Type 0 where
  here : {v : View} → Reaches [] v v
  step :
      {l : Label} {ls : List Label} {u v w : View}
      → Step l u v
      → Reaches ls v w
      → Reaches (l ∷ ls) u w

-- A member who leaves a fleet leaves the buses that they operate in it.
abbrev pub departure : FleetContext → Db → Option FleetMember → Label
departure ctx db none = idle
departure ctx db (some m) =
    quit (λ b. met_by (active_in m.user_id ctx.fleet_id) (find? (active_on b) db.assignments))

abbrev pub after {ℓ} : {A : Type ℓ} → Result (A × Db) → Db → Db
after (ok r) db = r.1
after (err e) db = db

-- A call that throws leaves the database as it was. `next` is an id that no row has.
abbrev pub perform : ℕ → Call → Db → Db
perform next (assigned ctx now actor bus driver) db =
    after (assign next now ctx actor bus driver db) db
perform next (claimed ctx now actor bus) db = after (claim_bus next now ctx actor bus db) db
perform next (unassigned ctx now actor bus) db = after (unassign now ctx actor bus db) db
perform next (removed ctx now actor member) db = after (remove_driver now ctx actor member db) db

-- What each call asks of the specification: nothing if it throws.
abbrev pub label_of : ℕ → Call → Db → Label
label_of next (assigned ctx now actor bus driver) db =
    if is_ok (assign next now ctx actor bus driver db) then placed bus driver else idle
label_of next (claimed ctx now actor bus) db =
    if is_ok (claim_bus next now ctx actor bus db) then placed bus actor else idle
label_of next (unassigned ctx now actor bus) db =
    if is_ok (unassign now ctx actor bus db) then freed bus else idle
label_of next (removed ctx now actor member) db =
    if is_ok (remove_driver now ctx actor member db)
    then departure ctx db (find? (is_row_of member ctx.fleet_id) db.members)
    else idle

abbrev pub perform_all : ℕ → List Call → Db → Db
perform_all next [] db = db
perform_all next (c ∷ cs) db = perform_all (suc next) cs (perform next c db)

-- The labels of a sequence of calls, each at the state that it finds.
abbrev pub labels : ℕ → List Call → Db → List Label
labels next [] db = []
labels next (c ∷ cs) db = label_of next c db ∷ labels (suc next) cs (perform next c db)
