-- ===== src/Assignments/View.antt =====
-- The abstract view of the assignments: which driver operates each bus, and how a placement moves it.
use waleed_bus.Base.{
  ℕ, ◌≡◌, refl, ap, sym, ◌∙◌, Bool, true, false, ◌&&◌, Option, some, none, inl, inr, List, ◌==◌,
  if◌then◌else◌, find?, find?-holds, find?-append, update_many, count, arith, ok, ok_eq, >>=-eq-ok,
  Bool-cases,
}
use waleed_bus.Base.Unique.{
  if-true, if-false, count-met, find?-the_one, find?-count_0, find?-append_unmet,
  find?-update_many_ne, find?-update_many-none, find?-update_many-some,
}
use waleed_bus.Schema.{BusAssignment, Db, is_active}
use waleed_bus.Driver.Anchor.{FleetContext}
use waleed_bus.Assignments.{
  active_on, active_of, seen, ended_row, end_prior, insert_active, put_assignment, new_assignment,
  live_row,
}
use waleed_bus.Assignments.Single.{SingleActive, ended-SingleActive, insert_active_unique}

abbrev pub View : Type 0
View = ℕ → Option ℕ

abbrev pub driver_of : Option BusAssignment → Option ℕ
driver_of none = none
driver_of (some a) = some a.driver_user_id

-- A row that is there and passes the test.
abbrev pub met_by : (BusAssignment → Bool) → Option BusAssignment → Bool
met_by p none = false
met_by p (some a) = p a

-- Who operates each bus.
abbrev pub operator : List BusAssignment → View
operator rows bus = driver_of (find? (active_on bus) rows)

abbrev pub leave : ℕ → Option ℕ → Option ℕ
leave driver none = none
leave driver (some d) = if d == driver then none else some d

-- The driver leaves every bus and operates this one alone.
unfoldable pub moved : View → ℕ → ℕ → View
moved view bus driver b = if b == bus then some driver else leave driver (view b)

-- Nobody operates the bus.
unfoldable pub vacated : View → ℕ → View
vacated view bus b = if b == bus then none else view b

-- A driver leaves the buses of a fleet, or any set of buses that the test names.
ended_off : (now n : ℕ) (a : BusAssignment) → active_on n (ended_row now a) ≡ false
unfolding ended_row
ended_off now n a = ground arith

-- A live row of the driver is the only one.
live-moved :
    (rows : List BusAssignment) (q : BusAssignment → Bool) (live : BusAssignment) (bus driver b : ℕ)
    → SingleActive rows
    → find? q rows ≡ some live
    → active_on bus live ≡ true
    → live.driver_user_id ≡ driver
    → operator rows b ≡ moved (operator rows) bus driver b
unfolding moved
live-moved rows q live bus driver b single found on of = elim (Bool-cases (b == bus)) [
  | inl here ↦
      let e : b ≡ bus = ground arith in
      let the = find?-the_one (active_on b) q rows live found (rw e on) (single.0 b) in
      rw (here, the) (ap (λ d. some d) of)
  | inr away ↦ rw away (elsewhere (find? (active_on b) rows) refl away)
]
  where
    elsewhere :
        (o : Option BusAssignment)
        → find? (active_on b) rows ≡ o
        → (b == bus) ≡ false
        → driver_of o ≡ leave driver (driver_of o)
    elsewhere none e away = refl
    elsewhere (some r) e away = elim (Bool-cases (r.driver_user_id == driver)) [
      | inl its ↦
          let held = find?-holds (active_on b) rows r e in
          let mine : active_of driver live ≡ true = ground arith in
          let other : active_of driver r ≡ true = ground arith in
          let x = find?-the_one (active_of driver) q rows live found mine (single.1 driver) in
          let y = find?-the_one (active_of driver) (active_on b) rows r e other (single.1 driver) in
          let same : live ≡ r = cc in
          let at : active_on bus r ≡ true = rw (sym same) on in absurd (ground arith)
      | inr not_its ↦ rw not_its refl
    ]

-- The prior rows of the bus end: the others stay in view.
bus_ended-elsewhere :
    (ctx : FleetContext) (now bus b : ℕ) (rows : List BusAssignment)
    → (b == bus) ≡ false
    → find? (active_on b) (update_many (λ a. seen ctx a && active_on bus a) (ended_row now) rows)
      ≡ find? (active_on b) rows
bus_ended-elsewhere ctx now bus b rows away =
    find?-update_many_ne (active_on b) (λ a. seen ctx a && active_on bus a) (ended_row now)
      (λ a met. (ground arith, ended_off now b a)) rows

-- The prior rows of the driver end: no other driver's does.
driver_ended-leave :
    (ctx : FleetContext) (now driver b : ℕ) (rows : List BusAssignment)
    → SingleActive rows
    → count
        (active_of driver)
        (update_many (λ a. seen ctx a && active_of driver a) (ended_row now) rows)
      ≡ 0
    → operator (update_many (λ a. seen ctx a && active_of driver a) (ended_row now) rows) b
      ≡ leave driver (operator rows b)
driver_ended-leave ctx now driver b rows single none_left = by_row (find? (active_on b) rows) refl
  where
    after : List BusAssignment
    after = update_many (λ a. seen ctx a && active_of driver a) (ended_row now) rows

    by_row :
        (o : Option BusAssignment)
        → find? (active_on b) rows ≡ o
        → driver_of (find? (active_on b) after) ≡ leave driver (driver_of o)
    by_row none e =
        ap driver_of (
          find?-update_many-none (active_on b) _ (ended_row now) (λ a met. ended_off now b a) rows
            e)
    by_row (some r) e =
        let left =
          find?-update_many-some (active_on b) (λ a. seen ctx a && active_of driver a)
            (ended_row now) (λ a met. ended_off now b a) rows r e (single.0 b) in
        let held = find?-holds (active_on b) rows r e in
        elim (Bool-cases (seen ctx r && active_of driver r)) [
          | inl taken ↦
              let its : (r.driver_user_id == driver) ≡ true = ground arith in
              let ended : find? (active_on b) after ≡ none = left ∙ if-true _ _ _ taken in
              rw its (ap driver_of ended)
          | inr free ↦
              let stays : find? (active_on b) after ≡ some r = left ∙ if-false _ _ _ free in
              elim (Bool-cases (r.driver_user_id == driver)) [
                | inl its ↦
                    let mine : active_of driver r ≡ true = ground arith in
                    let there = count-met (active_of driver) (active_on b) after r stays mine in
                    absurd (omega arith)
                | inr other ↦ rw other (ap driver_of stays)
              ]
        ]

put_new-moved :
    (ctx : FleetContext) (now b : ℕ) (rows rows' : List BusAssignment) (new : BusAssignment)
    → SingleActive rows
    → is_active new.status ≡ true
    → insert_active new (end_prior ctx now new.bus_id new.driver_user_id rows) ≡ ok rows'
    → operator rows' b ≡ moved (operator rows) new.bus_id new.driver_user_id b
unfolding end_prior moved
put_new-moved ctx now b rows rows' new single live h =
    let bus = new.bus_id in
    let driver = new.driver_user_id in
    let mid = update_many (λ a. seen ctx a && active_on bus a) (ended_row now) rows in
    let after = update_many (λ a. seen ctx a && active_of driver a) (ended_row now) mid in
    let (bus_free, driver_free, e) = insert_active_unique new after rows' h in
    elim (Bool-cases (b == bus)) [
      | inl here ↦
          let same : b ≡ bus = ground arith in
          let none_here : find? (active_on b) after ≡ none =
            find?-count_0 (active_on b) after (rw same bus_free) in
          let it = find?-append (active_on b) after new none_here (ground arith) in
          let it' : find? (active_on b) rows' ≡ some new = rw (sym e) it in rw (here, it') refl
      | inr away ↦
          let unmet : active_on b new ≡ false = ground arith in
          let same = find?-append_unmet (active_on b) after new unmet in
          let same' : find? (active_on b) rows' ≡ find? (active_on b) after = rw (sym e) same in
          let mid_single =
            ended-SingleActive now (λ a. seen ctx a && active_on bus a) rows single in
          let left = driver_ended-leave ctx now driver b mid mid_single driver_free in
          rw away (
            ap driver_of same'
            ∙ left
            ∙ ap (λ o. leave driver (driver_of o)) (bus_ended-elsewhere ctx now bus b rows away))
    ]

-- What a placement does to the view.
pub put_assignment-moved :
    (ctx : FleetContext) (fresh now actor bus driver : ℕ) (db : Db) (a : BusAssignment) (db' : Db)
    → put_assignment ctx fresh now actor bus driver (live_row ctx bus driver db) db ≡ ok (a, db')
    → SingleActive db.assignments
    → (b : ℕ) → operator db'.assignments b ≡ moved (operator db.assignments) bus driver b
unfolding put_assignment new_assignment
put_assignment-moved ctx fresh now actor bus driver db a db' h single b =
    by_live (live_row ctx bus driver db) refl h
  where
    by_live :
        (o : Option BusAssignment)
        → live_row ctx bus driver db ≡ o
        → put_assignment ctx fresh now actor bus driver o db ≡ ok (a, db')
        → operator db'.assignments b ≡ moved (operator db.assignments) bus driver b
    by_live (some live) e k =
        let q =
          λ (r : BusAssignment). seen ctx r && active_on bus r && r.driver_user_id == driver in
        let met = find?-holds q db.assignments live e in
        let same : db.assignments ≡ db'.assignments =
          ap (λ (r : BusAssignment × Db). (r.1).assignments) (ok_eq k) in
        rw (sym same)
          (live-moved db.assignments q live bus driver b single e (ground arith) (ground arith))
    by_live none e k =
        let new = new_assignment fresh actor ctx.fleet_id bus driver in
        let (rows, inserted, last) =
          >>=-eq-ok (insert_active new (end_prior ctx now bus driver db.assignments)) _ k in
        let same : rows ≡ db'.assignments =
          ap (λ (r : BusAssignment × Db). (r.1).assignments) (ok_eq last) in
        rw (sym same) (put_new-moved ctx now b db.assignments rows new single refl inserted)
