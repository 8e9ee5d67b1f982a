-- ===== src/Assignments/Keys.antt =====
-- The ids of the assignments, and the rows that an unassignment or a departure ends.
use waleed_bus.Base.{
  ℕ, suc, ◌≡◌, refl, ap, sym, ◌∙◌, Bool, true, false, Option, some, none, inl, inr, List, [], ◌∷◌,
  ◌++◌, ◌==◌, if◌then◌else◌, find?, find?-holds, update_many, count, count-append, arith,
  Bool-cases,
}
use waleed_bus.Base.Unique.{
  find?-the_one, find?-update_many-none, find?-update_many-some, count-update_many_eq, if-true,
  if-false,
}
use waleed_bus.Schema.{BusAssignment}
use waleed_bus.Assignments.{active_on, ended_row, active_with_id}
use waleed_bus.Assignments.Roster.{active_in}
use waleed_bus.Assignments.Single.{SingleActive, ended-unmet}
use waleed_bus.Assignments.View.{met_by, operator, driver_of, vacated}
use waleed_bus.Assignments.Step.{with_id, Keyed, WellFormed}

-- Rows keep their ids as they end.
pub ended-Keyed :
    (next now : ℕ) (q : BusAssignment → Bool) (rows : List BusAssignment)
    → Keyed next rows
    → Keyed next (update_many q (ended_row now) rows)
unfolding ended_row
ended-Keyed next now q rows h = (
  λ i. omega (arith, h.0 i, count-update_many_eq (with_id i) q (ended_row now) (λ a. refl) rows),
  λ i free.
      omega
        (arith, h.1 i free, count-update_many_eq (with_id i) q (ended_row now) (λ a. refl) rows),
)

pub later-Keyed : (next : ℕ) (rows : List BusAssignment) → Keyed next rows → Keyed (suc next) rows
later-Keyed next rows h = (h.0, λ i free. h.1 i (omega arith))

pub append-Keyed :
    (next : ℕ) (new : BusAssignment) (rows : List BusAssignment)
    → new.id ≡ next
    → Keyed next rows
    → Keyed (suc next) (rows ++ new ∷ [])
unfolding count
append-Keyed next new rows e h = (
  λ i. ground (arith, h.0 i, h.1 i, count-append (with_id i) rows (new ∷ [])),
  λ i free. ground (arith, h.1 i, count-append (with_id i) rows (new ∷ [])),
)

-- The rows of one id are one row.
same_row_of_id :
    (next i : ℕ) (p q : BusAssignment → Bool) (rows : List BusAssignment) (a r : BusAssignment)
    → Keyed next rows
    → find? p rows ≡ some a
    → find? q rows ≡ some r
    → r.id ≡ a.id
    → a ≡ r
same_row_of_id next i p q rows a r keyed found also e =
    let x = find?-the_one (with_id a.id) p rows a found (ground arith) (keyed.0 a.id) in
    let y = find?-the_one (with_id a.id) q rows r also (ground arith) (keyed.0 a.id) in cc

pub unassigned-vacated :
    (next now bus : ℕ) (p : BusAssignment → Bool) (rows : List BusAssignment) (a : BusAssignment)
    (b : ℕ)
    → WellFormed next rows
    → find? p rows ≡ some a
    → active_on bus a ≡ true
    → operator (update_many (active_with_id a.id) (ended_row now) rows) b
      ≡ vacated (operator rows) bus b
unfolding vacated
unassigned-vacated next now bus p rows a b h found on = by_row (find? (active_on b) rows) refl
  where
    off : (x : BusAssignment) → active_with_id a.id x ≡ true → active_on b (ended_row now x) ≡ false
    off x met = (ended-unmet now b x).0

    by_row :
        (o : Option BusAssignment)
        → find? (active_on b) rows ≡ o
        → operator (update_many (active_with_id a.id) (ended_row now) rows) b
          ≡ (if b == bus then none else driver_of o)
    by_row none e =
        ap driver_of
          (find?-update_many-none (active_on b) (active_with_id a.id) (ended_row now) off rows e)
        ∙ ground arith
    by_row (some r) e =
        let left =
          find?-update_many-some (active_on b) (active_with_id a.id) (ended_row now) off rows r e
            (h.0.0 b) in
        let held = find?-holds (active_on b) rows r e in
        elim (Bool-cases (b == bus)) [
          | inl it ↦
              let here : active_on b a ≡ true = ground arith in
              let same : some r ≡ some a =
                sym e ∙ find?-the_one (active_on b) p rows a found here (h.0.0 b) in
              let row : r ≡ a = cc in
              let taken : active_with_id a.id r ≡ true = rw row (ground arith) in
              rw it (ap driver_of (left ∙ if-true _ _ _ taken))
          | inr other ↦ elim (Bool-cases (active_with_id a.id r)) [
            | inl taken ↦
                let same : a ≡ r =
                  same_row_of_id next a.id p (active_on b) rows a r h.1 found e (ground arith) in
                let at : active_on b a ≡ true = rw same held in absurd (ground arith)
            | inr free ↦ rw other (ap driver_of (left ∙ if-false _ _ _ free))
          ]
        ]

-- The buses that a driver operates in a fleet are left, and no others.
pub removed-quit :
    (now driver fleet : ℕ) (rows : List BusAssignment) (b : ℕ)
    → SingleActive rows
    → operator (update_many (active_in driver fleet) (ended_row now) rows) b ≡ (
        if met_by (active_in driver fleet) (find? (active_on b) rows)
        then none
        else operator rows b)
removed-quit now driver fleet rows b single = by_row (find? (active_on b) rows) refl
  where
    off :
        (x : BusAssignment)
        → active_in driver fleet x ≡ true
        → active_on b (ended_row now x) ≡ false
    off x met = (ended-unmet now b x).0

    ended : List BusAssignment
    ended = update_many (active_in driver fleet) (ended_row now) rows

    by_row :
        (o : Option BusAssignment)
        → find? (active_on b) rows ≡ o
        → operator ended b ≡ (if met_by (active_in driver fleet) o then none else driver_of o)
    by_row none e =
        ap driver_of
          (find?-update_many-none (active_on b) (active_in driver fleet) (ended_row now) off rows e)
    by_row (some r) e =
        let left =
          find?-update_many-some (active_on b) (active_in driver fleet) (ended_row now) off rows r e
            (single.0 b) in
        elim (Bool-cases (active_in driver fleet r)) [
          | inl taken ↦ rw taken (ap driver_of (left ∙ if-true _ _ _ taken))
          | inr free ↦ rw free (ap driver_of (left ∙ if-false _ _ _ free))
        ]
