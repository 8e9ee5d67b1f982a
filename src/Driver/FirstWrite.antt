-- ===== src/Driver/FirstWrite.antt =====
-- The driver's conditional writes, when a request meets a booking that another one has written.
use waleed_bus.Base.{
  not_found, ℕ, ◌≤◌, ◌≡◌, refl, ap, ◌∙◌, true, false, Option, some, none, ◌==◌, ok, err, coded,
  arith, count, Result, >>=-eq-ok, require-eq-ok, if-eq, Bool-cases, ok_pair, inl, inr,
  if◌then◌else◌, invalid_dropoff_state,
}
use waleed_bus.Base.Once.{count-update_many, find?-update_many}
use waleed_bus.Schema.{Booking, Db, DropStatus, drop_eq, has_id, booking_by_id}
use waleed_bus.Driver.Board.{unboarded, boarded_row, board_read, board_all, board_write}
use waleed_bus.Driver.DropOff.{
  DropOff, undropped, dropped_row, recorded, drop_read, drop_all, drop_write,
}

-- The identifier of a booking is its primary key.
abbrev pub KeyedBooking : Db → ℕ → Type 0
KeyedBooking db i = count (has_id i) db.bookings ≤ 1

boarded_row-facts :
    (now actor i : ℕ) (b : Booking)
    → unboarded i b ≡ true
    → (unboarded i (boarded_row now actor b) ≡ false)
      × (has_id i (boarded_row now actor b) ≡ true)
      × ((boarded_row now actor b).boarded_at ≡ some now)
unfolding boarded_row
boarded_row-facts now actor i b h = (ground arith, ground arith, refl)

-- What the second write finds: no row to touch, and the time of the first boarding.
board_write-found :
    (now actor i : ℕ) (db : Db) (b : Booking) (at : Option ℕ)
    → (count (unboarded i) db.bookings == 0) ≡ true
    → booking_by_id db i ≡ some b
    → b.boarded_at ≡ at
    → board_write now actor i db ≡ ok (at, db)
unfolding board_write
board_write-found now actor i db b at none_left found e = rw (none_left, found, e) refl

-- The first boarding of a booking stands: once a write has succeeded, every later one, by whichever
-- driver and at whatever time, answers with the time of the first and changes nothing.
pub board_write-board_write :
    (now actor later other i : ℕ) (db : Db) (at : Option ℕ) (db' : Db)
    → KeyedBooking db i
    → board_write now actor i db ≡ ok (at, db')
    → board_write later other i db' ≡ ok (at, db')
unfolding board_write
board_write-board_write now actor later other i db at db' keyed h =
    elim (if-eq (count (unboarded i) db.bookings == 0) (board_read i db)
      (ok (some now, board_all now actor i db)) h) [
        | inl (none_left, h1) ↦
            let (b, found, h2) = require-eq-ok (booking_by_id db i) 404 not_found _ h1 in
            let same : db ≡ db' = (ok_pair h2).1 in
            rw (← same) (board_write-found later other i db b at none_left found (ok_pair h2).0)
        | inr (touched, h1) ↦
            let some_left : 1 ≤ count (unboarded i) db.bookings = ground arith in
            let (b, found, met, after) =
              find?-update_many (unboarded i) (has_id i) (boarded_row now actor)
                (λ a m. ground (arith, m)) (λ a m. (boarded_row-facts now actor i a m).1)
                db.bookings keyed some_left in
            let none_left =
              count-update_many (unboarded i) (unboarded i) (boarded_row now actor)
                (λ a m. (boarded_row-facts now actor i a m).0) db.bookings in
            rw (← (ok_pair h1).1) (
              board_write-found later other i (board_all now actor i db) (boarded_row now actor b)
                at (rw none_left refl) after
                ((boarded_row-facts now actor i b met).2 ∙ (ok_pair h1).0))
      ]

-- The answer to a drop-off that meets a recorded one.
abbrev pub drop_again :
    DropStatus × Option ℕ → DropStatus → Db → Result ((DropStatus × Option ℕ) × Db)
drop_again r wanted db =
    if drop_eq r.0 wanted then ok (r, db) else err (coded 409 invalid_dropoff_state)

dropped_row-facts :
    (now i : ℕ) (input : DropOff) (b : Booking)
    → undropped i b ≡ true
    → (undropped i (dropped_row now input b) ≡ false)
      × (has_id i (dropped_row now input b) ≡ true)
      × ((dropped_row now input b).drop_status ≡ some input.status)
      × ((dropped_row now input b).dropped_at ≡ some now)
unfolding dropped_row
dropped_row-facts now i input b h = (ground arith, ground arith, refl, refl)

recorded-ok :
    (o : Option DropStatus) (at : Option ℕ) (wanted : DropStatus) (r : DropStatus × Option ℕ)
    → recorded o at wanted ≡ ok r
    → (o ≡ some r.0) × (at ≡ r.1)
recorded-ok none at wanted r h = cc
recorded-ok (some s) at wanted r h = elim (if-eq (drop_eq s wanted) _ _ h) [
  | inl (_, e) ↦ (cc, cc)
  | inr (_, e) ↦ cc
]

drop_write-found :
    (now i : ℕ) (input : DropOff) (db : Db) (b : Booking) (r : DropStatus × Option ℕ)
    → (count (undropped i) db.bookings == 0) ≡ true
    → booking_by_id db i ≡ some b
    → b.drop_status ≡ some r.0
    → b.dropped_at ≡ r.1
    → drop_write now input i db ≡ drop_again r input.status db
unfolding drop_write
drop_write-found now i input db b r none_left found s at =
    rw (none_left, found, s, at)
      (elim (Bool-cases (drop_eq r.0 input.status)) [
        | inl same ↦ rw same refl
        | inr other ↦ rw other refl
      ])

-- A drop-off that is recorded is final: once a write has succeeded, every later one answers with
-- the recorded status and its time if it asks for the same status, is refused with
-- INVALID_DROPOFF_STATE if it asks for the other, and changes nothing either way.
pub drop_write-drop_write :
    (now later i : ℕ) (input second : DropOff) (db : Db) (r : DropStatus × Option ℕ) (db' : Db)
    → KeyedBooking db i
    → drop_write now input i db ≡ ok (r, db')
    → drop_write later second i db' ≡ drop_again r second.status db'
unfolding drop_write
drop_write-drop_write now later i input second db r db' keyed h =
    elim (if-eq (count (undropped i) db.bookings == 0) (drop_read input.status i db)
      (ok ((input.status, some now), drop_all now input i db)) h) [
        | inl (none_left, h1) ↦
            let (b, found, h2) = require-eq-ok (booking_by_id db i) 404 not_found _ h1 in
            let (x, e, h3) = >>=-eq-ok (recorded b.drop_status b.dropped_at input.status) _ h2 in
            let (status, at) = recorded-ok b.drop_status b.dropped_at input.status x e in
            let same : db ≡ db' = (ok_pair h3).1 in
            let answer : x ≡ r = (ok_pair h3).0 in
            rw (← same) (
              drop_write-found later i second db b r none_left found
                (status ∙ ap (λ (y : DropStatus × Option ℕ). some y.0) answer)
                (at ∙ ap (λ (y : DropStatus × Option ℕ). y.1) answer))
        | inr (touched, h1) ↦
            let some_left : 1 ≤ count (undropped i) db.bookings = ground arith in
            let (b, found, met, after) =
              find?-update_many (undropped i) (has_id i) (dropped_row now input)
                (λ a m. ground (arith, m)) (λ a m. (dropped_row-facts now i input a m).1)
                db.bookings keyed some_left in
            let none_left =
              count-update_many (undropped i) (undropped i) (dropped_row now input)
                (λ a m. (dropped_row-facts now i input a m).0) db.bookings in
            let answer = (ok_pair h1).0 in
            let facts = dropped_row-facts now i input b met in
            rw (← (ok_pair h1).1) (
              drop_write-found later i second (drop_all now input i db) (dropped_row now input b) r
                (rw none_left refl) after
                (facts.2 ∙ ap (λ (y : DropStatus × Option ℕ). some y.0) answer)
                (facts.3 ∙ ap (λ (y : DropStatus × Option ℕ). y.1) answer))
      ]
