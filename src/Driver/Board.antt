-- ===== src/Driver/Board.antt =====
-- src/driver-ops/driver-ops.service.ts: `board`. The write is a function of its own over the
-- database that it meets, which another transaction may have changed since the row was read.
use waleed_bus.Base.{
  not_found, ℕ, Bool, not, ◌&&◌, Option, none, some, ◌==◌, if◌then◌else◌, is_none, count,
  update_many, Result, ok, ◌>>=◌, ◌>>◌, refuse_if, require, invalid_trip_state,
}
use waleed_bus.Schema.{
  Booking, Db, Action, trip_cancelled, is_confirmed, has_id, booking_by_id, log,
}
use waleed_bus.Driver.Anchor.{FleetContext, fleet_path, assert_assignment}

abbrev pub unboarded : ℕ → Booking → Bool
unboarded i b = has_id i b && is_none b.boarded_at

unfoldable pub boarded_row : ℕ → ℕ → Booking → Booking
boarded_row now actor b = record b { boarded_at = some now; boarded_by = some actor }

-- The reading of the row where the conditional update touches none.
abbrev pub board_read : ℕ → Db → Result (Option ℕ × Db)
board_read i db = do
  current ← require (booking_by_id db i) 404 not_found
  ok (current.boarded_at, db)

abbrev pub board_all : ℕ → ℕ → ℕ → Db → Db
board_all now actor i db = record db {
  bookings = update_many (unboarded i) (boarded_row now actor) db.bookings;
}

unfoldable pub board_write : ℕ → ℕ → ℕ → Db → Result (Option ℕ × Db)
board_write now actor i db =
    if count (unboarded i) db.bookings == 0
    then board_read i db
    else ok (some now, board_all now actor i db)

abbrev pub board_row : ℕ → ℕ → Booking → Db → Result (Option ℕ × Db)
board_row now actor b db = elim b.boarded_at [
  | some at ↦ ok (some at, db)
  | none ↦ board_write now actor b.id db
]

unfoldable pub board : ℕ → FleetContext → ℕ → ℕ → ℕ → Db → Result (Option ℕ × Db)
board now ctx actor trip_id i db = do
  fleet_path ctx
  found ← assert_assignment ctx actor trip_id i db
  refuse_if (trip_cancelled (found.0).status) 409 invalid_trip_state
  refuse_if (not (is_confirmed (found.1).status)) 409 invalid_trip_state
  done ← board_row now actor found.1 db
  ok (done.0, log (some actor) Action.driver_board (some i) done.1)
