-- ===== src/Tests/Journeys.antt =====
-- What drivers record, and ratings.
use waleed_bus.Base.{
  err, coded, rating_not_allowed, ℕ, ◌≡◌, refl, List, [], ◌∷◌, Option, some, none, Result, ok,
  arith, is_ok-ok,
}
use waleed_bus.Schema.{Db, DropStatus}
use waleed_bus.Driver.Board.{board_write}
use waleed_bus.Driver.DropOff.{DropOff, drop_write}
use waleed_bus.Driver.FirstWrite.{
  KeyedBooking, board_write-board_write, drop_again, drop_write-drop_write,
}
use waleed_bus.Bookings.Rating.{rate_all, rate_write}
use waleed_bus.Bookings.Rating.Final.{rate_write-rate_write}
use waleed_bus.Tests.Sample.{booked}

keyed_booking : KeyedBooking booked 100
unfolding waleed_bus.Base.count
keyed_booking = omega arith

abbrev board_call : Result (Option ℕ × Db)
board_call = board_write 1000 9 100 booked

boarded : (at : Option ℕ) × (db' : Db) × (board_call ≡ ok (at, db'))
unfolding board_write waleed_bus.Base.count
boarded = is_ok-ok board_call refl

board_write-board_write_example : board_write 2000 12 100 boarded.1 ≡ ok (boarded.0, boarded.1)
board_write-board_write_example =
    board_write-board_write 1000 9 2000 12 100 booked boarded.0 boarded.1 keyed_booking boarded.2

abbrev at_station : DropOff
at_station = record {
  status = DropStatus.dropped_off;
  station_id = some (b'S' ∷ []);
  reason = none;
}

abbrev missed : DropOff
missed = record {
  status = DropStatus.not_dropped_off;
  station_id = none;
  reason = some (b'M' ∷ []);
}

abbrev drop_call : Result ((DropStatus × Option ℕ) × Db)
drop_call = drop_write 1000 at_station 100 booked

dropped : (r : DropStatus × Option ℕ) × (db' : Db) × (drop_call ≡ ok (r, db'))
unfolding drop_write waleed_bus.Base.count
dropped = is_ok-ok drop_call refl

drop_write-drop_write_example :
    drop_write 2000 missed 100 dropped.1 ≡ drop_again dropped.0 DropStatus.not_dropped_off dropped.1
drop_write-drop_write_example =
    drop_write-drop_write 1000 2000 100 at_station missed booked dropped.0 dropped.1 keyed_booking
      dropped.2

-- Five for the bus, four for the driver.
rated : rate_write 1000 5 4 100 booked ≡ ok (rate_all 1000 5 4 100 booked)
unfolding rate_write waleed_bus.Base.count
rated = refl

rate_write-rate_write_example :
    rate_write 2000 3 4 100 (rate_all 1000 5 4 100 booked) ≡ err (coded 409 rating_not_allowed)
rate_write-rate_write_example =
    rate_write-rate_write 1000 2000 5 4 3 4 100 booked (rate_all 1000 5 4 100 booked) keyed_booking
      rated refl
