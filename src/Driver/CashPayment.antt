-- ===== src/Driver/CashPayment.antt =====
-- src/driver-ops/driver-ops.service.ts: `cashPayment`.
use waleed_bus.Base.{
  not_found, ℕ, Bool, false, not, ◌&&◌, ◌||◌, Option, none, some, ◌==◌, if◌then◌else◌, is_none,
  get_or, count, update_many, Result, ok, ◌>>=◌, ◌>>◌, refuse_if, require, payment_not_allowed,
}
use waleed_bus.Schema.{
  Booking, Db, PaymentStatus, PaymentMethod, Action, is_paid, is_confirmed, method_eq, has_id,
  booking_by_id, log,
}
use waleed_bus.Driver.Anchor.{FleetContext, fleet_path, assert_assignment}

abbrev pub unsettled : ℕ → Booking → Bool
unsettled i b = has_id i b && is_none b.payment_status

-- `method` is the one of the row that was read, or that of the request if that row has none.
unfoldable pub paid_row : ℕ → ℕ → PaymentMethod → Booking → Booking
paid_row now actor method b = record b {
  payment_method = some method;
  payment_status = some PaymentStatus.paid;
  paid_at = some now;
  payment_marked_by = some actor;
}

abbrev pub pay_read : ℕ → Db → Result ((Option PaymentStatus × Option ℕ) × Db)
pay_read i db = do
  current ← require (booking_by_id db i) 404 not_found
  ok ((current.payment_status, current.paid_at), db)

abbrev pub pay_all : ℕ → ℕ → PaymentMethod → ℕ → Db → Db
pay_all now actor method i db = record db {
  bookings = update_many (unsettled i) (paid_row now actor method) db.bookings;
}

unfoldable pub pay_write :
    ℕ → ℕ → PaymentMethod → ℕ → Db → Result ((Option PaymentStatus × Option ℕ) × Db)
pay_write now actor method i db =
    if count (unsettled i) db.bookings == 0
    then pay_read i db
    else ok ((some PaymentStatus.paid, some now), pay_all now actor method i db)

-- `row.paymentMethod && row.paymentMethod !== input.method`.
abbrev pub other_method : Option PaymentMethod → PaymentMethod → Bool
other_method none m = false
other_method (some k) m = not (method_eq k m)

abbrev pub pay_row :
    ℕ → ℕ → PaymentMethod → Booking → Db → Result ((Option PaymentStatus × Option ℕ) × Db)
pay_row now actor method b db =
    if is_paid b.payment_status
    then ok ((some PaymentStatus.paid, b.paid_at), db)
    else pay_write now actor (get_or b.payment_method method) b.id db

unfoldable pub cash_payment :
    ℕ
    → FleetContext
    → ℕ
    → ℕ
    → ℕ
    → PaymentMethod
    → Db
    → Result ((Option PaymentStatus × Option ℕ) × Db)
cash_payment now ctx actor trip_id i method db = do
  fleet_path ctx
  found ← assert_assignment ctx actor trip_id i db
  refuse_if (is_none (found.1).boarded_at || not (is_confirmed (found.1).status)) 409
      payment_not_allowed
  refuse_if (other_method (found.1).payment_method method) 409 payment_not_allowed
  done ← pay_row now actor method found.1 db
  ok (done.0, log (some actor) Action.driver_payment (some i) done.1)
