-- ===== src/Driver/Unpaid.antt =====
-- Cash at the bus for a booking that was made in the app.
use waleed_bus.Base.{
  ℕ, ◌≡◌, refl, ap, ◌∙◌, true, false, is_none, get_or, some, ok, arith, count, find?-holds, ==_iff,
}
use waleed_bus.Base.Once.{count-unmet}
use waleed_bus.Schema.{
  Trip, Booking, Db, PaymentStatus, PaymentMethod, is_paid, is_confirmed, has_id, booking_by_id,
}
use waleed_bus.Driver.Anchor.{FleetContext, fleet_path, assert_assignment}
use waleed_bus.Driver.CashPayment.{unsettled, pay_write, other_method, pay_row, cash_payment}
use waleed_bus.Driver.Inversion.{assert_assignment-Anchored}
use waleed_bus.Driver.FirstWrite.{KeyedBooking}

pay_write-settled :
    (now actor i : ℕ) (method : PaymentMethod) (db : Db) (b : Booking)
    → count (unsettled i) db.bookings ≡ 0
    → booking_by_id db i ≡ some b
    → pay_write now actor method i db ≡ ok ((b.payment_status, b.paid_at), db)
unfolding pay_write
pay_write-settled now actor i method db b none_left found = rw (none_left, found) refl

unsettled-off :
    (i : ℕ) (b : Booking) (s : PaymentStatus) → b.payment_status ≡ some s → unsettled i b ≡ false
unsettled-off i b s h = ground (arith, h)

pay_row-settled :
    (now actor i : ℕ) (method : PaymentMethod) (db : Db) (b : Booking) (s : PaymentStatus)
    → KeyedBooking db i
    → booking_by_id db i ≡ some b
    → b.payment_status ≡ some s
    → is_paid (some s) ≡ false
    → pay_row now actor method b db ≡ ok ((b.payment_status, b.paid_at), db)
pay_row-settled now actor i method db b s keyed found status unpaid =
    let id = (==_iff b.id i).0 (find?-holds (has_id i) db.bookings b found) in
    let off = unsettled-off i b s status in
    let none_left =
      count-unmet (unsettled i) (has_id i) (λ a m. ground (arith, m)) db.bookings b found off
        keyed in
    let skip : is_paid b.payment_status ≡ false = ap is_paid status ∙ unpaid in
    rw (skip, id)
      (pay_write-settled now actor i (get_or b.payment_method method) db b none_left found)

-- A driver who takes the money for a booking with any recorded payment status but PAID, such as the
-- PENDING of every booking that is made in the app, is answered with success, that status and that
-- time of payment, and no booking changes: the payment is not recorded. The booking is confirmed, has
-- boarded and names no other method of payment, no other booking has its id, the call comes on the
-- path of a fleet, and the driver's assignment covers the trip and the booking.
pub cash_payment-unrecorded :
    (now : ℕ) (ctx : FleetContext) (actor trip_id i : ℕ) (method : PaymentMethod) (db : Db)
    (b : Booking) (t : Trip) (s : PaymentStatus)
    → KeyedBooking db i
    → b.payment_status ≡ some s
    → is_paid (some s) ≡ false
    → fleet_path ctx ≡ ok tt
    → assert_assignment ctx actor trip_id i db ≡ ok (t, b)
    → is_none b.boarded_at ≡ false
    → is_confirmed b.status ≡ true
    → other_method b.payment_method method ≡ false
    → (db' : Db) × (cash_payment now ctx actor trip_id i method db ≡ ok ((some s, b.paid_at), db'))
      × (db'.bookings ≡ db.bookings)
unfolding cash_payment
cash_payment-unrecorded now ctx actor trip_id i method db b t s keyed status unpaid path covers on
      live method_fits =
    let found = (assert_assignment-Anchored ctx actor trip_id i db (t, b) covers).1 in
    let row = pay_row-settled now actor i method db b s keyed found status unpaid in
    rw (path, covers, on, live, method_fits, row, status) (_, refl, refl)
