-- ===== src/Tests/Payments.antt =====
-- Payments and refunds.
use waleed_bus.Base.{
  ℕ, true, false, ◌==◌, ◌+◌, ◌≡◌, refl, Bool, List, [], ◌∷◌, Option, some, none, Result, ok, arith,
  is_ok-ok,
}
use waleed_bus.Schema.{Booking, Db, PaymentStatus, PaymentMethod, is_paid, booking_by_id}
use waleed_bus.Admin.Payment.{VerifyPayment, verify_payment, RefundPayment, process_refund}
use waleed_bus.Admin.Balance.{Settles, verify-Settles, Balanced, refund-Balanced}
use waleed_bus.Driver.Anchor.{fleet_path, assert_assignment}
use waleed_bus.Driver.CashPayment.{cash_payment}
use waleed_bus.Driver.Unpaid.{cash_payment-unrecorded}
use waleed_bus.Driver.FirstWrite.{KeyedBooking}
use waleed_bus.Tests.Sample.{trip, booked, booking, with_bookings, driver_context}

stored_booking : booking_by_id booked 100 ≡ some booking
unfolding waleed_bus.Base.find?
stored_booking = refl

-- The whole price of the booking.
abbrev transfer : VerifyPayment
transfer = record {
  reference = b'R' ∷ b'1' ∷ [];
  amount = 150000;
  payment_method = none;
  notes = none;
}

abbrev verify_call : Result (Booking × Db)
verify_call = verify_payment 1000 1 100 transfer booked

verified : (r : Booking) × (db' : Db) × (verify_call ≡ ok (r, db'))
unfolding verify_payment waleed_bus.Base.find?
verified = is_ok-ok verify_call refl

verify-Settles_example :
    (transfer.amount ≡ 150000)
    × (booking_by_id verified.1 100 ≡ some verified.0)
    × (is_paid (verified.0).payment_status ≡ true)
    × ((later : Db) (b : Booking)
        → booking_by_id later 100 ≡ some b
        → is_paid b.payment_status ≡ true
        → Settles 100 later)
verify-Settles_example =
    verify-Settles 1000 1 100 transfer booked booking verified.0 verified.1 stored_booking
      verified.2 refl refl

-- The booking of the sample, paid by card, boarded or not.
abbrev paid_booking : Booking
paid_booking = record booking {
  payment_status = some PaymentStatus.paid;
  payment_method = some PaymentMethod.card;
  paid_at = some 500;
}

abbrev paid_up : Db
paid_up = with_bookings (paid_booking ∷ [])

stored_paid : booking_by_id paid_up 100 ≡ some paid_booking
unfolding waleed_bus.Base.find?
stored_paid = refl

-- A third of the price.
abbrev refund : RefundPayment
refund = record { refund_reference = b'F' ∷ []; refund_amount = 50000; reason = []; notes = none }

abbrev refund_call : Result (Booking × Db)
refund_call = process_refund 1 100 refund paid_up

refunded : (r : Booking) × (db' : Db) × (refund_call ≡ ok (r, db'))
unfolding process_refund waleed_bus.Base.find?
refunded = is_ok-ok refund_call refl

refund-Balanced_example :
    Balanced paid_booking 50000 refunded.0
    × (booking_by_id refunded.1 100 ≡ some refunded.0)
    × ((j : ℕ) → (j == 100) ≡ false → booking_by_id refunded.1 j ≡ booking_by_id paid_up j)
refund-Balanced_example =
    refund-Balanced 1 100 refund paid_up paid_booking refunded.0 refunded.1 stored_paid refunded.2
      refl refl refl

-- The booking of the sample, on the bus and not yet paid.
abbrev boarded_booking : Booking
boarded_booking = record booking { boarded_at = some 600; boarded_by = some 9 }

abbrev on_board : Db
on_board = with_bookings (boarded_booking ∷ [])

stored_boarded : booking_by_id on_board 100 ≡ some boarded_booking
unfolding waleed_bus.Base.find?
stored_boarded = refl

keyed_boarded : KeyedBooking on_board 100
unfolding waleed_bus.Base.count
keyed_boarded = omega arith

covers : assert_assignment driver_context 9 3 100 on_board ≡ ok (trip, boarded_booking)
unfolding waleed_bus.Base.find? waleed_bus.Driver.Anchor.assert_assignment
    waleed_bus.Driver.Anchor.assert_trip waleed_bus.Schema.trip_by_id
covers = refl

on_path : fleet_path driver_context ≡ ok tt
unfolding waleed_bus.Driver.Anchor.fleet_path
on_path = refl

cash_payment-unrecorded_example :
    (db' : Db) × (cash_payment 1000 driver_context 9 3 100 PaymentMethod.cash on_board
      ≡ ok ((some PaymentStatus.pending, none), db'))
    × (db'.bookings ≡ boarded_booking ∷ [])
unfolding waleed_bus.Schema.method_eq
cash_payment-unrecorded_example =
    cash_payment-unrecorded 1000 driver_context 9 3 100 PaymentMethod.cash on_board boarded_booking
      trip PaymentStatus.pending keyed_boarded refl refl on_path covers refl refl refl
