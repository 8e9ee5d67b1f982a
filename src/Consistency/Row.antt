-- ===== src/Consistency/Row.antt =====
-- What the columns of one booking say together, and each change of a row that the services make.
use waleed_bus.Base.{
  ℕ, ◌+◌, ◌≤◌, ◌≡◌, Bool, true, not, ◌||◌, Option, some, none, arith, get_or, is_some,
}
use waleed_bus.Base.Text.{Text}
use waleed_bus.Schema.{Trip, Booking, DropStatus, PaymentMethod, is_paid, is_confirmed}
use waleed_bus.Bookings.Create.Input.{CreatePassengerBooking}
use waleed_bus.Bookings.Create.Checks.{Traveller}
use waleed_bus.Bookings.Create.Commit.{Price, booking_row}
use waleed_bus.Bookings.Cancel.{cancelled_row}
use waleed_bus.Admin.Lifecycle.{
  force_cancelled_row, reinstated_row, OperationalOverride, overridden_row,
}
use waleed_bus.Admin.Payment.{VerifyPayment, verified_row, failed_row, RefundPayment, refunded_row}
use waleed_bus.Driver.Board.{boarded_row}
use waleed_bus.Driver.DropOff.{DropOff, dropped_row}
use waleed_bus.Driver.CashPayment.{paid_row}

abbrev pub implies : Bool → Bool → Bool
implies a b = not a || b

abbrev pub was_dropped : Option DropStatus → Bool
was_dropped none = Bool.false
was_dropped (some DropStatus.dropped_off) = true
was_dropped (some DropStatus.not_dropped_off) = Bool.false

-- Refunds stay within the price, up to the tolerance of 0.001; a payment, a cancellation and a
-- drop-off have their times; a boarding has its time and its author, or neither.
pub record IsConsistent (b : Booking) : Type 0 where
  pub covered : b.refunded_amount ≤ get_or b.total_amount 0 + 1
  pub paid_when : implies (is_paid b.payment_status) (is_some b.paid_at) ≡ true
  pub cancelled_when : implies (not (is_confirmed b.status)) (is_some b.cancelled_at) ≡ true
  pub boarded_both : is_some b.boarded_at ≡ is_some b.boarded_by
  pub dropped_when : implies (was_dropped b.drop_status) (is_some b.dropped_at) ≡ true

pub booking_row-IsConsistent :
    (fresh now actor : ℕ) (trip : Trip) (who : Traveller) (price : Price)
    (input : CreatePassengerBooking)
    → IsConsistent (booking_row fresh now actor trip who price input)
unfolding booking_row
booking_row-IsConsistent fresh now actor trip who price input = ground arith

pub cancelled_row-IsConsistent :
    (now actor n : ℕ) (reason : Option Text) (b : Booking)
    → IsConsistent b
    → IsConsistent (cancelled_row now actor n reason b)
unfolding cancelled_row
cancelled_row-IsConsistent now actor n reason b v = ground arith

pub force_cancelled_row-IsConsistent :
    (now actor : ℕ) (reason : Text) (b : Booking)
    → IsConsistent b
    → IsConsistent (force_cancelled_row now actor reason b)
unfolding force_cancelled_row
force_cancelled_row-IsConsistent now actor reason b v = ground arith

pub reinstated_row-IsConsistent : (b : Booking) → IsConsistent b → IsConsistent (reinstated_row b)
unfolding reinstated_row
reinstated_row-IsConsistent b v = ground arith

pub overridden_row-IsConsistent :
    (o : OperationalOverride) (now actor : ℕ) (b : Booking)
    → IsConsistent b
    → IsConsistent (overridden_row o now actor b)
unfolding overridden_row
overridden_row-IsConsistent o now actor b v = ground arith

pub verified_row-IsConsistent :
    (now actor : ℕ) (dto : VerifyPayment) (b : Booking)
    → IsConsistent b
    → IsConsistent (verified_row now actor dto b)
unfolding verified_row
verified_row-IsConsistent now actor dto b v = ground arith

pub failed_row-IsConsistent :
    (reason : Text) (notes : Option Text) (b : Booking)
    → IsConsistent b
    → IsConsistent (failed_row reason notes b)
unfolding failed_row
failed_row-IsConsistent reason notes b v = ground arith

-- The guard of the refund is what keeps the sum within the price.
pub refunded_row-IsConsistent :
    (dto : RefundPayment) (b : Booking)
    → b.refunded_amount + dto.refund_amount ≤ get_or b.total_amount 0 + 1
    → IsConsistent b
    → IsConsistent (refunded_row dto b)
unfolding refunded_row
refunded_row-IsConsistent dto b room v = ground arith

pub boarded_row-IsConsistent :
    (now actor : ℕ) (b : Booking) → IsConsistent b → IsConsistent (boarded_row now actor b)
unfolding boarded_row
boarded_row-IsConsistent now actor b v = ground arith

pub dropped_row-IsConsistent :
    (now : ℕ) (input : DropOff) (b : Booking)
    → IsConsistent b
    → IsConsistent (dropped_row now input b)
unfolding dropped_row
dropped_row-IsConsistent now input b v = ground arith

pub paid_row-IsConsistent :
    (now actor : ℕ) (method : PaymentMethod) (b : Booking)
    → IsConsistent b
    → IsConsistent (paid_row now actor method b)
unfolding paid_row
paid_row-IsConsistent now actor method b v = ground arith
