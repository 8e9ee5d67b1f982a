-- ===== src/Admin/Payment.antt =====
-- src/bookings/admin-payment.service.ts: verification, failure and refund of a payment. Amounts are
-- in thousandths of a pound, so that the tolerance of 0.001 is 1.
use waleed_bus.Base.{
  ℕ, ◌+◌, Bool, not, ◌&&◌, ◌||◌, [], ◌∷◌, ◌++◌, Option, none, some, ltb, if◌then◌else◌, get_or,
  or_else, update, Result, ok, ◌>>=◌, ◌>>◌, refuse_if, require, booking_not_found,
  payment_already_settled, payment_amount_mismatch, refund_not_eligible, refund_exceeds_balance,
}
use waleed_bus.Base.Text.{Text, truthy}
use waleed_bus.Schema.{
  Booking, Db, PaymentStatus, PaymentMethod, Action, is_paid, is_refunded, is_cash, has_id,
  booking_by_id, log,
}

pub record VerifyPayment : Type 0 where
  pub reference : Text
  pub amount : ℕ
  pub payment_method : Option PaymentMethod
  pub notes : Option Text

-- `Math.abs(a - b) > 0.001`.
abbrev pub differ : ℕ → ℕ → Bool
differ a b = ltb (b + 1) a || ltb (a + 1) b

unfoldable pub verified_row : ℕ → ℕ → VerifyPayment → Booking → Booking
verified_row now actor dto b = record b {
  payment_status = some PaymentStatus.paid;
  payment_method = or_else dto.payment_method b.payment_method;
  payment_reference = some dto.reference;
  payment_notes = or_else dto.notes b.payment_notes;
  paid_at = some now;
  payment_marked_by = some actor;
}

unfoldable pub verify_payment : ℕ → ℕ → ℕ → VerifyPayment → Db → Result (Booking × Db)
verify_payment now actor i dto db = do
  b ← require (booking_by_id db i) 404 booking_not_found
  refuse_if (is_paid b.payment_status || is_refunded b.payment_status) 409 payment_already_settled
  refuse_if (differ dto.amount (get_or b.total_amount 0)) 400 payment_amount_mismatch
  ok (
    verified_row now actor dto b,
    log (some actor) Action.booking_verify_payment (some i)
        (record db { bookings = update (has_id i) (verified_row now actor dto) db.bookings }),
  )

-- `notes ? reason + separator + notes : reason`.
abbrev pub with_notes : Text → Text → Option Text → Text
with_notes separator reason none = reason
with_notes separator reason (some notes) = reason ++ separator ++ notes

-- " | Note: " and " | ".
abbrev pub note_separator : Text
note_separator = b' ' ∷ b'|' ∷ b' ' ∷ b'N' ∷ b'o' ∷ b't' ∷ b'e' ∷ b':' ∷ b' ' ∷ []

abbrev pub bar_separator : Text
bar_separator = b' ' ∷ b'|' ∷ b' ' ∷ []

unfoldable pub failed_row : Text → Option Text → Booking → Booking
failed_row reason notes b = record b {
  payment_status = some PaymentStatus.failed;
  payment_notes = some (with_notes note_separator reason (truthy notes));
}

unfoldable pub fail_payment : ℕ → ℕ → Text → Option Text → Db → Result (Booking × Db)
fail_payment actor i reason notes db = do
  b ← require (booking_by_id db i) 404 booking_not_found
  refuse_if (is_paid b.payment_status) 409 payment_already_settled
  ok (
    failed_row reason notes b,
    log (some actor) Action.booking_fail_payment (some i)
        (record db { bookings = update (has_id i) (failed_row reason notes) db.bookings }),
  )

pub record RefundPayment : Type 0 where
  pub refund_reference : Text
  pub refund_amount : ℕ
  pub reason : Text
  pub notes : Option Text

-- `Math.abs(newRefundedTotal - total) <= 0.001`.
abbrev pub is_fully_refunded : ℕ → ℕ → Bool
is_fully_refunded refunded total = not (differ refunded total)

unfoldable pub refunded_row : RefundPayment → Booking → Booking
refunded_row dto b =
    let new_total = b.refunded_amount + dto.refund_amount in
    record b {
      payment_status = some (
          if is_fully_refunded new_total (get_or b.total_amount 0)
          then PaymentStatus.refunded
          else PaymentStatus.partially_refunded);
      refunded_amount = new_total;
      refund_reference = some dto.refund_reference;
      payment_notes = some (with_notes bar_separator dto.reason (truthy dto.notes));
    }

unfoldable pub process_refund : ℕ → ℕ → RefundPayment → Db → Result (Booking × Db)
process_refund actor i dto db = do
  b ← require (booking_by_id db i) 404 booking_not_found
  refuse_if (is_cash b.payment_method && not (is_paid b.payment_status)) 400 refund_not_eligible
  refuse_if (ltb (get_or b.total_amount 0 + 1) (b.refunded_amount + dto.refund_amount)) 400
      refund_exceeds_balance
  ok (
    refunded_row dto b,
    log (some actor) Action.booking_refund (some i)
        (record db { bookings = update (has_id i) (refunded_row dto) db.bookings }),
  )
