-- ===== src/Admin/Settled.antt =====
-- What the operations on payments have passed through when they succeed.
use waleed_bus.Base.{
  ℕ, ◌+◌, ◌≤◌, ◌≡◌, sym, false, not, ◌&&◌, ◌||◌, Option, some, ltb, get_or, update, ok, arith,
  refuse_if-eq-ok, require-eq-ok, ok_pair, booking_not_found, payment_already_settled,
  payment_amount_mismatch, refund_not_eligible, refund_exceeds_balance,
}
use waleed_bus.Base.Text.{Text}
use waleed_bus.Schema.{
  Booking, Db, Action, is_paid, is_refunded, is_cash, has_id, booking_by_id, log,
}
use waleed_bus.Admin.Payment.{
  VerifyPayment, differ, verified_row, verify_payment, failed_row, fail_payment, RefundPayment,
  refunded_row, process_refund,
}

module _ (now actor i : ℕ) (dto : VerifyPayment) (db : Db) where
  pub record Verified (r : Booking) (db' : Db) : Type 0 where
    pub booking : Booking
    pub found : booking_by_id db i ≡ some booking
    pub unpaid : is_paid booking.payment_status ≡ false
    pub unrefunded : is_refunded booking.payment_status ≡ false
    pub exact : differ dto.amount (get_or booking.total_amount 0) ≡ false
    pub row : r ≡ verified_row now actor dto booking
    pub state :
        db'
        ≡ log
            (some actor)
            Action.booking_verify_payment
            (some i)
            (record db { bookings = update (has_id i) (verified_row now actor dto) db.bookings })

  pub verify-Verified :
      (r : Booking) (db' : Db) → verify_payment now actor i dto db ≡ ok (r, db') → Verified r db'
  unfolding verify_payment
  verify-Verified r db' h =
      let (b, e1, h1) = require-eq-ok (booking_by_id db i) 404 booking_not_found _ h in
      let (e2, h2) =
        refuse_if-eq-ok (is_paid b.payment_status || is_refunded b.payment_status) 409
          payment_already_settled _ h1 in
      let (e3, h3) =
        refuse_if-eq-ok (differ dto.amount (get_or b.total_amount 0)) 400 payment_amount_mismatch _
          h2 in
      record {
        booking = b;
        found = e1;
        unpaid = ground arith;
        unrefunded = ground arith;
        exact = e3;
        row = sym (ok_pair h3).0;
        state = sym (ok_pair h3).1;
      }

module _ (actor i : ℕ) (reason : Text) (notes : Option Text) (db : Db) where
  pub record Failed (r : Booking) (db' : Db) : Type 0 where
    pub booking : Booking
    pub found : booking_by_id db i ≡ some booking
    pub unpaid : is_paid booking.payment_status ≡ false
    pub row : r ≡ failed_row reason notes booking
    pub state :
        db'
        ≡ log
            (some actor)
            Action.booking_fail_payment
            (some i)
            (record db { bookings = update (has_id i) (failed_row reason notes) db.bookings })

  pub fail-Failed :
      (r : Booking) (db' : Db) → fail_payment actor i reason notes db ≡ ok (r, db') → Failed r db'
  unfolding fail_payment
  fail-Failed r db' h =
      let (b, e1, h1) = require-eq-ok (booking_by_id db i) 404 booking_not_found _ h in
      let (e2, h2) = refuse_if-eq-ok (is_paid b.payment_status) 409 payment_already_settled _ h1 in
      record {
        booking = b;
        found = e1;
        unpaid = e2;
        row = sym (ok_pair h2).0;
        state = sym (ok_pair h2).1;
      }

module _ (actor i : ℕ) (dto : RefundPayment) (db : Db) where
  pub record Refunded (r : Booking) (db' : Db) : Type 0 where
    pub booking : Booking
    pub found : booking_by_id db i ≡ some booking
    pub eligible : (is_cash booking.payment_method && not (is_paid booking.payment_status)) ≡ false
    pub covered : booking.refunded_amount + dto.refund_amount ≤ get_or booking.total_amount 0 + 1
    pub row : r ≡ refunded_row dto booking
    pub state :
        db'
        ≡ log
            (some actor)
            Action.booking_refund
            (some i)
            (record db { bookings = update (has_id i) (refunded_row dto) db.bookings })

  pub refund-Refunded :
      (r : Booking) (db' : Db) → process_refund actor i dto db ≡ ok (r, db') → Refunded r db'
  unfolding process_refund
  refund-Refunded r db' h =
      let (b, e1, h1) = require-eq-ok (booking_by_id db i) 404 booking_not_found _ h in
      let (e2, h2) =
        refuse_if-eq-ok (is_cash b.payment_method && not (is_paid b.payment_status)) 400
          refund_not_eligible _ h1 in
      let (e3, h3) =
        refuse_if-eq-ok (ltb (get_or b.total_amount 0 + 1) (b.refunded_amount + dto.refund_amount))
          400 refund_exceeds_balance _ h2 in
      record {
        booking = b;
        found = e1;
        eligible = e2;
        covered = ground arith;
        row = sym (ok_pair h3).0;
        state = sym (ok_pair h3).1;
      }
