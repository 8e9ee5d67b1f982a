-- ===== src/Admin/Balance.antt =====
-- The balance of a booking under verification and refunds, for amounts in whole piastres.
use waleed_bus.Base.{
  ℕ, sym, false, ◌==◌, find?-update_ne, ◌+◌, ◌≤◌, ◌%◌, ◌≡◌, ◌↔◌, refl, ap, ◌∙◌, true, false, Option,
  some, get_or, find?-update, find?-holds, ok, err, coded, arith, payment_already_settled,
}
use waleed_bus.Base.Text.{Text}
use waleed_bus.Schema.{Booking, Db, is_paid, is_refunded, has_id, booking_by_id}
use waleed_bus.Admin.Payment.{
  VerifyPayment, differ, verified_row, verify_payment, fail_payment, RefundPayment, refunded_row,
  process_refund,
}
use waleed_bus.Admin.Settled.{verify-Verified, refund-Refunded}

-- A booking that is paid is neither verified nor failed.
verify-paid :
    (now actor i : ℕ) (dto : VerifyPayment) (db : Db) (b : Booking)
    → booking_by_id db i ≡ some b
    → is_paid b.payment_status ≡ true
    → verify_payment now actor i dto db ≡ err (coded 409 payment_already_settled)
unfolding verify_payment
verify-paid now actor i dto db b found paid = rw (found, paid) refl

fail-paid :
    (actor i : ℕ) (reason : Text) (notes : Option Text) (db : Db) (b : Booking)
    → booking_by_id db i ≡ some b
    → is_paid b.payment_status ≡ true
    → fail_payment actor i reason notes db ≡ err (coded 409 payment_already_settled)
unfolding fail_payment
fail-paid actor i reason notes db b found paid = rw (found, paid) refl

verified_row-paid :
    (i now actor : ℕ) (dto : VerifyPayment) (b : Booking)
    → (is_paid (verified_row now actor dto b).payment_status ≡ true)
      × (has_id i (verified_row now actor dto b) ≡ has_id i b)
unfolding verified_row
verified_row-paid i now actor dto b = (refl, refl)

differ-exact : (a b : ℕ) → differ a b ≡ false → a % 10 ≡ 0 → b % 10 ≡ 0 → a ≡ b
differ-exact a b h wa wb = ground arith

-- The payment of the booking is settled in this state.
pub record Settles (i : ℕ) (db : Db) : Type 0 where
  pub verify_again :
      (now actor : ℕ) (dto : VerifyPayment)
      → verify_payment now actor i dto db ≡ err (coded 409 payment_already_settled)
  pub fail_after :
      (actor : ℕ) (reason : Text) (notes : Option Text)
      → fail_payment actor i reason notes db ≡ err (coded 409 payment_already_settled)

-- A verification that succeeds had the amount of the booking, where both are in whole piastres, and
-- stores the row that it returns, which is PAID. In every state in which the booking is PAID, the one
-- that the verification leaves among them, each verification and each failure of the payment is
-- refused with PAYMENT_ALREADY_SETTLED.
pub verify-Settles :
    (now actor i : ℕ) (dto : VerifyPayment) (db : Db) (b r : Booking) (db' : Db)
    → booking_by_id db i ≡ some b
    → verify_payment now actor i dto db ≡ ok (r, db')
    → dto.amount % 10 ≡ 0
    → get_or b.total_amount 0 % 10 ≡ 0
    → (dto.amount ≡ get_or b.total_amount 0)
      × (booking_by_id db' i ≡ some r)
      × (is_paid r.payment_status ≡ true)
      × ((later : Db) (x : Booking)
          → booking_by_id later i ≡ some x
          → is_paid x.payment_status ≡ true
          → Settles i later)
verify-Settles now actor i dto db b r db' at h whole_dto whole_b =
    let v = verify-Verified now actor i dto db r db' h in
    let f = verified_row now actor dto in
    let same : v.booking ≡ b = cc (v.found, at) in
    let total = ap (λ (x : Booking). get_or x.total_amount 0) same in
    let (paid, id) = verified_row-paid i now actor dto v.booking in
    let stored : booking_by_id db' i ≡ some (f v.booking) =
      ap (λ (d : Db). booking_by_id d i) v.state
      ∙ find?-update (has_id i) f db.bookings v.booking v.found
          (id ∙ find?-holds (has_id i) db.bookings v.booking v.found) in
    (
      differ-exact dto.amount (get_or (v.booking).total_amount 0) v.exact whole_dto
            (ap (λ n. n % 10) total ∙ whole_b)
          ∙ total,
      stored ∙ ap (λ x. some x) (sym v.row),
      rw v.row paid,
      λ later x at_later still. record {
        verify_again = λ n a d. verify-paid n a i d later x at_later still;
        fail_after = λ a t y. fail-paid a i t y later x at_later still;
      },
    )

-- The balance after a refund of `amount`.
pub record Balanced (b : Booking) (amount : ℕ) (r : Booking) : Type 0 where
  pub grows : r.refunded_amount ≡ b.refunded_amount + amount
  pub bounded : r.refunded_amount ≤ get_or b.total_amount 0
  pub closed : (is_refunded r.payment_status ≡ true) ↔ (r.refunded_amount ≡ get_or b.total_amount 0)

refunded_row-Balanced :
    (dto : RefundPayment) (b : Booking)
    → b.refunded_amount + dto.refund_amount ≤ get_or b.total_amount 0 + 1
    → dto.refund_amount % 10 ≡ 0
    → b.refunded_amount % 10 ≡ 0
    → get_or b.total_amount 0 % 10 ≡ 0
    → Balanced b dto.refund_amount (refunded_row dto b)
unfolding refunded_row
refunded_row-Balanced dto b room whole_dto whole_refunded whole_total = record {
  grows = refl;
  bounded = omega arith;
  closed = ground arith;
}

refunded_row-id :
    (i : ℕ) (dto : RefundPayment) (b : Booking)
    → has_id i b ≡ true
    → has_id i (refunded_row dto b) ≡ true
unfolding refunded_row
refunded_row-id i dto b h = h

refunded_row-other :
    (i j : ℕ) (dto : RefundPayment) (b : Booking)
    → has_id i b ≡ true
    → (j == i) ≡ false
    → (has_id j b ≡ false) × (has_id j (refunded_row dto b) ≡ false)
unfolding refunded_row
refunded_row-other i j dto b h other = (ground arith, ground arith)

-- A refund of whole piastres, of a booking whose price and earlier refunds are in whole piastres,
-- adds its amount to what was refunded before, never exceeds the price, and makes the booking
-- REFUNDED exactly if the whole price is then refunded. The row so changed is the one that is stored,
-- and the bookings by all other ids are as they were.
pub refund-Balanced :
    (actor i : ℕ) (dto : RefundPayment) (db : Db) (b r : Booking) (db' : Db)
    → booking_by_id db i ≡ some b
    → process_refund actor i dto db ≡ ok (r, db')
    → dto.refund_amount % 10 ≡ 0
    → b.refunded_amount % 10 ≡ 0
    → get_or b.total_amount 0 % 10 ≡ 0
    → Balanced b dto.refund_amount r
      × (booking_by_id db' i ≡ some r)
      × ((j : ℕ) → (j == i) ≡ false → booking_by_id db' j ≡ booking_by_id db j)
refund-Balanced actor i dto db b r db' at h whole_dto whole_refunded whole_total =
    let v = refund-Refunded actor i dto db r db' h in
    let same : v.booking ≡ b = cc (v.found, at) in
    let room = ap (λ (x : Booking). x.refunded_amount) same in
    let total = ap (λ (x : Booking). get_or x.total_amount 0) same in
    let f = refunded_row dto in
    let rows = ap (λ (d : Db). d.bookings) v.state in
    (
      rw (v.row, same)
          (refunded_row-Balanced dto b (omega (arith, v.covered, room, total)) whole_dto
            whole_refunded whole_total),
      rw (rows, v.row)
          (find?-update (has_id i) f db.bookings v.booking v.found (
            refunded_row-id i dto v.booking
              (find?-holds (has_id i) db.bookings v.booking v.found))),
      λ j other. rw rows (
          find?-update_ne (has_id i) (has_id j) f db.bookings
            (λ a met. refunded_row-other i j dto a met other)),
    )
