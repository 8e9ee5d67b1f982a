-- ===== src/Consistency/Writes.antt =====
-- The operations of passengers, administrators and drivers keep the bookings consistent.
use waleed_bus.Base.{
  ℕ, get_or, ◌≡◌, sym, ap, subst, Bool, inl, inr, Option, some, ok, update, AllRows, AllRows-append,
  AllRows-find?, AllRows-update, AllRows-update_many,
}
use waleed_bus.Base.Text.{Text}
use waleed_bus.Schema.{Booking, Db, DropStatus, PaymentStatus, PaymentMethod, has_id, booking_by_id}
use waleed_bus.Bookings.Create.Input.{CreatePassengerBooking}
use waleed_bus.Bookings.Create.Commit.{
  CreatedBooking, booking_row, insert_booking, create_passenger_booking,
}
use waleed_bus.Bookings.Create.Inversion.{create-Created}
use waleed_bus.Bookings.Cancel.{cancel_passenger_booking}
use waleed_bus.Bookings.Cancelled.{cancel-Cancelled}
use waleed_bus.Admin.Lifecycle.{OperationalOverride, force_cancel, reinstate, override_operational}
use waleed_bus.Admin.Payment.{
  VerifyPayment, verify_payment, fail_payment, RefundPayment, process_refund,
}
use waleed_bus.Admin.Inversion.{
  force_cancel-ForceCancelled, reinstate-Reinstated, override-Overridden,
}
use waleed_bus.Admin.Settled.{verify-Verified, fail-Failed, refund-Refunded}
use waleed_bus.Driver.Anchor.{FleetContext}
use waleed_bus.Driver.Board.{board}
use waleed_bus.Driver.DropOff.{DropOff, drop_off}
use waleed_bus.Driver.CashPayment.{cash_payment}
use waleed_bus.Driver.Inversion.{board-Boarded, drop_off-Dropped, cash_payment-Paid}
use waleed_bus.Inventory.Reserve.{redeem-frame}
use waleed_bus.Inventory.OnBoard.{Rewrites, board_row-Rewrites, drop_row-Rewrites, pay_row-Rewrites}
use waleed_bus.Consistency.Row.{
  IsConsistent, booking_row-IsConsistent, cancelled_row-IsConsistent,
  force_cancelled_row-IsConsistent, reinstated_row-IsConsistent, overridden_row-IsConsistent,
  verified_row-IsConsistent, failed_row-IsConsistent, refunded_row-IsConsistent,
  boarded_row-IsConsistent, dropped_row-IsConsistent, paid_row-IsConsistent,
}

abbrev pub AllConsistent : Db → Type 0
AllConsistent db = AllRows IsConsistent db.bookings

-- One row that is found is changed to a consistent one.
update-AllConsistent :
    (db db' : Db) (i : ℕ) (b : Booking) (f : Booking → Booking)
    → booking_by_id db i ≡ some b
    → db'.bookings ≡ update (has_id i) f db.bookings
    → (IsConsistent b → IsConsistent (f b))
    → AllConsistent db
    → AllConsistent db'
update-AllConsistent db db' i b f found rows keep all = subst (AllRows IsConsistent) (sym rows) (
    AllRows-update IsConsistent (has_id i) f db.bookings b found
      (keep (AllRows-find? IsConsistent (has_id i) db.bookings b found all)) all)

-- A write of the driver.
rewrite-AllConsistent :
    (p : Booking → Bool) (f : Booking → Booking) (db db' : Db)
    → ((b : Booking) → IsConsistent b → IsConsistent (f b))
    → Rewrites p f db db'
    → AllConsistent db
    → AllConsistent db'
rewrite-AllConsistent p f db db' keep (inl same) all = subst AllConsistent (sym same) all
rewrite-AllConsistent p f db db' keep (inr e) all =
    subst AllConsistent (sym e)
      (AllRows-update_many IsConsistent p f db.bookings (λ b _ v. keep b v) all)

pub create-AllConsistent :
    (once : Bool) (fresh now actor : ℕ) (input : CreatePassengerBooking) (db : Db)
    (r : CreatedBooking) (db' : Db)
    → create_passenger_booking once fresh now actor input db ≡ ok (r, db')
    → AllConsistent db
    → AllConsistent db'
create-AllConsistent once fresh now actor input db r db' h all =
    let c = create-Created once fresh now actor input db r db' h in
    let row = booking_row fresh now actor c.trip c.who c.price input in
    let frame = redeem-frame c.price actor fresh (insert_booking row db) in
    rw (c.state, frame.2)
      (AllRows-append IsConsistent db.bookings row all
        (booking_row-IsConsistent fresh now actor c.trip c.who c.price input))

pub cancel-AllConsistent :
    (now actor i : ℕ) (n : Option ℕ) (reason : Option Text) (db : Db) (r : Booking) (db' : Db)
    → cancel_passenger_booking now actor i n reason db ≡ ok (r, db')
    → AllConsistent db
    → AllConsistent db'
cancel-AllConsistent now actor i n reason db r db' h =
    let c = cancel-Cancelled now actor i n reason db r db' h in
    update-AllConsistent db db' i c.booking _ c.found (ap (λ d. d.bookings) c.state)
      (cancelled_row-IsConsistent now actor c.seats reason c.booking)

pub force_cancel-AllConsistent :
    (now actor i : ℕ) (reason : Text) (db : Db) (r : Booking × Bool) (db' : Db)
    → force_cancel now actor i reason db ≡ ok (r, db')
    → AllConsistent db
    → AllConsistent db'
force_cancel-AllConsistent now actor i reason db r db' h =
    let c = force_cancel-ForceCancelled now actor i reason db r db' h in
    update-AllConsistent db db' i c.booking _ c.found (ap (λ d. d.bookings) c.state)
      (force_cancelled_row-IsConsistent now actor reason c.booking)

pub reinstate-AllConsistent :
    (actor i : ℕ) (db : Db) (r : Booking) (db' : Db)
    → reinstate actor i db ≡ ok (r, db')
    → AllConsistent db
    → AllConsistent db'
reinstate-AllConsistent actor i db r db' h =
    let c = reinstate-Reinstated actor i db r db' h in
    update-AllConsistent db db' i c.booking _ c.found (ap (λ d. d.bookings) c.state)
      (reinstated_row-IsConsistent c.booking)

pub override-AllConsistent :
    (now actor i : ℕ) (o : OperationalOverride) (db : Db) (r : Booking) (db' : Db)
    → override_operational now actor i o db ≡ ok (r, db')
    → AllConsistent db
    → AllConsistent db'
override-AllConsistent now actor i o db r db' h =
    let c = override-Overridden now actor i o db r db' h in
    update-AllConsistent db db' i c.booking _ c.found (ap (λ d. d.bookings) c.state)
      (overridden_row-IsConsistent o now actor c.booking)

pub verify-AllConsistent :
    (now actor i : ℕ) (dto : VerifyPayment) (db : Db) (r : Booking) (db' : Db)
    → verify_payment now actor i dto db ≡ ok (r, db')
    → AllConsistent db
    → AllConsistent db'
verify-AllConsistent now actor i dto db r db' h =
    let c = verify-Verified now actor i dto db r db' h in
    update-AllConsistent db db' i c.booking _ c.found (ap (λ d. d.bookings) c.state)
      (verified_row-IsConsistent now actor dto c.booking)

pub fail-AllConsistent :
    (actor i : ℕ) (reason : Text) (notes : Option Text) (db : Db) (r : Booking) (db' : Db)
    → fail_payment actor i reason notes db ≡ ok (r, db')
    → AllConsistent db
    → AllConsistent db'
fail-AllConsistent actor i reason notes db r db' h =
    let c = fail-Failed actor i reason notes db r db' h in
    update-AllConsistent db db' i c.booking _ c.found (ap (λ d. d.bookings) c.state)
      (failed_row-IsConsistent reason notes c.booking)

pub refund-AllConsistent :
    (actor i : ℕ) (dto : RefundPayment) (db : Db) (r : Booking) (db' : Db)
    → process_refund actor i dto db ≡ ok (r, db')
    → AllConsistent db
    → AllConsistent db'
refund-AllConsistent actor i dto db r db' h =
    let c = refund-Refunded actor i dto db r db' h in
    update-AllConsistent db db' i c.booking _ c.found (ap (λ d. d.bookings) c.state)
      (refunded_row-IsConsistent dto c.booking c.covered)

pub board-AllConsistent :
    (now : ℕ) (ctx : FleetContext) (actor t i : ℕ) (db : Db) (r : Option ℕ) (db' : Db)
    → board now ctx actor t i db ≡ ok (r, db')
    → AllConsistent db
    → AllConsistent db'
board-AllConsistent now ctx actor t i db r db' h all =
    let c = board-Boarded now ctx actor t i db r db' h in
    let w = board_row-Rewrites now actor c.booking db r c.written c.row in
    rw c.state (rewrite-AllConsistent _ _ db c.written (boarded_row-IsConsistent now actor) w all)

pub drop_off-AllConsistent :
    (now : ℕ) (ctx : FleetContext) (actor t i : ℕ) (input : DropOff) (db : Db)
    (r : DropStatus × Option ℕ) (db' : Db)
    → drop_off now ctx actor t i input db ≡ ok (r, db')
    → AllConsistent db
    → AllConsistent db'
drop_off-AllConsistent now ctx actor t i input db r db' h all =
    let c = drop_off-Dropped now ctx actor t i input db r db' h in
    let w = drop_row-Rewrites now input c.booking db r c.written c.row in
    rw c.state (rewrite-AllConsistent _ _ db c.written (dropped_row-IsConsistent now input) w all)

pub cash_payment-AllConsistent :
    (now : ℕ) (ctx : FleetContext) (actor t i : ℕ) (method : PaymentMethod) (db : Db)
    (r : Option PaymentStatus × Option ℕ) (db' : Db)
    → cash_payment now ctx actor t i method db ≡ ok (r, db')
    → AllConsistent db
    → AllConsistent db'
cash_payment-AllConsistent now ctx actor t i method db r db' h all =
    let c = cash_payment-Paid now ctx actor t i method db r db' h in
    let w = pay_row-Rewrites now actor method c.booking db r c.written c.row in
    rw c.state (
      rewrite-AllConsistent _ _ db c.written
        (paid_row-IsConsistent now actor (get_or (c.booking).payment_method method)) w all)
