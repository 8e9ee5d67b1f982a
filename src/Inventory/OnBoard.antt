-- ===== src/Inventory/OnBoard.antt =====
-- The driver's operations and the seat inventory.
use waleed_bus.Base.{
  ℕ, get_or, ◌≡◌, refl, sym, ap, subst, ◌⊎◌, Bool, Option, ok, arith, inl, inr, update_many,
}
use waleed_bus.Schema.{
  Booking, Db, DropStatus, PaymentStatus, PaymentMethod, WithinCapacity, log-WithinCapacity,
}
use waleed_bus.Driver.Anchor.{FleetContext}
use waleed_bus.Driver.Board.{unboarded, boarded_row, board_write, board_row, board}
use waleed_bus.Driver.DropOff.{DropOff, undropped, dropped_row, drop_write, drop_row, drop_off}
use waleed_bus.Driver.CashPayment.{unsettled, paid_row, pay_write, pay_row, cash_payment}
use waleed_bus.Driver.Inversion.{board-Boarded, drop_off-Dropped, cash_payment-Paid}
use waleed_bus.Inventory.Unchanged.{KeepsSeats, keep-WithinCapacity}

-- A write of the driver changes nothing, or rewrites rows in place.
abbrev pub Rewrites : (Booking → Bool) → (Booking → Booking) → Db → Db → Type 0
Rewrites p f db db' = (db' ≡ db) ⊎ (db' ≡ record db { bookings = update_many p f db.bookings })

Rewrites-WithinCapacity :
    (p : Booking → Bool) (f : Booking → Booking) (db db' : Db)
    → KeepsSeats f
    → Rewrites p f db db'
    → WithinCapacity db
    → WithinCapacity db'
Rewrites-WithinCapacity p f db db' keep (inl same) inv = subst WithinCapacity (sym same) inv
Rewrites-WithinCapacity p f db db' keep (inr e) inv =
    keep-WithinCapacity db db' p f keep (ap (λ d. d.trips) e) (ap (λ d. d.buses) e)
      (inr (ap (λ d. d.bookings) e)) inv

pub board_write-Rewrites :
    (now actor i : ℕ) (db : Db) (r : Option ℕ) (db' : Db)
    → board_write now actor i db ≡ ok (r, db')
    → Rewrites (unboarded i) (boarded_row now actor) db db'
unfolding board_write
board_write-Rewrites now actor i db r db' h = ground arith

pub board_row-Rewrites :
    (now actor : ℕ) (b : Booking) (db : Db) (r : Option ℕ) (db' : Db)
    → board_row now actor b db ≡ ok (r, db')
    → Rewrites (unboarded b.id) (boarded_row now actor) db db'
board_row-Rewrites now actor b db r db' h =
    ground (arith, board_write-Rewrites now actor b.id db r db')

boarded_row-KeepsSeats : (now actor : ℕ) → KeepsSeats (boarded_row now actor)
unfolding boarded_row
boarded_row-KeepsSeats now actor b = (refl, refl, refl)

pub board-WithinCapacity :
    (now : ℕ) (ctx : FleetContext) (actor trip_id i : ℕ) (db : Db) (r : Option ℕ) (db' : Db)
    → board now ctx actor trip_id i db ≡ ok (r, db')
    → WithinCapacity db
    → WithinCapacity db'
board-WithinCapacity now ctx actor trip_id i db r db' h inv =
    let c = board-Boarded now ctx actor trip_id i db r db' h in
    let w = board_row-Rewrites now actor c.booking db r c.written c.row in
    rw c.state (
      log-WithinCapacity _ _ _ c.written
        (Rewrites-WithinCapacity _ _ db c.written (boarded_row-KeepsSeats now actor) w inv))

pub drop_write-Rewrites :
    (now : ℕ) (input : DropOff) (i : ℕ) (db : Db) (r : DropStatus × Option ℕ) (db' : Db)
    → drop_write now input i db ≡ ok (r, db')
    → Rewrites (undropped i) (dropped_row now input) db db'
unfolding drop_write
drop_write-Rewrites now input i db r db' h = ground arith

pub drop_row-Rewrites :
    (now : ℕ) (input : DropOff) (b : Booking) (db : Db) (r : DropStatus × Option ℕ) (db' : Db)
    → drop_row now input b db ≡ ok (r, db')
    → Rewrites (undropped b.id) (dropped_row now input) db db'
drop_row-Rewrites now input b db r db' h =
    ground (arith, drop_write-Rewrites now input b.id db r db')

dropped_row-KeepsSeats : (now : ℕ) (input : DropOff) → KeepsSeats (dropped_row now input)
unfolding dropped_row
dropped_row-KeepsSeats now input b = (refl, refl, refl)

pub drop_off-WithinCapacity :
    (now : ℕ) (ctx : FleetContext) (actor trip_id i : ℕ) (input : DropOff) (db : Db)
    (r : DropStatus × Option ℕ) (db' : Db)
    → drop_off now ctx actor trip_id i input db ≡ ok (r, db')
    → WithinCapacity db
    → WithinCapacity db'
drop_off-WithinCapacity now ctx actor trip_id i input db r db' h inv =
    let c = drop_off-Dropped now ctx actor trip_id i input db r db' h in
    let w = drop_row-Rewrites now input c.booking db r c.written c.row in
    rw c.state (
      log-WithinCapacity _ _ _ c.written
        (Rewrites-WithinCapacity _ _ db c.written (dropped_row-KeepsSeats now input) w inv))

pub pay_write-Rewrites :
    (now actor : ℕ) (method : PaymentMethod) (i : ℕ) (db : Db) (r : Option PaymentStatus × Option ℕ)
    (db' : Db)
    → pay_write now actor method i db ≡ ok (r, db')
    → Rewrites (unsettled i) (paid_row now actor method) db db'
unfolding pay_write
pay_write-Rewrites now actor method i db r db' h = ground arith

pub pay_row-Rewrites :
    (now actor : ℕ) (method : PaymentMethod) (b : Booking) (db : Db)
    (r : Option PaymentStatus × Option ℕ) (db' : Db)
    → pay_row now actor method b db ≡ ok (r, db')
    → Rewrites (unsettled b.id) (paid_row now actor (get_or b.payment_method method)) db db'
pay_row-Rewrites now actor method b db r db' h =
    ground (arith, pay_write-Rewrites now actor (get_or b.payment_method method) b.id db r db')

paid_row-KeepsSeats :
    (now actor : ℕ) (method : PaymentMethod) → KeepsSeats (paid_row now actor method)
unfolding paid_row
paid_row-KeepsSeats now actor method b = (refl, refl, refl)

pub cash_payment-WithinCapacity :
    (now : ℕ) (ctx : FleetContext) (actor trip_id i : ℕ) (method : PaymentMethod) (db : Db)
    (r : Option PaymentStatus × Option ℕ) (db' : Db)
    → cash_payment now ctx actor trip_id i method db ≡ ok (r, db')
    → WithinCapacity db
    → WithinCapacity db'
cash_payment-WithinCapacity now ctx actor trip_id i method db r db' h inv =
    let c = cash_payment-Paid now ctx actor trip_id i method db r db' h in
    let w = pay_row-Rewrites now actor method c.booking db r c.written c.row in
    rw c.state (
      log-WithinCapacity _ _ _ c.written (
        Rewrites-WithinCapacity _ _ db c.written
          (paid_row-KeepsSeats now actor (get_or (c.booking).payment_method method)) w inv))
