-- ===== src/Inventory/Unchanged.antt =====
-- The operations that leave every booking's trip, status and seats alone.
use waleed_bus.Base.{
  ℕ, ◌≡◌, refl, ap, ◌⊎◌, Bool, Option, ok, arith, inl, inr, update, update_many, sum_of-update_le,
  sum_of-update_many,
}
use waleed_bus.Base.Text.{Text}
use waleed_bus.Schema.{Booking, Db, has_id, seats_on, WithinCapacity, WithinCapacity-frame}
use waleed_bus.Admin.Lifecycle.{OperationalOverride, overridden_row, override_operational}
use waleed_bus.Admin.Inversion.{override-Overridden}
use waleed_bus.Admin.Payment.{
  VerifyPayment, verified_row, verify_payment, failed_row, fail_payment, RefundPayment,
  refunded_row, process_refund,
}
use waleed_bus.Admin.Settled.{verify-Verified, fail-Failed, refund-Refunded}

-- The seats of a row: what the inventory reads of it.
abbrev pub KeepsSeats : (Booking → Booking) → Type 0
KeepsSeats f =
    (b : Booking)
    → ((f b).trip_id ≡ b.trip_id) × ((f b).status ≡ b.status) × ((f b).seats ≡ b.seats)

seats_on-keep :
    (f : Booking → Booking) → KeepsSeats f → (t : ℕ) (b : Booking) → seats_on t (f b) ≡ seats_on t b
seats_on-keep f keep t b = ground (arith, keep b)

-- One row rewritten, or several, without a change of their seats.
pub keep-WithinCapacity :
    (db db' : Db) (p : Booking → Bool) (f : Booking → Booking)
    → KeepsSeats f
    → db'.trips ≡ db.trips
    → db'.buses ≡ db.buses
    → (db'.bookings ≡ update p f db.bookings) ⊎ (db'.bookings ≡ update_many p f db.bookings)
    → WithinCapacity db
    → WithinCapacity db'
keep-WithinCapacity db db' p f keep trips buses (inl one) =
    WithinCapacity-frame db db' trips buses λ t trip bus g le. rw one (
      omega (
        arith,
        sum_of-update_le (seats_on t) p f (λ b. omega (arith, seats_on-keep f keep t b))
            db.bookings,
      ))
keep-WithinCapacity db db' p f keep trips buses (inr many) =
    WithinCapacity-frame db db' trips buses λ t trip bus g le.
      rw (many, sum_of-update_many (seats_on t) p f (seats_on-keep f keep t) db.bookings) le

verified_row-KeepsSeats :
    (now actor : ℕ) (dto : VerifyPayment) → KeepsSeats (verified_row now actor dto)
unfolding verified_row
verified_row-KeepsSeats now actor dto b = (refl, refl, refl)

failed_row-KeepsSeats : (reason : Text) (notes : Option Text) → KeepsSeats (failed_row reason notes)
unfolding failed_row
failed_row-KeepsSeats reason notes b = (refl, refl, refl)

refunded_row-KeepsSeats : (dto : RefundPayment) → KeepsSeats (refunded_row dto)
unfolding refunded_row
refunded_row-KeepsSeats dto b = (refl, refl, refl)

overridden_row-KeepsSeats :
    (o : OperationalOverride) (now actor : ℕ) → KeepsSeats (overridden_row o now actor)
unfolding overridden_row
overridden_row-KeepsSeats o now actor b = ground arith

pub verify-WithinCapacity :
    (now actor i : ℕ) (dto : VerifyPayment) (db : Db) (r : Booking) (db' : Db)
    → verify_payment now actor i dto db ≡ ok (r, db')
    → WithinCapacity db
    → WithinCapacity db'
verify-WithinCapacity now actor i dto db r db' h =
    let c = verify-Verified now actor i dto db r db' h in
    keep-WithinCapacity db db' (has_id i) _ (verified_row-KeepsSeats now actor dto)
      (ap (λ d. d.trips) c.state) (ap (λ d. d.buses) c.state) (inl (ap (λ d. d.bookings) c.state))

pub fail-WithinCapacity :
    (actor i : ℕ) (reason : Text) (notes : Option Text) (db : Db) (r : Booking) (db' : Db)
    → fail_payment actor i reason notes db ≡ ok (r, db')
    → WithinCapacity db
    → WithinCapacity db'
fail-WithinCapacity actor i reason notes db r db' h =
    let c = fail-Failed actor i reason notes db r db' h in
    keep-WithinCapacity db db' (has_id i) _ (failed_row-KeepsSeats reason notes)
      (ap (λ d. d.trips) c.state) (ap (λ d. d.buses) c.state) (inl (ap (λ d. d.bookings) c.state))

pub refund-WithinCapacity :
    (actor i : ℕ) (dto : RefundPayment) (db : Db) (r : Booking) (db' : Db)
    → process_refund actor i dto db ≡ ok (r, db')
    → WithinCapacity db
    → WithinCapacity db'
refund-WithinCapacity actor i dto db r db' h =
    let c = refund-Refunded actor i dto db r db' h in
    keep-WithinCapacity db db' (has_id i) _ (refunded_row-KeepsSeats dto)
      (ap (λ d. d.trips) c.state) (ap (λ d. d.buses) c.state) (inl (ap (λ d. d.bookings) c.state))

pub override-WithinCapacity :
    (now actor i : ℕ) (o : OperationalOverride) (db : Db) (r : Booking) (db' : Db)
    → override_operational now actor i o db ≡ ok (r, db')
    → WithinCapacity db
    → WithinCapacity db'
override-WithinCapacity now actor i o db r db' h =
    let c = override-Overridden now actor i o db r db' h in
    keep-WithinCapacity db db' (has_id i) _ (overridden_row-KeepsSeats o now actor)
      (ap (λ d. d.trips) c.state) (ap (λ d. d.buses) c.state) (inl (ap (λ d. d.bookings) c.state))
