-- ===== src/Inventory/Rated.antt =====
-- The ratings of a passenger, which leave the seats of every booking and the columns of its
-- consistency alone.
use waleed_bus.Base.{
  ℕ, ◌≡◌, refl, sym, ap, ◌⊎◌, inl, inr, ok, if-eq, ok_eq, ◌==◌, not, count, update, update_many,
  >>=-eq-ok, require-eq-ok, refuse_if-eq-ok,
}
use waleed_bus.Schema.{Db, WithinCapacity, has_id, user_by_id, trip_by_id, booking_by_id}
use waleed_bus.Bookings.Rating.{
  caller_phone, phones_differ, trip_completed, check_sides, unrated, rated_row, completed_row,
  rate_late, rate_all, rate_write, rate_by_passenger,
}
use waleed_bus.Inventory.Unchanged.{KeepsSeats, keep-WithinCapacity}

-- The rows after a rating: the side that was open is filled, or both are.
pub record Rated (now bus driver : ℕ) (db db' : Db) : Type 0 where
  pub booking : ℕ
  pub trips : db'.trips ≡ db.trips
  pub buses : db'.buses ≡ db.buses
  pub rows :
      (db'.bookings ≡ update (has_id booking) (completed_row now bus driver) db.bookings)
      ⊎ (db'.bookings ≡ update_many (unrated booking) (rated_row now bus driver) db.bookings)

rate_write-Rated :
    (now bus driver i : ℕ) (db db' : Db)
    → rate_write now bus driver i db ≡ ok db'
    → Rated now bus driver db db'
unfolding rate_write
rate_write-Rated now bus driver i db db' h =
    elim (if-eq (count (unrated i) db.bookings == 0) (rate_late now bus driver i db)
      (ok (rate_all now bus driver i db)) h) [
        | inl (_, e) ↦
            let (b, _, h1) = require-eq-ok (booking_by_id db i) _ _ _ e in
            let (_, _, last) = >>=-eq-ok (check_sides b bus driver) _ h1 in
            let state = sym (ok_eq last) in
            record {
              booking = i;
              trips = ap (λ (d : Db). d.trips) state;
              buses = ap (λ (d : Db). d.buses) state;
              rows = inl (ap (λ (d : Db). d.bookings) state);
            }
        | inr (_, e) ↦
            let state = sym (ok_eq e) in
            record {
              booking = i;
              trips = ap (λ (d : Db). d.trips) state;
              buses = ap (λ (d : Db). d.buses) state;
              rows = inr (ap (λ (d : Db). d.bookings) state);
            }
      ]

pub rate_by_passenger-Rated :
    (now actor i bus driver : ℕ) (db db' : Db)
    → rate_by_passenger now actor i bus driver db ≡ ok db'
    → Rated now bus driver db db'
unfolding rate_by_passenger
rate_by_passenger-Rated now actor i bus driver db db' h =
    let (phone, _, h1) = require-eq-ok (caller_phone (user_by_id db actor)) _ _ _ h in
    let (b, _, h2) = require-eq-ok (booking_by_id db i) _ _ _ h1 in
    let (_, h3) = refuse_if-eq-ok (phones_differ _ phone) _ _ _ h2 in
    let (_, h4) = refuse_if-eq-ok (not (trip_completed (trip_by_id db b.trip_id))) _ _ _ h3 in
    let (_, _, last) = >>=-eq-ok (check_sides b bus driver) _ h4 in
    rate_write-Rated now bus driver b.id db db' last

rated_row-KeepsSeats : (now bus driver : ℕ) → KeepsSeats (rated_row now bus driver)
unfolding rated_row
rated_row-KeepsSeats now bus driver b = (refl, refl, refl)

completed_row-KeepsSeats : (now bus driver : ℕ) → KeepsSeats (completed_row now bus driver)
unfolding completed_row
completed_row-KeepsSeats now bus driver b = (refl, refl, refl)

pub rate_by_passenger-WithinCapacity :
    (now actor i bus driver : ℕ) (db db' : Db)
    → rate_by_passenger now actor i bus driver db ≡ ok db'
    → WithinCapacity db
    → WithinCapacity db'
rate_by_passenger-WithinCapacity now actor i bus driver db db' h =
    let c = rate_by_passenger-Rated now actor i bus driver db db' h in
    elim c.rows [
      | inl one ↦
          keep-WithinCapacity db db' (has_id c.booking) (completed_row now bus driver)
            (completed_row-KeepsSeats now bus driver) c.trips c.buses (inl one)
      | inr many ↦
          keep-WithinCapacity db db' (unrated c.booking) (rated_row now bus driver)
            (rated_row-KeepsSeats now bus driver) c.trips c.buses (inr many)
    ]
