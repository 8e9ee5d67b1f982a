-- ===== src/Bookings/Rating/Final.antt =====
-- A rating, once given, stays.
use waleed_bus.Base.{
  not_found, ℕ, ◌≤◌, ◌≡◌, refl, ◌∙◌, false, ◌&&◌, some, ◌==◌, inl, inr, arith, ok, err, coded,
  count, find?-update, find?-holds, if-eq, ok_eq, require-eq-ok, >>=-eq-ok, refuse_if-eq-ok,
  refuse_if-ok, rating_not_allowed,
}
use waleed_bus.Base.Once.{count-update_many, find?-update_many, count-update}
use waleed_bus.Schema.{Booking, Db, has_id, booking_by_id}
use waleed_bus.Bookings.Rating.{
  conflicts, check_sides, unrated, rated_row, completed_row, rate_late, rate_all, rate_write,
}

-- The row holds these two ratings, and the conditional update touches it no more.
pub record HasRating (i bus driver : ℕ) (db : Db) : Type 0 where
  pub row : Booking
  pub found : booking_by_id db i ≡ some row
  pub bus_side : row.bus_rating ≡ some bus
  pub driver_side : row.driver_rating ≡ some driver
  pub closed : count (unrated i) db.bookings ≡ 0

rated_row-facts :
    (now bus driver i : ℕ) (b : Booking)
    → let r = rated_row now bus driver b in
      (unrated i r ≡ false)
      × (has_id i r ≡ has_id i b)
      × (r.bus_rating ≡ some bus)
      × (r.driver_rating ≡ some driver)
unfolding rated_row
rated_row-facts now bus driver i b = (ground arith, refl, refl, refl)

completed_row-facts :
    (now bus driver i : ℕ) (b : Booking)
    → conflicts b.bus_rating bus ≡ false
    → conflicts b.driver_rating driver ≡ false
    → let r = completed_row now bus driver b in
      (has_id i r ≡ has_id i b) × (r.bus_rating ≡ some bus) × (r.driver_rating ≡ some driver)
unfolding completed_row
completed_row-facts now bus driver i b h k = (refl, ground arith, ground arith)

completed_row-closed :
    (now bus driver i : ℕ) (b : Booking) → unrated i (completed_row now bus driver b) ≡ false
unfolding completed_row
completed_row-closed now bus driver i b = ground arith

check_sides-ok :
    (b : Booking) (bus driver : ℕ)
    → check_sides b bus driver ≡ ok tt
    → (conflicts b.bus_rating bus ≡ false) × (conflicts b.driver_rating driver ≡ false)
unfolding check_sides
check_sides-ok b bus driver h =
    let (e1, h1) = refuse_if-eq-ok (conflicts b.bus_rating bus) 409 rating_not_allowed _ h in
    (e1, refuse_if-ok (conflicts b.driver_rating driver) 409 rating_not_allowed h1)

-- A write that succeeds, in a lost race or not, leaves the two ratings in the row.
rate_write-HasRating :
    (now bus driver i : ℕ) (db db' : Db)
    → count (has_id i) db.bookings ≤ 1
    → rate_write now bus driver i db ≡ ok db'
    → HasRating i bus driver db'
unfolding rate_write
rate_write-HasRating now bus driver i db db' keyed h =
    elim (if-eq (count (unrated i) db.bookings == 0) (rate_late now bus driver i db)
      (ok (rate_all now bus driver i db)) h) [
        | inl (zero_left, h1) ↦
            let (b, found, h2) = require-eq-ok (booking_by_id db i) 404 not_found _ h1 in
            let (_, sides, h3) = >>=-eq-ok (check_sides b bus driver) _ h2 in
            let (left, right) = check_sides-ok b bus driver sides in
            let f = completed_row now bus driver in
            let facts = completed_row-facts now bus driver i b left right in
            rw (← (ok_eq h3)) (record {
              row = f b;
              found =
                  find?-update (has_id i) f db.bookings b found
                    (facts.0 ∙ find?-holds (has_id i) db.bookings b found);
              bus_side = facts.1;
              driver_side = facts.2;
              closed =
                  count-update (unrated i) (has_id i) f
                    (λ a m. completed_row-closed now bus driver i a) db.bookings (ground arith);
            })
        | inr (touched, h1) ↦
            let some_left : 1 ≤ count (unrated i) db.bookings = ground arith in
            let f = rated_row now bus driver in
            let (b, found, met, after) =
              find?-update_many (unrated i) (has_id i) f (λ a m. ground (arith, m))
                (λ a m. (rated_row-facts now bus driver i a).1 ∙ ground (arith, m)) db.bookings
                keyed some_left in
            let facts = rated_row-facts now bus driver i b in
            rw (← (ok_eq h1)) (record {
              row = f b;
              found = after;
              bus_side = facts.2;
              driver_side = facts.3;
              closed =
                  count-update_many (unrated i) (unrated i) f
                    (λ a m. (rated_row-facts now bus driver i a).0) db.bookings;
            })
      ]

conflicting :
    (b : Booking) (bus driver bus' driver' : ℕ)
    → b.bus_rating ≡ some bus
    → b.driver_rating ≡ some driver
    → bus == bus' && driver == driver' ≡ false
    → check_sides b bus' driver' ≡ err (coded 409 rating_not_allowed)
unfolding check_sides
conflicting b bus driver bus' driver' h k ne = rw (h, k) (ground (arith, ne))

-- A rating is final: once a write of two ratings for a booking has succeeded, every later write
-- with another value on either side is refused with RATING_NOT_ALLOWED.
pub rate_write-rate_write :
    (now later bus driver bus' driver' i : ℕ) (db db' : Db)
    → count (has_id i) db.bookings ≤ 1
    → rate_write now bus driver i db ≡ ok db'
    → bus == bus' && driver == driver' ≡ false
    → rate_write later bus' driver' i db' ≡ err (coded 409 rating_not_allowed)
unfolding rate_write
rate_write-rate_write now later bus driver bus' driver' i db db' keyed h ne =
    let r = rate_write-HasRating now bus driver i db db' keyed h in
    rw (r.closed, r.found, conflicting r.row bus driver bus' driver' r.bus_side r.driver_side ne)
      refl
