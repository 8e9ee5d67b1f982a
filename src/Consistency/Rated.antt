-- ===== src/Consistency/Rated.antt =====
-- The ratings of a passenger and the consistency of the columns of a booking.
use waleed_bus.Base.{ℕ, ◌≡◌, inl, inr, ok, arith, AllRows-update_always, AllRows-update_many}
use waleed_bus.Schema.{Booking, Db, has_id}
use waleed_bus.Bookings.Rating.{unrated, rated_row, completed_row, rate_by_passenger}
use waleed_bus.Inventory.Rated.{rate_by_passenger-Rated}
use waleed_bus.Consistency.Row.{IsConsistent}
use waleed_bus.Consistency.Writes.{AllConsistent}

rated_row-IsConsistent :
    (now bus driver : ℕ) (b : Booking) → IsConsistent b → IsConsistent (rated_row now bus driver b)
unfolding rated_row
rated_row-IsConsistent now bus driver b v = ground arith

completed_row-IsConsistent :
    (now bus driver : ℕ) (b : Booking)
    → IsConsistent b
    → IsConsistent (completed_row now bus driver b)
unfolding completed_row
completed_row-IsConsistent now bus driver b v = ground arith

pub rate_by_passenger-AllConsistent :
    (now actor i bus driver : ℕ) (db db' : Db)
    → rate_by_passenger now actor i bus driver db ≡ ok db'
    → AllConsistent db
    → AllConsistent db'
rate_by_passenger-AllConsistent now actor i bus driver db db' h all =
    let c = rate_by_passenger-Rated now actor i bus driver db db' h in
    elim c.rows [
      | inl one ↦ rw one (
          AllRows-update_always IsConsistent (has_id c.booking) (completed_row now bus driver)
            db.bookings (completed_row-IsConsistent now bus driver) all)
      | inr many ↦ rw many (
          AllRows-update_many IsConsistent (unrated c.booking) (rated_row now bus driver)
            db.bookings (λ b met. rated_row-IsConsistent now bus driver b) all)
    ]
