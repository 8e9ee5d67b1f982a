-- ===== src/Bookings/Create.antt =====
-- src/bookings/passenger-booking.service.ts: `createPassengerBooking`. The checks are functions of
-- their own, in the order in which the transaction makes them; `now` is the clock of the call and
-- `fresh` the identifier that the database gives the new row.
pub mod Input
pub mod Checks
pub mod Commit
pub mod Inversion
pub mod Charge
pub mod Reserved
pub mod Redemptions
