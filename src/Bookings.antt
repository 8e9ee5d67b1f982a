-- ===== src/Bookings.antt =====
-- src/bookings: reservations by passengers, their review by administrators, and the sharing and
-- rating of trips.
pub mod Stops
pub mod Create
pub mod Cancel
pub mod Cancelled
pub mod Rating
pub mod Shares
pub mod Fleet
