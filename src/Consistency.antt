-- ===== src/Consistency.antt =====
-- The consistency of a booking's columns under the operations on bookings, and the condition under
-- which those of the fleet keep it.
pub mod Row
pub mod Writes
pub mod ByFleet
pub mod Rated
pub mod History
