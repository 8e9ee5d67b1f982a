-- ===== src/Inventory.antt =====
-- The seat inventory: which operations on bookings keep every trip within the capacity of its bus,
-- and under which condition those of the fleet do.
pub mod Reserve
pub mod Release
pub mod Readmit
pub mod Unchanged
pub mod OnBoard
pub mod ByFleet
pub mod Rated
pub mod History
pub mod Returned
pub mod Restored
