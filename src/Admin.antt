-- ===== src/Admin.antt =====
-- src/bookings: the review of bookings by the platform's administrators.
pub mod Lifecycle
pub mod Payment
pub mod Inversion
pub mod Settled
pub mod Balance
