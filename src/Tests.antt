-- ===== src/Tests.antt =====
-- Runs of the modelled services on a small database.
pub mod Sample
pub mod Reservations
pub mod Payments
pub mod Journeys
pub mod Codes
pub mod Fleets
pub mod Listings
pub mod Messages
pub mod Catalogue
pub mod Entries
