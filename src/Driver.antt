-- ===== src/Driver.antt =====
-- src/driver-ops: what a driver does on the trips of the assigned bus.
pub mod Anchor
pub mod Inversion
pub mod Board
pub mod DropOff
pub mod CashPayment
pub mod FirstWrite
pub mod Unpaid
