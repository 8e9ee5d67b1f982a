-- ===== src/Promotions.antt =====
-- src/promotions: promo codes, their discount and their validity window (promotion-math.ts), and
-- their resolution at checkout (promotions.service.ts).
pub mod Code
pub mod Discount
pub mod Resolve
pub mod Granted
pub mod NormalForm
pub mod Edit
pub mod Catalog
pub mod Kept
pub mod Changed
