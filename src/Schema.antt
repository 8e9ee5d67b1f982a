-- ===== src/Schema.antt =====
-- prisma/schema.prisma: the rows that the services share, the queries that several of them make,
-- and the audit trail (src/audit/audit.service.ts).
mod Enums
mod Accounts
mod Catalog
mod Tables
mod Queries
mod Capacity
unfoldable pub use Enums.*
pub use Accounts.*
pub use Catalog.*
pub use Tables.*
unfoldable pub use Queries.*
unfoldable pub use Capacity.*
