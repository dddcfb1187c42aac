-- ===== src/Schema.antt =====
-- The tables of prisma/schema.prisma, one child for each area, and the state that all services
-- share. Identifiers, hashes, keys and device names are only compared, so they are numbers; dates
-- are milliseconds since 1970; `String?` and `DateTime?` are options.
mod Identity
mod Catalog
mod Entitlement
mod Playback
mod Support
mod State
pub use Identity.*
pub use Catalog.*
pub use Entitlement.*
pub use Playback.*
pub use Support.*
pub use State.*
