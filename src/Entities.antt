-- ===== src/Entities.antt =====
-- The rows that the modelled code reads and writes (src/databases/postgresql/gameplay/entities),
-- with the columns that it uses. Ids are only compared, so they are numbers. Whole numbers are
-- integers; times are in milliseconds, where the source has seconds with a fraction.
mod Enums
mod Catalog
mod Placed
mod Users
mod Changes
mod Systems
pub use Enums.*
pub use Catalog.*
pub use Placed.*
unfoldable pub use Users.*
unfoldable pub use Changes.*
pub use Systems.*
