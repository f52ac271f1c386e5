-- ===== src/Database.antt =====
-- The database as the services see it: the queries that they make, the statements of their
-- transactions, and the commit. TypeORM and PostgreSQL are not part of the repository, so all of
-- them are fields of a record that the services take as a parameter (`Database`); what is relied on
-- of them is another record (`DatabaseLaws`).
mod Query
mod Statements
mod Interface
mod Laws
pub use Query.*
unfoldable pub use Statements.*
pub use Interface.*
pub use Laws.*
