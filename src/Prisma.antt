-- ===== src/Prisma.antt =====
-- The database client, which is not part of the repository: tables of rows, and the queries that
-- the services make. A table is described by the list of its rows.
mod Memory
pub use Memory.{in_memory, in_memory_lawful}
pub use Defs.{Prisma, IsLawful, replace}
mod Defs
pub mod Laws
