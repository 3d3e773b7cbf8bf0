-- ===== src/Postgres.antt =====
-- internal/adapters/outbound/postgres and migrations/001_initial_schema.sql
pub mod World
pub mod Statements
pub mod Writes
pub mod Repositories
pub mod PositionRepository
pub mod Transaction
pub mod Reads
pub mod Creates
