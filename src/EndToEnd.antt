-- ===== src/EndToEnd.antt =====
-- The services on the tables of the database: what a whole request leaves behind.
mod Stored
pub mod Invariant
pub mod Success
pub mod Deposit
pub mod Replay
pub mod Withdraw
pub mod Rows
pub mod History
pub mod Books
pub mod Retry
