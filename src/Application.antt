-- ===== src/Application.antt =====
-- internal/application: the two use cases.
pub mod Flow
pub mod Deposit
pub mod Withdraw
