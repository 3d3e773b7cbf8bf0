-- ===== src/Examples.antt =====
-- Concrete runs of the program, over whole-number decimals.
mod Fixtures
mod Domain
mod Withdraw
mod Postgres
mod EndToEnd
mod Withdrawals
mod Adapters
mod Serving
mod Providers
mod Process
mod Selling
mod Retrying
mod Batches
mod Misfits
