-- ===== src/Platform.antt =====
-- internal/platform
pub mod Database
pub mod Logger
pub mod Telemetry
