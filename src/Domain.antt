-- ===== src/Domain.antt =====
-- internal/domain: the entities and the errors.
pub mod Errors
pub mod Effect
pub mod ProductType
pub mod Client
pub mod Asset
pub mod Position
pub mod ProcessedCommand
