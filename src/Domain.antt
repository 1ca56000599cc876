-- ===== src/Domain.antt =====
-- domain/: enumerations, records and the lifecycle tables.
pub mod Enums
pub mod Models
pub mod StateMachine
