-- ===== src/Config.antt =====
-- core/config.go: the configuration and its validation.
pub mod Types
pub mod Names
pub mod Errors
pub mod Routing
pub mod Inbound
pub mod Outbound
pub mod Validate
