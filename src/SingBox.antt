-- ===== src/SingBox.antt =====
-- core/kernel.go: the configuration that is written for sing-box.
pub mod Values
pub mod Inbounds
pub mod Outbounds
pub mod Route
