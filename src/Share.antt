-- ===== src/Share.antt =====
-- core/share.go: links for the nodes of the panel.
pub mod Library
pub mod Hosts
pub mod Inbound
pub mod Outbound
pub mod Requests
