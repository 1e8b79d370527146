-- ===== src/Links.antt =====
-- core/link_parser.go: outbounds are read from links and lists of proxies.
pub mod Texts
pub mod Values
pub mod Proxies
pub mod SingBox
pub mod Library
pub mod Share
pub mod Parse
pub mod Text
