-- ===== src/Subscription.antt =====
-- core/subscription.go: the preview of a subscription.
pub mod Texts
pub mod Preview
