-- ===== src/Manager.antt =====
-- core/manager.go: the manager of nodes and rules.
pub mod State
pub mod Lists
pub mod Find
pub mod Synced
pub mod Runtime
pub mod Persist
pub mod Commit
pub mod Nodes
pub mod Requests
pub mod Switch
pub mod Apply
pub mod Merge
pub mod Import
pub mod History
pub mod Steps
pub mod Preview
pub mod Subscriptions
pub mod Updates
