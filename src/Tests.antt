-- ===== src/Tests.antt =====
-- Runs at concrete inputs: an agent with one inbound and one outbound, and a sign-in.
mod Fixtures
mod Kernels
mod Logins
mod Nodes
mod Lives
mod Routes
mod Histories
mod Subscriptions
mod Imports
mod Links
mod Shares
mod Updates
mod Previews
mod SingBox
