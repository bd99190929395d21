-- ===== src/Tests.antt =====
-- Test data, tests, and the theorems at concrete inputs.
pub mod Plain
pub mod Memory
mod HostPath
mod Clones
mod Requests
mod Controller
mod Agent
mod Driver
mod Start
mod Lists
mod Nodes
