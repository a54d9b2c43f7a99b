-- ===== src/Tests.antt =====
-- Concrete inputs: a ledger, its messages and processors, and the results at them.
pub mod Pack
pub mod Wire
pub mod Ledger
pub mod Town
mod Handlers
mod Managers
mod Services
pub mod Mirrors
mod Pools
mod Subscribers
mod Clients
mod Submissions
