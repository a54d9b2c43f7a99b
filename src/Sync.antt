-- ===== src/Sync.antt =====
-- The database mirror, src/ons_sync: the tables, the database calls, and what is done with an event.
pub mod Table
pub mod Routing
pub mod Database
pub mod Mirror
pub mod Events
pub mod Newest
pub mod Puts
pub mod Order
pub mod Runs
pub mod EventItems
pub mod Subscriber
pub mod Protocol
pub mod Sessions
pub mod Shutdown
pub mod BlockInfos
pub mod EventRows
pub mod Faults
pub mod Goroutines
pub mod Turns
pub mod Schedules
pub mod Stalls
pub mod Mirrored
