-- ===== src/Manager.antt =====
-- Who may do what: src/ons/ons_manager/ons_manager.go. The package keeps the stored ONSManager
-- message and two maps built from it in package variables, here fields of the world.
pub mod Storage
pub mod Cache
pub mod Loop
pub mod Edit
pub mod Find
pub mod Put
pub mod Coherence
pub mod Upkeep
pub mod Operations
pub mod Stored
pub mod Results
pub mod Reload
pub mod Sudo
pub mod Fresh
pub mod Frame
pub mod Removal
