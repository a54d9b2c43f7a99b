-- ===== src/Handler.antt =====
-- The transaction handler, src/ons/ons_handler/ons_handler.go: permission, dispatch, and one
-- function for each kind of transaction.
pub mod Permission
pub mod Gate
pub mod Transitions
pub mod Effect
pub mod CodeEffects
pub mod RecordEffects
pub mod Success
pub mod RecordResults
pub mod Authority
pub mod Codes
pub mod Records
pub mod Services
pub mod Sudo
pub mod ServiceResults
pub mod Managers
pub mod Apply
