-- ===== src/Recovery.antt =====
-- session_peer_relay/recovery.py, the sender's way out of a restored state: `begin`, `status`,
-- `reconcile`, `record_control`, `activate`, and `peer_request`, `peer_approve` and `peer_commit`.
pub mod State
pub mod Status
pub mod Routes
pub mod Approve
pub mod Successor
pub mod Requested
pub mod Approvals
pub mod Commit
pub mod Begin
pub mod Reconcile
pub mod Activate
pub mod Gates
pub mod Quarantine
pub mod Repeats
mod Tests
