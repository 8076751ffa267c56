-- ===== src/Store.antt =====
-- session_peer_relay/store.py: the paired receiver's durable state, one table of the database to one
-- list of rows, and the methods of `class Store`.
pub mod Reasons
pub mod State
pub mod Keys
pub mod Journal
pub mod Pairing
pub mod Offers
pub mod Prepare
pub mod Commit
pub mod Remember
pub mod Trust
pub mod Samples
mod Tests
