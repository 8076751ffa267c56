-- ===== src/Handoff.antt =====
-- session_peer_core/handoff.py, the opt-in receipt channel between a sender and a session of the same
-- user: the ledger of intents, its transactions, the receipt collector, the waits and the public view.
pub mod State
pub mod Texts
pub mod Native
pub mod Valid
pub mod Transactions
pub mod Intents
pub mod Wire
pub mod Receipts
pub mod Collector
pub mod Waits
pub mod Send
pub mod View
pub mod Closed
pub mod Public
pub mod History
mod Samples
mod Tests
