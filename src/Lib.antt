-- ===== src/Lib.antt =====
-- session_peer: the receiver that lets paired devices list and message the agent sessions of this
-- device, and the receipts of a handoff between a sender and a session, as a model of
-- session_peer_relay and of parts of session_peer_core, and the theorems about it.
--
-- Parts and files. Common holds what all parts share: tests and equality (Common/Tests), lists
-- (Common/Lists), methods that change a state and may be refused or crash (Common/Effects), the SQL
-- statements on a table as the list of its rows (Common/Sql), JSON values (Common/Json) and texts
-- (Common/Text). Store models session_peer_relay/store.py, one file to a group of the methods of its
-- class Store:
--   Store/State     the tables of _open, and recovery_required
--   Store/Reasons   the reasons that Rejected carries
--   Store/Keys      peer, principal, key_status, register_key, trusted, revoke, authorize
--   Store/Journal   status, begin, finish
--   Store/Pairing   _pairing_transaction, _pairing_charge_locked, _release_reservation_locked and
--                   _expire_pairings_locked
--   Store/Offers    invite, offer_identity, create_offer, offer_status, cancel_offer
--   Store/Prepare   prepare, and _adopt_legacy_reservation_locked
--   Store/Commit    commit
--   Store/Remember  stage, discard_pairing_stage, remember, save_offer_intent,
--                   receiver_offer_identity
--   Store/Trust     the methods that write to the tables of trust, one after another
-- KeyRotation models remote_prepare, remote_commit and remote_status of
-- session_peer_relay/rotation.py, which work on the tables of the store.
-- Admission models the connections of the Receiver in session_peer_relay/app.py: spawn, the admission
-- after the handshake in handle, abort, release and the completion of a handler.
-- Handoff models session_peer_core/handoff.py, the opt-in receipt channel of one user:
--   Handoff/State         the records of the ledger
--   Handoff/Texts         handoff_uuid and handoff_identifier
--   Handoff/Native        handoff_codex_resolution and handoff_validate_native
--   Handoff/Valid         _validate_record
--   Handoff/Transactions  transaction and _save
--   Handoff/Intents       prepare, record, quarantine_restored, and the start of the collector
--   Handoff/Wire          handoff_private_wire
--   Handoff/Receipts      handoff_cap_hash, and what handoff_collect does with the record that a
--                         frame names
--   Handoff/Collector     handoff_collect and handoff_confirm
--   Handoff/Waits         handoff_start_wait and handoff_wait
--   Handoff/Send          what handoff_refuse_send and cmd_handoff_send write to the ledger
--   Handoff/View, Public  handoff_public;  Handoff/Closed  handoff_validate_public
--   Handoff/History       the transactions as steps of the ledger
-- Recovery models session_peer_relay/recovery.py, by which a restored device becomes a fresh one:
--   Recovery/State      the plan and the report
--   Recovery/Status     _load, _save and status
--   Recovery/Begin      begin;  Recovery/Reconcile  reconcile
--   Recovery/Activate   record_control and activate
--   Recovery/Routes     _routes, _verify, and direct_address and validate_relay_url of
--                       session_peer_relay/wire.py
--   Recovery/Approve    peer_request and peer_approve;  Recovery/Commit  peer_commit
-- Delivery models peer_delivery_message of session_peer_core/replies.py, and Framing the byte budgets of
-- session_peer_relay/framing.py, with the text of json.dumps written out.
-- Dispatch models dispatch of the Receiver in session_peer_relay/app.py, over Store, KeyRotation,
-- Delivery and Framing, and of session_peer_relay/native.py what it uses:
--   Dispatch/State      the policy, Policy.authorize, and what the handler waits for
--   Dispatch/Messages   the checks on a message that is sent or resolved
--   Dispatch            the handler up to where it answers or waits for the native worker
--   Dispatch/Settle     Native.invoke, and the handler from there on
-- The child modules of each hold the proofs, named for what they prove, and Tests the runs.
--
-- How the code is read. A method is a function from the state to an outcome and a state: it answers,
-- is refused with a reason, or crashes with any other exception. Each reading of time.time() is an
-- argument of its own, in whole seconds, but for the expiry of a request in 2^-52 parts of one, in which
-- a float of at least 1 is exact; random texts are arguments. A column of JSON text is held as
-- its value. A text is a sequence of Unicode scalars, so encoding one never fails. A statement of SQL
-- acts on the list of rows in the order of insertion; a second row under a primary key crashes, as the
-- constraint does. hashlib, uuid and cryptography are the record Platform, a parameter of which nothing
-- is assumed. Whether pairing_links.encode_link accepts an invitation is the parameter `encodes`.
-- Loops over rows are recursion on the rows that one SELECT returned, without fuel.
--
-- The ledger of handoffs is read and written as a whole: a transaction is a function on it that a raise
-- undoes. The n-th reading of the monotonic clock in an operation is an argument, in whole nanoseconds
-- where the code may have seconds in floating point; what json, hashlib and base64 give is the record
-- Library of Handoff/Texts. The loop of a wait takes the number of its turns as fuel, and
-- Handoff/Waits/Ends says how many are enough.
--
-- In a recovery the row recovery_plan of the metadata is the field `plan` of the device; uuid5 and the
-- canonical text of a list are the record Notary of Recovery/State; the parts of an address and the
-- signatures are the record Keeper of Recovery/Routes.
--
-- The native worker's process is a parameter of Dispatch/Settle, which may leave another store, as other
-- requests are served meanwhile; the canonical text under which a message is journalled is one too.
--
-- Not modelled: the ledger's file and its lock, the collector's
-- socket, the native call, handoffs over SSH and the watch of a handoff; opening and locking the
-- state directory, certificates, TLS and sockets, the inside of the native worker, the
-- delivery context that it adds, the log of lifecycle events, the command line, the agents'
-- adapters and the other files of session_peer_core, and the control service.
pub mod Common
pub mod Store
pub mod KeyRotation
pub mod Admission
pub mod Delivery
pub mod Framing
pub mod Dispatch
pub mod Handoff
pub mod Recovery
