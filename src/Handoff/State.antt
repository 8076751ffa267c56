-- ===== src/Handoff/State.antt =====
-- The records of the handoff ledger, as `_validate_record` closes them: the shapes and the types that
-- it tests are the types here, the keys that may be absent are options, or false where the code reads
-- an absent key as false.
use session_peer.Common.{ℕ, String, Bool, true, false, Option, List, Exec, ◌==◌, string_eq}
use session_peer.Common.Json.{Json, Fields}

-- The reasons of `handoff_error`.
pub data HandoffReason : Type 0 where
  handoff_ledger_corrupt handoff_ledger_capacity handoff_record_capacity : HandoffReason
  handoff_id_unknown handoff_binding_conflict handoff_already_attempted : HandoffReason
  handoff_native_context_changed handoff_wait_capacity handoff_already_initialized : HandoffReason
  receipt_authority_unavailable receipt_authority_expired receipt_conflict : HandoffReason
  receipt_submission_unconfirmed receipt_order_unprovable receipt_channel_exists : HandoffReason
  invalid_receipt invalid_correlation_id invalid_handoff deadline_before_effect : HandoffReason

pub data Phase : Type 0 where
  prepared attempted terminal tombstone quarantined : Phase

pub data Submission : Type 0 where
  not_attempted submitted refused unknown : Submission

pub data Goal : Type 0 where
  delivered acknowledged : Goal

pub data WaitStatus : Type 0 where
  pending satisfied timed_out_unknown stopped unsupported failed : WaitStatus

pub data WaitReason : Type 0 where
  insufficient_budget deadline_before_effect evidence_unsupported evidence_failed : WaitReason
  history_unavailable stopped_by_operator invalid_handoff : WaitReason

pub data Assurance : Type 0 where
  token_possession operator_confirmed : Assurance

pub record Wait : Type 0 where
  pub goal : Goal
  pub status : WaitStatus
  pub operation : String
  pub deadline_utc : ℕ
  pub deadline : ℕ
  pub clock_epoch : Option String
  pub reason : Option WaitReason

pub record Capability : Type 0 where
  pub hash : String
  pub clock_epoch : String
  pub expires : ℕ
  pub revoked : Bool

pub record Ack : Type 0 where
  pub assurance : Assurance
  pub received_utc : ℕ
  pub late : Bool
  pub receipt : Option String
  pub classified : Option String

pub record PendingReceipt : Type 0 where
  pub receipt : String
  pub clock_epoch : String
  pub received : ℕ
  pub received_utc : ℕ

pub record Binding : Type 0 where
  pub agent : String
  pub destination : List String
  pub target : String
  pub home : Option String
  pub payload_digest : String

-- `nativeContext`, with the evidence by which a Codex home was selected
pub record Context : Type 0 where
  pub root : Json
  pub resolution : Json

pub record Record : Type 0 where
  pub id : String
  pub binding : Binding
  pub generation : Option String
  pub phase : Phase
  pub submission : Submission
  pub native : Option Fields
  pub waits : List Wait
  pub ack : Option Ack
  pub created : ℕ
  pub created_utc : ℕ
  pub capability : Option Capability
  pub history_boot : Option String
  pub receipt : Option PendingReceipt
  pub observe : Bool
  pub ack_requested : Bool
  pub context : Option Context

pub record Ledger : Type 0 where
  pub epoch : String
  pub records : List Record

abbrev pub RecordAction : Type 0 → Type 0
RecordAction A = Exec HandoffReason Record A

abbrev pub LedgerAction : Type 0 → Type 0
LedgerAction A = Exec HandoffReason Ledger A

-- `state["records"].get(ident)` looks for this.
abbrev pub is_id : String → Record → Bool
is_id ident r = r.id == ident

abbrev pub is_prepared : Phase → Bool
is_prepared prepared = true
is_prepared _ = false

abbrev pub is_attempted : Phase → Bool
is_attempted attempted = true
is_attempted _ = false

abbrev pub is_terminal : Phase → Bool
is_terminal terminal = true
is_terminal _ = false

abbrev pub is_tombstone : Phase → Bool
is_tombstone tombstone = true
is_tombstone _ = false

abbrev pub is_quarantined : Phase → Bool
is_quarantined quarantined = true
is_quarantined _ = false

abbrev pub is_submitted : Submission → Bool
is_submitted submitted = true
is_submitted _ = false

abbrev pub is_unknown : Submission → Bool
is_unknown unknown = true
is_unknown _ = false

abbrev pub is_not_attempted : Submission → Bool
is_not_attempted not_attempted = true
is_not_attempted _ = false

abbrev pub is_pending : WaitStatus → Bool
is_pending WaitStatus.pending = true
is_pending _ = false

abbrev pub is_for_ack : Goal → Bool
is_for_ack acknowledged = true
is_for_ack delivered = false

abbrev pub is_token : Assurance → Bool
is_token token_possession = true
is_token operator_confirmed = false
