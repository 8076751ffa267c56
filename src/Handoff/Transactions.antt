-- ===== src/Handoff/Transactions.antt =====
-- `HandoffLedger.transaction` and `_save`. The dictionary of
-- records is a list; the file, its lock and its permissions are not modelled, and a clock gives whole
-- nanoseconds, of which the n-th reading of one operation is `clock n`.
pub mod Capacity
pub mod Outcomes
use session_peer.Common.{
  ℕ, String, Bool, true, false, Option, none, some, List, [], ◌∷◌, ◌+◌, ◌*◌, ◌==◌, string_eq, ◌&&◌,
  ◌||◌, not, leb, ltb, length, is_some, if◌then◌else◌, map, pure, raise, raise_if, gets, modify,
  ◌>>=◌, ◌>>◌, ok, rejected, crash, Outcome, ◌≡◌, refl, ap, ◌⊎◌, inl, inr, Bool-cases, Option-cases,
  Outcome-cases, arith,
}
use session_peer.Common.Sql.{find, insert, update, exists}
use session_peer.Common.Text.{every}
use session_peer.Common.Json.{same_json}
use session_peer.Handoff.State.{
  Record, Ledger, Wait, Binding, Context, Capability, HandoffReason, LedgerAction, RecordAction,
  prepared, tombstone, quarantined, not_attempted, unknown, failed, history_unavailable,
  handoff_ledger_corrupt, handoff_ledger_capacity, handoff_record_capacity, handoff_id_unknown,
  handoff_binding_conflict, handoff_already_attempted, handoff_native_context_changed,
  invalid_correlation_id, is_id, is_tombstone, is_prepared, is_pending,
}
use session_peer.Handoff.Texts.{Library, is_uuid}
use session_peer.Handoff.Valid.{validate_record}

-- What an operation reads of the machine: the identity of its start, the monotonic clock, and the
-- milliseconds of `time.time()`.
pub record Moment : Type 0 where
  pub boot : Option String
  pub clock : ℕ → ℕ
  pub utc : ℕ

abbrev pub day : ℕ
day = 86400000000000

abbrev pub same_optional : Option String → Option String → Bool
same_optional none none = true
same_optional (some a) (some b) = a == b
same_optional _ _ = false

-- `record.update(phase="tombstone", …)`
abbrev pub entomb : Record → Record
entomb r = record r {
  phase = tombstone;
  submission = unknown;
  native = none;
  waits = [];
  ack = none;
  capability = none;
  receipt = none;
  observe = false;
  ack_requested = false;
}

abbrev pub is_past : Option String → ℕ → Record → Bool
is_past boot now r =
    is_some boot
    && not (is_tombstone r.phase)
    && same_optional r.history_boot boot
    && leb (r.created + 30 * day) now

unfoldable pub retain : Option String → ℕ → Record → Record
retain boot now r = if is_past boot now r then entomb r else r

unfoldable pub retain_all : Moment → Ledger → Ledger
unfolding retain
retain_all moment l = record l { records = map (retain moment.boot (moment.clock 0)) l.records }

abbrev pub record_bytes : ℕ
record_bytes = 32768

abbrev pub ledger_bytes : ℕ
ledger_bytes = 33554432

module _ (library : Library) where
  abbrev pub reserved_for : Record → ℕ
  reserved_for r = if is_tombstone r.phase then library.record_size r + 64 else record_bytes

  abbrev pub reserved : List Record → ℕ
  reserved [] = 0
  reserved (r ∷ rs) = reserved_for r + reserved rs

  -- what `_save` raises before it writes the file
  unfoldable pub save_refusal : Ledger → Option HandoffReason
  save_refusal l =
      if ltb 10000 (length l.records) || ltb ledger_bytes (1024 + reserved l.records)
      then some handoff_ledger_capacity
      else if not (every (λ r. leb (library.record_size r) record_bytes) l.records)
      then some handoff_record_capacity
      else if ltb ledger_bytes (library.ledger_size l)
      then some handoff_ledger_capacity
      else none

  unfoldable pub is_ledger : Ledger → Bool
  unfolding validate_record
  is_ledger l = is_uuid l.epoch && every (λ r. is_uuid r.id && validate_record library r) l.records

  module _ {A : Type 0} where
    abbrev pub commit_ledger : Bool → A → Ledger → Ledger → Outcome HandoffReason A × Ledger
    unfolding save_refusal
    commit_ledger read_only a before after =
        if read_only
        then (ok a, before)
        else elim (save_refusal after) [ none ↦ (ok a, after) | some e ↦ (rejected e, before) ]

    unfoldable pub transaction : Moment → Bool → LedgerAction A → LedgerAction A
    unfolding is_ledger commit_ledger retain_all
    transaction moment read_only body l =
        if is_ledger l
        then (let (r, l') = body (retain_all moment l) in
            elim r [
              | ok a ↦ commit_ledger read_only a l l'
              | rejected e ↦ (rejected e, l)
              | crash ↦ (crash, l)
            ])
        else (rejected handoff_ledger_corrupt, l)

-- `state["records"].get(ident)` and changes of that record, or `absent` where there is none
module _ {A : Type 0} where
  unfoldable pub on_record : String → LedgerAction A → RecordAction A → LedgerAction A
  on_record ident absent change l = elim (find (is_id ident) l.records) [
    | none ↦ absent l
    | some r ↦
        let (out, r') = change r in
        (out, record l { records = update (is_id ident) (λ _. r') l.records })
  ]
