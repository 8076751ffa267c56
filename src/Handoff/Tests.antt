-- ===== src/Handoff/Tests.antt =====
-- Runs of the receipt channel of session_peer_core/handoff.py.
use session_peer.Common.{
  ℕ, suc, zero, String, Bool, true, false, Option, none, some, List, [], ◌∷◌, ◌≡◌, ◌≤◌, ◌+◌, ◌*◌,
  ◌-◌, min, ◌↔◌, refl, ok, rejected, crash, is_some, arith, ◌&&◌, length, leb, ltb, not,
}
use session_peer.Common.Sql.{find, count}
use session_peer.Handoff.State.{
  Record, Ledger, Ack, is_submitted, is_tombstone, token_possession, is_id,
}
use session_peer.Handoff.Texts.{is_uuid, Library}
use session_peer.Handoff.Valid.{validate_record}
use session_peer.Handoff.Transactions.{Moment, transaction, is_ledger}
use session_peer.Handoff.Intents.{quarantine_restored}
use session_peer.Handoff.Transactions.Capacity.{live-le-1023}
use session_peer.Handoff.Receipts.{accept_record, cap_hash, recorded}
use session_peer.Handoff.Receipts.Acks.{
  accept_proven, accept_writes, acknowledged_again, accept_keeps,
}
use session_peer.Handoff.Send.{on_known, attempt}
use session_peer.Handoff.Waits.{Turn, wait_loop}
use session_peer.Handoff.Waits.Ends.{wait_loop-ends}
use session_peer.Handoff.View.{View}
use session_peer.Handoff.Public.{public, last_wait}
use session_peer.Handoff.Public.Shown.{public_iff, has_evidence, has_source}
use session_peer.Handoff.History.{Follows}
use session_peer.Handoff.History.Reach.{done, next, quarantining, attempting, Kept-Steps}
use session_peer.Handoff.History.Once.{attempt_once}
use session_peer.Handoff.Samples.{
  library, moment, fresh, sent, ledger, sent_ledger, wishes, start, wire, ident, other, epoch,
  clock_id, receipt_id, capability, token,
}

valid : is_ledger library ledger ≡ true
unfolding is_ledger is_uuid session_peer.Handoff.Valid.is_intent session_peer.Common.Text.is_hex64
    session_peer.Handoff.Texts.is_identifier session_peer.Handoff.Valid.is_binding
    session_peer.Handoff.Valid.is_consistent
valid = refl

sent-valid : is_ledger library sent_ledger ≡ true
unfolding is_ledger is_uuid session_peer.Handoff.Valid.is_intent session_peer.Common.Text.is_hex64
    session_peer.Handoff.Texts.is_identifier session_peer.Handoff.Valid.is_binding
    session_peer.Handoff.Valid.is_wait session_peer.Handoff.Valid.is_capability
    session_peer.Handoff.Valid.is_consistent session_peer.Handoff.Valid.is_native
    session_peer.Handoff.Native.is_claude_profile
sent-valid = refl

abbrev attempted_ledger : Ledger
attempted_ledger = (on_known library moment ident (attempt wishes 2000 1001 start) ledger).1

first : (on_known library moment ident (attempt wishes 2000 1001 start) ledger).0 ≡ ok none
unfolding on_known transaction is_uuid session_peer.Handoff.Valid.is_intent
    session_peer.Common.Text.is_hex64 session_peer.Handoff.Texts.is_identifier
    session_peer.Handoff.Valid.is_binding session_peer.Handoff.Valid.is_consistent
    session_peer.Handoff.Transactions.on_record find attempt session_peer.Common.Sql.update
first = refl

attempt_once_example :
    (on_known library moment ident
        (attempt wishes 3000 1001 start)
        (transaction library moment false quarantine_restored attempted_ledger).1).0
      ≡ ok none
    → ⊥
attempt_once_example =
    attempt_once library moment moment ident wishes wishes 2000 3000 1001 1001 start start ledger
      (transaction library moment false quarantine_restored attempted_ledger).1 none none first
      (next attempted_ledger _ _ (quarantining moment attempted_ledger) (done _))

Kept-Steps_example :
    (r : Record) × (find (is_id ident) attempted_ledger.records ≡ some r) × Follows fresh r
unfolding find
Kept-Steps_example =
    Kept-Steps library
      (next ledger attempted_ledger attempted_ledger
        (attempting wishes 2000 1001 start moment ident ledger) (done attempted_ledger))
      ident fresh refl

abbrev acknowledged_record : Record
acknowledged_record = (accept_record library moment clock_id false wire sent).1

accepted :
    accept_record library moment clock_id false wire sent
    ≡ (ok (recorded false false), acknowledged_record)
unfolding accept_record cap_hash
accepted = refl

accept_proven_example :
    (c : _) × (sent.capability ≡ some c)
    × (c.revoked ≡ false)
    × (cap_hash library epoch ident (some "gen-1") token ≡ c.hash)
    × (sent.generation ≡ some "gen-1")
accept_proven_example =
    accept_proven library moment clock_id false wire sent acknowledged_record (recorded false false)
      accepted

abbrev acknowledgement : Ack
acknowledgement = record {
  assurance = token_possession;
  received_utc = 1700000000000;
  late = false;
  receipt = some receipt_id;
  classified = some clock_id;
}

acknowledged : acknowledged_record.ack ≡ some acknowledgement
unfolding accept_record cap_hash
acknowledged = refl

accept_writes_example :
    (is_submitted sent.submission ≡ true)
    × (capability.clock_epoch ≡ clock_id)
    × (ltb (moment.clock 1) capability.expires ≡ true)
    × (acknowledgement.assurance ≡ token_possession)
accept_writes_example =
    accept_writes library moment clock_id false wire sent acknowledged_record (recorded false false)
      capability acknowledgement accepted refl refl acknowledged

acknowledged_again_example :
    accept_record library moment clock_id false wire acknowledged_record
    ≡ (ok (recorded true false), acknowledged_record)
acknowledged_again_example =
    acknowledged_again library moment moment clock_id clock_id wire sent acknowledged_record
      (recorded false false) acknowledgement accepted acknowledged

again :
    accept_record library moment clock_id true wire acknowledged_record
    ≡ (ok (recorded true false), acknowledged_record)
unfolding accept_record cap_hash
again = refl

accept_keeps_example :
    (accept_record library moment clock_id true wire acknowledged_record).1 ≡ acknowledged_record
unfolding accept_record cap_hash
accept_keeps_example =
    accept_keeps library moment clock_id true wire acknowledged_record
      (accept_record library moment clock_id true wire acknowledged_record).1 (recorded true false)
      acknowledgement again acknowledged

abbrev small : View → ℕ
small v = 600

sent-record : validate_record library sent ≡ true
unfolding validate_record session_peer.Handoff.Valid.is_intent session_peer.Common.Text.is_hex64
    session_peer.Handoff.Texts.is_identifier session_peer.Handoff.Valid.is_binding
    session_peer.Handoff.Valid.is_wait is_uuid session_peer.Handoff.Valid.is_capability
    session_peer.Handoff.Valid.is_consistent session_peer.Handoff.Valid.is_native
    session_peer.Handoff.Native.is_claude_profile
sent-record = refl

epoch-uuid : is_uuid epoch ≡ true
unfolding is_uuid
epoch-uuid = refl

ident-uuid : is_uuid ident ≡ true
unfolding is_uuid
ident-uuid = refl

public_iff_example :
    (is_some (public small epoch none 1001 sent) ≡ true)
    ↔ ((has_evidence sent (last_wait sent.waits) && has_source sent) ≡ true)
public_iff_example =
    public_iff library epoch none 1001 sent small sent-record epoch-uuid ident-uuid refl

-- a clock that the sleep of the loop moves on, and nobody else at the ledger
abbrev turns : ℕ → Turn
turns n = record { moment = record moment { clock = λ _. 50000000 * n }; others = λ l. l }

wait_loop-ends_example :
    is_some (wait_loop library ident other (some clock_id) 100000000 3 turns sent_ledger) ≡ true
wait_loop-ends_example =
    wait_loop-ends library ident other (some clock_id) 100000000 2 turns sent_ledger
      (λ k. omega arith) (omega arith)

live-le-1023_example :
    (count (λ r. not (is_tombstone r.phase)) attempted_ledger.records ≤ 1023)
    × (length attempted_ledger.records ≤ 10000)
unfolding on_known
live-le-1023_example = live-le-1023 library moment _ ledger none first
