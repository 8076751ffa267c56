-- ===== src/Handoff/Intents.antt =====
-- `HandoffLedger.prepare`, `record` and `quarantine_restored`, and the start of the collector.
use session_peer.Common.{
  String, Bool, true, false, Option, none, some, List, [], ◌∷◌, ◌==◌, string_eq, ◌&&◌, ◌||◌, not,
  is_some, if◌then◌else◌, map, pure, raise, raise_if, gets, modify, ◌>>=◌, ◌>>◌,
}
use session_peer.Common.Sql.{insert, update, exists}
use session_peer.Common.Json.{same_json}
use session_peer.Handoff.State.{
  Record, Wait, Binding, Context, Capability, HandoffReason, LedgerAction, RecordAction, prepared,
  quarantined, not_attempted, unknown, failed, history_unavailable, handoff_id_unknown,
  handoff_binding_conflict, handoff_already_attempted, handoff_native_context_changed,
  invalid_correlation_id, is_id, is_prepared, is_pending,
}
use session_peer.Handoff.Texts.{Library, is_uuid}
use session_peer.Handoff.Transactions.{Moment, same_optional, transaction, on_record}

abbrev pub same_texts : List String → List String → Bool
same_texts [] [] = true
same_texts (a ∷ as_) (b ∷ bs) = a == b && same_texts as_ bs
same_texts _ _ = false

abbrev pub same_binding : Binding → Binding → Bool
same_binding a b =
    a.agent == b.agent
    && same_texts a.destination b.destination
    && a.target == b.target
    && same_optional a.home b.home
    && a.payload_digest == b.payload_digest

abbrev pub same_context : Option Context → Option Context → Bool
same_context none none = true
same_context (some a) (some b) = same_json a.root b.root && same_json a.resolution b.resolution
same_context _ _ = false

-- What a sender prepares: `binding`, `generation` and `native_context`.
pub record Intent : Type 0 where
  pub binding : Binding
  pub generation : Option String
  pub context : Option Context

abbrev pub check_prepared : Intent → RecordAction Record
check_prepared intent = do
  r ← gets (λ r. r)
  raise_if
      (not (same_binding r.binding intent.binding)
        || not (same_optional r.generation intent.generation))
      handoff_binding_conflict
  raise_if (not (is_prepared r.phase)) handoff_already_attempted
  raise_if (not (same_context r.context intent.context)) handoff_native_context_changed
  pure r

unfoldable pub new_record : Intent → String → Moment → Record
new_record intent fresh moment = record {
  id = fresh;
  binding = intent.binding;
  generation = intent.generation;
  phase = prepared;
  submission = not_attempted;
  native = none;
  waits = [];
  ack = none;
  created = moment.clock 1;
  created_utc = moment.utc;
  capability = none;
  history_boot = moment.boot;
  receipt = none;
  observe = false;
  ack_requested = false;
  context = intent.context;
}

-- `state["records"][r.id] = r`
abbrev pub assign : Record → List Record → List Record
assign r rs = if exists (is_id r.id) rs then update (is_id r.id) (λ _. r) rs else insert r rs

-- `fresh` is `str(uuid.uuid4())`.
unfoldable pub prepare : Intent → Option String → String → Moment → LedgerAction Record
unfolding new_record on_record
prepare intent none fresh moment =
    let r = new_record intent fresh moment in
    modify (λ l. record l { records = assign r l.records }) >> pure r
prepare intent (some correlation) fresh moment =
    raise_if (not (is_uuid correlation)) invalid_correlation_id
    >> on_record correlation (raise handoff_id_unknown) (check_prepared intent)

-- `HandoffLedger.record`
unfoldable pub read_record : Library → Moment → Bool → String → LedgerAction Record
unfolding transaction on_record
read_record library moment read_only correlation =
    raise_if (not (is_uuid correlation)) invalid_correlation_id
    >> transaction library moment read_only
        (on_record correlation (raise handoff_id_unknown) (gets (λ r. r)))

abbrev pub fail_wait : Wait → Wait
fail_wait w =
    if is_pending w.status
    then record w { status = failed; reason = some history_unavailable }
    else w

abbrev pub revoke_capability : Option Capability → Option Capability
revoke_capability none = none
revoke_capability (some c) = some (record c { revoked = true })

unfoldable pub quarantine : Record → Record
quarantine r = record r {
  phase = quarantined;
  submission = unknown;
  native = none;
  ack = none;
  receipt = none;
  capability = revoke_capability r.capability;
  waits = map fail_wait r.waits;
}

unfoldable pub quarantine_restored : LedgerAction Unit
unfolding quarantine
quarantine_restored = modify (λ l. record l { records = map quarantine l.records })

-- the start of the collector: what it does in its transaction, where the socket can be bound
unfoldable pub expire_authority : Record → Record
expire_authority r =
    if is_some r.capability && not (is_some r.ack)
    then record r { capability = revoke_capability r.capability }
    else r

unfoldable pub start_collector : Bool → LedgerAction Unit
unfolding expire_authority
start_collector exists =
    raise_if exists HandoffReason.receipt_channel_exists
    >> modify (λ l. record l { records = map expire_authority l.records })
