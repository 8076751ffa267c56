-- ===== src/Handoff/Send.antt =====
-- What `handoff_refuse_send` and `cmd_handoff_send` do to the ledger: the refusal before any native
-- effect, the attempt that is committed before the one native call, and the commit of its outcome.
use session_peer.Common.{
  ℕ, String, Bool, true, false, Option, none, some, [], ◌∷◌, ◌||◌, not, if◌then◌else◌, pure,
  raise_if, gets, modify, ◌>>=◌, ◌>>◌, leb, crash,
}
use session_peer.Common.Json.{Fields, bool, str, dict}
use session_peer.Handoff.State.{
  Wait, WaitReason, Goal, Submission, HandoffReason, LedgerAction, RecordAction, attempted,
  terminal, submitted, refused, unknown, failed, unsupported, stopped, evidence_unsupported,
  evidence_failed, stopped_by_operator, handoff_already_attempted, is_prepared, is_submitted,
  is_for_ack,
}
use session_peer.Handoff.Texts.{Library}
use session_peer.Handoff.Transactions.{Moment, on_record, transaction}
use session_peer.Handoff.Intents.{revoke_capability}
use session_peer.Handoff.Waits.{Start, start_wait, on_wait}

-- The options of a send that are kept in the record: `observe_delivery`, `request_ack` and `wait_for`.
pub record Wishes : Type 0 where
  pub observe : Bool
  pub request_ack : Bool
  pub wait_for : Option Goal

abbrev wants_ack : Wishes → Bool
wants_ack wishes =
    wishes.request_ack || (elim wishes.wait_for [ none ↦ false | some g ↦ is_for_ack g ])

abbrev is_evidence_unsupported : WaitReason → Bool
is_evidence_unsupported evidence_unsupported = true
is_evidence_unsupported _ = false

abbrev start_if : Option Goal → (Goal → Start) → RecordAction (Option String)
unfolding start_wait
start_if none start = pure none
start_if (some goal) start = do operation ← start_wait (start goal); pure (some operation)

-- `start` gives the deadline, the new identifier and the readings of the clock.
unfoldable pub refuse : Wishes → WaitReason → Start → RecordAction Unit
unfolding start_if
refuse wishes reason start = do
  r ← gets (λ r. r)
  raise_if (not (is_prepared r.phase)) handoff_already_attempted
  modify (λ r. record r {
    phase = terminal;
    submission = refused;
    observe = wishes.observe;
    ack_requested = wants_ack wishes;
  })
  start_if wishes.wait_for (λ goal. record start {
    goal = goal;
    clock_epoch = none;
    initial = some (if is_evidence_unsupported reason then unsupported else failed);
    reason = some reason;
  })
  modify (λ r. record r { capability = revoke_capability r.capability })

-- the transaction that is committed before the native call; the answer is the wait's identifier
unfoldable pub attempt : Wishes → ℕ → ℕ → Start → RecordAction (Option String)
unfolding start_if
attempt wishes cutoff now start = do
  r ← gets (λ r. r)
  raise_if (not (is_prepared r.phase)) handoff_already_attempted
  raise_if (leb cutoff now) HandoffReason.deadline_before_effect
  modify (λ r. record r {
    phase = attempted;
    submission = unknown;
    observe = wishes.observe;
    ack_requested = wants_ack wishes;
  })
  start_if wishes.wait_for (λ goal. record start { goal = goal; initial = none; reason = none })

-- How the native call ended.
pub data Native : Type 0 where
  succeeded : Fields → Native
  refusal interrupted failure : Native

abbrev failure_of : String → Fields
failure_of reason =
    dict (("ok", bool false) ∷ ("reason", str reason) ∷ ("retryAllowed", bool false) ∷ [])

abbrev pub native_of : Native → Fields
native_of (succeeded profile) = profile
native_of refusal = failure_of "native_submission_refused"
native_of _ = failure_of "native_outcome_unknown"

abbrev pub submission_of : Native → Submission
submission_of (succeeded _) = submitted
submission_of refusal = refused
submission_of _ = unknown

abbrev end_wait : Native → Wait → Wait
end_wait interrupted w = record w { status = stopped; reason = some stopped_by_operator }
end_wait _ w = record w { status = failed; reason = some evidence_failed }

abbrev end_operation : Native → Option String → RecordAction Unit
unfolding on_wait
end_operation outcome none = pure tt
end_operation outcome (some operation) =
    if is_submitted (submission_of outcome)
    then pure tt
    else (on_wait operation (λ r. end_wait outcome) >> pure tt)

unfoldable pub settle : Native → Option String → RecordAction Unit
unfolding end_operation
settle outcome operation = do
  modify (λ r. record r {
    phase = terminal;
    native = some (native_of outcome);
    submission = submission_of outcome;
    capability =
        if is_submitted (submission_of outcome)
        then r.capability
        else revoke_capability r.capability;
  })
  end_operation outcome operation

-- authority that could not be given to a message is withdrawn
unfoldable pub withdraw : RecordAction Unit
withdraw = modify (λ r. record r { capability = revoke_capability r.capability })

-- `state["records"][correlation]` raises a KeyError where there is none.
module _ {A : Type 0} where
  unfoldable pub on_known : Library → Moment → String → RecordAction A → LedgerAction A
  on_known library moment correlation change =
      transaction library moment false (on_record correlation (λ l. (crash, l)) change)
