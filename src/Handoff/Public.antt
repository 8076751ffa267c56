-- ===== src/Handoff/Public.antt =====
-- `handoff_public`, what of a record is shown, and `handoff_validate_public`, which closes it.
pub mod Shown
use session_peer.Common.{
  ℕ, String, Bool, true, false, Option, none, some, List, [], ◌∷◌, ◌++◌, string_eq, ◌&&◌, ◌||◌, not,
  leb, ltb, is_some, if◌then◌else◌,
}
use session_peer.Handoff.State.{
  Record, Wait, Capability, Goal, WaitStatus, WaitReason, Submission, history_unavailable,
  is_submitted, is_unknown, is_pending,
}
use session_peer.Handoff.View.{
  View, PublicState, ObservationStatus, PublicAck, PublicWait, PublicWaitStatus, waiting,
  NextAction, keep_waiting, reconcile, stop_waiting,
}
use session_peer.Handoff.Texts.{is_uuid, is_identifier, if_some, utc_max}
use session_peer.Handoff.Transactions.{same_optional}
use session_peer.Handoff.Valid.{is_stopped, is_stop_reason}
use session_peer.Handoff.Waits.{has_authority}
use session_peer.Handoff.Closed.{
  allows, is_delivered, is_acknowledged, is_observed, has_ack, is_observation, is_public_ack,
  goal_met, is_satisfied, is_wait_status, is_public_wait, same_action, offers, are_distinct,
  is_lost, is_unsupported, are_actions, validate_public,
}

abbrev state_of : Submission → PublicState
state_of Submission.not_attempted = PublicState.validated
state_of Submission.refused = PublicState.refused
state_of Submission.submitted = PublicState.submitted
state_of Submission.unknown = PublicState.unknown

-- `record["waits"][-1]`
abbrev pub last_wait : List Wait → Option Wait
last_wait [] = none
last_wait (w ∷ []) = some w
last_wait (w ∷ v ∷ ws) = last_wait (v ∷ ws)

abbrev is_timed_out : WaitStatus → Bool
is_timed_out WaitStatus.timed_out_unknown = true
is_timed_out _ = false

abbrev has_timed_out : Option Wait → Bool
has_timed_out none = false
has_timed_out (some w) = is_timed_out w.status

abbrev public_state : Record → PublicState
public_state r =
    if is_some r.ack && is_submitted r.submission
    then PublicState.acknowledged
    else if has_timed_out (last_wait r.waits)
        && (is_submitted r.submission || is_unknown r.submission)
    then PublicState.timed_out_unknown
    else state_of r.submission

abbrev public_ack : Record → PublicAck
public_ack r = elim r.ack [
  | some a ↦ PublicAck.acknowledged a.assurance a.received_utc a.late
  | none ↦
      if r.ack_requested && has_authority r.capability
      then PublicAck.pending
      else if r.ack_requested
      then PublicAck.unsupported
      else PublicAck.not_requested
]

abbrev public_wait : Option Wait → PublicWait
public_wait none = record {
  goal = none;
  status = PublicWaitStatus.not_requested;
  operation = none;
  deadline_utc = none;
  reason = none;
}
public_wait (some w) = record {
  goal = some w.goal;
  status = waiting w.status;
  operation = some w.operation;
  deadline_utc = some w.deadline_utc;
  reason = w.reason;
}

-- the collector runs under the clock of the capability, which has not expired
abbrev is_live_authority : Option String → ℕ → Option Capability → Bool
is_live_authority active now none = false
is_live_authority active now (some c) =
    not c.revoked && same_optional active (some c.clock_epoch) && ltb now c.expires

abbrev is_wait_unsupported : WaitStatus → Bool
is_wait_unsupported WaitStatus.unsupported = true
is_wait_unsupported _ = false

abbrev can_wait : Option Wait → Bool
can_wait none = true
can_wait (some w) = not (is_wait_unsupported w.status) && not (is_lost w.reason)

abbrev is_waiting : Option Wait → Bool
is_waiting none = false
is_waiting (some w) = is_pending w.status

abbrev next_actions : Option String → ℕ → Record → List NextAction
next_actions active now r =
    if is_submitted r.submission || is_unknown r.submission
    then reconcile
        ∷ (if r.ack_requested
              && is_live_authority active now r.capability
              && not (is_some r.ack)
              && can_wait (last_wait r.waits)
            then keep_waiting ∷ []
            else [])
      ++ (if is_waiting (last_wait r.waits) then stop_waiting ∷ [] else [])
    else []

-- `active` is the collector's clock epoch and `now` a reading of the clock.
unfoldable pub project : String → Option String → ℕ → Record → View
project epoch active now r = record {
  id = r.id;
  epoch = epoch;
  state = public_state r;
  submission = r.submission;
  observation = record {
    status = if r.observe then ObservationStatus.unsupported else ObservationStatus.not_requested;
    injection_observed = false;
    message = none;
    turn = none;
  };
  ack = public_ack r;
  wait = public_wait (last_wait r.waits);
  generation = r.generation;
  actions = next_actions active now r;
}

module _ (view_size : View → ℕ) where
  -- none where it raises
  unfoldable pub public : String → Option String → ℕ → Record → Option View
  public epoch active now r =
      let v = project epoch active now r in if validate_public view_size v then some v else none
