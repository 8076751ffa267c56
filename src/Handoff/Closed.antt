-- ===== src/Handoff/Closed.antt =====
-- `handoff_validate_public`: true where it returns, false where it raises.
use session_peer.Common.{
  ℕ, Bool, true, false, Option, none, some, List, [], ◌∷◌, string_eq, ◌&&◌, ◌||◌, not, leb, is_some,
}
use session_peer.Handoff.State.{
  Goal, WaitStatus, WaitReason, Submission, history_unavailable, is_submitted,
}
use session_peer.Handoff.View.{
  View, PublicState, ObservationStatus, PublicAck, PublicWaitStatus, waiting, NextAction,
  keep_waiting, reconcile, stop_waiting,
}
use session_peer.Handoff.Texts.{is_uuid, is_identifier, if_some, utc_max}
use session_peer.Handoff.Valid.{is_stopped, is_stop_reason}

-- `state_submissions`
abbrev pub allows : PublicState → Submission → Bool
allows PublicState.validated Submission.not_attempted = true
allows PublicState.refused Submission.refused = true
allows PublicState.submitted Submission.submitted = true
allows PublicState.delivered Submission.submitted = true
allows PublicState.acknowledged Submission.submitted = true
allows PublicState.unknown Submission.unknown = true
allows PublicState.timed_out_unknown Submission.submitted = true
allows PublicState.timed_out_unknown Submission.unknown = true
allows _ _ = false

abbrev pub is_delivered : PublicState → Bool
is_delivered PublicState.delivered = true
is_delivered _ = false

abbrev pub is_acknowledged : PublicState → Bool
is_acknowledged PublicState.acknowledged = true
is_acknowledged _ = false

abbrev pub is_observed : ObservationStatus → Bool
is_observed ObservationStatus.observed = true
is_observed _ = false

abbrev pub has_ack : PublicAck → Bool
has_ack (PublicAck.acknowledged _ _ _) = true
has_ack _ = false

unfoldable pub is_observation : View → Bool
is_observation v =
    if_some (is_identifier 128) v.observation.message
    && (not v.observation.injection_observed
        || is_submitted v.submission
          && is_observed v.observation.status
          && is_some v.observation.message
          && is_some v.generation)
    && if_some (λ turn. v.observation.injection_observed && is_identifier 128 turn.0)
        v.observation.turn
    && (not (is_delivered v.state) || v.observation.injection_observed)

unfoldable pub is_public_ack : View → Bool
is_public_ack v =
    elim v.ack [
      | PublicAck.acknowledged assurance at late ↦
          is_acknowledged v.state
          && is_some v.generation
          && is_submitted v.submission
          && leb at utc_max
      | PublicAck.pending ↦ is_some v.generation
      | _ ↦ true
    ]
    && (not (is_acknowledged v.state) || has_ack v.ack)

abbrev pub goal_met : View → Goal → Bool
goal_met v Goal.delivered = v.observation.injection_observed
goal_met v Goal.acknowledged = has_ack v.ack

abbrev pub is_satisfied : WaitStatus → Bool
is_satisfied WaitStatus.satisfied = true
is_satisfied _ = false

abbrev pub is_wait_status : View → Goal → WaitStatus → Bool
is_wait_status v goal status =
    (not (is_satisfied status) || goal_met v goal)
    && (not (is_stopped status) || is_stop_reason v.wait.reason)

unfoldable pub is_public_wait : View → Bool
is_public_wait v =
    if_some is_uuid v.wait.operation
    && if_some (λ at. leb at utc_max) v.wait.deadline_utc
    && elim v.wait.goal [
      | none ↦
          elim v.wait.status [ PublicWaitStatus.not_requested ↦ true | waiting _ ↦ false ]
          && not (is_some v.wait.operation)
          && not (is_some v.wait.deadline_utc)
      | some goal ↦ is_some v.wait.operation && is_some v.wait.deadline_utc && elim v.wait.status [
        | PublicWaitStatus.not_requested ↦ false
        | waiting status ↦ is_wait_status v goal status
      ]
    ]

abbrev pub same_action : NextAction → NextAction → Bool
same_action keep_waiting keep_waiting = true
same_action reconcile reconcile = true
same_action stop_waiting stop_waiting = true
same_action _ _ = false

abbrev pub offers : NextAction → List NextAction → Bool
offers a [] = false
offers a (b ∷ bs) = same_action a b || offers a bs

-- `len(actions) == len(set(actions))`
abbrev pub are_distinct : List NextAction → Bool
are_distinct [] = true
are_distinct (a ∷ as_) = not (offers a as_) && are_distinct as_

abbrev pub is_lost : Option WaitReason → Bool
is_lost (some history_unavailable) = true
is_lost _ = false

abbrev pub is_unsupported : PublicWaitStatus → Bool
is_unsupported (waiting WaitStatus.unsupported) = true
is_unsupported _ = false

unfoldable pub are_actions : View → Bool
are_actions v =
    are_distinct v.actions
    && (not (is_unsupported v.wait.status || is_lost v.wait.reason)
        || not (offers keep_waiting v.actions))

-- `view_size` is the size of the JSON text of a view.
module _ (view_size : View → ℕ) where
  unfoldable pub validate_public : View → Bool
  validate_public v =
      leb (view_size v) 8192
      && is_uuid v.epoch
      && is_uuid v.id
      && allows v.state v.submission
      && if_some (is_identifier 256) v.generation
      && is_observation v
      && is_public_ack v
      && is_public_wait v
      && are_actions v
