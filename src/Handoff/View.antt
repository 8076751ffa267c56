-- ===== src/Handoff/View.antt =====
-- The public view of a handoff, as `handoff_public` builds it and `handoff_validate_public` closes it. The
-- constants `schemaVersion`, `decisionOwner` and `retry` of the view are left out.
use session_peer.Common.{ℕ, String, Bool, Option, List}
use session_peer.Handoff.State.{Assurance, Goal, WaitStatus, WaitReason, Submission}

pub data PublicState : Type 0 where
  validated refused submitted delivered acknowledged unknown timed_out_unknown : PublicState

pub data ObservationStatus : Type 0 where
  not_requested pending observed unsupported failed : ObservationStatus

pub data TurnStatus : Type 0 where
  running completed failed interrupted unknown : TurnStatus

pub record Observation : Type 0 where
  pub status : ObservationStatus
  pub injection_observed : Bool
  pub message : Option String
  pub turn : Option (String × TurnStatus)

-- `ack`: the other three keys are there just where it is acknowledged.
pub data PublicAck : Type 0 where
  not_requested pending unsupported : PublicAck
  acknowledged : Assurance → ℕ → Bool → PublicAck

pub data PublicWaitStatus : Type 0 where
  not_requested : PublicWaitStatus
  waiting : WaitStatus → PublicWaitStatus

-- `wait`, where "for" is "none" if there is no goal
pub record PublicWait : Type 0 where
  pub goal : Option Goal
  pub status : PublicWaitStatus
  pub operation : Option String
  pub deadline_utc : Option ℕ
  pub reason : Option WaitReason

pub data NextAction : Type 0 where
  keep_waiting reconcile stop_waiting : NextAction

pub record View : Type 0 where
  pub id : String
  pub epoch : String
  pub state : PublicState
  pub submission : Submission
  pub observation : Observation
  pub ack : PublicAck
  pub wait : PublicWait
  pub generation : Option String
  pub actions : List NextAction
