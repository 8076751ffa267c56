-- ===== src/Recovery/State.antt =====
-- The plan of a recovery, as `begin` of session_peer_relay/recovery.py writes it, and the device that it is for.
use session_peer.Common.{ℕ, String, Bool, Option, List, Exec}
use session_peer.Common.Json.{Json}
use session_peer.Store.State.{Store}
use session_peer.Store.Reasons.{Reason}

pub data Classification : Type 0 where
  already_processed not_processed unknown : Classification

pub record Effect : Type 0 where
  pub peer : String
  pub request : String
  pub classification : Classification

-- "pending" or "committed", of a peer and of the control fence
pub data Progress : Type 0 where
  pending committed : Progress

pub record PlanPeer : Type 0 where
  pub principal : String
  pub certificate : String
  pub routes : Json
  pub generation : Option ℕ
  pub capabilities : List String
  pub operation : String
  pub status : Progress

pub data PlanStatus : Type 0 where
  pending active : PlanStatus

-- `control`, where "required" is that there is a name
pub record Control : Type 0 where
  pub name : Option String
  pub operation : String
  pub status : Progress

pub record Operation : Type 0 where
  pub id : String
  pub digest : String

pub record Plan : Type 0 where
  pub id : String
  pub status : PlanStatus
  pub old_principal : String
  pub old_generation : ℕ
  pub snapshot : ℕ
  pub new_principal : String
  pub control : Control
  pub peers : List PlanPeer
  pub native_effects : List Effect
  pub outgoing_receipts : List Effect
  pub operations : List Operation

-- the fresh device: its tables, and the row "recovery_plan" of its metadata
pub record Device : Type 0 where
  pub store : Store
  pub plan : Option Plan

abbrev pub DeviceAction : Type 0 → Type 0
DeviceAction A = Exec Reason Device A

-- What the recovery takes from `uuid` and `json` beside the platform of the store: the name-based UUID of a
-- plan's identifier and of "peer:" before a principal, and the canonical text of a list.
pub record Notary : Type 0 where
  pub derived : String → String → String
  pub listing : List String → String

pub data Gate : Type 0 where
  control_login control_fence activation : Gate
  native outgoing : String → String → Gate
  peer : String → Gate

pub data RecoveryPhase : Type 0 where
  activation inspection fencing re_pairing : RecoveryPhase

-- The answer of `status`: the plan, what is left to do, and the phase
pub record Report : Type 0 where
  pub plan : Plan
  pub phase : RecoveryPhase
  pub authenticated : Bool
  pub gates : List Gate
