-- ===== src/Recovery/Status.antt =====
-- `_load`, `_save` and `status` of session_peer_relay/recovery.py, and what its operations share. Whether a
-- control session can be opened is an argument; the gates stand in the order in which they are found,
-- where the answer has them sorted.
use session_peer.Common.{
  String, Bool, true, false, Option, none, some, List, [], ◌∷◌, ◌++◌, ◌==◌, string_eq, nat_eq, ◌&&◌,
  not, is_some, if◌then◌else◌, ok, pure, raise_if, modify, ◌>>=◌, rejected, crash,
}
use session_peer.Common.Sql.{find, insert, exists, replace}
use session_peer.Store.State.{Store, Metadata, Platform}
use session_peer.Store.Reasons.{recovery_plan_not_found, invalid_operation_id}
use session_peer.Recovery.State.{
  Classification, unknown, Effect, Progress, pending, committed, PlanPeer, PlanStatus, active,
  Control, Plan, DeviceAction, Gate, control_login, control_fence, native, outgoing, RecoveryPhase,
  inspection, fencing, re_pairing, Report,
}

abbrev pub is_unknown_class : Classification → Bool
is_unknown_class unknown = true
is_unknown_class _ = false

abbrev pub is_committed : Progress → Bool
is_committed committed = true
is_committed pending = false

abbrev pub is_activated : PlanStatus → Bool
is_activated active = true
is_activated PlanStatus.pending = false

-- `_load`
unfoldable pub load : DeviceAction Plan
load d = elim d.plan [ none ↦ (rejected recovery_plan_not_found, d) | some p ↦ (ok p, d) ]

-- the gates of unknown effects
abbrev pub effect_gates : (String → String → Gate) → List Effect → List Gate
effect_gates gate [] = []
effect_gates gate (e ∷ es) =
    if is_unknown_class e.classification
    then gate e.peer e.request ∷ effect_gates gate es
    else effect_gates gate es

abbrev pub peer_gates : List PlanPeer → List Gate
peer_gates [] = []
peer_gates (p ∷ ps) =
    if is_committed p.status then peer_gates ps else Gate.peer p.principal ∷ peer_gates ps

abbrev pub control_gates : Bool → Control → List Gate
control_gates authenticated c =
    if is_some c.name && not (is_committed c.status)
    then (if authenticated then [] else control_login ∷ []) ++ control_fence ∷ []
    else []

-- the gates but "activation"
unfoldable pub remaining : Bool → Plan → List Gate
remaining authenticated p =
    control_gates authenticated p.control
    ++ effect_gates native p.native_effects
    ++ effect_gates outgoing p.outgoing_receipts
    ++ peer_gates p.peers

abbrev pub is_effect_gate : Gate → Bool
is_effect_gate (native _ _) = true
is_effect_gate (outgoing _ _) = true
is_effect_gate _ = false

abbrev pub is_fence : Gate → Bool
is_fence control_fence = true
is_fence _ = false

abbrev pub is_none {ℓ} : {A : Type ℓ} → List A → Bool
is_none [] = true
is_none (_ ∷ _) = false

abbrev pub phase_of : List Gate → RecoveryPhase
phase_of gates =
    if is_none gates
    then RecoveryPhase.activation
    else if exists is_effect_gate gates
    then inspection
    else if exists is_fence gates
    then fencing
    else re_pairing

abbrev pub report : Bool → Plan → Report
report authenticated p = record {
  plan = p;
  phase = phase_of (remaining authenticated p);
  authenticated = is_some p.control.name && authenticated;
  gates = remaining authenticated p ++ (if is_activated p.status then [] else Gate.activation ∷ []);
}

unfoldable pub status : Bool → DeviceAction Report
status authenticated = load >>= λ p. pure (report authenticated p)

unfoldable pub save : Plan → DeviceAction Unit
save p = modify (λ d. record d { plan = some p })

-- `BEGIN IMMEDIATE`, with `COMMIT` at the end and `ROLLBACK` on any exception
unfoldable pub atomically : {A : Type 0} → DeviceAction A → DeviceAction A
atomically m d =
    let (r, d') = m d in
    elim r [ ok a ↦ (ok a, d') | rejected e ↦ (rejected e, d) | crash ↦ (crash, d) ]

abbrev pub metadata_of : String → Store → Option Metadata
metadata_of key s = find (λ m. m.key == key) s.metadata

-- `INSERT INTO metadata`, which crashes on a second row of the key, and `INSERT OR REPLACE INTO`
abbrev pub add_metadata : String → String → DeviceAction Unit
add_metadata key value d = if exists (λ m. m.key == key) d.store.metadata then (crash, d) else (
  ok tt,
  record d {
    store = record d.store {
      metadata = insert (record { key = key; value = value }) d.store.metadata;
    };
  },
)

abbrev pub put_metadata : String → String → DeviceAction Unit
put_metadata key value = modify (λ d. record d {
  store = record d.store {
    metadata = replace (λ m. m.key == key) (record { key = key; value = value }) d.store.metadata;
  };
})

module _ (platform : Platform) where
  -- `uuid.UUID(value)` of version 4 that prints as the value
  abbrev pub check_uuid : String → DeviceAction Unit
  check_uuid ident = raise_if (not (platform.is_uuid4 ident)) invalid_operation_id
