-- ===== src/Recovery/Activate.antt =====
-- `record_control` and `activate` of session_peer_relay/recovery.py.
use session_peer.Common.{
  Bool, true, false, Option, none, some, [], ◌∷◌, ◌==◌, string_eq, nat_eq, ◌&&◌, not, is_some,
  if◌then◌else◌, raise_if, gets, ◌>>=◌, ◌>>◌,
}
use session_peer.Common.Sql.{find}
use session_peer.Common.Json.{Fields, at, bool, num, is_text, same_json}
use session_peer.Store.State.{Store, Tombstone, Platform}
use session_peer.Store.Reasons.{
  control_fence_not_required, invalid_operation_receipt, recovery_archive_mismatch,
  recovery_gates_incomplete,
}
use session_peer.Recovery.State.{committed, active, Plan, DeviceAction, Notary, Report}
use session_peer.Recovery.Status.{
  load, status, save, remaining, is_none, is_activated, atomically, put_metadata,
}

module _ (platform : Platform) (notary : Notary) where
  -- `all(receipt.get(k) == v for k, v in expected.items())`
  abbrev pub is_control_receipt : Plan → Store → Fields → Bool
  is_control_receipt p s receipt =
      is_text p.control.operation (at "operationId" receipt)
      && same_json (bool true) (at "committed" receipt)
      && is_text p.old_principal (at "oldPrincipal" receipt)
      && is_text s.device (at "principal" receipt)
      && is_text s.key_id (at "keyFingerprint" receipt)
      && same_json (num 0) (at "keyGeneration" receipt)

  unfoldable pub record_control : Bool → Fields → DeviceAction Report
  unfolding load save status
  record_control authenticated receipt = do
    plan ← load
    raise_if (not (is_some plan.control.name)) control_fence_not_required
    d ← gets (λ d. d)
    raise_if (not (is_control_receipt plan d.store receipt)) invalid_operation_receipt
    save (record plan { control = record plan.control { status = committed } })
    status authenticated

  abbrev pub is_archive : Plan → Option Tombstone → Bool
  is_archive p none = false
  is_archive p (some t) = t.principal == p.old_principal && t.generation == p.old_generation

  unfoldable pub activate_plan : Bool → Plan → DeviceAction Report
  activate_plan authenticated plan =
      if is_activated plan.status
      then status authenticated
      else (atomically (
            put_metadata "recovery_activation" (notary.listing (plan.id ∷ plan.old_principal ∷ []))
            >> save (record plan { status = active }))
          >> status authenticated)

  unfoldable pub activate : Bool → Store → DeviceAction Report
  activate authenticated restored = do
    plan ← load
    raise_if (not (is_archive plan (find (λ _. true) restored.tombstones)))
        recovery_archive_mismatch
    raise_if (not (is_none (remaining authenticated plan))) recovery_gates_incomplete
    activate_plan authenticated plan
