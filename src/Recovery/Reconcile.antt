-- ===== src/Recovery/Reconcile.antt =====
-- `reconcile` of session_peer_relay/recovery.py.
use session_peer.Common.{
  String, Bool, true, false, none, some, List, [], ◌∷◌, ◌==◌, string_eq, nat_eq, ◌&&◌, not,
  if◌then◌else◌, raise_if, ◌>>=◌, ◌>>◌,
}
use session_peer.Common.Sql.{find, insert, exists, update}
use session_peer.Common.Text.{is_hex64}
use session_peer.Store.State.{Platform}
use session_peer.Store.Reasons.{
  recovery_operation_conflict, native_effect_not_found, invalid_principal,
}
use session_peer.Recovery.State.{
  Classification, already_processed, not_processed, unknown, Effect, Operation, Plan, DeviceAction,
  Notary, Report,
}
use session_peer.Recovery.Status.{load, status, save, check_uuid}

module _ (platform : Platform) (notary : Notary) where
  abbrev classification_text : Classification → String
  classification_text already_processed = "already_processed"
  classification_text not_processed = "not_processed"
  classification_text unknown = "unknown"

  abbrev pub direction_text : Bool → String
  direction_text true = "native"
  direction_text false = "outgoing"

  abbrev pub is_effect : String → String → Effect → Bool
  is_effect peer request e = e.peer == peer && e.request == request

  abbrev pub digest_of : Bool → String → String → Classification → String
  digest_of is_native peer request c =
      platform.sha256
        (notary.listing (direction_text is_native ∷ peer ∷ request ∷ classification_text c ∷ []))

  -- the effects once one of them is classified; an outgoing one may be new
  abbrev pub classified : String → String → Classification → List Effect → List Effect
  classified peer request c es =
      if exists (is_effect peer request) es
      then update (is_effect peer request) (λ e. record e { classification = c }) es
      else insert (record { peer = peer; request = request; classification = c }) es

  abbrev pub reconciled : Bool → String → String → String → Classification → Plan → Plan
  reconciled true operation peer request c p = record p {
    native_effects = classified peer request c p.native_effects;
    operations =
        insert (record { id = operation; digest = digest_of true peer request c }) p.operations;
  }
  reconciled false operation peer request c p = record p {
    outgoing_receipts = classified peer request c p.outgoing_receipts;
    operations =
        insert (record { id = operation; digest = digest_of false peer request c }) p.operations;
  }

  abbrev pub is_operation : String → Operation → Bool
  is_operation operation o = o.id == operation

  unfoldable pub reconcile_new :
      Bool → String → Bool → String → String → Classification → Plan → DeviceAction Report
  unfolding status save
  reconcile_new authenticated operation is_native peer request c plan =
      raise_if (is_native && not (exists (is_effect peer request) plan.native_effects))
        native_effect_not_found
      >> save (reconciled is_native operation peer request c plan)
      >> status authenticated

  -- `direction` is whether it is "native"; the texts that are neither are refused before.
  unfoldable pub reconcile :
      Bool → String → Bool → String → String → Classification → DeviceAction Report
  reconcile authenticated operation is_native peer request c = do
    check_uuid platform operation
    check_uuid platform request
    raise_if (not (is_hex64 peer)) invalid_principal
    plan ← load
    elim (find (is_operation operation) plan.operations) [
      | some previous ↦
          raise_if (not (previous.digest == digest_of is_native peer request c))
            recovery_operation_conflict
          >> status authenticated
      | none ↦ reconcile_new authenticated operation is_native peer request c plan
    ]
