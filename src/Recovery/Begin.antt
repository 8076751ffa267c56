-- ===== src/Recovery/Begin.antt =====
-- `begin` of session_peer_relay/recovery.py: the plan of a recovery from a restored state.
use session_peer.Common.{
  ℕ, String, Bool, true, false, Option, none, some, List, [], ◌∷◌, ◌==◌, string_eq, nat_eq, ◌&&◌,
  ◌||◌, not, if◌then◌else◌, map, raise_if, gets, or_crash, or_reject, ◌>>=◌, ◌>>◌,
}
use Prim.Native.Nat.{Ordering}
use Prim.Native.String.{compare}
use session_peer.Common.Sql.{find, exists}
use session_peer.Common.Json.{Fields, get_or, at, bool, is_false, is_true, is_text, is_one_of}
use session_peer.Store.State.{
  Store, Peer, Request, RequestStatus, done, Tombstone, Platform, recovery_required, is_paired,
}
use session_peer.Store.Reasons.{
  restored_state_required, recovery_tombstone_required, recovery_operation_conflict,
  fresh_state_required,
}
use session_peer.Recovery.State.{
  Classification, already_processed, not_processed, unknown, Effect, pending, PlanPeer, PlanStatus,
  Control, Plan, DeviceAction, Notary, Report,
}
use session_peer.Recovery.Status.{status, save, atomically, add_metadata, metadata_of, check_uuid}

-- `_native_classification` of a result that has been read
abbrev classify_result : Fields → Classification
classify_result d =
    if is_text "refused" (at "status" d)
      && is_false (at "ok" d)
      && is_false (get_or "submitted" (bool false) d)
      && is_false (get_or "consumptionConfirmed" (bool false) d)
    then not_processed
    else if is_one_of ("submitted" ∷ "queued" ∷ "posted" ∷ []) (at "status" d)
        && is_true (at "ok" d)
        && is_true (get_or "submitted" (bool true) d)
    then already_processed
    else unknown

unfoldable pub native_classification : RequestStatus → Option Fields → Classification
native_classification done (some d) = classify_result d
native_classification _ _ = unknown

-- `ORDER BY`, on a key that is a text
abbrev precedes : String → String → Bool
precedes a b = elim (compare a b) [ Ordering.gt ↦ false | _ ↦ true ]

abbrev pub place {ℓ} : {A : Type ℓ} → (A → A → Bool) → A → List A → List A
place before a [] = a ∷ []
place before a (b ∷ bs) = if before a b then a ∷ b ∷ bs else b ∷ place before a bs

abbrev pub order_by {ℓ} : {A : Type ℓ} → (A → A → Bool) → List A → List A
order_by before [] = []
order_by before (a ∷ as_) = place before a (order_by before as_)

abbrev pub by_peer : Peer → Peer → Bool
by_peer p q = precedes p.id q.id

abbrev pub by_request : Request → Request → Bool
by_request r q = if r.peer == q.peer then precedes r.id q.id else precedes r.peer q.peer

abbrev pub as_effect : Request → Effect
as_effect r = record {
  peer = r.peer;
  request = r.id;
  classification = native_classification r.status r.result;
}

-- the rows of a plan's metadata: `_canonical({'planId': …, 'oldPrincipal': …})` is its listing here
module _ (platform : Platform) (notary : Notary) where
  abbrev key_generation : Store → Peer → String → Option ℕ
  key_generation restored p key =
      elim (find (λ k. k.principal == p.id && k.fingerprint == key) restored.peer_keys) [
        | none ↦ none
        | some k ↦ some k.generation
      ]

  abbrev plan_peer : String → Store → Peer → String → PlanPeer
  plan_peer operation restored p key = record {
    principal = p.id;
    certificate = p.cert;
    routes = p.routes;
    generation = key_generation restored p key;
    capabilities = p.capabilities;
    operation = notary.derived operation p.id;
    status = pending;
  }

  -- `for … in restored.db.execute('SELECT … FROM peers ORDER BY id')`; `fingerprint` raises for what is no
  -- certificate.
  unfoldable pub plan_peers : String → Store → List Peer → Option (List PlanPeer)
  plan_peers operation restored [] = some []
  plan_peers operation restored (p ∷ ps) =
      let rest = plan_peers operation restored ps in
      if is_paired p.status
      then elim (platform.fingerprint p.cert) [
        | none ↦ none
        | some key ↦ elim rest [
          | none ↦ none
          | some qs ↦ some (plan_peer operation restored p key ∷ qs)
        ]
      ]
      else rest

  abbrev pub effects_of : Store → List Effect
  effects_of restored = map as_effect (order_by by_request restored.requests)

  abbrev control_of : String → Store → Control
  control_of operation restored = record {
    name = elim (metadata_of "control_name" restored) [ none ↦ none | some m ↦ some m.value ];
    operation = operation;
    status = pending;
  }

  abbrev pub new_plan : String → Store → Tombstone → String → List PlanPeer → Plan
  new_plan operation restored tombstone fresh peers = record {
    id = operation;
    status = PlanStatus.pending;
    old_principal = tombstone.principal;
    old_generation = tombstone.generation;
    snapshot = tombstone.snapshot;
    new_principal = fresh;
    control = control_of operation restored;
    peers = peers;
    native_effects = effects_of restored;
    outgoing_receipts = [];
    operations = [];
  }

  unfoldable pub begin_new : Bool → String → Store → Tombstone → DeviceAction Report
  begin_new authenticated operation restored tombstone = do
    d ← gets (λ d. d)
    raise_if (exists (λ _. true) d.store.peers) fresh_state_required
    peers ← or_crash (plan_peers operation restored (order_by by_peer restored.peers))
    atomically (
        add_metadata "recovery_origin" (notary.listing (operation ∷ tombstone.principal ∷ []))
        >> save (new_plan operation restored tombstone d.store.device peers))
    status authenticated

  unfoldable pub begin_again : Bool → String → Tombstone → Plan → DeviceAction Report
  unfolding status
  begin_again authenticated operation tombstone plan =
      raise_if (not (plan.id == operation) || not (plan.old_principal == tombstone.principal))
        recovery_operation_conflict
      >> status authenticated

  unfoldable pub begin : Bool → Store → String → DeviceAction Report
  begin authenticated restored operation = do
    check_uuid platform operation
    raise_if (not (recovery_required restored)) restored_state_required
    tombstone ← or_reject (find (λ _. true) restored.tombstones) recovery_tombstone_required
    d ← gets (λ d. d)
    elim d.plan [
      | some plan ↦ begin_again authenticated operation tombstone plan
      | none ↦ begin_new authenticated operation restored tombstone
    ]
