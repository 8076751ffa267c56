-- ===== src/Recovery/Approve.antt =====
-- `peer_request` and `peer_approve` of session_peer_relay/recovery.py: a peer gives the trust in a lost identity to the
-- fresh one.
use session_peer.Common.{
  fail, String, Bool, Option, none, some, List, [], ◌∷◌, ◌==◌, string_eq, nat_eq, ◌&&◌, ◌||◌, not,
  is_some, if◌then◌else◌, Exec, ok, rejected, crash, pure, raise, raise_if, gets, modify, or_crash,
  or_reject, ◌>>=◌, ◌>>◌,
}
use session_peer.Common.Sql.{find, insert}
use session_peer.Common.Json.{
  Json, Fields, Items, nil, cons, num, str, arr, obj, end, field, dict, put, at, is_text, same_json,
  has_exactly,
}
use session_peer.Store.State.{
  Store, Action, Peer, paired, Platform, recovery_required, is_paired, is_revoked_peer,
}
use session_peer.Store.Keys.{find_peer, revoke, register_key}
use session_peer.Store.Reasons.{
  Reason, recovery_peer_not_found, invalid_recovery_routes, invalid_recovery_request,
  recovery_identity_mismatch, invalid_recovery_proof, old_identity_not_paired,
  new_identity_already_known, invalid_operation_id, recovery_operation_conflict,
}
use session_peer.Recovery.State.{Plan, PlanPeer, DeviceAction, Notary}
use session_peer.Recovery.Status.{load}
use session_peer.Recovery.Routes.{Keeper, are_routes, is_verified}

-- a row of `recovery_approvals`; its response is held as the value that it stands for
pub record Approval : Type 0 where
  pub id : String
  pub hash : String
  pub old_peer : String
  pub new_peer : String
  pub response : Fields

-- the peer that approves: its tables
pub record Approver : Type 0 where
  pub store : Store
  pub approvals : List Approval

abbrev pub ApproverAction : Type 0 → Type 0
ApproverAction A = Exec Reason Approver A

-- a method of the store
unfoldable pub on_store : {A : Type 0} → Action A → ApproverAction A
on_store m d = let (r, s) = m d.store in (r, record d { store = s })

-- `BEGIN IMMEDIATE`, with `COMMIT` at the end and `ROLLBACK` on any exception
unfoldable pub in_transaction : {A : Type 0} → ApproverAction A → ApproverAction A
in_transaction m d =
    let (r, d') = m d in
    elim r [ ok a ↦ (ok a, d') | rejected e ↦ (rejected e, d) | crash ↦ (crash, d) ]

abbrev pub text_items : List String → Items
text_items [] = nil
text_items (t ∷ ts) = cons (str t) (text_items ts)

-- `{k: d[k] for k in d if k != key}`
abbrev pub without : String → Fields → Fields
without key end = end
without key (field k v d) = if k == key then without key d else field k v (without key d)

abbrev pub as_text : Json → Option String
as_text (str s) = some s
as_text _ = none

abbrev pub request_keys : List String
request_keys =
    "schemaVersion" ∷ "recoveryId" ∷ "operationId" ∷ "oldPrincipal" ∷ "newPrincipal" ∷ "certificate"
    ∷ "expectedPeer" ∷ "routes" ∷ "peerRoutes" ∷ "proof" ∷ []

abbrev pub is_request : Fields → Bool
is_request d = has_exactly request_keys d && same_json (num 1) (at "schemaVersion" d)

-- the texts of a request
pub record Claim : Type 0 where
  pub recovery : String
  pub operation : String
  pub old : String
  pub fresh : String
  pub certificate : String

module _ (platform : Platform) (notary : Notary) (keeper : Keeper) where
  abbrev pub request_payload : Plan → PlanPeer → Store → String → Json → Fields
  request_payload plan item s peer routes = dict (
      ("schemaVersion", num 1)
      ∷ ("recoveryId", str plan.id)
      ∷ ("operationId", str item.operation)
      ∷ ("oldPrincipal", str plan.old_principal)
      ∷ ("newPrincipal", str s.device)
      ∷ ("certificate", str s.cert)
      ∷ ("expectedPeer", str peer)
      ∷ ("routes", routes)
      ∷ ("peerRoutes", item.routes)
      ∷ [])

  unfoldable pub peer_request : String → Json → DeviceAction Fields
  peer_request peer routes = do
    plan ← load
    item ← or_reject (find (λ p. p.principal == peer) plan.peers) recovery_peer_not_found
    raise_if (not (are_routes keeper routes)) invalid_recovery_routes
    raise_if (not (are_routes keeper item.routes)) invalid_recovery_routes
    d ← gets (λ d. d)
    let payload = request_payload plan item d.store peer routes
    pure (put "proof" (str (keeper.sign payload)) payload)

  -- the operation is the one that the recovery has for this peer; a peer that is no text raises `TypeError`
  unfoldable pub check_operation : Fields → ApproverAction String
  check_operation d = do
    recovery ← or_reject (as_text (at "recoveryId" d)) invalid_operation_id
    raise_if (not (platform.is_uuid4 recovery)) invalid_operation_id
    expected ← or_crash (as_text (at "expectedPeer" d))
    raise_if (not (is_text (notary.derived recovery expected) (at "operationId" d)))
        invalid_operation_id
    pure recovery

  -- the request is for this device, and its certificate is the new identity's
  unfoldable pub check_identity : Fields → ApproverAction String
  check_identity d = do
    s ← gets (λ a. a.store)
    raise_if (not (is_text s.device (at "expectedPeer" d))) recovery_identity_mismatch
    cert ← or_crash (as_text (at "certificate" d))
    key ← or_crash (platform.fingerprint cert)
    raise_if (not (is_text key (at "newPrincipal" d))) recovery_identity_mismatch
    pure cert

  -- an entry of the request that is known to be a text, or is checked by `check_old`
  abbrev pub text_at : String → Fields → String
  text_at key d = elim (as_text (at key d)) [ none ↦ "" | some t ↦ t ]

  unfoldable pub check_request : Fields → ApproverAction Claim
  check_request d = do
    raise_if (not (is_request d)) invalid_recovery_request
    gap ← gets (λ a. recovery_required a.store)
    raise_if gap Reason.recovery_required
    recovery ← check_operation d
    cert ← check_identity d
    raise_if (not (are_routes keeper (at "routes" d))) invalid_recovery_routes
    raise_if (not (are_routes keeper (at "peerRoutes" d))) invalid_recovery_routes
    raise_if (not (is_verified keeper cert (without "proof" d) (at "proof" d)))
        invalid_recovery_proof
    pure (record {
      recovery = recovery;
      operation = text_at "operationId" d;
      old = text_at "oldPrincipal" d;
      fresh = text_at "newPrincipal" d;
      certificate = cert;
    })

  abbrev pub response_payload : Claim → Fields → Store → Peer → String → Fields
  response_payload c d s old digest = dict (
      ("schemaVersion", num 2)
      ∷ ("recoveryId", str c.recovery)
      ∷ ("operationId", str c.operation)
      ∷ ("oldPrincipal", str c.old)
      ∷ ("newPrincipal", str c.fresh)
      ∷ ("peerPrincipal", str s.device)
      ∷ ("certificate", str s.cert)
      ∷ ("peerGeneration", num s.generation)
      ∷ ("routes", at "peerRoutes" d)
      ∷ ("capabilities", arr (text_items old.capabilities))
      ∷ ("requestHash", str digest)
      ∷ [])

  -- `INSERT INTO peers`, which crashes on a second row of the identifier
  abbrev pub add_peer : Peer → Action Unit
  add_peer p s =
      if is_some (find_peer p.id s)
      then (crash, s)
      else (ok tt, record s { peers = insert p s.peers })

  abbrev pub successor : Claim → Json → Peer → Peer
  successor c routes old = record {
    id = c.fresh;
    cert = c.certificate;
    status = paired;
    expires = 0;
    routes = routes;
    capabilities = old.capabilities;
  }

  unfoldable pub hand_trust : Claim → Json → Peer → Action Unit
  hand_trust c routes old =
      revoke c.old
      >> register_key platform c.fresh c.certificate (num 0)
      >> add_peer (successor c routes old)

  -- the database is asked for the old identity: it takes no list and no dictionary, and what is no text is nobody
  unfoldable pub check_old : Json → ApproverAction Unit
  check_old (str _) = pure tt
  check_old (arr _) = fail
  check_old (obj _) = fail
  check_old _ = raise old_identity_not_paired

  unfoldable pub approve_new : Claim → Fields → String → ApproverAction Fields
  approve_new c d digest = do
    check_old (at "oldPrincipal" d)
    s ← gets (λ a. a.store)
    old ← or_reject (find_peer c.old s) old_identity_not_paired
    raise_if (not (is_paired old.status || is_revoked_peer old.status)) old_identity_not_paired
    raise_if (is_some (find_peer c.fresh s)) new_identity_already_known
    let payload = response_payload c d s old digest
    let response = put "proof" (str (keeper.sign payload)) payload
    in_transaction (
        on_store (hand_trust c (at "routes" d) old)
        >> modify (λ a. record a {
          approvals =
              insert
                (record {
                  id = c.operation;
                  hash = digest;
                  old_peer = c.old;
                  new_peer = c.fresh;
                  response = response;
                })
                a.approvals;
        }))
    pure response

  unfoldable pub peer_approve_request : Fields → ApproverAction Fields
  peer_approve_request d = do
    c ← check_request d
    let digest = platform.sha256 (platform.canonical (without "proof" d))
    prior ← gets (λ a. find (λ r. r.id == c.operation) a.approvals)
    elim prior [
      | some r ↦ raise_if (not (r.hash == digest)) recovery_operation_conflict >> pure r.response
      | none ↦ approve_new c d digest
    ]

  unfoldable pub peer_approve : Json → ApproverAction Fields
  peer_approve (obj d) = peer_approve_request d
  peer_approve _ = raise invalid_recovery_request
