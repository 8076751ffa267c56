-- ===== src/Recovery/Commit.antt =====
-- `peer_commit` of session_peer_relay/recovery.py: the fresh device takes a peer's approval.
pub mod Stated
pub mod Pins
mod Tests
use session_peer.Common.{
  ℕ, String, Bool, true, false, Option, none, some, List, [], ◌∷◌, ◌==◌, string_eq, nat_eq, ◌&&◌,
  ◌||◌, not, is_some, leb, if◌then◌else◌, ok, rejected, crash, pure, raise, raise_if, gets, modify,
  fail, or_crash, or_reject, ◌>>=◌, ◌>>◌, ◌≡◌, ◌⊎◌, inl, inr, refl, arith, Option-cases,
  Outcome-cases, Bool-cases, >>=-eq-ok, >>=-eq-read, map, eq_refl, eq_iff, ap,
}
use session_peer.Common.Sql.{find, insert, exists, replace, update, find-insert, find-delete_self}
use session_peer.Common.Json.{
  Json, Fields, Items, null, nil, cons, num, str, arr, obj, at, get_or, is_text, is_one_of,
  same_json, has_exactly,
}
use session_peer.Store.State.{Store, Action, Peer, PeerKey, paired, Platform}
use session_peer.Store.Keys.{register_key}
use session_peer.Store.Reasons.{
  Reason, invalid_recovery_approval, recovery_identity_mismatch, recovery_peer_mismatch,
  invalid_recovery_proof, invalid_recovery_routes, recovery_generation_required,
  recovery_generation_conflict, invalid_recovery_capabilities,
}
use session_peer.Recovery.State.{Plan, PlanPeer, Device, DeviceAction, committed, Report}
use session_peer.Recovery.Status.{load, save, status, atomically, is_committed}
use session_peer.Recovery.Routes.{Keeper, are_routes, is_verified}
use session_peer.Recovery.Approve.{without, as_text}

abbrev pub response_keys : List String
response_keys =
    "schemaVersion" ∷ "recoveryId" ∷ "operationId" ∷ "oldPrincipal" ∷ "newPrincipal"
    ∷ "peerPrincipal" ∷ "certificate" ∷ "routes" ∷ "capabilities" ∷ "requestHash" ∷ "proof" ∷ []

-- version 2 carries the generation
abbrev pub is_response : Fields → Bool
is_response d = elim (at "schemaVersion" d) [
  | num n ↦
      n == 1 && has_exactly response_keys d
      || n == 2 && has_exactly ("peerGeneration" ∷ response_keys) d
  | _ ↦ false
]

abbrev pub is_for_plan : Plan → Store → Fields → Bool
is_for_plan p s d =
    is_text p.id (at "recoveryId" d)
    && is_text p.old_principal (at "oldPrincipal" d)
    && is_text s.device (at "newPrincipal" d)

abbrev pub is_for_peer : PlanPeer → Fields → Bool
is_for_peer item d =
    is_text item.operation (at "operationId" d) && is_text item.certificate (at "certificate" d)

-- `next((x for x in plan["peers"] if x["principal"] == response["peerPrincipal"]), None)`
abbrev pub peer_of : Plan → Fields → Option PlanPeer
peer_of p d = find (λ x. is_text x.principal (at "peerPrincipal" d)) p.peers

abbrev pub optional_number : Option ℕ → Json
optional_number none = null
optional_number (some n) = num n

abbrev pub is_null : Json → Bool
is_null null = true
is_null _ = false

-- a whole number that a double holds
abbrev pub exact : Json → Option ℕ
exact (num n) = if leb n 9007199254740991 then some n else none
exact _ = none

-- agrees with the archived pin, if there is one
abbrev pub agrees : Option ℕ → ℕ → Bool
agrees none n = true
agrees (some k) n = n == k

abbrev pub is_capability : Json → Bool
is_capability v = is_one_of ("list" ∷ "send" ∷ []) v

abbrev pub capabilities_in : Items → Option (List String)
capabilities_in nil = some []
capabilities_in (cons (str s) l) =
    if is_capability (str s)
    then elim (capabilities_in l) [ none ↦ none | some cs ↦ some (s ∷ cs) ]
    else none
capabilities_in (cons _ l) = none

-- a list of "list" and "send"
abbrev pub capabilities_of : Json → Option (List String)
capabilities_of (arr l) = capabilities_in l
capabilities_of _ = none

unfoldable pub on_device : {A : Type 0} → Action A → DeviceAction A
on_device m d = let (r, s) = m d.store in (r, record d { store = s })

-- the principals of a plan are those of the rows of `peers`, so that they are distinct
abbrev pub with_committed : String → Plan → Plan
with_committed principal p = record p {
  peers = update (λ x. x.principal == principal) (λ x. record x { status = committed }) p.peers;
}

module _ (platform : Platform) (keeper : Keeper) where
  abbrev pub is_own_key : PlanPeer → Bool
  is_own_key item = elim (platform.fingerprint item.certificate) [
    | none ↦ false
    | some key ↦ key == item.principal
  ]

  -- the generation that the response states, or else the archived one, or else that of a principal that is
  -- its certificate's own
  abbrev pub generation_of : PlanPeer → Fields → Json
  generation_of item d =
      let stated = get_or "peerGeneration" (optional_number item.generation) d in
      if is_null stated && is_own_key item then num 0 else stated

  unfoldable pub pinned_generation : PlanPeer → Fields → DeviceAction ℕ
  pinned_generation item d = do
    n ← or_reject (exact (generation_of item d)) recovery_generation_required
    raise_if (not (agrees item.generation n)) recovery_generation_conflict
    pure n

  abbrev pub has_generation : PlanPeer → ℕ → Store → Bool
  has_generation item n s = elim (platform.fingerprint item.certificate) [
    | none ↦ false
    | some key ↦
        elim (find (λ k. k.principal == item.principal && k.fingerprint == key) s.peer_keys) [
          | none ↦ false
          | some k ↦ k.generation == n
        ]
  ]

  unfoldable pub read_response : Plan → Fields → DeviceAction PlanPeer
  read_response plan d = do
    s ← gets (λ v. v.store)
    raise_if (not (is_for_plan plan s d)) recovery_identity_mismatch
    item ← or_reject (peer_of plan d) recovery_peer_mismatch
    raise_if (not (is_for_peer item d)) recovery_peer_mismatch
    raise_if (not (is_verified keeper item.certificate (without "proof" d) (at "proof" d)))
        invalid_recovery_proof
    pure item

  abbrev pub peer_row : PlanPeer → Json → List String → Peer
  peer_row item routes capabilities = record {
    id = item.principal;
    cert = item.certificate;
    status = paired;
    expires = 0;
    routes = routes;
    capabilities = capabilities;
  }

  abbrev pub put_peer : Peer → Action Unit
  put_peer p s = (ok tt, record s { peers = replace (λ q. q.id == p.id) p s.peers })

  unfoldable pub commit_new : Plan → PlanPeer → ℕ → Fields → DeviceAction Unit
  commit_new plan item n d = do
    raise_if (not (are_routes keeper (at "routes" d))) invalid_recovery_routes
    capabilities ← or_reject (capabilities_of (at "capabilities" d)) invalid_recovery_capabilities
    atomically (
        on_device (
          register_key platform item.principal item.certificate (num n)
          >> put_peer (peer_row item (at "routes" d) capabilities))
        >> save (with_committed item.principal plan))

  -- what is committed already is only looked at
  unfoldable pub commit_item : Plan → PlanPeer → ℕ → Fields → DeviceAction Unit
  commit_item plan item n d v =
      if is_committed item.status
      then raise_if (not (has_generation item n v.store)) recovery_generation_conflict v
      else commit_new plan item n d v

  unfoldable pub commit_response : Plan → Fields → DeviceAction Unit
  commit_response plan d = do
    item ← read_response plan d
    n ← pinned_generation item d
    commit_item plan item n d

  unfoldable pub peer_commit_fields : Bool → Fields → DeviceAction Report
  peer_commit_fields authenticated d = do
    raise_if (not (is_response d)) invalid_recovery_approval
    plan ← load
    commit_response plan d
    status authenticated

  unfoldable pub peer_commit : Bool → Json → DeviceAction Report
  peer_commit authenticated (obj d) = peer_commit_fields authenticated d
  peer_commit authenticated _ = raise invalid_recovery_approval
