-- ===== src/Recovery/Commit/Tests.antt =====
-- Runs of `peer_approve` and `peer_commit` of session_peer_relay/recovery.py: a peer that knows a lost device approves
-- the fresh one, and a fresh device takes an approval.
use session_peer.Common.{
  ◌⊎◌, ℕ, String, Bool, true, false, Option, none, some, List, [], ◌∷◌, ◌≡◌, ◌⊎◌, refl, ok,
}
use session_peer.Common.Sql.{find, insert}
use session_peer.Common.Json.{Json, Fields, str, num, obj, dict, put}
use session_peer.Store.State.{paired, PeerStatus, Store, Peer}
use session_peer.Store.Keys.{find_peer}
use session_peer.Store.Samples.{platform, key_a, key_b, empty, laptop, with_laptop}
use session_peer.Recovery.State.{Plan, PlanStatus, PlanPeer, Progress, Device, Notary}
use session_peer.Recovery.Status.{report}
use session_peer.Recovery.Routes.{Url, Keeper}
use session_peer.Recovery.Approve.{
  Approver, Claim, check_request, peer_approve, response_payload, without,
}
use session_peer.Recovery.Successor.{Moved}
use session_peer.Recovery.Requested.{peer_approve_moves, IsProven}
use session_peer.Recovery.Approvals.{peer_approve_again}
use session_peer.Recovery.Commit.{peer_commit, with_committed}
use session_peer.Recovery.Commit.Pins.{peer_commit_pins, Pinned}

abbrev key_c : String
key_c = "cccccccccccccccccccccccccccccccccccccccccccccccccccccccccccccccc"

abbrev notary : Notary
notary = record { derived = λ ident label. label; listing = λ texts. "listing" }

abbrev proof : String
proof = "pppppppppppppppppppppppppppppppppppppppppppppppppppppppppppppppppppppppppppppppp"

abbrev url : Url
url = record {
  scheme = "tcp";
  hostname = some "host";
  port = some 7000;
  username = none;
  password = none;
  path = "";
  query = "";
  fragment = "";
}

abbrev keeper : Keeper
keeper = record { split = λ text. some url; sign = λ d. proof; verified = λ cert d text. true }

abbrev routes : Json
routes = obj (dict (("direct", str "host:7000") ∷ []))

abbrev approver : Approver
approver = record { store = with_laptop; approvals = [] }

abbrev request : Fields
request = dict (
    ("schemaVersion", num 1)
    ∷ ("recoveryId", str "r1")
    ∷ ("operationId", str key_b)
    ∷ ("oldPrincipal", str key_a)
    ∷ ("newPrincipal", str key_c)
    ∷ ("certificate", str key_c)
    ∷ ("expectedPeer", str key_b)
    ∷ ("routes", routes)
    ∷ ("peerRoutes", routes)
    ∷ ("proof", str proof)
    ∷ [])

abbrev claim : Claim
claim = record {
  recovery = "r1";
  operation = key_b;
  old = key_a;
  fresh = key_c;
  certificate = key_c;
}

abbrev payload : Fields
payload = response_payload platform notary keeper claim request with_laptop laptop "proposal"

abbrev response : Fields
response = put "proof" (str proof) payload

abbrev approved : Approver
approved = (peer_approve platform notary keeper (obj request) approver).1

approved_once : peer_approve platform notary keeper (obj request) approver ≡ (ok response, approved)
unfolding peer_approve session_peer.Recovery.Approve.check_old
    session_peer.Recovery.Approve.peer_approve_request check_request
    session_peer.Store.State.recovery_required session_peer.Recovery.Approve.check_operation
    session_peer.Recovery.Approve.check_identity session_peer.Recovery.Approve.approve_new
    session_peer.Recovery.Approve.in_transaction session_peer.Recovery.Approve.on_store
    session_peer.Recovery.Approve.hand_trust session_peer.Store.Keys.revoke
    session_peer.Common.Sql.update session_peer.Recovery.Routes.are_routes
    session_peer.Recovery.Routes.is_verified session_peer.Store.Keys.register_key
    session_peer.Common.Text.is_hex64 find
approved_once = refl

peer_approve_moves_example :
    (c : Claim) × IsProven platform notary keeper with_laptop request c
    × (str key_a ≡ str c.old)
    × (old : Peer) × (find_peer c.old with_laptop ≡ some old)
    × ((old.status ≡ paired) ⊎ (old.status ≡ PeerStatus.revoked))
    × Moved platform notary keeper c routes old with_laptop approved.store
    × (approved.approvals
        ≡ insert
            (record {
              id = key_b;
              hash = "proposal";
              old_peer = c.old;
              new_peer = c.fresh;
              response = response;
            })
            [])
unfolding find
peer_approve_moves_example =
    peer_approve_moves platform notary keeper request key_b approver approved response refl refl
      approved_once

approved_twice :
    peer_approve platform notary keeper (obj request) approved ≡ (ok response, approved)
approved_twice =
    peer_approve_again platform notary keeper request approver approved response approved_once

abbrev item : PlanPeer
item = record {
  principal = key_b;
  certificate = key_b;
  routes = routes;
  generation = some 0;
  capabilities = "send" ∷ [];
  operation = key_b;
  status = Progress.pending;
}

abbrev plan : Plan
plan = record {
  id = "r1";
  status = PlanStatus.pending;
  old_principal = key_a;
  old_generation = 0;
  snapshot = 1700000000;
  new_principal = key_c;
  control = record { name = none; operation = "r1"; status = Progress.pending };
  peers = item ∷ [];
  native_effects = [];
  outgoing_receipts = [];
  operations = [];
}

abbrev device : Device
device = record {
  store = record empty { device = key_c; cert = key_c; key_id = key_c };
  plan = some plan;
}

abbrev committed : Device
committed = (peer_commit platform keeper true (obj response) device).1

committed_once :
    peer_commit platform keeper true (obj response) device
    ≡ (ok (report true (with_committed key_b plan)), committed)
unfolding peer_commit session_peer.Recovery.Commit.peer_commit_fields
    session_peer.Recovery.Status.load session_peer.Recovery.Commit.commit_response
    session_peer.Recovery.Commit.read_response session_peer.Recovery.Commit.pinned_generation
    session_peer.Recovery.Commit.commit_item session_peer.Recovery.Commit.commit_new
    session_peer.Recovery.Status.atomically session_peer.Recovery.Commit.on_device
    session_peer.Recovery.Status.save session_peer.Recovery.Status.status
    session_peer.Common.Sql.delete session_peer.Common.Sql.update
    session_peer.Recovery.Status.remaining session_peer.Recovery.Routes.are_routes
    session_peer.Recovery.Routes.is_verified session_peer.Store.Keys.register_key
    session_peer.Common.Text.is_hex64 find
committed_once = refl

peer_commit_pins_example :
    (p : Plan) × (some plan ≡ some p) × Pinned platform keeper p response device committed
peer_commit_pins_example =
    peer_commit_pins platform keeper true response device committed
      (report true (with_committed key_b plan)) committed_once
